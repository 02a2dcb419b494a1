-- ===== src/Tests/Threads.antt =====
-- The theorems on the directories of threads.
use jdwpfs.Base.{
  ℕ, List, [], ◌∷◌, map, none, some, ◌≡◌, refl, arith, Bytes, codes, ◌==◌, if◌then◌else◌,
}
use jdwpfs.Fs.Node.{reply, regular, DirEntry}
use jdwpfs.Fs.Debuggee.{Debuggee}
use jdwpfs.Fs.ThreadControl.{new_thread_master_control_file}
use jdwpfs.Fs.Threads
use jdwpfs.Fs.Threads.Laws.{thread_found, look_up-readdir_threads}

abbrev thread_name : ℕ → Bytes
thread_name id = if id == 3 then codes "gc" else codes "main"

-- Three threads, of which two have the same name.
abbrev process : Debuggee
process = record {
  get_all_threads = some (1 ∷ 12 ∷ 3 ∷ []);
  get_thread_name = λ id. some (thread_name id);
  get_thread_status = λ _. none;
  get_all_classes = none;
  get_methods = λ _. none;
  get_fields = λ _. none;
}

look_up-readdir_threads_example :
    (listing : List DirEntry) × (Threads.readdir process ≡ reply listing)
    × (map (λ e. Threads.look_up process e.name) listing
        ≡ thread_found 1
          ∷ thread_found 12
          ∷ thread_found 3
          ∷ reply (regular, Threads.master_control (new_thread_master_control_file process))
          ∷ [])
look_up-readdir_threads_example =
    look_up-readdir_threads process refl (omega arith, (omega arith, (omega arith, tt)))
