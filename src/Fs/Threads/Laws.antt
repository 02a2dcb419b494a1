-- ===== src/Fs/Threads/Laws.antt =====
-- On `JdwpThreadMasterDir` of fs/threads.go.
use mathlib.Core.Path.{ap₂}
use jdwpfs.Base.{
  ℕ, List, [], ◌∷◌, ◌++◌, ◌≤◌, map, All, false, some, ◌≡◌, refl, arith, Bytes, codes, text_eq,
}
use jdwpfs.Go.Decimal.{max_u64, format_uint}
use jdwpfs.Go.Decimal.RoundTrip.{parse_uint-format_uint, format_uint-IsDigit, IsDigit}
use jdwpfs.Fs.Node.{Reply, reply, Mode, regular, directory, DirEntry}
use jdwpfs.Fs.Debuggee.{Debuggee}
use jdwpfs.Fs.ThreadControl.{new_thread_master_control_file}
use jdwpfs.Fs.ThreadDir.{new_jdwp_thread_dir, get_dir_entry}
use jdwpfs.Fs.Threads.{readdir, look_up, Child, thread_dir, master_control}

digits-ne-control : (s : Bytes) → All IsDigit s → text_eq s (codes "control") ≡ false
unfolding text_eq
digits-ne-control [] h = refl
digits-ne-control (c ∷ s) ((lo, hi), h) = ground arith

abbrev pub thread_found : ℕ → Reply (Mode × Child)
thread_found id = reply (directory, thread_dir (new_jdwp_thread_dir id))

pub look_up-format_uint :
    (jvm : Debuggee) (id : ℕ) → id ≤ max_u64 → look_up jvm (format_uint id) ≡ thread_found id
unfolding look_up
look_up-format_uint jvm id h =
    rw (digits-ne-control _ (format_uint-IsDigit id), parse_uint-format_uint id h) refl

look_up-entries :
    (jvm : Debuggee) (ids : List ℕ)
    → All (λ id. id ≤ max_u64) ids
    → map
        (λ e. look_up jvm e.name)
        (map (λ id. get_dir_entry (new_jdwp_thread_dir id)) ids
          ++ record { mode = regular; name = codes "control" } ∷ [])
      ≡ map thread_found ids
        ++ reply (regular, master_control (new_thread_master_control_file jvm)) ∷ []
unfolding look_up text_eq get_dir_entry new_jdwp_thread_dir
look_up-entries jvm [] h = refl
look_up-entries jvm (id ∷ ids) (hid, h) =
    ap₂ ◌∷◌ (look_up-format_uint jvm id hid) (look_up-entries jvm ids h)

-- If the debugged process lists its threads, with identifiers below 2^64, then `Readdir` of the
-- directory of all threads succeeds, and the `Lookup`s of the listed names give, in order, the
-- directories of these threads and then the control file of all.
pub look_up-readdir_threads :
    (jvm : Debuggee) {ids : List ℕ}
    → jvm.get_all_threads ≡ some ids
    → All (λ id. id ≤ max_u64) ids
    → (listing : List DirEntry) × (readdir jvm ≡ reply listing)
      × (map (λ e. look_up jvm e.name) listing
          ≡ map thread_found ids
            ++ reply (regular, master_control (new_thread_master_control_file jvm)) ∷ [])
unfolding readdir
look_up-readdir_threads jvm {ids} q h = (_, rw q refl, look_up-entries jvm ids h)
