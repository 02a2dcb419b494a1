-- ===== src/Fs/ThreadDir.antt =====
-- The directory of one thread, `JdwpThreadDir` of fs/threads.go.
use jdwpfs.Base.{ℕ, List, [], ◌∷◌, map, none, some, Bytes, codes, text_eq, if◌then◌else◌}
use jdwpfs.Go.Decimal.{format_uint}
use jdwpfs.Fs.Node.{
  Reply, reply, fail, enoent, ebadf, Mode, regular, DirEntry, AttrOut, MemRegularFile,
  mem_regular_file,
}
use jdwpfs.Fs.Debuggee.{Debuggee}
use jdwpfs.Fs.ThreadControl.{ControlFile, new_thread_control_file}

pub record JdwpThreadDir : Type 0 where
  pub thread_id : ℕ

-- The error result is always nil.
unfoldable pub new_jdwp_thread_dir : ℕ → JdwpThreadDir
new_jdwp_thread_dir id = record { thread_id = id }

-- The directory is listed as a regular file.
unfoldable pub get_dir_entry : JdwpThreadDir → DirEntry
get_dir_entry d = record { mode = regular; name = format_uint d.thread_id }

abbrev pub get_attr : JdwpThreadDir → AttrOut → AttrOut
get_attr d out = record out { mode = 0o755 }

unfoldable pub readdir : JdwpThreadDir → List DirEntry
readdir d =
    map (λ name. record { mode = regular; name = name })
      (codes "name" ∷ codes "threadStatus" ∷ codes "suspendStatus" ∷ codes "control" ∷ [])

pub data Child : Type 0 where
  text_file : MemRegularFile → Child
  control : ControlFile → Child

-- `String()` of a thread status and of a suspend status are the library's.
unfoldable pub look_up :
    (thread_status_string suspend_status_string : ℕ → Bytes)
    → Debuggee
    → JdwpThreadDir
    → Bytes
    → Reply (Mode × Child)
look_up thread_status_string suspend_status_string jvm d name =
    if text_eq name (codes "name")
    then elim (jvm.get_thread_name d.thread_id) [
      | none ↦ fail ebadf
      | some s ↦ reply (regular, text_file (mem_regular_file s))
    ]
    else if text_eq name (codes "threadStatus")
    then elim (jvm.get_thread_status d.thread_id) [
      | none ↦ fail ebadf
      | some (status, _) ↦
          reply (regular, text_file (mem_regular_file (thread_status_string status)))
    ]
    else if text_eq name (codes "suspendStatus")
    then elim (jvm.get_thread_status d.thread_id) [
      | none ↦ fail ebadf
      | some (_, status) ↦
          reply (regular, text_file (mem_regular_file (suspend_status_string status)))
    ]
    else if text_eq name (codes "control")
    then reply (regular, control (new_thread_control_file jvm d.thread_id))
    else fail enoent
