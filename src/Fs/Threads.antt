-- ===== src/Fs/Threads.antt =====
-- The directory of all threads, `JdwpThreadMasterDir` of fs/threads.go.
pub mod Laws
use jdwpfs.Base.{ℕ, List, [], ◌∷◌, ◌++◌, map, none, some, Bytes, codes, text_eq, if◌then◌else◌}
use jdwpfs.Go.Decimal.{parse_uint}
use jdwpfs.Fs.Node.{Reply, reply, fail, enoent, efault, Mode, regular, directory, DirEntry, AttrOut}
use jdwpfs.Fs.Debuggee.{Debuggee}
use jdwpfs.Fs.ThreadControl.{ControlFile, new_thread_master_control_file}
use jdwpfs.Fs.ThreadDir.{JdwpThreadDir, new_jdwp_thread_dir, get_dir_entry}

abbrev pub get_attr : AttrOut → AttrOut
get_attr out = record out { mode = 0o755 }

unfoldable pub readdir : Debuggee → Reply (List DirEntry)
readdir jvm = elim jvm.get_all_threads [
  | none ↦ fail efault
  | some ids ↦ reply (
      map (λ id. get_dir_entry (new_jdwp_thread_dir id)) ids
      ++ record { mode = regular; name = codes "control" } ∷ [])
]

pub data Child : Type 0 where
  master_control : ControlFile → Child
  thread_dir : JdwpThreadDir → Child

unfoldable pub look_up : Debuggee → Bytes → Reply (Mode × Child)
look_up jvm name =
    if text_eq name (codes "control")
    then reply (regular, master_control (new_thread_master_control_file jvm))
    else elim (parse_uint name) [
      | none ↦ fail enoent
      | some id ↦ reply (directory, thread_dir (new_jdwp_thread_dir id))
    ]
