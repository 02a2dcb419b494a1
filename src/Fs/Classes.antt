-- ===== src/Fs/Classes.antt =====
-- fs/classes.go: the directory of all classes.
pub mod Laws
use jdwpfs.Base.{List, map, none, some, Bytes}
use jdwpfs.Go.Decimal.{parse_uint}
use jdwpfs.Fs.Node.{Reply, reply, fail, enoent, efault, Mode, directory, DirEntry, AttrOut}
use jdwpfs.Fs.Debuggee.{Debuggee}
use jdwpfs.Fs.ClassInfo.{JdwpClassInfoDir, new_jdwp_class_info_dir, get_dir_entry}

abbrev pub get_attr : AttrOut → AttrOut
get_attr out = record out { mode = 0o755 }

unfoldable pub readdir : Debuggee → Reply (List DirEntry)
readdir jvm = elim jvm.get_all_classes [
  | none ↦ fail efault
  | some cs ↦ reply (map (λ c. get_dir_entry (new_jdwp_class_info_dir c.type_id)) cs)
]

-- A number is looked up without a question to the process.
unfoldable pub look_up : Bytes → Reply (Mode × JdwpClassInfoDir)
look_up name = elim (parse_uint name) [
  | none ↦ fail enoent
  | some id ↦ reply (directory, new_jdwp_class_info_dir id)
]
