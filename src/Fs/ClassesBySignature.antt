-- ===== src/Fs/ClassesBySignature.antt =====
-- fs/classes_by_signature.go: links to the classes by their signatures.
pub mod Laws
use jdwpfs.Base.{ℕ, List, [], ◌∷◌, map, none, some, Bytes, codes, text_eq, ◌==◌, if◌then◌else◌}
use jdwpfs.Go.Decimal.{format_uint}
use jdwpfs.Go.PathEscape.{path_escape, path_unescape}
use jdwpfs.Go.Filepath.{join_path}
use jdwpfs.Fs.Node.{
  Reply, reply, fail, ebadf, efault, link, DirEntry, AttrOut, MemSymlink, mem_symlink,
}
use jdwpfs.Fs.Debuggee.{Debuggee, ClassInfo}

pub record JdwpClassNamedMasterDir : Type 0 where
  pub absolute_mountpoint : Bytes

-- The error result is always nil.
unfoldable pub new_jdwp_class_named_master_dir : Bytes → JdwpClassNamedMasterDir
new_jdwp_class_named_master_dir mountpoint = record { absolute_mountpoint = mountpoint }

abbrev pub get_attr : JdwpClassNamedMasterDir → AttrOut → AttrOut
get_attr d out = record out { mode = 0o755 }

unfoldable pub readdir : Debuggee → Reply (List DirEntry)
readdir jvm = elim jvm.get_all_classes [
  | none ↦ fail efault
  | some cs ↦ reply (map (λ c. record { mode = link; name = path_escape c.signature }) cs)
]

-- The loop of `Lookup`, whose variable starts at 0.
unfoldable pub find_class_id : Bytes → ℕ → List ClassInfo → ℕ
find_class_id searched found [] = found
find_class_id searched found (c ∷ cs) =
    find_class_id searched (if text_eq c.signature searched then c.type_id else found) cs

unfoldable pub class_path : JdwpClassNamedMasterDir → ℕ → Bytes
class_path d id = join_path (d.absolute_mountpoint ∷ codes "classes" ∷ format_uint id ∷ [])

unfoldable pub look_up : Debuggee → JdwpClassNamedMasterDir → Bytes → Reply MemSymlink
look_up jvm d name = elim (path_unescape name) [
  | none ↦ fail efault
  | some searched ↦ elim jvm.get_all_classes [
    | none ↦ fail ebadf
    | some cs ↦
        let id = find_class_id searched 0 cs in
        if id == 0 then fail efault else reply (mem_symlink (class_path d id))
  ]
]
