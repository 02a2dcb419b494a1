-- ===== src/Fs/Tree/ClassLinks.antt =====
-- On the links of fs/classes_by_signature.go, walked from the root.
use jdwpfs.Base.{
  map, ℕ, List, [], ◌∷◌, ◌++◌, ◌≤◌, ◌<◌, All, false, some, ◌≡◌, ◌≢◌, refl, ap, ◌∙◌, Bytes, codes,
  text_eq,
}
use jdwpfs.Go.Decimal.{max_u64, format_uint}
use jdwpfs.Go.PathEscape.{path_escape}
use jdwpfs.Go.Filepath.Clean.{IsName, IsAbsolute, join_path-append}
use jdwpfs.Fs.Node.{reply, mem_symlink, mem_regular_file}
use jdwpfs.Fs.Debuggee.{ClassInfo}
use jdwpfs.Fs.Root.{JdwpRootFs, added_children}
use jdwpfs.Fs.ClassInfo.{new_jdwp_class_info_dir}
use jdwpfs.Fs.Classes.Laws as ClassLaws
use jdwpfs.Fs.ClassesBySignature
use jdwpfs.Fs.ClassesBySignature.{class_path, new_jdwp_class_named_master_dir}
use jdwpfs.Fs.ClassesBySignature.Laws.{entry_of, look_up-path_escape}
use jdwpfs.Fs.ClassInfo.Laws.{look_up-signature}
use jdwpfs.Fs.Tree.{
  of_class, View, root, symbolic_link, class_info, text_file, find_child, step, walk, follow, below,
  place,
}
use jdwpfs.Fs.Tree.Follow.{follow-join, format_uint-IsName, behind_slash, behind_slash-IsName}

classes_IsName : IsName (codes "classes")
unfolding behind_slash
classes_IsName = behind_slash-IsName _ _ refl

module _ (v : View) (r : JdwpRootFs) where
  below_classes :
      (id : ℕ)
      → id ≤ max_u64
      → walk v (added_children r) root (codes "classes" ∷ format_uint id ∷ [])
        ≡ some (class_info (new_jdwp_class_info_dir id))
  unfolding walk step find_child below place added_children text_eq
  below_classes id h = rw (walk, ClassLaws.look_up-format_uint id h) refl

  follow-class_path :
      (id : ℕ)
      → id ≤ max_u64
      → IsAbsolute r.absolute_mountpoint
      → follow v
          (added_children r)
          r.absolute_mountpoint
          (class_path (new_jdwp_class_named_master_dir r.absolute_mountpoint) id)
        ≡ some (class_info (new_jdwp_class_info_dir id))
  unfolding class_path new_jdwp_class_named_master_dir
  follow-class_path id h a =
      ap (follow v (added_children r) r.absolute_mountpoint) (
        join_path-append r.absolute_mountpoint (codes "classes") (format_uint id ∷ []) a
          (classes_IsName, (format_uint-IsName id, tt)))
      ∙ follow-join v (added_children r) r.absolute_mountpoint (codes "classes")
          (format_uint id ∷ [])
          (classes_IsName.lacks_slash, ((format_uint-IsName id).lacks_slash, tt))
      ∙ below_classes id h

  signature_shown :
      (before : List ClassInfo) (c : ClassInfo) (behind : List ClassInfo)
      → v.jvm.get_all_classes ≡ some (before ++ c ∷ behind)
      → All (λ k. k.type_id ≢ c.type_id) behind
      → walk v
          (added_children r)
          (class_info (new_jdwp_class_info_dir c.type_id))
          (codes "signature" ∷ [])
        ≡ some (text_file (mem_regular_file c.signature))
  unfolding walk step place of_class
  signature_shown before c behind q last =
      rw (walk, look_up-signature v.sorting v.jvm before c behind q last) refl

  -- Let the mount point be a clean absolute path that is not `/`. For a class that the debugged
  -- process lists, whose identifier is below 2^64 and not 0, and behind which no listed class
  -- has the same signature or identifier, with a signature of bytes, `classes_by_signature`
  -- lists the escaped signatures of all classes, and looks this one up as a link. The path that
  -- it shows, walked from the root name by name, leads to the directory of that class, and the
  -- file `signature` there holds the signature.
  pub follow-class_link :
      (before : List ClassInfo) (c : ClassInfo) (behind : List ClassInfo)
      → v.jvm.get_all_classes ≡ some (before ++ c ∷ behind)
      → c.type_id ≢ 0
      → c.type_id ≤ max_u64
      → All (λ b. b < 256) c.signature
      → All (λ k. text_eq k.signature c.signature ≡ false) behind
      → All (λ k. k.type_id ≢ c.type_id) behind
      → IsAbsolute r.absolute_mountpoint
      → (path : Bytes) × (walk v
            (added_children r)
            root
            (codes "classes_by_signature" ∷ path_escape c.signature ∷ [])
          ≡ some (symbolic_link (mem_symlink path)))
        × (follow v (added_children r) r.absolute_mountpoint path
            ≡ some (class_info (new_jdwp_class_info_dir c.type_id)))
        × (walk v
              (added_children r)
              (class_info (new_jdwp_class_info_dir c.type_id))
              (codes "signature" ∷ [])
            ≡ some (text_file (mem_regular_file c.signature)))
        × (ClassesBySignature.readdir v.jvm ≡ reply (map entry_of (before ++ c ∷ behind)))
  unfolding walk step find_child below place added_children text_eq
  follow-class_link before c behind q nonzero bound bytes last_signature last_id a =
      let found =
        (look_up-path_escape v.jvm (new_jdwp_class_named_master_dir r.absolute_mountpoint) before c
          behind q nonzero bytes last_signature) in
      (
        _,
        rw (walk, found.1) refl,
        follow-class_path c.type_id bound a,
        signature_shown before c behind q last_id,
        found.0,
      )
