-- ===== src/Fs/Members.antt =====
-- The directories of the methods and of the fields of a class, of fs/class_info.go, in what they
-- have in common: `get` is `GetMethods` or `GetFields`.
pub mod Laws
use jdwpfs.Base.{
  ℕ, List, [], ◌∷◌, map, Option, none, some, Bytes, codes, text_eq, last_match, ◌==◌, if◌then◌else◌,
}
use jdwpfs.Go.Decimal.{format_uint, parse_uint}
use jdwpfs.Fs.Node.{
  Reply, reply, fail, enoent, efault, Mode, regular, directory, DirEntry, MemRegularFile,
  mem_regular_file,
}
use jdwpfs.Fs.Debuggee.{Debuggee, Member}

-- The loops that look for an identifier: the last match wins.
unfoldable pub member_with_id : ℕ → List Member → Option Member
member_with_id id = last_match (λ m. m.id == id) none

-- `ClassMethodDir` and `ClassFieldDir`.
pub record MemberDir : Type 0 where
  pub type_id : ℕ
  pub member_id : ℕ

-- `NewClassMethodDir` and `NewClassFieldDir`, whose error result is always nil.
unfoldable pub new_member_dir : ℕ → ℕ → MemberDir
new_member_dir type_id member_id = record { type_id = type_id; member_id = member_id }

module _ (get : ℕ → Option (List Member)) where
  -- `Readdir` of all methods or fields of a class.
  unfoldable pub readdir_members : ℕ → Reply (List DirEntry)
  readdir_members type_id = elim (get type_id) [
    | none ↦ fail efault
    | some ms ↦ reply (map (λ m. record { mode = directory; name = format_uint m.id }) ms)
  ]

  dir_of : ℕ → Option Member → Reply (Mode × MemberDir)
  dir_of type_id none = fail enoent
  dir_of type_id (some m) = reply (directory, new_member_dir type_id m.id)

  -- `Lookup` among all methods or fields of a class.
  unfoldable pub look_up_members : ℕ → Bytes → Reply (Mode × MemberDir)
  unfolding dir_of
  look_up_members type_id name = elim (parse_uint name) [
    | none ↦ fail enoent
    | some id ↦ elim (get type_id) [
      | none ↦ fail efault
      | some ms ↦ dir_of type_id (member_with_id id ms)
    ]
  ]

  -- The switch on the name behind the search.
  text_of : Member → Bytes → Reply (Mode × MemRegularFile)
  text_of m name =
      if text_eq name (codes "name")
      then reply (regular, mem_regular_file m.name)
      else if text_eq name (codes "signature")
      then reply (regular, mem_regular_file m.signature)
      else if text_eq name (codes "modifiers")
      then reply (regular, mem_regular_file m.mod_bits)
      else fail enoent

  texts : Bytes → Option Member → Reply (Mode × MemRegularFile)
  unfolding text_of
  texts name none = fail efault
  texts name (some m) = text_of m name

  -- `Lookup` in the directory of one method or field.
  unfoldable pub look_up_member : MemberDir → Bytes → Reply (Mode × MemRegularFile)
  unfolding texts
  look_up_member d name = elim (get d.type_id) [
    | none ↦ fail efault
    | some ms ↦ texts name (member_with_id d.member_id ms)
  ]

-- `Readdir` in the directory of one method or field.
unfoldable pub readdir_member : List DirEntry
readdir_member =
    map (λ name. record { mode = regular; name = name })
      (codes "name" ∷ codes "signature" ∷ codes "modifiers" ∷ [])
