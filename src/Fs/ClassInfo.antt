-- ===== src/Fs/ClassInfo.antt =====
-- The directory of a class and its methods and fields, of fs/class_info.go.
pub mod Order
pub mod Info
pub mod Laws
use mathlib.Core.List.{Perm}
use jdwpfs.Base.{
  ◌≡◌, true, false, ℕ, List, [], ◌∷◌, ◌++◌, ◌≤◌, map, All, Bool, Option, none, some, Bytes, codes,
  text_eq, last_match, ltb, ◌==◌, if◌then◌else◌,
}
use jdwpfs.Go.Decimal.{format_uint}
use jdwpfs.Fs.Node.{
  Reply, reply, fail, enoent, ebadf, efault, Mode, regular, directory, DirEntry, AttrOut,
  MemRegularFile, mem_regular_file,
}
use jdwpfs.Fs.Debuggee.{Debuggee, ClassInfo, Member}
use jdwpfs.Fs.Members.{MemberDir, readdir_members, look_up_members, readdir_member, look_up_member}

-- `Less` of `MethodById` and of `FieldById`.
unfoldable pub method_less : Member → Member → Bool
method_less m n = ltb m.id n.id

unfoldable pub field_less : Member → Member → Bool
field_less f g = ltb f.id g.id

-- What `sort.Interface` asks of a `Less`.
pub record IsOrder (lt : Member → Member → Bool) : Type 0 where
  pub irreflexive : (m : Member) → lt m m ≡ false
  pub transitive : (k m n : Member) → lt k m ≡ true → lt m n ≡ true → lt k n ≡ true
  pub not_transitive : (k m n : Member) → lt k m ≡ false → lt m n ≡ false → lt k n ≡ false

-- No later member is less than an earlier one.
abbrev pub IsSorted : (Member → Member → Bool) → List Member → Type 0
IsSorted lt [] = Unit {0}
IsSorted lt (m ∷ ms) = All (λ n. lt n m ≡ false) ms × IsSorted lt ms

-- `sort.Sort` for a `Less`. It puts equal elements in an order that it leaves open.
pub record Sorting : Type 0 where
  pub sort : (Member → Member → Bool) → List Member → List Member
  pub sort-perm : (lt : Member → Member → Bool) (ms : List Member) → Perm (sort lt ms) ms
  pub sort-IsSorted :
      (lt : Member → Member → Bool) → IsOrder lt → (ms : List Member) → IsSorted lt (sort lt ms)

-- The loops that print one line for each method or field.
unfoldable pub info_text : Bytes → List Member → Bytes
info_text text [] = text
info_text text (m ∷ ms) =
    info_text
      (text ++ format_uint m.id ++ codes "\t" ++ m.name ++ codes "\t" ++ m.signature ++ codes "\n")
      ms

pub record ClassMethodMasterDir : Type 0 where
  pub type_id : ℕ

pub record ClassFieldMasterDir : Type 0 where
  pub type_id : ℕ

-- The constructors of the directories return a nil error.
unfoldable pub new_class_method_master_dir : ℕ → ClassMethodMasterDir
new_class_method_master_dir id = record { type_id = id }

unfoldable pub new_class_field_master_dir : ℕ → ClassFieldMasterDir
new_class_field_master_dir id = record { type_id = id }

abbrev pub get_attr : AttrOut → AttrOut
get_attr out = record out { mode = 0o755 }

unfoldable pub readdir_methods : Debuggee → ClassMethodMasterDir → Reply (List DirEntry)
readdir_methods jvm d = readdir_members jvm.get_methods d.type_id

unfoldable pub look_up_methods : Debuggee → ClassMethodMasterDir → Bytes → Reply (Mode × MemberDir)
look_up_methods jvm d = look_up_members jvm.get_methods d.type_id

unfoldable pub readdir_fields : Debuggee → ClassFieldMasterDir → Reply (List DirEntry)
readdir_fields jvm d = readdir_members jvm.get_fields d.type_id

unfoldable pub look_up_fields : Debuggee → ClassFieldMasterDir → Bytes → Reply (Mode × MemberDir)
look_up_fields jvm d = look_up_members jvm.get_fields d.type_id

unfoldable pub readdir_method : MemberDir → List DirEntry
readdir_method d = readdir_member

unfoldable pub look_up_method : Debuggee → MemberDir → Bytes → Reply (Mode × MemRegularFile)
look_up_method jvm d = look_up_member jvm.get_methods d

unfoldable pub readdir_field : MemberDir → List DirEntry
readdir_field d = readdir_member

unfoldable pub look_up_field : Debuggee → MemberDir → Bytes → Reply (Mode × MemRegularFile)
look_up_field jvm d = look_up_member jvm.get_fields d

pub record JdwpClassInfoDir : Type 0 where
  pub type_id : ℕ

unfoldable pub new_jdwp_class_info_dir : ℕ → JdwpClassInfoDir
new_jdwp_class_info_dir id = record { type_id = id }

unfoldable pub get_dir_entry : JdwpClassInfoDir → DirEntry
get_dir_entry d = record { mode = directory; name = format_uint d.type_id }

-- All five are listed as regular files.
unfoldable pub readdir : JdwpClassInfoDir → List DirEntry
readdir d =
    map (λ name. record { mode = regular; name = name })
      (codes "signature"
        ∷ codes "methodInfo"
        ∷ codes "fieldInfo"
        ∷ codes "methods"
        ∷ codes "fields"
        ∷ [])

pub data Child : Type 0 where
  text_file : MemRegularFile → Child
  methods : ClassMethodMasterDir → Child
  fields : ClassFieldMasterDir → Child

signature_of : Option ClassInfo → Reply (Mode × Child)
signature_of none = fail efault
signature_of (some c) = reply (regular, text_file (mem_regular_file c.signature))

class_signature : Debuggee → ℕ → Reply (Mode × Child)
unfolding signature_of
class_signature jvm id = elim jvm.get_all_classes [
  | none ↦ fail efault
  | some cs ↦ signature_of (last_match (λ c. c.type_id == id) none cs)
]

info_file : Sorting → (Member → Member → Bool) → Option (List Member) → Reply (Mode × Child)
info_file s lt none = fail ebadf
info_file s lt (some ms) =
    reply (regular, text_file (mem_regular_file (info_text [] (s.sort lt ms))))

unfoldable pub look_up : Sorting → Debuggee → JdwpClassInfoDir → Bytes → Reply (Mode × Child)
unfolding class_signature info_file
look_up s jvm d name =
    if text_eq name (codes "signature")
    then class_signature jvm d.type_id
    else if text_eq name (codes "methodInfo")
    then info_file s method_less (jvm.get_methods d.type_id)
    else if text_eq name (codes "fieldInfo")
    then info_file s field_less (jvm.get_fields d.type_id)
    else if text_eq name (codes "methods")
    then reply (directory, methods (new_class_method_master_dir d.type_id))
    else if text_eq name (codes "fields")
    then reply (directory, fields (new_class_field_master_dir d.type_id))
    else fail enoent
