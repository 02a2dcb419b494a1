-- ===== src/Tests/Classes.antt =====
-- The theorems on the directories of classes.
use mathlib.Core.List.Perm
use jdwpfs.Base.{ℕ, List, [], ◌∷◌, All, none, some, ◌≡◌, ◌⊎◌, refl, arith, codes}
use jdwpfs.Go.Decimal.Bounds.{Numeral}
use jdwpfs.Fs.Node.{reply, fail, enoent, directory}
use jdwpfs.Fs.Debuggee.{Debuggee, Member}
use jdwpfs.Fs.ClassInfo.{JdwpClassInfoDir, new_jdwp_class_info_dir, look_up}
use jdwpfs.Tests.Sorting.{sorting}
use jdwpfs.Fs.ClassInfo.Info.{IsPlain, ShowsInfo, look_up-ShowsInfo, look_up-info_order}
use jdwpfs.Fs.ClassInfo.Laws.{LeadsToMethod, LeadsToField, look_up-readdir_members}
use jdwpfs.Fs.Classes
use jdwpfs.Fs.Classes.Laws.{look_up-Numeral}

abbrev first : Member
first = record { id = 3; name = codes "main"; signature = codes "()V"; mod_bits = codes "public" }

abbrev second : Member
second = record { id = 12; name = codes "run"; signature = codes "(I)I"; mod_bits = codes "" }

abbrev field : Member
field = record { id = 5; name = codes "x"; signature = codes "I"; mod_bits = codes "" }

abbrev process_of : List Member → Debuggee
process_of ms = record {
  get_all_threads = none;
  get_thread_name = λ _. none;
  get_thread_status = λ _. none;
  get_all_classes = none;
  get_methods = λ _. some ms;
  get_fields = λ _. some (field ∷ []);
}

abbrev dir : JdwpClassInfoDir
dir = record { type_id = 8 }

look_up-Numeral_example :
    ((id : ℕ) × Numeral (codes "12") id
      × (Classes.look_up (codes "12") ≡ reply (directory, new_jdwp_class_info_dir id)))
    ⊎ (((id : ℕ) → ¬ Numeral (codes "12") id) × (Classes.look_up (codes "12") ≡ fail enoent))
look_up-Numeral_example = look_up-Numeral (codes "12")

look_up-readdir_members_example :
    LeadsToMethod (process_of (second ∷ first ∷ [])) 8 (second ∷ first ∷ []) second
    × LeadsToField (process_of (second ∷ first ∷ [])) 8 (field ∷ []) field
look_up-readdir_members_example =
    look_up-readdir_members (process_of (second ∷ first ∷ [])) 8 second field [] (first ∷ []) [] []
      refl refl (omega arith) (omega arith) ((λ e. omega (arith, e)), tt) tt

-- The letters of the names and signatures are no line feeds.
members-IsPlain : All IsPlain (second ∷ first ∷ [])
members-IsPlain = ground arith

field-IsPlain : All IsPlain (field ∷ [])
field-IsPlain = ground arith

look_up-ShowsInfo_example :
    ShowsInfo
      (look_up sorting (process_of (second ∷ first ∷ [])) dir (codes "methodInfo"))
      (second ∷ first ∷ [])
    × ShowsInfo
        (look_up sorting (process_of (second ∷ first ∷ [])) dir (codes "fieldInfo"))
        (field ∷ [])
look_up-ShowsInfo_example =
    look_up-ShowsInfo dir sorting (process_of (second ∷ first ∷ [])) refl refl members-IsPlain
      field-IsPlain

look_up-info_order_example :
    (look_up sorting (process_of (second ∷ first ∷ [])) dir (codes "methodInfo")
      ≡ look_up sorting (process_of (first ∷ second ∷ [])) dir (codes "methodInfo"))
    × (look_up sorting (process_of (second ∷ first ∷ [])) dir (codes "fieldInfo")
        ≡ look_up sorting (process_of (first ∷ second ∷ [])) dir (codes "fieldInfo"))
look_up-info_order_example =
    look_up-info_order dir sorting sorting (process_of (second ∷ first ∷ []))
      (process_of (first ∷ second ∷ [])) refl refl refl refl (Perm.swap first second [])
      (Perm.refl (field ∷ [])) ((λ e. omega (arith, e), tt), (tt, tt)) (tt, tt)
