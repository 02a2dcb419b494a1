-- ===== src/Fs/Tree/LocationLinks.antt =====
-- On the links of `EventLocationDirectory` of fs/event_control_files.go, walked from the root.
use jdwpfs.Base.{ℕ, List, [], ◌∷◌, ◌≤◌, some, ◌≡◌, refl, ap, ◌∙◌, Bytes, codes, text_eq, inl, inr}
use jdwpfs.Go.Decimal.{max_u64, format_uint}
use jdwpfs.Go.Split.{trim_right_byte}
use jdwpfs.Fs.Debuggee.{ClassInfo}
use jdwpfs.Fs.Root.{JdwpRootFs, AddedChild, added_children}
use jdwpfs.Fs.ClassInfo.{new_jdwp_class_info_dir}
use jdwpfs.Fs.Classes.Laws as ClassLaws
use jdwpfs.Fs.Tree.{View, Place, root, class_info, find_child, step, walk, follow, below, place}
use jdwpfs.Fs.Tree.Follow.{follow-join}
use jdwpfs.Go.Split.{trim_right_byte}
use jdwpfs.Debug.Event.{ModifierDescriptor}
use jdwpfs.Fs.Debuggee.{Member}
use jdwpfs.Fs.ClassInfo
use jdwpfs.Fs.ClassInfo.{
  look_up_methods, look_up_fields, new_class_method_master_dir, new_class_field_master_dir,
}
use jdwpfs.Fs.Members.Laws.{look_up_members-found}
use jdwpfs.Fs.Members.{member_with_id}
use jdwpfs.Fs.Location.{slash, target_of, find_member}
use jdwpfs.Fs.Location.Laws.{IsKnown, parts, parts-Lacks, target_of-append}
use jdwpfs.Fs.Tree.{method, field, of_class}
use jdwpfs.Base.{if◌then◌else◌, Bool-cases}

-- The directory of the field or method that a modifier names.
abbrev pub place_of : ModifierDescriptor → Place
place_of m =
    if m.is_field
    then field (record { type_id = m.class_id; member_id = m.object_id })
    else method (record { type_id = m.class_id; member_id = m.object_id })

module _ (v : View) (children : List AddedChild) where
  in_methods :
      (type_id id : ℕ) {ms : List Member} {r : Member}
      → id ≤ max_u64
      → v.jvm.get_methods type_id ≡ some ms
      → member_with_id id ms ≡ some r
      → walk v children
          (class_info (new_jdwp_class_info_dir type_id))
          (codes "methods" ∷ format_uint id ∷ [])
        ≡ some (method (record { type_id = type_id; member_id = id }))
  unfolding walk step place of_class ClassInfo.look_up look_up_methods new_class_method_master_dir
      new_jdwp_class_info_dir text_eq
  in_methods type_id id bound q found =
      rw (walk, look_up_members-found v.jvm.get_methods type_id bound q found) refl

  in_fields :
      (type_id id : ℕ) {ms : List Member} {r : Member}
      → id ≤ max_u64
      → v.jvm.get_fields type_id ≡ some ms
      → member_with_id id ms ≡ some r
      → walk v children
          (class_info (new_jdwp_class_info_dir type_id))
          (codes "fields" ∷ format_uint id ∷ [])
        ≡ some (field (record { type_id = type_id; member_id = id }))
  unfolding walk step place of_class ClassInfo.look_up look_up_fields new_class_field_master_dir
      new_jdwp_class_info_dir text_eq
  in_fields type_id id bound q found =
      rw (walk, look_up_members-found v.jvm.get_fields type_id bound q found) refl

module _ (v : View) (r : JdwpRootFs) (m : ModifierDescriptor) (c : ClassInfo) where
  below_parts : IsKnown v.jvm m c → walk v (added_children r) root (parts m) ≡ some (place_of m)
  unfolding walk step find_child below place added_children text_eq find_member member_with_id
  below_parts k = elim (Bool-cases m.is_field) [
    | inl e ↦
        rw (walk, ClassLaws.look_up-format_uint m.class_id k.class_fits, e)
          (in_fields v (added_children r) m.class_id m.object_id k.object_fits
            (rw e at k.has_members) k.member_found)
    | inr e ↦
        rw (walk, ClassLaws.look_up-format_uint m.class_id k.class_fits, e)
          (in_methods v (added_children r) m.class_id m.object_id k.object_fits
            (rw e at k.has_members) k.member_found)
  ]

  -- For a mount point that does not end in a slash, and a modifier whose class and field or
  -- method the debugged process knows, with identifiers below 2^64, the path that `Lookup`
  -- shows for the modifier, walked from the root name by name, leads to the directory of that
  -- field or method.
  pub follow-target_of :
      (mountpoint : Bytes)
      → IsKnown v.jvm m c
      → trim_right_byte slash mountpoint ≡ mountpoint
      → follow v (added_children r) mountpoint (target_of mountpoint m) ≡ some (place_of m)
  follow-target_of mountpoint k e =
      ap (follow v (added_children r) mountpoint) (target_of-append mountpoint m e)
      ∙ follow-join v (added_children r) mountpoint _ _ (parts-Lacks m)
      ∙ below_parts k
