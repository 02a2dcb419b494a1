-- ===== src/Fs/ClassInfo/Laws.antt =====
-- On the directories of the methods and of the fields of a class, of fs/class_info.go.
use jdwpfs.Base.{
  [], false, none, refl, arith, ◌==◌, ==_iff, last_match-split, text_eq, ℕ, List, ◌∷◌, ◌++◌, ◌≤◌,
  map, All, some, ◌≡◌, ◌≢◌, codes,
}
use jdwpfs.Go.Decimal.{max_u64, format_uint}
use jdwpfs.Fs.Node.{reply, regular, directory, mem_regular_file}
use jdwpfs.Fs.Debuggee.{Debuggee, ClassInfo, Member}
use jdwpfs.Fs.Members.Laws.{entry_of, dir_with, members-Leads}
use jdwpfs.Fs.ClassInfo.{
  look_up, class_signature, signature_of, text_file, Sorting, new_jdwp_class_info_dir,
  new_class_method_master_dir, new_class_field_master_dir, readdir_methods, look_up_methods,
  look_up_method, readdir_fields, look_up_fields, look_up_field,
}

module _ (jvm : Debuggee) (type_id : ℕ) where
  -- The listing of these methods, and the way from it to one of them and its texts.
  abbrev pub LeadsToMethod : List Member → Member → Type 0
  LeadsToMethod ms m =
      (readdir_methods jvm (new_class_method_master_dir type_id) ≡ reply (map entry_of ms))
      × (look_up_methods jvm (new_class_method_master_dir type_id) (format_uint m.id)
          ≡ reply (directory, dir_with type_id m))
      × (look_up_method jvm (dir_with type_id m) (codes "name")
          ≡ reply (regular, mem_regular_file m.name))
      × (look_up_method jvm (dir_with type_id m) (codes "signature")
          ≡ reply (regular, mem_regular_file m.signature))
      × (look_up_method jvm (dir_with type_id m) (codes "modifiers")
          ≡ reply (regular, mem_regular_file m.mod_bits))

  abbrev pub LeadsToField : List Member → Member → Type 0
  LeadsToField ms m =
      (readdir_fields jvm (new_class_field_master_dir type_id) ≡ reply (map entry_of ms))
      × (look_up_fields jvm (new_class_field_master_dir type_id) (format_uint m.id)
          ≡ reply (directory, dir_with type_id m))
      × (look_up_field jvm (dir_with type_id m) (codes "name")
          ≡ reply (regular, mem_regular_file m.name))
      × (look_up_field jvm (dir_with type_id m) (codes "signature")
          ≡ reply (regular, mem_regular_file m.signature))
      × (look_up_field jvm (dir_with type_id m) (codes "modifiers")
          ≡ reply (regular, mem_regular_file m.mod_bits))

  -- If the debugged process lists the methods of a class, `Readdir` of its `methods` directory
  -- lists their identifiers in order. For a method with an identifier below 2^64 behind which
  -- none with the same identifier is listed, `Lookup` of the listed name gives a directory
  -- whose files `name`, `signature` and `modifiers` hold those of this method.
  pub look_up-readdir_methods :
      (before : List Member) (m : Member) (behind : List Member)
      → jvm.get_methods type_id ≡ some (before ++ m ∷ behind)
      → m.id ≤ max_u64
      → All (λ n. n.id ≢ m.id) behind
      → LeadsToMethod (before ++ m ∷ behind) m
  unfolding new_class_method_master_dir readdir_methods look_up_methods look_up_method
  look_up-readdir_methods before m behind q bound last =
      members-Leads jvm.get_methods type_id before m behind q bound last

  pub look_up-readdir_fields :
      (before : List Member) (m : Member) (behind : List Member)
      → jvm.get_fields type_id ≡ some (before ++ m ∷ behind)
      → m.id ≤ max_u64
      → All (λ n. n.id ≢ m.id) behind
      → LeadsToField (before ++ m ∷ behind) m
  unfolding new_class_field_master_dir readdir_fields look_up_fields look_up_field
  look_up-readdir_fields before m behind q bound last =
      members-Leads jvm.get_fields type_id before m behind q bound last

-- If the debugged process lists the methods and the fields of a class, `Readdir` of its `methods`
-- and `fields` directories lists their identifiers in order. For a method, and for a field, with
-- an identifier below 2^64 behind which none with the same identifier is listed, `Lookup` of the
-- listed name gives a directory whose files `name`, `signature` and `modifiers` hold those of
-- this method or field.
pub look_up-readdir_members :
    (jvm : Debuggee) (type_id : ℕ) (m : Member) (f : Member)
    (methods_before methods_behind fields_before fields_behind : List Member)
    → jvm.get_methods type_id ≡ some (methods_before ++ m ∷ methods_behind)
    → jvm.get_fields type_id ≡ some (fields_before ++ f ∷ fields_behind)
    → m.id ≤ max_u64
    → f.id ≤ max_u64
    → All (λ n. n.id ≢ m.id) methods_behind
    → All (λ n. n.id ≢ f.id) fields_behind
    → LeadsToMethod jvm type_id (methods_before ++ m ∷ methods_behind) m
      × LeadsToField jvm type_id (fields_before ++ f ∷ fields_behind) f
look_up-readdir_members jvm type_id m f methods_before methods_behind fields_before fields_behind qm
      qf bm bf lm lf =
    (
      look_up-readdir_methods jvm type_id methods_before m methods_behind qm bm lm,
      look_up-readdir_fields jvm type_id fields_before f fields_behind qf bf lf,
    )

differs :
    (cs : List ClassInfo) (id : ℕ)
    → All (λ c. c.type_id ≢ id) cs
    → All (λ c. (c.type_id == id) ≡ false) cs
differs [] id h = tt
differs (c ∷ cs) id (hc, h) = (ground (arith, ==_iff c.type_id id), differs cs id h)

pub look_up-signature :
    (s : Sorting) (jvm : Debuggee) (before : List ClassInfo) (c : ClassInfo)
    (behind : List ClassInfo)
    → jvm.get_all_classes ≡ some (before ++ c ∷ behind)
    → All (λ k. k.type_id ≢ c.type_id) behind
    → look_up s jvm (new_jdwp_class_info_dir c.type_id) (codes "signature")
      ≡ reply (regular, text_file (mem_regular_file c.signature))
unfolding look_up class_signature signature_of new_jdwp_class_info_dir text_eq
look_up-signature s jvm before c behind q last =
    let found =
      last_match-split (λ k. k.type_id == c.type_id) before c behind none
        (ground (arith, ==_iff c.type_id c.type_id)) (differs behind c.type_id last) in
    rw (q, found) refl
