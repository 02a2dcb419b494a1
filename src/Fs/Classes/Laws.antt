-- ===== src/Fs/Classes/Laws.antt =====
-- On the directory of all classes, of fs/classes.go.
use jdwpfs.Base.{
  ◌⊎◌, inl, inr, Option-cases, Bytes, ℕ, List, [], ◌∷◌, ◌≤◌, map, All, some, ◌≡◌, refl,
}
use mathlib.Core.Path.{ap₂}
use jdwpfs.Go.Decimal.{max_u64, format_uint, parse_uint}
use jdwpfs.Go.Decimal.Bounds.{Numeral, parse_uint-Numeral}
use jdwpfs.Go.Decimal.RoundTrip.{parse_uint-format_uint}
use jdwpfs.Fs.Node.{Reply, reply, fail, enoent, Mode, directory, DirEntry}
use jdwpfs.Fs.Debuggee.{Debuggee, ClassInfo}
use jdwpfs.Fs.ClassInfo.{JdwpClassInfoDir, new_jdwp_class_info_dir, get_dir_entry}
use jdwpfs.Fs.Classes.{readdir, look_up}

abbrev pub class_found : ClassInfo → Reply (Mode × JdwpClassInfoDir)
class_found c = reply (directory, new_jdwp_class_info_dir c.type_id)

pub look_up-format_uint :
    (id : ℕ)
    → id ≤ max_u64
    → look_up (format_uint id) ≡ reply (directory, new_jdwp_class_info_dir id)
unfolding look_up
look_up-format_uint id h = rw (look_up, parse_uint-format_uint id h) refl

look_up-entries :
    (cs : List ClassInfo)
    → All (λ c. c.type_id ≤ max_u64) cs
    → map (λ e. look_up e.name) (map (λ c. get_dir_entry (new_jdwp_class_info_dir c.type_id)) cs)
      ≡ map class_found cs
unfolding get_dir_entry new_jdwp_class_info_dir
look_up-entries [] h = refl
look_up-entries (c ∷ cs) (hc, h) = ap₂ ◌∷◌ (look_up-format_uint c.type_id hc) (look_up-entries cs h)

pub look_up-readdir_classes :
    (jvm : Debuggee) {classes : List ClassInfo}
    → jvm.get_all_classes ≡ some classes
    → All (λ c. c.type_id ≤ max_u64) classes
    → (listing : List DirEntry) × (readdir jvm ≡ reply listing)
      × (map (λ e. look_up e.name) listing ≡ map class_found classes)
unfolding readdir
look_up-readdir_classes jvm {classes} q h = (_, rw q refl, look_up-entries classes h)

-- `Lookup` in the directory of all classes gives the directory of a class identifier exactly for
-- the texts of digits only, at least one, whose decimal value is at most 2^64 - 1, with that
-- value as the identifier, and replies ENOENT for all other names.
pub look_up-Numeral :
    (name : Bytes)
    → ((id : ℕ) × Numeral name id × (look_up name ≡ reply (directory, new_jdwp_class_info_dir id)))
      ⊎ (((id : ℕ) → ¬ Numeral name id) × (look_up name ≡ fail enoent))
unfolding look_up
look_up-Numeral name = elim (Option-cases (parse_uint name)) [
  | inl e ↦ inr ((λ id h. let q = (parse_uint-Numeral name id).1 h in cc), rw (look_up, e) refl)
  | inr (id, e) ↦ inl (id, (parse_uint-Numeral name id).0 e, rw (look_up, e) refl)
]
