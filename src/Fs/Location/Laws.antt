-- ===== src/Fs/Location/Laws.antt =====
-- On the paths that `EventLocationDirectory` of fs/event_control_files.go reads and shows.
use jdwpfs.Base.{
  ℕ, List, [], ◌∷◌, ◌++◌, ◌≤◌, Bool, false, Option, none, some, ◌≡◌, refl, ap, arith, Bytes, codes,
  text_eq, if◌then◌else◌, All, Bool-cases, Option-cases, inl, inr,
}
use jdwpfs.Go.Decimal.{max_u64, format_uint, parse_uint}
use jdwpfs.Go.Decimal.RoundTrip.{parse_uint-format_uint, format_uint-IsDigit, IsDigit}
use jdwpfs.Go.Split.{
  split, join, split-join, trim_prefix, trim_prefix-append, trim_prefix_self, trim_right_byte,
  Lacks,
}
use jdwpfs.Debug.Event.{ModifierDescriptor}
use jdwpfs.Fs.Node.{Reply-cases, reply}
use jdwpfs.Fs.Debuggee.{Debuggee, ClassInfo, Member}
use jdwpfs.Fs.Location.{
  slash, skip_empty, describe, find_loaded_class, find_object, check_members, four_components,
  find_class, find_member, modifier_of, target_of,
}

-- Behind the loop the variable holds the last class, if there was a match at all.
find_class-last :
    (id : ℕ) (cs : List ClassInfo) (c : ClassInfo) (found : Bool) (variable : Option ClassInfo)
    (r : ClassInfo)
    → find_class id found variable (cs ++ c ∷ []) ≡ some r
    → r ≡ c
unfolding find_class
find_class-last id [] c found variable r h = ground arith
find_class-last id (d ∷ cs) c found variable r h = find_class-last id cs c _ (some d) r h

module _ (jvm : Debuggee) (cs : List ClassInfo) (c : ClassInfo)
    (h : jvm.get_all_classes ≡ some (cs ++ c ∷ [])) where
  find_loaded_class-last : (id : ℕ) (r : ClassInfo) → find_loaded_class jvm id ≡ reply r → r ≡ c
  unfolding find_loaded_class
  find_loaded_class-last id r q = ground (arith, find_class-last id cs c false none r)

  describe-kind :
      (name class object : Bytes) (is_field : Bool) (m : ModifierDescriptor)
      → describe jvm name class is_field object ≡ reply m
      → m.kind ≡ c.kind
  unfolding describe
  describe-kind name class object is_field m q = elim (Option-cases (parse_uint class)) [
    | inl e ↦ ground arith
    | inr (id, e) ↦ elim (Reply-cases (find_loaded_class jvm id)) [
      | inl (r, e') ↦ ground (arith, find_loaded_class-last id r e')
      | inr (x, e') ↦ ground arith
    ]
  ]

  -- Where the debugger lists some class last, every modifier that `Symlink` makes has the kind
  -- of that last class, whichever class its path names.
  pub modifier_of-kind :
      (mountpoint name path : Bytes) {m : ModifierDescriptor}
      → modifier_of jvm mountpoint name path ≡ some (reply m)
      → m.kind ≡ c.kind
  unfolding modifier_of
  modifier_of-kind mountpoint name path {m} q =
      elim (Option-cases (skip_empty (split slash (trim_prefix path mountpoint)))) [
        | inl e ↦ ground arith
        | inr (components, e) ↦ elim (Option-cases (four_components components)) [
          | inl e' ↦ ground arith
          | inr ((class, is_field, object), e') ↦
              ground (arith, describe-kind name class object is_field m)
        ]
      ]

-- A link to the mount point itself ends the process.
pub modifier_of_mountpoint :
    (jvm : Debuggee) (mountpoint name : Bytes) → modifier_of jvm mountpoint name mountpoint ≡ none
unfolding modifier_of skip_empty split text_eq
modifier_of_mountpoint jvm mountpoint name =
    let cut = trim_prefix_self mountpoint in rw (cut.0, cut.1)

digits-Lacks : (s : Bytes) → All IsDigit s → Lacks slash s
digits-Lacks [] h = tt
digits-Lacks (c ∷ s) (hc, h) = (omega arith, digits-Lacks s h)

-- The parts of a link's target behind the mount point.
abbrev pub parts : ModifierDescriptor → List Bytes
parts m =
    codes "classes"
    ∷ format_uint m.class_id
    ∷ (if m.is_field then codes "fields" else codes "methods")
    ∷ format_uint m.object_id
    ∷ []

pub parts-Lacks : (m : ModifierDescriptor) → All (Lacks slash) (parts m)
parts-Lacks m = (
  omega arith,
  (
    digits-Lacks _ (format_uint-IsDigit m.class_id),
    (ground arith, (digits-Lacks _ (format_uint-IsDigit m.object_id), tt)),
  ),
)

split-parts : (m : ModifierDescriptor) → split slash (slash ∷ join slash (parts m)) ≡ [] ∷ parts m
unfolding join
split-parts m = split-join slash ([] ∷ parts m) (cc) (tt, parts-Lacks m)

skip_empty-parts : (m : ModifierDescriptor) → skip_empty ([] ∷ parts m) ≡ some (parts m)
unfolding skip_empty text_eq
skip_empty-parts m = refl

four_components-parts :
    (m : ModifierDescriptor)
    → four_components (parts m) ≡ some (format_uint m.class_id, m.is_field, format_uint m.object_id)
unfolding four_components text_eq
four_components-parts m = elim (Bool-cases m.is_field) [ inl e ↦ rw e | inr e ↦ rw e ]

pub target_of-append :
    (mountpoint : Bytes) (m : ModifierDescriptor)
    → trim_right_byte slash mountpoint ≡ mountpoint
    → target_of mountpoint m ≡ mountpoint ++ slash ∷ join slash (parts m)
unfolding target_of join
target_of-append mountpoint m e = ap (λ t. t ++ slash ∷ join slash (parts m)) e

-- What the debugger knows of the location that a modifier names: the class that is found is `c`,
-- and the class has the field or method.
pub record IsKnown (jvm : Debuggee) (m : ModifierDescriptor) (c : ClassInfo) : Type 0 where
  pub class_fits : m.class_id ≤ max_u64
  pub object_fits : m.object_id ≤ max_u64
  pub classes : List ClassInfo
  pub listed : jvm.get_all_classes ≡ some classes
  pub class_found : find_class m.class_id false none classes ≡ some c
  pub members : List Member
  pub has_members :
      (if m.is_field then jvm.get_fields m.class_id else jvm.get_methods m.class_id) ≡ some members
  pub member : Member
  pub member_found : find_member m.object_id members ≡ some member
  pub kind_of_class : m.kind ≡ c.kind

module _ (jvm : Debuggee) (m : ModifierDescriptor) (c : ClassInfo) (k : IsKnown jvm m c) where
  find_loaded_class-known : find_loaded_class jvm m.class_id ≡ reply c
  unfolding find_loaded_class
  find_loaded_class-known = ground (arith, k.listed, k.class_found)

  find_object-known :
      find_object jvm m.is_field m.class_id (format_uint m.object_id) ≡ reply m.object_id
  unfolding find_object check_members
  find_object-known =
      ground
        (arith, parse_uint-format_uint m.object_id k.object_fits, k.has_members, k.member_found)

  describe-known :
      describe jvm m.name (format_uint m.class_id) m.is_field (format_uint m.object_id) ≡ reply m
  unfolding describe
  describe-known = ground (
    arith,
    parse_uint-format_uint m.class_id k.class_fits,
    find_loaded_class-known,
    find_object-known,
    k.kind_of_class,
  )

  -- For a mount point that does not end in a slash, and a location that the debugged process
  -- knows, with identifiers below 2^64 and the kind that the loop over the classes ends with,
  -- the path that `Lookup` gives for the modifier is one that `Symlink` turns back into the
  -- same modifier.
  pub modifier_of-target_of :
      (mountpoint : Bytes)
      → trim_right_byte slash mountpoint ≡ mountpoint
      → modifier_of jvm mountpoint m.name (target_of mountpoint m) ≡ some (reply m)
  unfolding modifier_of
  modifier_of-target_of mountpoint e =
      let cut = trim_prefix-append mountpoint (slash ∷ join slash (parts m)) in
      rw
        (
          target_of-append mountpoint m e,
          cut.0,
          cut.1,
          split-parts m,
          skip_empty-parts m,
          four_components-parts m,
        )
        (ap (λ r. some r) describe-known)
