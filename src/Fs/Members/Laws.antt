-- ===== src/Fs/Members/Laws.antt =====
-- On the directories of the methods and of the fields of a class, of fs/class_info.go.
use jdwpfs.Base.{
  ℕ, List, [], ◌∷◌, ◌++◌, ◌≤◌, map, All, false, some, none, Option, ◌≡◌, ◌≢◌, refl, arith, codes,
  text_eq, last_match-split, last_match_sound, ◌==◌, ==_iff,
}
use jdwpfs.Go.Decimal.{max_u64, format_uint}
use jdwpfs.Go.Decimal.RoundTrip.{parse_uint-format_uint}
use jdwpfs.Fs.Node.{reply, regular, directory, DirEntry, mem_regular_file}
use jdwpfs.Fs.Debuggee.{Member}
use jdwpfs.Fs.Members.{
  MemberDir, member_with_id, readdir_members, look_up_members, look_up_member, new_member_dir,
  dir_of, texts, text_of,
}

abbrev pub entry_of : Member → DirEntry
entry_of m = record { mode = directory; name = format_uint m.id }

abbrev pub dir_with : ℕ → Member → MemberDir
dir_with type_id m = record { type_id = type_id; member_id = m.id }

differs : (ms : List Member) (id : ℕ) → All (λ n. n.id ≢ id) ms → All (λ n. (n.id == id) ≡ false) ms
differs [] id h = tt
differs (m ∷ ms) id (hm, h) = (ground (arith, ==_iff m.id id), differs ms id h)

member_with_id-split :
    (before : List Member) (m : Member) (behind : List Member)
    → All (λ n. n.id ≢ m.id) behind
    → member_with_id m.id (before ++ m ∷ behind) ≡ some m
unfolding member_with_id
member_with_id-split before m behind last =
    last_match-split (λ n. n.id == m.id) before m behind none (ground (arith, ==_iff m.id m.id))
      (differs behind m.id last)

found-id : (id : ℕ) (ms : List Member) (r : Member) → member_with_id id ms ≡ some r → r.id ≡ id
unfolding member_with_id
found-id id ms r q =
    let (_, _, _, test, _) = last_match_sound (λ m. m.id == id) ms r q in
    ground (arith, ==_iff r.id id, test)

pub look_up_members-found :
    (get : ℕ → Option (List Member)) (type_id : ℕ) {id : ℕ} {ms : List Member} {r : Member}
    → id ≤ max_u64
    → get type_id ≡ some ms
    → member_with_id id ms ≡ some r
    → look_up_members get type_id (format_uint id)
      ≡ reply (directory, record { type_id = type_id; member_id = id })
unfolding look_up_members dir_of new_member_dir
look_up_members-found get type_id {id} {ms} {r} bound q found =
    rw (look_up_members, parse_uint-format_uint id bound, q, found, found-id id ms r found) refl

module _ (get : ℕ → Option (List Member)) (type_id : ℕ) where
  -- The listing of all members leads to this one: to its directory, and there to its texts.
  abbrev pub Leads : List Member → Member → Type 0
  Leads ms m =
      (readdir_members get type_id ≡ reply (map entry_of ms))
      × (look_up_members get type_id (format_uint m.id) ≡ reply (directory, dir_with type_id m))
      × (look_up_member get (dir_with type_id m) (codes "name")
          ≡ reply (regular, mem_regular_file m.name))
      × (look_up_member get (dir_with type_id m) (codes "signature")
          ≡ reply (regular, mem_regular_file m.signature))
      × (look_up_member get (dir_with type_id m) (codes "modifiers")
          ≡ reply (regular, mem_regular_file m.mod_bits))

  pub members-Leads :
      (before : List Member) (m : Member) (behind : List Member)
      → get type_id ≡ some (before ++ m ∷ behind)
      → m.id ≤ max_u64
      → All (λ n. n.id ≢ m.id) behind
      → Leads (before ++ m ∷ behind) m
  unfolding readdir_members look_up_members look_up_member dir_of new_member_dir texts text_of
      text_eq
  members-Leads before m behind q bound last =
      let found = member_with_id-split before m behind last in
      let parsed = parse_uint-format_uint m.id bound in
      (
        rw (readdir_members, q) refl,
        rw (look_up_members, parsed, q, found) refl,
        rw (look_up_member, q, found) refl,
        rw (look_up_member, q, found) refl,
        rw (look_up_member, q, found) refl,
      )
