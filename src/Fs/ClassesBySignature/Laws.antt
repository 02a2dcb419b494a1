-- ===== src/Fs/ClassesBySignature/Laws.antt =====
-- On the links to the classes by their signatures, of fs/classes_by_signature.go.
use jdwpfs.Base.{
  ℕ, List, [], ◌∷◌, ◌++◌, ◌<◌, map, All, false, some, none, Option, ◌≡◌, ◌≢◌, refl, ◌∙◌, ap, arith,
  Bytes, text_eq, text_eq_refl, Bool-cases, inl, inr, last_match, last_match-split, ◌==◌, ==_iff,
}
use jdwpfs.Go.PathEscape.{path_escape}
use jdwpfs.Go.PathEscape.RoundTrip.{path_unescape-path_escape}
use jdwpfs.Fs.Node.{reply, link, DirEntry, mem_symlink}
use jdwpfs.Fs.Debuggee.{Debuggee, ClassInfo}
use jdwpfs.Fs.ClassesBySignature.{
  JdwpClassNamedMasterDir, readdir, find_class_id, class_path, look_up,
}

-- The value of the loop's variable.
abbrev id_of : Option ClassInfo → ℕ
id_of none = 0
id_of (some c) = c.type_id

find_class_id-last_match :
    (signature : Bytes) (cs : List ClassInfo) (acc : Option ClassInfo)
    → find_class_id signature (id_of acc) cs
      ≡ id_of (last_match (λ c. text_eq c.signature signature) acc cs)
unfolding find_class_id last_match
find_class_id-last_match signature [] acc = refl
find_class_id-last_match signature (c ∷ cs) acc =
    elim (Bool-cases (text_eq c.signature signature)) [
      | inl e ↦ ground (arith, find_class_id-last_match signature cs (some c))
      | inr e ↦ ground (arith, find_class_id-last_match signature cs acc)
    ]

abbrev pub entry_of : ClassInfo → DirEntry
entry_of c = record { mode = link; name = path_escape c.signature }

module _ (jvm : Debuggee) (d : JdwpClassNamedMasterDir) where
  pub look_up-path_escape :
      (before : List ClassInfo) (c : ClassInfo) (behind : List ClassInfo)
      → jvm.get_all_classes ≡ some (before ++ c ∷ behind)
      → c.type_id ≢ 0
      → All (λ b. b < 256) c.signature
      → All (λ k. text_eq k.signature c.signature ≡ false) behind
      → (readdir jvm ≡ reply (map entry_of (before ++ c ∷ behind)))
        × (look_up jvm d (path_escape c.signature) ≡ reply (mem_symlink (class_path d c.type_id)))
  unfolding readdir look_up
  look_up-path_escape before c behind q nonzero bytes last =
      let found =
        find_class_id-last_match c.signature (before ++ c ∷ behind) none
        ∙ ap id_of (last_match-split _ before c behind none (text_eq_refl c.signature) last) in
      let test : (c.type_id == 0) ≡ false = ground (arith, ==_iff c.type_id 0) in
      let unescaped = path_unescape-path_escape c.signature bytes in
      (rw (readdir, q) refl, rw (look_up, unescaped, q, found, test) refl)
