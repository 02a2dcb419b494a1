-- ===== src/Fs/ThreadsNamed/Laws.antt =====
-- On `JdwpThreadNamedDir` of fs/threads_named.go.
use jdwpfs.Base.{
  ℕ, List, [], ◌∷◌, ◌++◌, map, All, false, some, none, Option, ◌≡◌, ◌≢◌, refl, ◌∙◌, ap, arith,
  Bytes, text_eq, text_eq_refl, Bool-cases, inl, inr, last_match, last_match-split, ◌==◌, ==_iff,
  append_assoc, append-nil,
}
use jdwpfs.Fs.Node.{reply, link, DirEntry, mem_symlink}
use jdwpfs.Fs.Debuggee.{Debuggee}
use jdwpfs.Fs.ThreadsNamed.{
  JdwpThreadNamedDir, name_entries, readdir, find_thread, thread_path, look_up,
}

-- The value of the loop's variable.
abbrev found_of : Option ℕ → ℕ
found_of none = 0
found_of (some id) = id

module _ (jvm : Debuggee) (name_of : ℕ → Bytes) where
  -- The process answers the names of these threads.
  abbrev pub Named : List ℕ → Type 0
  Named = All (λ id. jvm.get_thread_name id ≡ some (name_of id))

  find_thread-last_match :
      (name : Bytes) (ids : List ℕ) (acc : Option ℕ)
      → Named ids
      → find_thread jvm name (found_of acc) ids
        ≡ reply (found_of (last_match (λ id. text_eq (name_of id) name) acc ids))
  unfolding find_thread last_match
  find_thread-last_match name [] acc h = refl
  find_thread-last_match name (id ∷ ids) acc (hid, h) =
      elim (Bool-cases (text_eq (name_of id) name)) [
        | inl e ↦ ground (arith, find_thread-last_match name ids (some id) h)
        | inr e ↦ ground (arith, find_thread-last_match name ids acc h)
      ]

  abbrev pub entry_of : ℕ → DirEntry
  entry_of id = record { mode = link; name = name_of id }

  name_entries-map :
      (ids : List ℕ) (entries : List DirEntry)
      → Named ids
      → name_entries jvm entries ids ≡ reply (entries ++ map entry_of ids)
  unfolding name_entries
  name_entries-map [] entries h = rw append-nil refl
  name_entries-map (id ∷ ids) entries (hid, h) = ground (
    arith,
    name_entries-map ids (entries ++ entry_of id ∷ []) h,
    append_assoc entries (entry_of id ∷ []) (map entry_of ids),
  )

  module _ (d : JdwpThreadNamedDir) where
    -- If the debugged process lists its threads and answers all their names, then `Readdir`
    -- of the directory of thread names lists these names in order, and for a thread whose
    -- identifier is not 0 and behind which no thread of the same name is listed, `Lookup` of
    -- its name gives a link to that thread's directory.
    pub look_up-find_thread :
        (before : List ℕ) (id : ℕ) (behind : List ℕ)
        → jvm.get_all_threads ≡ some (before ++ id ∷ behind)
        → Named (before ++ id ∷ behind)
        → id ≢ 0
        → All (λ j. text_eq (name_of j) (name_of id) ≡ false) behind
        → (readdir jvm ≡ reply (map entry_of (before ++ id ∷ behind)))
          × (look_up jvm d (name_of id) ≡ reply (mem_symlink (thread_path d id)))
    unfolding readdir look_up
    look_up-find_thread before id behind q names nonzero last =
        let found =
          find_thread-last_match (name_of id) (before ++ id ∷ behind) none names
          ∙ ap (λ o. reply (found_of o))
              (last_match-split _ before id behind none (text_eq_refl (name_of id)) last) in
        let test : (id == 0) ≡ false = ground (arith, ==_iff id 0) in
        (
          ground (arith, name_entries-map (before ++ id ∷ behind) [] names),
          ground (arith, found, test),
        )
