-- ===== src/Debug/Manager/Removal.antt =====
-- `DeregisterEvent` of debug/event_manager.go, on the map of names.
use jdwpfs.Base.{
  ℕ, suc, List, [], ◌∷◌, ◌++◌, ◌+◌, Bool, Option, none, some, ◌≡◌, ◌≢◌, refl, sym, ap, ◌∙◌, arith,
  Bytes, codes, text_eq, text_eq_iff, take, drop, All-append, All-take, All-drop, ==_iff,
  Bool-cases, Option-cases, inl, inr,
}
use jdwpfs.Base.Dict.{lookup, erase}
use jdwpfs.Base.Dict.Nodup.{NodupKeys, erase-absent, erase-NodupKeys}
use jdwpfs.Go.Sync.{done, lock, free, held_for_writing}
use jdwpfs.Debug.Errors.{wrap, debugging_event}
use jdwpfs.Debug.Event.{DebuggingEvent, on_mu}
use jdwpfs.Debug.Manager.{World, find_index, deregister_event, put_back, on_event}
use jdwpfs.Debug.Manager.Registry.{entries, entries-update, registry, IsValid, with_mu}

module _ (f : ℕ → DebuggingEvent) (name : Bytes) where
  abbrev named : ℕ → Bool
  named p = text_eq (f p).name name

  find_index-absent :
      (xs : List ℕ) (i : ℕ) (acc : Option (ℕ × ℕ))
      → lookup name (entries f xs) ≡ none
      → find_index named i acc xs ≡ acc
  unfolding find_index lookup
  find_index-absent [] i acc h = refl
  find_index-absent (q ∷ xs) i acc h = ground (arith, find_index-absent xs (i + 1) acc)

  -- The index found is the one whose removal erases the name.
  find_index-found :
      (xs : List ℕ) (i p : ℕ)
      → NodupKeys (entries f xs)
      → lookup name (entries f xs) ≡ some p
      → (n : ℕ) × (find_index named i none xs ≡ some (i + n, p))
        × (entries f (take n xs ++ drop (n + 1) xs) ≡ erase name (entries f xs))
  unfolding find_index lookup erase
  find_index-found [] i p u h = cc
  find_index-found (q ∷ xs) i p (fresh, u) h = elim (Bool-cases (named q)) [
    | inl e ↦
        let absent : lookup name (entries f xs) ≡ none =
          ground (arith, text_eq_iff (f q).name name) in
        (
          0,
          ground (arith, find_index-absent xs (i + 1) (some (i, q)) absent),
          rw e (sym (erase-absent name (entries f xs) absent)),
        )
    | inr e ↦
        let (n, found, removed) = find_index-found xs (i + 1) p u (ground arith) in
        let step : suc n + 1 ≡ suc (n + 1) = omega arith in
        (suc n, ground (arith, found), rw (step, e) (ap (λ m. ((f q).name, q) ∷ m) removed))
  ]

-- The world behind a `DeregisterEvent` that took the event out of the registry.
pub record IsRemoved (w : World) (name : Bytes) (p : ℕ) (w' : World) : Type 0 where
  pub left : registry w' ≡ erase name (registry w)
  pub others : (q : ℕ) → q ≢ p → w'.event_at q ≡ w.event_at q
  pub held : (w'.event_at p).mu ≡ held_for_writing
  pub runtime_same : w'.runtime ≡ w.runtime
  pub valid : IsValid w'

module _ (w : World) (name : Bytes) (v : IsValid w) where
  -- In a valid world, `DeregisterEvent` of a name that is not registered returns the error that
  -- it cannot be found, and changes nothing.
  pub deregister_event-absent :
      lookup name (registry w) ≡ none
      → deregister_event name w
        ≡ done (some (wrap debugging_event (codes "unable to find event with name " ++ name))) w
  unfolding deregister_event
  deregister_event-absent h =
      ground (arith, find_index-absent w.event_at name w.manager.registered_events 0 none h)

  module _ {p : ℕ} (found : lookup name (registry w) ≡ some p) (f : (w.event_at p).mu ≡ free) where
    abbrev locked_event : World
    locked_event =
        put_back w p
          (record { self = record (w.event_at p) { mu = held_for_writing }; runtime = w.runtime })

    lock-event :
        on_event p (on_mu lock) (with_mu w held_for_writing)
        ≡ done tt (with_mu locked_event held_for_writing)
    unfolding on_event
    lock-event = ground arith

    -- In a valid world, `DeregisterEvent` of a registered name whose event has a free mutex
    -- and a context returns the error that it is running; nothing changes but the event's
    -- mutex, which stays held for writing.
    pub deregister_event-running :
        {c : ℕ}
        → (w.event_at p).ctx ≡ some c
        → deregister_event name w
          ≡ done
              (some (wrap debugging_event (codes "event " ++ name ++ codes " is running\n")))
              locked_event
    unfolding deregister_event
    deregister_event-running c =
        let (n, at, removed) =
          find_index-found w.event_at name w.manager.registered_events 0 p v.names found in
        ground (arith, lock-event, ==_iff p p)

    abbrev without : ℕ → World
    without n =
        let l = w.manager.registered_events in
        record locked_event {
          manager = record w.manager { registered_events = take n l ++ drop (n + 1) l };
        }

    deregister_event-without :
        (n : ℕ)
        → (w.event_at p).ctx ≡ none
        → find_index (named w.event_at name) 0 none w.manager.registered_events ≡ some (n, p)
        → deregister_event name w ≡ done none (without n)
    unfolding deregister_event
    deregister_event-without n idle at = ground (arith, lock-event, ==_iff p p)

    without-IsRemoved :
        (n : ℕ)
        → (let l = w.manager.registered_events in
            entries w.event_at (take n l ++ drop (n + 1) l) ≡ erase name (registry w))
        → IsRemoved w name p (without n)
    without-IsRemoved n removed =
        let l = w.manager.registered_events in
        let left : registry (without n) ≡ erase name (registry w) =
          entries-update w.event_at p (record (w.event_at p) { mu = held_for_writing })
            (take n l ++ drop (n + 1) l) refl
          ∙ removed in
        record {
          left = left;
          others = λ q d. ground arith;
          held = rw ((==_iff p p).1 refl);
          runtime_same = refl;
          valid = record {
            unlocked = v.unlocked;
            exist =
                All-append _ (take n l) (drop (n + 1) l) (All-take _ n l v.exist)
                  (All-drop _ (n + 1) l v.exist);
            names = rw left (erase-NodupKeys name (registry w) v.names);
          };
        }

    -- In a valid world, `DeregisterEvent` of a registered name whose event has a free mutex
    -- and no context returns no error; it erases exactly that name from the registry, keeps
    -- the other events and the runtime, and leaves the world valid. The removed event's mutex
    -- stays held for writing.
    pub deregister_event-idle :
        (w.event_at p).ctx ≡ none
        → (w' : World) × (deregister_event name w ≡ done none w') × IsRemoved w name p w'
    deregister_event-idle idle =
        let (n, at, removed) =
          find_index-found w.event_at name w.manager.registered_events 0 p v.names found in
        (
          without n,
          deregister_event-without n idle (at ∙ ap (λ i. some (i, p)) (omega arith)),
          without-IsRemoved n removed,
        )

    -- What `DeregisterEvent` does, by the event's context.
    abbrev pub Deregisters : Option ℕ → Type 0
    Deregisters none =
        (w' : World) × (deregister_event name w ≡ done none w') × IsRemoved w name p w'
    Deregisters (some c) =
        deregister_event name w
        ≡ done (some (wrap debugging_event (codes "event " ++ name ++ codes " is running\n")))
            locked_event

    -- In a valid world, take a registered name whose event has a free mutex. If the event has
    -- no context, `DeregisterEvent` returns no error, erases exactly that name from the
    -- registry, keeps the other events and the runtime, and leaves the world valid. If it has
    -- one, `DeregisterEvent` returns the error that it is running, and nothing else changes.
    -- In both cases the event's mutex stays held for writing.
    pub deregister_event-Deregisters : Deregisters (w.event_at p).ctx
    deregister_event-Deregisters = elim (Option-cases (w.event_at p).ctx) [
      | inl e ↦ rw e (deregister_event-idle e)
      | inr (c, e) ↦ rw e (deregister_event-running e)
    ]
