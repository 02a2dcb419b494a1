-- ===== src/Debug/Manager/Registry.antt =====
-- The registry as a map from names to events, and what the operations of debug/event_manager.go do
-- to that map.
use mathlib.Core.Option.{or_else}
use mathlib.Core.Path.{ap₂}
use mathlib.Core.List.{map-append}
use jdwpfs.Base.{
  Option-cases, inl, inr, ℕ, suc, List, [], ◌∷◌, ◌++◌, ◌<◌, map, false, Option, none, some, ◌≡◌,
  ◌≢◌, refl, sym, ap, ◌∙◌, arith, Bytes, codes, text_eq, last_match, last_match-or_else, All,
  All-append, ==_iff, if◌then◌else◌, text_eq_iff,
}
use jdwpfs.Base.Dict.{Dict, lookup, insert}
use jdwpfs.Base.Dict.Nodup.{NodupKeys, insert-eq-append, insert-NodupKeys}
use jdwpfs.Go.Sync.{done, free, held_for_writing, RwMutex}
use jdwpfs.Debug.Errors.{wrap, debugging_event, Result, ok, err}
use jdwpfs.Debug.Event.{DebuggingEvent, new_stub_debugging_event, set_conn}
use jdwpfs.Debug.Manager.{World, update, on_event, find_event, create_event, get_event}

-- A loop that compares names is a lookup, where no name stands twice.
pub last_match-lookup :
    {A : Type 0} (name_of : A → Bytes) (k : Bytes) (xs : List A)
    → NodupKeys (map (λ x. (name_of x, x)) xs)
    → last_match (λ x. text_eq (name_of x) k) none xs ≡ lookup k (map (λ x. (name_of x, x)) xs)
unfolding last_match lookup or_else
last_match-lookup name_of k [] u = refl
last_match-lookup name_of k (x ∷ xs) (fresh, u) = ground (
  arith,
  last_match-or_else (λ y. text_eq (name_of y) k) xs
      (if text_eq (name_of x) k then some x else none),
  last_match-lookup name_of k xs u,
  text_eq_iff (name_of x) k,
)

-- The names of the registered events, each with its event.
abbrev pub entries : (ℕ → DebuggingEvent) → List ℕ → Dict ℕ
entries events = map (λ p. ((events p).name, p))

abbrev pub registry : World → Dict ℕ
registry w = entries w.event_at w.manager.registered_events

-- The manager's mutex is free, the registered events exist, and no name stands twice.
pub record IsValid (w : World) : Type 0 where
  pub unlocked : w.manager.mu ≡ free
  pub exist : All (λ p. p < w.next_event) w.manager.registered_events
  pub names : NodupKeys (registry w)

pub find_event-lookup :
    (w : World) (name : Bytes) → IsValid w → find_event name w ≡ lookup name (registry w)
unfolding find_event
find_event-lookup w name v = last_match-lookup (λ p. (w.event_at p).name) name _ v.names

-- The world with the manager's mutex in another state, which the loop does not read.
abbrev pub with_mu : World → RwMutex → World
with_mu w mu = record w { manager = record w.manager { mu = mu } }

pub find_event-with_mu :
    (w : World) (name : Bytes) (mu : RwMutex) → find_event name (with_mu w mu) ≡ find_event name w
unfolding find_event
find_event-with_mu w name mu = refl

-- What `GetEvent` returns for what the map of names has.
abbrev pub looked_up : Bytes → Option ℕ → Result ℕ
looked_up name none = err (wrap debugging_event (codes "unable to find event with name " ++ name))
looked_up name (some p) = ok p

-- In a valid world, `GetEvent` is the lookup of the name in the registry: it returns the event of
-- that name, or the error that there is none, and changes nothing.
pub get_event-lookup :
    (w : World) (name : Bytes)
    → IsValid w
    → get_event name w ≡ done (looked_up name (lookup name (registry w))) w
unfolding get_event
get_event-lookup w name v = ground (
  arith,
  find_event-with_mu w name (record { readers = 1; writer = false }),
  find_event-lookup w name v,
)

entries-append :
    (f : ℕ → DebuggingEvent) (xs ys : List ℕ) → entries f (xs ++ ys) ≡ entries f xs ++ entries f ys
entries-append f xs ys = map-append (λ p. ((f p).name, p)) xs ys

-- A change of an event that keeps its name keeps the map.
pub entries-update :
    (f : ℕ → DebuggingEvent) (p : ℕ) (e : DebuggingEvent) (l : List ℕ)
    → e.name ≡ (f p).name
    → entries (update f p e) l ≡ entries f l
entries-update f p e [] h = refl
entries-update f p e (q ∷ l) h = ap₂ (λ n m. (n, q) ∷ m) (ground arith) (entries-update f p e l h)

-- So does a new event, whose number no other has.
entries-update_new :
    (f : ℕ → DebuggingEvent) (p : ℕ) (e : DebuggingEvent) (l : List ℕ)
    → All (λ q. q < p) l
    → entries (update f p e) l ≡ entries f l
entries-update_new f p e [] h = refl
entries-update_new f p e (q ∷ l) (hq, h) =
    ap₂ (λ n m. (n, q) ∷ m) (ground arith) (entries-update_new f p e l h)

All-suc : (n : ℕ) (l : List ℕ) → All (λ q. q < n) l → All (λ q. q < suc n) l
All-suc n [] h = tt
All-suc n (q ∷ l) (hq, h) = (omega arith, All-suc n l h)

-- The world behind a `CreateEvent` of a new name.
pub record IsCreated (w : World) (name : Bytes) (w' : World) : Type 0 where
  pub event :
      w'.event_at w.next_event
      ≡ record (new_stub_debugging_event name) { conn = w.manager.jdwp_connection }
  pub others : (q : ℕ) → q ≢ w.next_event → w'.event_at q ≡ w.event_at q
  pub entered : registry w' ≡ insert name w.next_event (registry w)
  pub runtime_same : w'.runtime ≡ w.runtime
  pub valid : IsValid w'

module _ (w : World) (name : Bytes) (v : IsValid w) where
  abbrev stub : DebuggingEvent
  stub = new_stub_debugging_event name

  abbrev connected : DebuggingEvent
  connected = record stub { conn = w.manager.jdwp_connection }

  -- The world when the new event is connected, under the manager's lock.
  abbrev added : World
  added = record (with_mu w held_for_writing) {
    next_event = suc w.next_event;
    event_at = update w.event_at w.next_event stub;
  }

  set_conn-added :
      on_event w.next_event (set_conn w.manager.jdwp_connection) added
      ≡ done tt (record added { event_at = update added.event_at w.next_event connected })
  unfolding on_event set_conn new_stub_debugging_event
  set_conn-added = ground (arith, ==_iff w.next_event w.next_event)

  abbrev created : World
  created = record {
    manager = record w.manager {
      registered_events = w.manager.registered_events ++ w.next_event ∷ [];
    };
    next_event = suc w.next_event;
    event_at = update added.event_at w.next_event connected;
    runtime = w.runtime;
  }

  create_event-created :
      lookup name (registry w) ≡ none → create_event name w ≡ done (ok w.next_event) created
  unfolding create_event
  create_event-created h = ground (
    arith,
    find_event-with_mu w name held_for_writing,
    find_event-lookup w name v,
    set_conn-added,
  )

  registry-created :
      lookup name (registry w) ≡ none → registry created ≡ insert name w.next_event (registry w)
  unfolding new_stub_debugging_event
  registry-created h =
      let p = w.next_event in
      let l = w.manager.registered_events in
      let here = (==_iff p p).1 refl in
      let old_names : entries created.event_at l ≡ registry w =
        entries-update added.event_at p connected l (rw here)
        ∙ entries-update_new w.event_at p stub l v.exist in
      let new_name : entries created.event_at (p ∷ []) ≡ (name, p) ∷ [] =
        ap (λ n. (n, p) ∷ []) (rw here) in
      entries-append created.event_at l (p ∷ [])
      ∙ ap₂ ◌++◌ old_names new_name
      ∙ sym (insert-eq-append name p (registry w) h)

  created-IsCreated : lookup name (registry w) ≡ none → IsCreated w name created
  created-IsCreated h = record {
    event = ground (arith, ==_iff w.next_event w.next_event);
    others = λ q d. ground arith;
    entered = registry-created h;
    runtime_same = refl;
    valid = record {
      unlocked = v.unlocked;
      exist = All-append _ w.manager.registered_events _ (All-suc _ _ v.exist) (omega arith);
      names = rw (registry-created h) (insert-NodupKeys name _ (registry w) v.names);
    };
  }

  -- In a valid world, where the manager's mutex is free, the registered events exist and no two
  -- have the same name, `CreateEvent` of a name that is not registered returns a new event: it
  -- is the stub of that name connected to the manager's connection, the registry gains that
  -- name for it, all other events and the runtime are unchanged, and the world is valid again.
  pub create_event-new :
      lookup name (registry w) ≡ none
      → (w' : World) × (create_event name w ≡ done (ok w.next_event) w') × IsCreated w name w'
  create_event-new h = (created, create_event-created h, created-IsCreated h)

  -- In a valid world, `CreateEvent` of a registered name returns the error that it already
  -- exists, and changes nothing.
  pub create_event-old :
      {p : ℕ}
      → lookup name (registry w) ≡ some p
      → create_event name w
        ≡ done
            (err
              (wrap debugging_event (codes "event with name " ++ name ++ codes " already exists")))
            w
  unfolding create_event
  create_event-old h =
      ground (arith, find_event-with_mu w name held_for_writing, find_event-lookup w name v)

  -- What `CreateEvent` does, by the event registered under the name.
  abbrev pub Creates : Option ℕ → Type 0
  Creates none =
      (w' : World) × (create_event name w ≡ done (ok w.next_event) w') × IsCreated w name w'
  Creates (some p) =
      create_event name w
      ≡ done
          (err (wrap debugging_event (codes "event with name " ++ name ++ codes " already exists")))
          w

  -- In a valid world, where the manager's mutex is free, the registered events exist and no two
  -- have the same name, `CreateEvent` of a name that is not registered returns a new event: it
  -- is the stub of that name connected to the manager's connection, the registry gains that
  -- name for it, all other events and the runtime are unchanged, and the world is valid again.
  -- `CreateEvent` of a registered name returns the error that it already exists, and changes
  -- nothing.
  pub create_event-Creates : Creates (lookup name (registry w))
  create_event-Creates = elim (Option-cases (lookup name (registry w))) [
    | inl e ↦ rw e (create_event-new e)
    | inr (p, e) ↦ rw e (create_event-old e)
  ]
