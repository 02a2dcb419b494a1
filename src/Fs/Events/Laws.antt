-- ===== src/Fs/Events/Laws.antt =====
-- On the handlers of fs/events.go.
use jdwpfs.Base.{
  ℕ, List, [], ◌∷◌, map, true, Option, none, some, ◌≡◌, inl, inr, refl, arith, Bytes, text_eq,
  text_eq_refl, text_eq_iff, Option-cases, Bool-cases,
}
use jdwpfs.Base.Dict.{lookup, lookup-insert}
use jdwpfs.Base.Dict.Nodup.{keys}
use jdwpfs.Go.Sync.{done}
use jdwpfs.Debug.Errors.{ok}
use jdwpfs.Debug.Event.{DebuggingEvent}
use jdwpfs.Debug.Manager.{World, get_all_events}
use jdwpfs.Debug.Manager.Registry.{
  IsValid, IsCreated, registry, entries, get_event-lookup, create_event-new, create_event-old,
}
use jdwpfs.Fs.Node.{Reply, reply, fail, enoent, eaddrnotavail, DirEntry, regular}
use jdwpfs.Fs.EventDir.{JdwpEventDir, event_dir_of}
use jdwpfs.Fs.Events.{JdwpEventsMasterDir, readdir, mkdir, look_up}

-- An entry of the registry is an event of that name.
lookup-entries :
    (f : ℕ → DebuggingEvent) (l : List ℕ) (name : Bytes) (p : ℕ)
    → lookup name (entries f l) ≡ some p
    → (f p).name ≡ name
unfolding lookup
lookup-entries f [] name p h = cc
lookup-entries f (q ∷ l) name p h = elim (Bool-cases (text_eq (f q).name name)) [
  | inl e ↦ ground (arith, text_eq_iff (f q).name name)
  | inr e ↦ lookup-entries f l name p (ground arith)
]

module _ (d : JdwpEventsMasterDir) where
  -- The directory of an event.
  abbrev pub dir_of : Bytes → ℕ → JdwpEventDir
  dir_of name p = record {
    registered = true;
    name = name;
    absolute_mountpoint = d.absolute_mountpoint;
    event = p;
  }

  abbrev pub shown : Bytes → Option ℕ → Reply JdwpEventDir
  shown name none = fail enoent
  shown name (some p) = reply (dir_of name p)

  event_dir_of-found :
      (w : World) (name : Bytes) (p : ℕ)
      → IsValid w
      → lookup name (registry w) ≡ some p
      → event_dir_of name d.absolute_mountpoint w ≡ done (ok (dir_of name p)) w
  unfolding event_dir_of
  event_dir_of-found w name p v e = ground (arith, get_event-lookup w name v)

  -- In a valid world, `Lookup` in the directory of all events replies with the directory of the
  -- event that the registry has under the name, or ENOENT if it has none, and changes nothing.
  pub look_up-registry :
      (w : World) (name : Bytes)
      → IsValid w
      → look_up d name w ≡ done (shown name (lookup name (registry w))) w
  unfolding look_up
  look_up-registry w name v = elim (Option-cases (lookup name (registry w))) [
    | inl e ↦ ground (arith, get_event-lookup w name v)
    | inr (p, e) ↦ ground (
      arith,
      get_event-lookup w name v,
      lookup-entries w.event_at w.manager.registered_events name p e,
      event_dir_of-found w name p v e,
    )
  ]

  names_listed :
      (f : ℕ → DebuggingEvent) (l : List ℕ) (entry : ℕ → DirEntry)
      → ((p : ℕ) → (entry p).name ≡ (f p).name)
      → map (λ e. e.name) (map entry l) ≡ keys (entries f l)
  names_listed f [] entry h = refl
  names_listed f (p ∷ l) entry h = rw (h p, names_listed f l entry h)

  -- In a valid world, `Readdir` of the directory of all events lists the names of the registry,
  -- each once and in the registry's order, and changes nothing.
  pub readdir-registry :
      (w : World)
      → IsValid w
      → (listing : List DirEntry) × (readdir d w ≡ done (reply listing) w)
        × (map (λ e. e.name) listing ≡ keys (registry w))
  unfolding readdir get_all_events
  readdir-registry w v =
      let entry : ℕ → DirEntry = λ p. record { mode = regular; name = (w.event_at p).name } in
      (
        map entry w.manager.registered_events,
        ground (arith, v.unlocked),
        names_listed w.event_at w.manager.registered_events entry (λ p. refl),
      )

  -- In a valid world, `Mkdir` of a name that is not registered replies with the directory of a
  -- new event of that name, the event is entered in the registry as `CreateEvent` promises, and
  -- a `Lookup` of the name afterwards replies with the same directory and changes nothing.
  pub mkdir-new :
      (w : World) (name : Bytes)
      → IsValid w
      → lookup name (registry w) ≡ none
      → (w' : World) × (mkdir d name w ≡ done (reply (dir_of name w.next_event)) w')
        × IsCreated w name w'
        × (look_up d name w' ≡ done (reply (dir_of name w.next_event)) w')
  unfolding mkdir
  mkdir-new w name v h =
      let (w', made, created) = create_event-new w name v h in
      let at : lookup name (registry w') ≡ some w.next_event = ground (
        arith,
        created.entered,
        lookup-insert name name w.next_event (registry w),
        text_eq_refl name,
      ) in
      (
        w',
        ground (arith, made, event_dir_of-found w' name w.next_event created.valid at),
        created,
        rw (look_up-registry w' name created.valid, at) refl,
      )

  -- In a valid world, `Mkdir` of a registered name replies EADDRNOTAVAIL and changes nothing.
  pub mkdir-old :
      (w : World) (name : Bytes) {p : ℕ}
      → IsValid w
      → lookup name (registry w) ≡ some p
      → mkdir d name w ≡ done (fail eaddrnotavail) w
  unfolding mkdir
  mkdir-old w name v h = ground (arith, create_event-old w name v h)

  -- What `Mkdir` does, by the event registered under the name.
  abbrev pub Makes : World → Bytes → Option ℕ → Type 0
  Makes w name none =
      (w' : World) × (mkdir d name w ≡ done (reply (dir_of name w.next_event)) w')
      × IsCreated w name w'
      × (look_up d name w' ≡ done (reply (dir_of name w.next_event)) w')
  Makes w name (some p) = mkdir d name w ≡ done (fail eaddrnotavail) w

  -- In a valid world, `Mkdir` of a name that is not registered replies with the directory of a
  -- new event of that name, the event is entered in the registry as `CreateEvent` promises, and
  -- a `Lookup` of the name afterwards replies with the same directory and changes nothing.
  -- `Mkdir` of a registered name replies EADDRNOTAVAIL and changes nothing.
  pub mkdir-Makes : (w : World) (name : Bytes) → IsValid w → Makes w name (lookup name (registry w))
  mkdir-Makes w name v = elim (Option-cases (lookup name (registry w))) [
    | inl e ↦ rw e (mkdir-new w name v e)
    | inr (p, e) ↦ rw e (mkdir-old w name v e)
  ]
