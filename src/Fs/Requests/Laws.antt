-- ===== src/Fs/Requests/Laws.antt =====
-- On one request to the directory of events, of fs/events.go.
use jdwpfs.Base.{
  ℕ, true, ◌≡◌, refl, inl, inr, arith, Bytes, codes, text_eq, Option-cases, Bool-cases,
}
use jdwpfs.Base.Dict.{lookup}
use jdwpfs.Go.Sync.{done, M, ◌>>=◌}
use jdwpfs.Debug.Plugins.Laws.{Mistyped}
use jdwpfs.Debug.Manager.{World}
use jdwpfs.Debug.Manager.Registry.{registry}
use jdwpfs.Fs.Node.{Reply, reply, fail, erofs, Mode}
use jdwpfs.Fs.Control
use jdwpfs.Fs.Kind
use jdwpfs.Fs.Policy
use jdwpfs.Fs.Hooks
use jdwpfs.Fs.Location
use jdwpfs.Fs.Location.{new_event_location_directory}
use jdwpfs.Fs.EventDir
use jdwpfs.Fs.EventDir.{JdwpEventDir, Child, control, kind, suspend_policy, hooks, location}
use jdwpfs.Fs.Events
use jdwpfs.Fs.Events.{JdwpEventsMasterDir}
use jdwpfs.Fs.Events.Laws.{look_up-registry, dir_of}
use jdwpfs.Fs.Safe.{IsSound, Safe, Grows-refl, Safe-same, bind-Safe}
use jdwpfs.Fs.Safe.Files.{
  write_control-Safe, read_control-Safe, read_kind-Safe, read_policy-Safe, write_kind-Safe,
  write_policy-Safe,
}
use jdwpfs.Fs.Safe.Directories.{
  EmptyPath, mkdir-Safe, readdir-Safe, symlink_hook-Safe, look_up_hook-Safe, readdir_hook-Safe,
  look_up_location-Safe, readdir_location-Safe, unlink_location-Safe, symlink_location-Safe,
}
use jdwpfs.Fs.Requests.{
  Setting, Request, make_event, list_events, unlink_entry, read_file, write_file, list_links,
  follow_link, make_link, remove_link, Response, answer, write_child, read_child, list_child,
  follow_child, link_child, unlink_child, at_event, at_child, on_found, serve,
}

-- Why a request may end the process: a plugin whose symbol is no entry point, or a link to the mount
-- point, possibly with slashes behind it.
abbrev pub Crashes : Setting → JdwpEventsMasterDir → Request → Type 0
Crashes s d (write_file event entry text) = Mistyped s.host
Crashes s d (make_link event entry target name) = EmptyPath s.paths d.absolute_mountpoint target
Crashes s d _ = ⊥

answer-Safe :
    {A : Type 0} (Crash : Type 0) (f : A → Response) (w : World) (m : M World (Reply A))
    → Safe Crash w (m w)
    → Safe Crash w (answer f m w)
unfolding answer
answer-Safe Crash f w m h = bind-Safe Crash w m _ h (λ r w' q s'. (s', Grows-refl w'))

-- The mount point that a node knows.
abbrev KnowsMount : Bytes → Child → Type 0
KnowsMount mountpoint (location l) = l.absolute_mountpoint ≡ mountpoint
KnowsMount mountpoint _ = Unit {0}

abbrev FindsMount : Bytes → Reply (Mode × Child) → Type 0
FindsMount mountpoint (fail e) = Unit {0}
FindsMount mountpoint (reply (_, child)) = KnowsMount mountpoint child

look_up-FindsMount :
    (dir : JdwpEventDir) (entry : Bytes)
    → FindsMount dir.absolute_mountpoint (EventDir.look_up dir entry)
unfolding EventDir.look_up new_event_location_directory
look_up-FindsMount dir entry = elim (Bool-cases (text_eq entry (codes "control"))) [
  | inl e ↦ rw e tt
  | inr e ↦ elim (Bool-cases (text_eq entry (codes "kind"))) [
    | inl e1 ↦ rw (e, e1) tt
    | inr e1 ↦ elim (Bool-cases (text_eq entry (codes "suspendPolicy"))) [
      | inl e2 ↦ rw (e, e1, e2) tt
      | inr e2 ↦ elim (Bool-cases (text_eq entry (codes "hooks"))) [
        | inl e3 ↦ rw (e, e1, e2, e3) tt
        | inr e3 ↦ elim (Bool-cases (text_eq entry (codes "location"))) [
          | inl e4 ↦ rw (e, e1, e2, e3, e4) refl
          | inr e4 ↦ rw (e, e1, e2, e3, e4) tt
        ]
      ]
    ]
  ]
]

module _ (Crash : Type 0) (d : JdwpEventsMasterDir) (w : World) (s : IsSound w) where
  at_event-Safe :
      (event : Bytes) (f : JdwpEventDir → M World Response)
      → ((p : ℕ) → Safe Crash w (f (dir_of d event p) w))
      → Safe Crash w (at_event d event f w)
  unfolding at_event
  at_event-Safe event f h = elim (Option-cases (lookup event (registry w))) [
    | inl e ↦ rw (look_up-registry d w event s.valid, ◌>>=◌, e) (s, Grows-refl w)
    | inr (p, e) ↦ rw (look_up-registry d w event s.valid, ◌>>=◌, e) (h p)
  ]

  at_child-Safe :
      (event entry : Bytes) (f : Child → M World Response)
      → ((child : Child) → KnowsMount d.absolute_mountpoint child → Safe Crash w (f child w))
      → Safe Crash w (at_child d event entry f w)
  unfolding at_child on_found
  at_child-Safe event entry f h = at_event-Safe event _ (λ p.
      go (dir_of d event p) (EventDir.look_up (dir_of d event p) entry)
        (look_up-FindsMount (dir_of d event p) entry))
    where
      go :
          (dir : JdwpEventDir) (found : Reply (Mode × Child))
          → FindsMount d.absolute_mountpoint found
          → Safe Crash w (on_found f found w)
      go dir (fail e) m = (s, Grows-refl w)
      go dir (reply (mode, child)) m = h child m

unlink-registered :
    (dir : JdwpEventDir) (name : Bytes) (w : World)
    → dir.registered ≡ true
    → EventDir.unlink dir name w ≡ done (fail erofs, dir) w
unfolding EventDir.unlink
unlink-registered dir name w h = ground arith

module _ (st : Setting) (d : JdwpEventsMasterDir) (w : World) (s : IsSound w) where
  write_child-Safe :
      (child : Child) (text : Bytes) → Safe (Mistyped st.host) w (write_child st child text w)
  unfolding write_child
  write_child-Safe (control c) text =
      answer-Safe _ _ w (Control.write st.host st.ranging c text)
        (write_control-Safe st.host st.ranging w c text s)
  write_child-Safe (kind c) text =
      answer-Safe _ _ w (Kind.write c text) (write_kind-Safe _ w s c text)
  write_child-Safe (suspend_policy c) text =
      answer-Safe _ _ w (Policy.write c text) (write_policy-Safe _ w s c text)
  write_child-Safe (hooks c) text = (s, Grows-refl w)
  write_child-Safe (location c) text = (s, Grows-refl w)

  read_child-Safe : (child : Child) (offset : ℕ) → Safe ⊥ w (read_child st child offset w)
  unfolding read_child
  read_child-Safe (control c) offset =
      answer-Safe _ _ w (Control.read c offset) (read_control-Safe _ w s c offset)
  read_child-Safe (kind c) offset =
      answer-Safe _ _ w (Kind.read st.kind_string c offset)
        (read_kind-Safe _ w s st.kind_string c offset)
  read_child-Safe (suspend_policy c) offset =
      answer-Safe _ _ w (Policy.read st.policy_string c offset)
        (read_policy-Safe _ w s st.policy_string c offset)
  read_child-Safe (hooks c) offset = (s, Grows-refl w)
  read_child-Safe (location c) offset = (s, Grows-refl w)

  list_child-Safe : (child : Child) → Safe ⊥ w (list_child st child w)
  unfolding list_child
  list_child-Safe (control c) = (s, Grows-refl w)
  list_child-Safe (kind c) = (s, Grows-refl w)
  list_child-Safe (suspend_policy c) = (s, Grows-refl w)
  list_child-Safe (hooks c) =
      answer-Safe _ _ w (Hooks.readdir st.hooks_order c) (readdir_hook-Safe _ w s st.hooks_order c)
  list_child-Safe (location c) =
      answer-Safe _ _ w (Location.readdir st.modifiers_order c)
        (readdir_location-Safe _ w s st.modifiers_order c)

  follow_child-Safe : (child : Child) (name : Bytes) → Safe ⊥ w (follow_child st child name w)
  unfolding follow_child
  follow_child-Safe (control c) name = (s, Grows-refl w)
  follow_child-Safe (kind c) name = (s, Grows-refl w)
  follow_child-Safe (suspend_policy c) name = (s, Grows-refl w)
  follow_child-Safe (hooks c) name =
      answer-Safe _ _ w (Hooks.look_up st.hooks_order c name)
        (look_up_hook-Safe _ w s st.hooks_order c name)
  follow_child-Safe (location c) name =
      answer-Safe _ _ w (Location.look_up c name) (look_up_location-Safe _ w s c name)

  unlink_child-Safe : (child : Child) (name : Bytes) → Safe ⊥ w (unlink_child st child name w)
  unfolding unlink_child
  unlink_child-Safe (control c) name = (s, Grows-refl w)
  unlink_child-Safe (kind c) name = (s, Grows-refl w)
  unlink_child-Safe (suspend_policy c) name = (s, Grows-refl w)
  unlink_child-Safe (hooks c) name = (s, Grows-refl w)
  unlink_child-Safe (location c) name =
      answer-Safe _ _ w (Location.unlink c name) (unlink_location-Safe _ w s c name)

  link_child-Safe :
      (mountpoint : Bytes) (child : Child) (target name : Bytes)
      → KnowsMount mountpoint child
      → Safe (EmptyPath st.paths mountpoint target) w (link_child st child target name w)
  unfolding link_child
  link_child-Safe mountpoint (control c) target name m = (s, Grows-refl w)
  link_child-Safe mountpoint (kind c) target name m = (s, Grows-refl w)
  link_child-Safe mountpoint (suspend_policy c) target name m = (s, Grows-refl w)
  link_child-Safe mountpoint (hooks c) target name m =
      answer-Safe _ _ w (Hooks.symlink c target name) (symlink_hook-Safe _ w s c target name)
  link_child-Safe mountpoint (location c) target name m =
      answer-Safe _ _ w (Location.symlink st.paths st.jvm c target name)
        (rw (← m) (symlink_location-Safe st.paths st.jvm w c target name s))

  -- In a sound world, where the world is valid, every event is settled and no key stands twice
  -- in its maps, no request to the directory of events waits for ever, and if it returns, the
  -- world is sound again and its registry is the old one, possibly with more entries behind.
  -- The process ends only for a write to a file while some plugin's symbol is not an entry
  -- point, or for a link whose target resolves to the mount point, possibly with slashes behind
  -- it.
  pub serve-Safe : (r : Request) → Safe (Crashes st d r) w (serve st d r w)
  unfolding serve
  serve-Safe (make_event name) = answer-Safe _ _ w (Events.mkdir d name) (mkdir-Safe _ w s d name)
  serve-Safe list_events = answer-Safe _ _ w (Events.readdir d) (readdir-Safe _ w s d)
  serve-Safe (unlink_entry event name) = at_event-Safe _ d w s event _ (λ p.
      bind-Safe _ w (EventDir.unlink (dir_of d event p) name) _
        (Safe-same _ w (EventDir.unlink (dir_of d event p) name) _ s
          (unlink-registered (dir_of d event p) name w refl))
        (λ r w' q s'. (s', Grows-refl w')))
  serve-Safe (read_file event entry offset) =
      at_child-Safe _ d w s event entry _ (λ child _. read_child-Safe child offset)
  serve-Safe (write_file event entry text) =
      at_child-Safe _ d w s event entry _ (λ child _. write_child-Safe child text)
  serve-Safe (list_links event entry) =
      at_child-Safe _ d w s event entry _ (λ child _. list_child-Safe child)
  serve-Safe (follow_link event entry name) =
      at_child-Safe _ d w s event entry _ (λ child _. follow_child-Safe child name)
  serve-Safe (make_link event entry target name) =
      at_child-Safe _ d w s event entry _
        (λ child m. link_child-Safe d.absolute_mountpoint child target name m)
  serve-Safe (remove_link event entry name) =
      at_child-Safe _ d w s event entry _ (λ child _. unlink_child-Safe child name)
