-- ===== src/Fs/Safe/Directories.antt =====
-- The handlers of the directories of events: fs/event_control_files.go, fs/events.go.
use jdwpfs.Base.{
  ap, All, ◌++◌, none, some, ◌≡◌, refl, ◌∙◌, inl, inr, arith, Bytes, Option-cases, Bool-cases, ◌==◌,
  ==_iff,
}
use jdwpfs.Base.Dict.{Dict, lookup}
use jdwpfs.Base.Dict.Nodup.{insert-eq-append}
use jdwpfs.Go.Sync.{crashed, pure, ◌>>=◌}
use jdwpfs.Debug.Event.{
  ModifierDescriptor, new_stub_debugging_event, get_hook_descriptors, get_modifiers, set_modifier,
  delete_modifier, set_hook_descriptor,
}
use jdwpfs.Debug.Manager.{World, on_event}
use jdwpfs.Debug.Manager.Registry.{IsCreated, registry}
use jdwpfs.Fs.Node.{reply, fail, Reply-cases, enoent, mem_symlink}
use jdwpfs.Fs.Debuggee.{Debuggee}
use jdwpfs.Fs.Hooks
use jdwpfs.Fs.Location
use jdwpfs.Fs.Location.{Paths, slash, modifier_of}
use jdwpfs.Fs.Location.Slashes.{modifier_of-none}
use jdwpfs.Fs.Events
use jdwpfs.Fs.Events.Laws.{mkdir-new, mkdir-old, readdir-registry}
use jdwpfs.Fs.Safe.{IsSound, Safe, Grows-refl, receiver-IsOk, Safe-same, on_event-Safe, bind-Safe}
use jdwpfs.Fs.Safe.Methods.{
  get_hook_descriptors-Tame, get_modifiers-Tame, set_modifier-Tame, delete_modifier-Tame,
  set_hook_descriptor-Tame,
}

-- A new event is idle, unlocked and without hooks and modifiers.
created-IsSound : (w w' : World) (name : Bytes) → IsSound w → IsCreated w name w' → IsSound w'
unfolding new_stub_debugging_event
created-IsSound w w' name s c = record {
  valid = c.valid;
  settled = λ q. elim (Bool-cases (q == w.next_event)) [
    | inl e ↦ record {
      unlocked = rw ((==_iff q w.next_event).0 e, c.event) refl;
      paired = rw ((==_iff q w.next_event).0 e, c.event) refl;
    }
    | inr e ↦
        let same = c.others q (λ h. ground (arith, ==_iff q w.next_event, h)) in
        record { unlocked = rw same (s.settled q).unlocked; paired = rw same (s.settled q).paired }
  ];
  maps = λ q. elim (Bool-cases (q == w.next_event)) [
    | inl e ↦ record {
      modifiers = rw ((==_iff q w.next_event).0 e, c.event) tt;
      hooks = rw ((==_iff q w.next_event).0 e, c.event) tt;
    }
    | inr e ↦
        let same = c.others q (λ h. ground (arith, ==_iff q w.next_event, h)) in
        record { modifiers = rw same (s.maps q).modifiers; hooks = rw same (s.maps q).hooks }
  ];
}

-- A target that resolves to the mount point, possibly with slashes behind it: its path has no
-- component behind the mount point.
abbrev pub EmptyPath : Paths → Bytes → Bytes → Type 0
EmptyPath paths mountpoint target =
    (p : Bytes) × (slashes : Bytes) × (paths.abs target ≡ some p)
    × (paths.eval_symlinks p ≡ some (mountpoint ++ slashes))
    × All (λ c. c ≡ slash) slashes

module _ (Crash : Type 0) (w : World) (s : IsSound w) where
  pub mkdir-Safe :
      (d : Events.JdwpEventsMasterDir) (name : Bytes) → Safe Crash w (Events.mkdir d name w)
  mkdir-Safe d name = elim (Option-cases (lookup name (registry w))) [
    | inl e ↦
        let (w', made, created, _) = mkdir-new d w name s.valid e in
        rw made (
          created-IsSound w w' name s created,
          (_, created.entered ∙ insert-eq-append name w.next_event (registry w) e),
        )
    | inr (p, e) ↦ Safe-same Crash w (Events.mkdir d name) _ s (mkdir-old d w name s.valid e)
  ]

  pub readdir-Safe : (d : Events.JdwpEventsMasterDir) → Safe Crash w (Events.readdir d w)
  readdir-Safe d =
      let (listing, q, _) = readdir-registry d w s.valid in
      Safe-same Crash w (Events.readdir d) _ s q

  pub symlink_hook-Safe :
      (d : Hooks.EventHooksDirectory) (target name : Bytes)
      → Safe Crash w (Hooks.symlink d target name w)
  unfolding Hooks.symlink
  symlink_hook-Safe d target name =
      bind-Safe _ w (on_event d.event (set_hook_descriptor name target)) _
        (on_event-Safe _ w d.event (set_hook_descriptor name target) s
          (set_hook_descriptor-Tame _ _ (receiver-IsOk w d.event s) name target))
        (λ a w' q s'. (s', Grows-refl w'))

  pub look_up_hook-Safe :
      (order : Dict Bytes → Dict Bytes) (d : Hooks.EventHooksDirectory) (name : Bytes)
      → Safe Crash w (Hooks.look_up order d name w)
  unfolding Hooks.look_up
  look_up_hook-Safe order d name =
      bind-Safe _ w (on_event d.event get_hook_descriptors) _
        (on_event-Safe _ w d.event get_hook_descriptors s
          (get_hook_descriptors-Tame _ _ (receiver-IsOk w d.event s)))
        (λ a w' q s'. (s', Grows-refl w'))

  pub readdir_hook-Safe :
      (order : Dict Bytes → Dict Bytes) (d : Hooks.EventHooksDirectory)
      → Safe Crash w (Hooks.readdir order d w)
  unfolding Hooks.readdir
  readdir_hook-Safe order d =
      bind-Safe _ w (on_event d.event get_hook_descriptors) _
        (on_event-Safe _ w d.event get_hook_descriptors s
          (get_hook_descriptors-Tame _ _ (receiver-IsOk w d.event s)))
        (λ a w' q s'. (s', Grows-refl w'))

  pub look_up_location-Safe :
      (d : Location.EventLocationDirectory) (name : Bytes)
      → Safe Crash w (Location.look_up d name w)
  unfolding Location.look_up
  look_up_location-Safe d name =
      bind-Safe _ w (on_event d.event get_modifiers) _
        (on_event-Safe _ w d.event get_modifiers s
          (get_modifiers-Tame _ _ (receiver-IsOk w d.event s)))
        (λ a w' q s'. (s', Grows-refl w'))

  pub readdir_location-Safe :
      (order : Dict ModifierDescriptor → Dict ModifierDescriptor)
      (d : Location.EventLocationDirectory)
      → Safe Crash w (Location.readdir order d w)
  unfolding Location.readdir
  readdir_location-Safe order d =
      bind-Safe _ w (on_event d.event get_modifiers) _
        (on_event-Safe _ w d.event get_modifiers s
          (get_modifiers-Tame _ _ (receiver-IsOk w d.event s)))
        (λ a w' q s'. (s', Grows-refl w'))

  pub unlink_location-Safe :
      (d : Location.EventLocationDirectory) (name : Bytes) → Safe Crash w (Location.unlink d name w)
  unfolding Location.unlink
  unlink_location-Safe d name =
      bind-Safe _ w (on_event d.event get_hook_descriptors) _
        (on_event-Safe _ w d.event get_hook_descriptors s
          (get_hook_descriptors-Tame _ _ (receiver-IsOk w d.event s)))
        (λ hooks w' q s'. elim (Option-cases (lookup name hooks)) [
          | inl e ↦ rw e (s', Grows-refl w')
          | inr (t, e) ↦ rw e (
              bind-Safe Crash w' (on_event d.event (delete_modifier name)) _
                (on_event-Safe _ w' d.event (delete_modifier name) s'
                  (delete_modifier-Tame _ _ (receiver-IsOk w' d.event s') name))
                (λ a w'' q' s''. (s'', Grows-refl w'')))
        ])

module _ (Crash : Type 0) (paths : Paths) (jvm : Debuggee) (w : World)
    (d : Location.EventLocationDirectory) (target name : Bytes) (s : IsSound w) where
  resolved-Safe :
      (p path : Bytes)
      → paths.abs target ≡ some p
      → paths.eval_symlinks p ≡ some path
      → ((modifier_of jvm d.absolute_mountpoint name path ≡ none) → Crash)
      → Safe Crash w (Location.symlink paths jvm d target name w)
  unfolding Location.symlink
  resolved-Safe p path e e' crash =
      elim (Option-cases (modifier_of jvm d.absolute_mountpoint name path)) [
        | inl e'' ↦
            let q : Location.symlink paths jvm d target name w ≡ crashed = ground arith in
            rw q (crash e'')
        | inr (r, e'') ↦ elim (Reply-cases r) [
          | inr (x, q) ↦
              Safe-same Crash w (Location.symlink paths jvm d target name) (fail x) s (ground arith)
          | inl (m, q) ↦
              let made : Location.symlink paths jvm d target name w
                  ≡ (on_event d.event (set_modifier name m) >>= λ _.
                        pure (reply (mem_symlink target)))
                      w =
                ground arith in
              rw made (
                bind-Safe _ w (on_event d.event (set_modifier name m)) _
                  (on_event-Safe _ w d.event (set_modifier name m) s
                    (set_modifier-Tame _ _ (receiver-IsOk w d.event s) name m))
                  (λ a w' q' s'. (s', Grows-refl w')))
        ]
      ]

  link-Safe :
      (EmptyPath paths d.absolute_mountpoint target → Crash)
      → Safe Crash w (Location.symlink paths jvm d target name w)
  unfolding Location.symlink
  link-Safe crash = elim (Option-cases (paths.abs target)) [
    | inl e ↦
        Safe-same Crash w (Location.symlink paths jvm d target name) (fail enoent) s (ground arith)
    | inr (p, e) ↦ elim (Option-cases (paths.eval_symlinks p)) [
      | inl e' ↦
          Safe-same Crash w (Location.symlink paths jvm d target name) (fail enoent) s
            (ground arith)
      | inr (path, e') ↦ resolved-Safe p path e e' (λ e''.
          let (slashes, q, all) = modifier_of-none jvm d.absolute_mountpoint name path e'' in
          crash (p, slashes, e, e' ∙ ap some q, all))
    ]
  ]

pub symlink_location-Safe :
    (paths : Paths) (jvm : Debuggee) (w : World) (d : Location.EventLocationDirectory)
    (target name : Bytes)
    → IsSound w
    → Safe
        (EmptyPath paths d.absolute_mountpoint target)
        w
        (Location.symlink paths jvm d target name w)
symlink_location-Safe paths jvm w d target name s = link-Safe _ paths jvm w d target name s (λ c. c)
