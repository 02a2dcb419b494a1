-- ===== src/Fs/Location/Links.antt =====
-- On the links of `EventLocationDirectory` of fs/event_control_files.go.
use jdwpfs.Base.{Option-cases, inl, inr, none, some, ◌≡◌, arith, Bytes, text_eq_refl}
use jdwpfs.Base.Dict.{lookup, insert, erase, lookup-insert}
use jdwpfs.Base.Dict.Nodup.{insert-NodupKeys}
use jdwpfs.Go.Sync.{done, crashed}
use jdwpfs.Go.Split.{trim_right_byte}
use jdwpfs.Debug.Event.{
  ModifierDescriptor, Receiver, set_modifier, get_modifiers, get_hook_descriptors, delete_modifier,
}
use jdwpfs.Debug.Event.Methods.{
  set_modifier_lem, get_modifiers_lem, get_hook_descriptors_lem, HasMaps, delete_modifier_new,
  delete_modifier_old,
}
use jdwpfs.Debug.Manager.{World, receiver, put_back, on_event}
use jdwpfs.Debug.Manager.Frame.{IsSettled, on_event-done, on_event-same, on_event-put_back}
use jdwpfs.Fs.Node.{reply, fail, enoent, eacces, mem_symlink}
use jdwpfs.Fs.Debuggee.{Debuggee, ClassInfo}
use jdwpfs.Fs.Location.{
  EventLocationDirectory, Paths, slash, modifier_of, target_of, symlink, look_up, unlink,
}
use jdwpfs.Fs.Location.Laws.{IsKnown, modifier_of-target_of, modifier_of_mountpoint}

-- The receiver with one more modifier.
abbrev pub with_modifier : Receiver → ModifierDescriptor → Receiver
with_modifier r m = record r {
  self = record r.self { modifier_descriptors = insert m.name m r.self.modifier_descriptors };
}

-- The receiver with one modifier fewer.
abbrev pub without_modifier : Receiver → Bytes → Receiver
without_modifier r name = record r {
  self = record r.self { modifier_descriptors = erase name r.self.modifier_descriptors };
}

module _ (w : World) (d : EventLocationDirectory) (s : IsSettled w d.event)
    (maps : HasMaps (w.event_at d.event)) where
  -- The world in which the event has one more modifier.
  abbrev pub linked : ModifierDescriptor → World
  linked m = put_back w d.event (with_modifier (receiver w d.event) m)

  symlink-linked :
      (paths : Paths) (jvm : Debuggee) (target p path : Bytes) (m : ModifierDescriptor)
      → paths.abs target ≡ some p
      → paths.eval_symlinks p ≡ some path
      → modifier_of jvm d.absolute_mountpoint m.name path ≡ some (reply m)
      → symlink paths jvm d target m.name w ≡ done (reply (mem_symlink target)) (linked m)
  unfolding symlink
  symlink-linked paths jvm target p path m a e q = ground (
    arith,
    on_event-done d.event (set_modifier m.name m) w none _
        (set_modifier_lem (receiver w d.event) s.unlocked m.name m),
  )

  look_up-linked :
      (m : ModifierDescriptor)
      → look_up d m.name (linked m)
        ≡ done (reply (mem_symlink (target_of d.absolute_mountpoint m))) (linked m)
  unfolding look_up
  look_up-linked m =
      let r = with_modifier (receiver w d.event) m in
      let got =
        on_event-put_back d.event get_modifiers w r _ r
          (get_modifiers_lem r s.unlocked (insert-NodupKeys m.name m _ maps.modifiers)) in
      ground (
        arith,
        got,
        lookup-insert m.name m.name m (w.event_at d.event).modifier_descriptors,
        text_eq_refl m.name,
      )

  -- Let the event be settled with maps in which no key stands twice, and the mount point not
  -- end in a slash. If a target resolves to the path of a location that the debugged process
  -- knows, with identifiers below 2^64 and the modifier's kind the one that the loop over the
  -- classes ends with, then `Symlink` succeeds and adds the modifier, and `Lookup` of the
  -- link's name then gives a link to that location's path.
  pub look_up-symlink_location :
      (paths : Paths) (jvm : Debuggee) (target p : Bytes) (m : ModifierDescriptor) (c : ClassInfo)
      → trim_right_byte slash d.absolute_mountpoint ≡ d.absolute_mountpoint
      → IsKnown jvm m c
      → paths.abs target ≡ some p
      → paths.eval_symlinks p ≡ some (target_of d.absolute_mountpoint m)
      → (symlink paths jvm d target m.name w ≡ done (reply (mem_symlink target)) (linked m))
        × (look_up d m.name (linked m)
            ≡ done (reply (mem_symlink (target_of d.absolute_mountpoint m))) (linked m))
  look_up-symlink_location paths jvm target p m c e k a q = (
    symlink-linked paths jvm target p _ m a q
        (modifier_of-target_of jvm m c k d.absolute_mountpoint e),
    look_up-linked m,
  )

  get_hooks : on_event d.event get_hook_descriptors w ≡ done (w.event_at d.event).hook_descriptors w
  get_hooks =
      on_event-same d.event get_hook_descriptors w _
        (get_hook_descriptors_lem (receiver w d.event) s.unlocked maps.hooks)

  -- For a settled event whose maps have no key twice, `Unlink` in the location directory
  -- replies ENOENT if the event has no hook of the name, else EACCES if it has no modifier of
  -- the name, else removes that modifier; only in the last case anything changes.
  pub unlink_lem :
      (name : Bytes)
      → unlink d name w ≡ elim (lookup name (w.event_at d.event).hook_descriptors) [
        | none ↦ done (fail enoent) w
        | some _ ↦ elim (lookup name (w.event_at d.event).modifier_descriptors) [
          | none ↦ done (fail eacces) w
          | some _ ↦
              done (reply tt) (put_back w d.event (without_modifier (receiver w d.event) name))
        ]
      ]
  unfolding unlink
  unlink_lem name = elim (Option-cases (lookup name (w.event_at d.event).hook_descriptors)) [
    | inl e ↦ rw e (ground (arith, get_hooks))
    | inr (t, e) ↦ elim (Option-cases (lookup name (w.event_at d.event).modifier_descriptors)) [
      | inl e' ↦
          rw (e, e')
            (ground (
              arith,
              get_hooks,
              on_event-same d.event (delete_modifier name) w _
                  (delete_modifier_new (receiver w d.event) s.unlocked name e'),
            ))
      | inr (m, e') ↦
          rw (e, e')
            (ground (
              arith,
              get_hooks,
              on_event-done d.event (delete_modifier name) w _ _
                  (delete_modifier_old (receiver w d.event) s.unlocked name e'),
            ))
    ]
  ]

  -- For a settled event whose maps have no key twice, and which has no hook of a modifier's
  -- name, `Unlink` of the modifier's link behind its `Symlink` replies ENOENT and changes
  -- nothing, and `Lookup` still shows the link.
  pub unlink-linked :
      (m : ModifierDescriptor)
      → lookup m.name (w.event_at d.event).hook_descriptors ≡ none
      → (unlink d m.name (linked m) ≡ done (fail enoent) (linked m))
        × (look_up d m.name (linked m)
            ≡ done (reply (mem_symlink (target_of d.absolute_mountpoint m))) (linked m))
  unfolding unlink
  unlink-linked m e =
      let r = with_modifier (receiver w d.event) m in
      let got =
        on_event-put_back d.event get_hook_descriptors w r _ r
          (get_hook_descriptors_lem r s.unlocked maps.hooks) in
      (ground (arith, got), look_up-linked m)

-- A `Symlink` in a location directory whose target resolves to the mount point itself ends the
-- process.
pub symlink_mountpoint :
    (paths : Paths) (jvm : Debuggee) (w : World) (d : EventLocationDirectory)
    (target name p : Bytes)
    → paths.abs target ≡ some p
    → paths.eval_symlinks p ≡ some d.absolute_mountpoint
    → symlink paths jvm d target name w ≡ crashed
unfolding symlink
symlink_mountpoint paths jvm w d target name p a e =
    ground (arith, modifier_of_mountpoint jvm d.absolute_mountpoint name)
