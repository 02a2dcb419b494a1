-- ===== src/Fs/Hooks/Laws.antt =====
-- On `EventHooksDirectory` of fs/event_control_files.go.
use mathlib.Core.List.{Perm}
use mathlib.Core.List.Perm
use mathlib.Core.Option.{or_else}
use jdwpfs.Base.{
  List, [], ◌∷◌, map, true, false, Option, none, some, ◌≡◌, refl, ap, ◌∙◌, arith, Bytes, text_eq,
  last_match, last_match-or_else, text_eq_iff, if◌then◌else◌, Option-cases, inl, inr,
}
use jdwpfs.Base.Dict.{Dict, lookup, insert, lookup-insert}
use jdwpfs.Base.Dict.Nodup.{NodupKeys, keys, NodupKeys-perm, lookup-perm, insert-NodupKeys}
use jdwpfs.Go.Sync.{done, ◌>>=◌}
use jdwpfs.Debug.Event.{Receiver, set_hook_descriptor, get_hook_descriptors}
use jdwpfs.Debug.Event.Methods.{
  IsFree, set_hook_descriptor_new, set_hook_descriptor_old, get_hook_descriptors_lem,
}
use jdwpfs.Debug.Manager.{World, receiver, put_back, on_event}
use jdwpfs.Debug.Manager.Frame.{IsSettled, on_event-done, on_event-same, on_event-put_back}
use jdwpfs.Fs.Node.{Reply, reply, fail, enoent, link, DirEntry, MemSymlink, mem_symlink}
use jdwpfs.Fs.Hooks.{EventHooksDirectory, found_link, symlink, look_up, readdir}

-- The loop over the entries of a map is a lookup, in whatever order it goes.
last_match-entries :
    {V : Type 0} (k : Bytes) (m : Dict V)
    → NodupKeys m
    → last_match (λ e. text_eq e.0 k) none m
      ≡ elim (lookup k m) [ none ↦ none | some v ↦ some (k, v) ]
unfolding last_match lookup or_else
last_match-entries k [] u = refl
last_match-entries k ((j, v) ∷ m) (fresh, u) = ground (
  arith,
  last_match-or_else (λ e. text_eq e.0 k) m (if text_eq j k then some (j, v) else none),
  last_match-entries k m u,
  text_eq_iff j k,
)

Bytes-set : IsSet Bytes
Bytes-set = hlevel

-- What a name is linked to.
abbrev pub linked_to : Option Bytes → Reply MemSymlink
linked_to none = fail enoent
linked_to (some target) = reply (mem_symlink target)

-- The target of a hook after a link was made under its name: an old hook keeps its own.
abbrev pub kept : Option Bytes → Bytes → Bytes
kept none target = target
kept (some old) target = old

found_link-order :
    (name : Bytes) (m n : Dict Bytes)
    → Perm m n
    → NodupKeys m
    → found_link (last_match (λ e. text_eq e.0 name) none n) ≡ linked_to (lookup name m)
unfolding found_link
found_link-order name m n p u =
    rw (last_match-entries name n (NodupKeys-perm p u), ← lookup-perm Bytes-set name p u)
      (ground arith)

abbrev entry : Bytes × Bytes → DirEntry
entry e = record { mode = link; name = e.0 }

names_listed : (m : Dict Bytes) → map (λ e. e.name) (map entry m) ≡ keys m
names_listed [] = refl
names_listed ((k, v) ∷ m) = ap (λ l. k ∷ l) (names_listed m)

-- The receiver with one more hook.
abbrev with_hook : Receiver → Bytes → Bytes → Receiver
with_hook r name target = record r {
  self = record r.self { hook_descriptors = insert name target r.self.hook_descriptors };
}

module _ (order : Dict Bytes → Dict Bytes) (perm : (m : Dict Bytes) → Perm m (order m))
    (d : EventHooksDirectory) where
  abbrev pub hooks : World → Dict Bytes
  hooks w = (w.event_at d.event).hook_descriptors

  get_hooks :
      (w : World)
      → IsSettled w d.event
      → NodupKeys (hooks w)
      → on_event d.event get_hook_descriptors w ≡ done (hooks w) w
  get_hooks w s u =
      on_event-same d.event get_hook_descriptors w _
        (get_hook_descriptors_lem (receiver w d.event) s.unlocked u)

  look_up-settled :
      (w : World) (name : Bytes)
      → IsSettled w d.event
      → NodupKeys (hooks w)
      → look_up order d name w ≡ done (linked_to (lookup name (hooks w))) w
  unfolding look_up
  look_up-settled w name s u =
      rw (get_hooks w s u, ◌>>=◌)
        (ap (λ r. done r w) (found_link-order name _ _ (perm (hooks w)) u))

  look_up-put_back :
      (w : World) (r : Receiver) (name : Bytes)
      → IsFree r
      → NodupKeys r.self.hook_descriptors
      → look_up order d name (put_back w d.event r)
        ≡ done (linked_to (lookup name r.self.hook_descriptors)) (put_back w d.event r)
  unfolding look_up
  look_up-put_back w r name f u =
      rw
        (
          on_event-put_back d.event get_hook_descriptors w r _ r (get_hook_descriptors_lem r f u),
          ◌>>=◌,
        )
        (ap (λ t. done t (put_back w d.event r))
          (found_link-order name _ _ (perm r.self.hook_descriptors) u))

  -- For a settled event whose hooks have different names, `Readdir` of the hooks directory
  -- lists every hook's name once and changes nothing, and `Lookup` of any name shows the target
  -- that the event's map has for it, or ENOENT, in whatever order the range loop goes.
  pub readdir-look_up :
      (w : World)
      → IsSettled w d.event
      → NodupKeys (hooks w)
      → (listing : List DirEntry) × (readdir order d w ≡ done (reply listing) w)
        × Perm (map (λ e. e.name) listing) (keys (hooks w))
        × ((name : Bytes) → look_up order d name w ≡ done (linked_to (lookup name (hooks w))) w)
  unfolding readdir
  readdir-look_up w s u = (
    map entry (order (hooks w)),
    rw (get_hooks w s u, ◌>>=◌),
    rw names_listed (Perm.map (λ e. e.0) (Perm.symm (perm (hooks w)))),
    λ name. look_up-settled w name s u,
  )

  -- For a settled event whose hooks have different names, `Symlink` in the hooks directory
  -- always replies a link to the target. Afterwards `Lookup` of the name shows that target if
  -- no hook had the name and the old target if one had; `Lookup` of any other name is as
  -- before, in whatever order the range loop goes.
  pub look_up-symlink_hook :
      (w : World) (target name : Bytes)
      → IsSettled w d.event
      → NodupKeys (hooks w)
      → (w' : World) × (symlink d target name w ≡ done (reply (mem_symlink target)) w')
        × ((j : Bytes)
            → look_up order d j w'
              ≡ done
                  (if text_eq name j
                    then reply (mem_symlink (kept (lookup name (hooks w)) target))
                    else linked_to (lookup j (hooks w)))
                  w')
  unfolding symlink
  look_up-symlink_hook w target name s u = elim (Option-cases (lookup name (hooks w))) [
    | inl e ↦
        let r = with_hook (receiver w d.event) name target in
        (
          put_back w d.event r,
          rw (
            on_event-done d.event (set_hook_descriptor name target) w true r
                (set_hook_descriptor_new (receiver w d.event) s.unlocked name target e),
            ◌>>=◌,
          ),
          λ j.
              look_up-put_back w r j s.unlocked (insert-NodupKeys name target (hooks w) u)
              ∙ ap (λ t. done t (put_back w d.event r))
                  (ground (arith, lookup-insert name j target (hooks w))),
        )
    | inr (old, e) ↦ (
      w,
      rw (
        on_event-same d.event (set_hook_descriptor name target) w false
            (set_hook_descriptor_old (receiver w d.event) s.unlocked name target e),
        ◌>>=◌,
      ),
      λ j. look_up-settled w j s u ∙ ground (arith, text_eq_iff name j),
    )
  ]
