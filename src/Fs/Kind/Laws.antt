-- ===== src/Fs/Kind/Laws.antt =====
-- On `EventKindFile` of fs/event_control_files.go.
use jdwpfs.Base.{ℕ, ◌++◌, none, some, ◌≡◌, refl, arith, Bytes, codes, text_eq}
use jdwpfs.Base.Dict.{lookup}
use jdwpfs.Go.Sync.{done, ◌>>=◌}
use jdwpfs.Go.Space.{trim_space}
use jdwpfs.Debug.Event.{
  EventKind, single_step, breakpoint, frame_pop, exception, user_defined, thread_start,
  thread_death, class_prepare, class_unload, class_load, field_access, field_modification,
  exception_catch, method_entry, method_exit, vm_start, vm_death, set_kind, get_kind,
}
use jdwpfs.Debug.Event.Methods.{set_kind_lem, get_kind_lem}
use jdwpfs.Debug.Manager.{World, receiver, put_back}
use jdwpfs.Debug.Manager.Frame.{IsSettled, on_event-done, on_event-put_back}
use jdwpfs.Fs.Node.{reply, fail, eafnosupport, written, read_from}
use jdwpfs.Fs.Kind.{EventKindFile, event_kind_repr_map, read, write}

-- The name under which a kind is documented.
unfoldable pub name_of : EventKind → Bytes
name_of single_step = codes "SingleStep"
name_of breakpoint = codes "Breakpoint"
name_of frame_pop = codes "FramePop"
name_of exception = codes "Exception"
name_of user_defined = codes "UserDefined"
name_of thread_start = codes "ThreadStart"
name_of thread_death = codes "ThreadDeath"
name_of class_prepare = codes "ClassPrepare"
name_of class_unload = codes "ClassUnload"
name_of class_load = codes "ClassLoad"
name_of field_access = codes "FieldAccess"
name_of field_modification = codes "FieldModification"
name_of exception_catch = codes "ExceptionCatch"
name_of method_entry = codes "MethodEntry"
name_of method_exit = codes "MethodExit"
name_of vm_start = codes "VMStart"
name_of vm_death = codes "VMDeath"

-- With or without the line feed of `echo`, the name of a kind is that of no other.
named :
    (k : EventKind)
    → (lookup (trim_space (name_of k)) event_kind_repr_map ≡ some k)
      × (lookup (trim_space (name_of k ++ codes "\n")) event_kind_repr_map ≡ some k)
unfolding lookup trim_space name_of text_eq
named single_step = (refl, refl)
named breakpoint = (refl, refl)
named frame_pop = (refl, refl)
named exception = (refl, refl)
named user_defined = (refl, refl)
named thread_start = (refl, refl)
named thread_death = (refl, refl)
named class_prepare = (refl, refl)
named class_unload = (refl, refl)
named class_load = (refl, refl)
named field_access = (refl, refl)
named field_modification = (refl, refl)
named exception_catch = (refl, refl)
named method_entry = (refl, refl)
named method_exit = (refl, refl)
named vm_start = (refl, refl)
named vm_death = (refl, refl)

module _ (w : World) (c : EventKindFile) (s : IsSettled w c.event) where
  -- The world with the event's kind changed.
  abbrev pub with_kind : EventKind → World
  with_kind k =
      put_back w c.event
        (record (receiver w c.event) { self = record (w.event_at c.event) { kind = k } })

  write_known :
      (text : Bytes) (k : EventKind)
      → lookup (trim_space text) event_kind_repr_map ≡ some k
      → write c text w ≡ done (reply (written text)) (with_kind k)
  unfolding write
  write_known text k e = ground (
    arith,
    on_event-done c.event (set_kind k) w tt _ (set_kind_lem (receiver w c.event) s.unlocked k),
  )

  -- A text that names no kind is refused, and changes nothing.
  pub write-unknown_kind :
      (text : Bytes)
      → lookup (trim_space text) event_kind_repr_map ≡ none
      → write c text w ≡ done (fail eafnosupport) w
  unfolding write
  write-unknown_kind text e = rw e

  read-with_kind :
      (kind_string : EventKind → Bytes) (k : EventKind) (offset : ℕ)
      → read kind_string c offset (with_kind k)
        ≡ done (read_from (kind_string k) offset) (with_kind k)
  unfolding read
  read-with_kind kind_string k offset =
      let r = record (receiver w c.event) { self = record (w.event_at c.event) { kind = k } } in
      rw (on_event-put_back c.event get_kind w r k r (get_kind_lem r s.unlocked), ◌>>=◌)

  -- For a settled event and each event kind, writing the kind's documented name to the kind
  -- file, with or without a line feed, replies the number of bytes and sets that kind, and a
  -- read then shows that kind's text from the offset on and changes nothing.
  pub read-write_kind :
      (kind_string : EventKind → Bytes) (k : EventKind) (offset : ℕ)
      → (write c (name_of k) w ≡ done (reply (written (name_of k))) (with_kind k))
        × (write c (name_of k ++ codes "\n") w
            ≡ done (reply (written (name_of k ++ codes "\n"))) (with_kind k))
        × (read kind_string c offset (with_kind k)
            ≡ done (read_from (kind_string k) offset) (with_kind k))
  read-write_kind kind_string k offset = (
    write_known _ k (named k).0,
    write_known _ k (named k).1,
    read-with_kind kind_string k offset,
  )
