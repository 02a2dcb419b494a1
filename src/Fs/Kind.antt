-- ===== src/Fs/Kind.antt =====
-- The kind file of an event, `EventKindFile` of fs/event_control_files.go.
pub mod Laws
use jdwpfs.Base.{ℕ, [], ◌∷◌, Option, none, some, ◌≡◌, refl, Bytes, codes}
use jdwpfs.Base.Dict.{Dict, lookup}
use jdwpfs.Go.Sync.{M, pure, ◌>>=◌, ◌>>◌}
use jdwpfs.Go.Space.{trim_space}
use jdwpfs.Debug.Event.{
  EventKind, single_step, breakpoint, frame_pop, exception, user_defined, thread_start,
  thread_death, class_prepare, class_unload, class_load, field_access, field_modification,
  exception_catch, method_entry, method_exit, vm_start, vm_death, set_kind, get_kind,
}
use jdwpfs.Debug.Manager.{World, on_event}
use jdwpfs.Fs.Node.{
  Reply, reply, fail, eafnosupport, SetAttrIn, AttrOut, written, read_from, open_direct,
  set_attributes,
}

-- `eventKindReprMap`
abbrev pub event_kind_repr_map : Dict EventKind
event_kind_repr_map =
    (codes "SingleStep", single_step)
    ∷ (codes "Breakpoint", breakpoint)
    ∷ (codes "FramePop", frame_pop)
    ∷ (codes "Exception", exception)
    ∷ (codes "UserDefined", user_defined)
    ∷ (codes "ThreadStart", thread_start)
    ∷ (codes "ThreadDeath", thread_death)
    ∷ (codes "ClassPrepare", class_prepare)
    ∷ (codes "ClassUnload", class_unload)
    ∷ (codes "ClassLoad", class_load)
    ∷ (codes "FieldAccess", field_access)
    ∷ (codes "FieldModification", field_modification)
    ∷ (codes "ExceptionCatch", exception_catch)
    ∷ (codes "MethodEntry", method_entry)
    ∷ (codes "MethodExit", method_exit)
    ∷ (codes "VMStart", vm_start)
    ∷ (codes "VMDeath", vm_death)
    ∷ []

pub record EventKindFile : Type 0 where
  pub event : ℕ

unfoldable pub new_event_kind_file : ℕ → EventKindFile
new_event_kind_file event = record { event = event }

abbrev pub open_node : EventKindFile → ℕ → Reply ℕ
open_node c = open_direct

abbrev pub get_attr : EventKindFile → AttrOut → AttrOut
get_attr c out = record out { mode = 0o660 }

abbrev pub set_attr : EventKindFile → SetAttrIn → AttrOut → Reply AttrOut
set_attr c = set_attributes

-- `kind.String()` is a method of the debugger library.
unfoldable pub read : (EventKind → Bytes) → EventKindFile → ℕ → M World (Reply Bytes)
read kind_string c offset = do
  kind ← on_event c.event get_kind
  pure (read_from (kind_string kind) offset)

store_kind : ℕ → Bytes → Option EventKind → M World (Reply ℕ)
store_kind p text none = pure (fail eafnosupport)
store_kind p text (some kind) = do on_event p (set_kind kind); pure (reply (written text))

unfoldable pub write : EventKindFile → Bytes → M World (Reply ℕ)
unfolding store_kind
write c text = store_kind c.event text (lookup (trim_space text) event_kind_repr_map)
