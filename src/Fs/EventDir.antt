-- ===== src/Fs/EventDir.antt =====
-- fs/event_dir.go: the directory of one event.
pub mod Laws
use jdwpfs.Base.{
  ℕ, List, [], ◌∷◌, Bool, true, false, none, some, Bytes, codes, text_eq, if◌then◌else◌,
}
use jdwpfs.Go.Sync.{M, pure, ◌>>=◌}
use jdwpfs.Debug.Errors.{Result, ok, err}
use jdwpfs.Debug.Manager.{World, get_event, deregister_event}
use jdwpfs.Fs.Node.{
  Reply, reply, fail, enoent, erofs, ecanceled, Mode, regular, directory, DirEntry, AttrOut,
}
use jdwpfs.Fs.Control.{EventControlFile, new_event_control_file}
use jdwpfs.Fs.Kind.{EventKindFile, new_event_kind_file}
use jdwpfs.Fs.Policy.{EventSuspendPolicyFile, new_event_suspend_policy_file}
use jdwpfs.Fs.Hooks.{EventHooksDirectory, new_event_hooks_directory}
use jdwpfs.Fs.Location.{EventLocationDirectory, new_event_location_directory}

pub record JdwpEventDir : Type 0 where
  pub registered : Bool
  pub name : Bytes
  pub absolute_mountpoint : Bytes
  pub event : ℕ

-- `JdwpEventDirFromDebuggingEvent`. Each of its two tests returns the error.
unfoldable pub event_dir_of : Bytes → Bytes → M World (Result JdwpEventDir)
event_dir_of name mountpoint = do
  found ← get_event name
  pure (elim found [
    | err e ↦ err e
    | ok p ↦
        ok (record { registered = true; name = name; absolute_mountpoint = mountpoint; event = p })
  ])

abbrev pub get_attr : JdwpEventDir → AttrOut → AttrOut
get_attr d out = record out { mode = 0o755 }

-- The reply of `Unlink` with the directory that it leaves. The event that is taken out is the one
-- named like the entry.
unlink_registered : JdwpEventDir → Bytes → M World (Reply (Unit {0}) × JdwpEventDir)
unlink_registered d name = do
  result ← deregister_event name
  pure (elim result [
    | some _ ↦ (fail ecanceled, d)
    | none ↦ (reply tt, record d { registered = true })
  ])

unfoldable pub unlink : JdwpEventDir → Bytes → M World (Reply (Unit {0}) × JdwpEventDir)
unfolding unlink_registered
unlink d name =
    if text_eq name (codes "registered")
    then (if d.registered then pure (fail erofs, d) else unlink_registered d name)
    else pure (fail erofs, d)

unfoldable pub readdir : JdwpEventDir → List DirEntry
readdir d =
    record { mode = regular; name = codes "control" }
    ∷ record { mode = regular; name = codes "kind" }
    ∷ record { mode = regular; name = codes "suspendPolicy" }
    ∷ record { mode = directory; name = codes "location" }
    ∷ record { mode = directory; name = codes "hooks" }
    ∷ []

-- The nodes that `Lookup` makes.
pub data Child : Type 0 where
  control : EventControlFile → Child
  kind : EventKindFile → Child
  suspend_policy : EventSuspendPolicyFile → Child
  hooks : EventHooksDirectory → Child
  location : EventLocationDirectory → Child

unfoldable pub look_up : JdwpEventDir → Bytes → Reply (Mode × Child)
look_up d name =
    if text_eq name (codes "control")
    then reply (regular, control (new_event_control_file d.event))
    else if text_eq name (codes "kind")
    then reply (regular, kind (new_event_kind_file d.event))
    else if text_eq name (codes "suspendPolicy")
    then reply (regular, suspend_policy (new_event_suspend_policy_file d.event))
    else if text_eq name (codes "hooks")
    then reply (directory, hooks (new_event_hooks_directory d.event))
    else if text_eq name (codes "location")
    then reply (directory, location (new_event_location_directory d.event d.absolute_mountpoint))
    else fail enoent
