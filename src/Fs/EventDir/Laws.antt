-- ===== src/Fs/EventDir/Laws.antt =====
-- On the handlers of fs/event_dir.go.
use jdwpfs.Base.{true, ◌≡◌, inl, inr, arith, Bytes, Option-cases}
use jdwpfs.Base.Dict.{lookup}
use jdwpfs.Go.Sync.{done}
use jdwpfs.Debug.Errors.{ok}
use jdwpfs.Debug.Manager.{World}
use jdwpfs.Debug.Manager.Registry.{IsValid, registry, get_event-lookup}
use jdwpfs.Fs.Node.{fail, erofs}
use jdwpfs.Fs.EventDir.{JdwpEventDir, event_dir_of, unlink}

event_dir_of-registered :
    {w w' : World} (name mountpoint : Bytes) (d : JdwpEventDir)
    → event_dir_of name mountpoint w ≡ done (ok d) w'
    → IsValid w
    → d.registered ≡ true
unfolding event_dir_of
event_dir_of-registered {w} {w'} name mountpoint d q v =
    elim (Option-cases (lookup name (registry w))) [
      | inl e ↦ ground (arith, get_event-lookup w name v)
      | inr (p, e) ↦ ground (arith, get_event-lookup w name v)
    ]

-- If `JdwpEventDirFromDebuggingEvent` made a directory in a valid world, then `Unlink` of any
-- name in it replies EROFS and changes neither the directory nor the world.
pub unlink-event_dir_of :
    {w w' : World} (name mountpoint : Bytes) (d : JdwpEventDir)
    → IsValid w
    → event_dir_of name mountpoint w ≡ done (ok d) w'
    → (child : Bytes) → unlink d child w' ≡ done (fail erofs, d) w'
unfolding unlink
unlink-event_dir_of name mountpoint d v q child =
    ground (arith, event_dir_of-registered name mountpoint d q v)
