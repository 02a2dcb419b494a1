-- ===== src/Fs/Events.antt =====
-- fs/events.go: the directory of all events.
pub mod Laws
use jdwpfs.Base.{ℕ, List, map, Bool, false, none, some, Bytes}
use jdwpfs.Go.Sync.{M, pure, ◌>>=◌, gets}
use jdwpfs.Debug.Errors.{ok, err}
use jdwpfs.Debug.Manager.{World, create_event, get_event, get_all_events}
use jdwpfs.Fs.Node.{Reply, reply, fail, enoent, eaddrnotavail, ebadfd, regular, DirEntry, AttrOut}
use jdwpfs.Fs.EventDir.{JdwpEventDir, event_dir_of}

-- The manager that the directory makes is the one of the world.
pub record JdwpEventsMasterDir : Type 0 where
  pub registered : Bool
  pub absolute_mountpoint : Bytes

unfoldable pub new_jdwp_events_master_dir : Bytes → JdwpEventsMasterDir
new_jdwp_events_master_dir mountpoint = record {
  registered = false;
  absolute_mountpoint = mountpoint;
}

abbrev pub get_attr : JdwpEventsMasterDir → AttrOut → AttrOut
get_attr d out = record out { mode = 0o755 }

-- The names are read behind the manager's lock. An event is listed as a regular file.
unfoldable pub readdir : JdwpEventsMasterDir → M World (Reply (List DirEntry))
readdir d = do
  events ← get_all_events
  listing ← gets (λ w. elim events [
    | err _ ↦ fail ebadfd
    | ok ps ↦ reply (map (λ p. record { mode = regular; name = (w.event_at p).name }) ps)
  ])
  pure listing

-- The reply with the directory of an event.
abbrev found_dir : JdwpEventsMasterDir → Bytes → M World (Reply JdwpEventDir)
found_dir d name = do
  dir ← event_dir_of name d.absolute_mountpoint
  pure (elim dir [ err _ ↦ fail eaddrnotavail | ok e ↦ reply e ])

unfoldable pub mkdir : JdwpEventsMasterDir → Bytes → M World (Reply JdwpEventDir)
mkdir d name = do
  created ← create_event name
  elim created [ err _ ↦ pure (fail eaddrnotavail) | ok _ ↦ found_dir d name ]

unfoldable pub look_up : JdwpEventsMasterDir → Bytes → M World (Reply JdwpEventDir)
look_up d name = do
  event ← get_event name
  elim event [
    | err _ ↦ pure (fail enoent)
    | ok p ↦ do event_name ← gets (λ w. (w.event_at p).name); found_dir d event_name
  ]
