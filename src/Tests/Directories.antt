-- ===== src/Tests/Directories.antt =====
-- The theorems on the directories of all events and of one event.
use jdwpfs.Base.{List, [], ◌∷◌, map, none, false, ◌≡◌, refl, codes, text_eq, last_match}
use jdwpfs.Base.Dict.{lookup}
use jdwpfs.Go.Sync.{done}
use jdwpfs.Debug.Errors.{ok}
use jdwpfs.Debug.Manager.{World, get_event, find_event}
use jdwpfs.Debug.Manager.Registry.{IsCreated}
use jdwpfs.Fs.Node.{reply, fail, erofs, DirEntry}
use jdwpfs.Fs.EventDir
use jdwpfs.Fs.EventDir.Laws.{unlink-event_dir_of}
use jdwpfs.Fs.Events
use jdwpfs.Fs.Events.Laws.{dir_of, look_up-registry, readdir-registry, mkdir-Makes}
use jdwpfs.Tests.Data.{idle_world, world-IsValid}

abbrev events : Events.JdwpEventsMasterDir
events = record { registered = false; absolute_mountpoint = codes "/mnt" }

abbrev dir : EventDir.JdwpEventDir
dir = dir_of events (codes "a") 0

event_dir : EventDir.event_dir_of (codes "a") (codes "/mnt") idle_world ≡ done (ok dir) idle_world
unfolding EventDir.event_dir_of get_event find_event last_match lookup text_eq
event_dir = refl

unlink-event_dir_of_example :
    EventDir.unlink dir (codes "registered") idle_world ≡ done (fail erofs, dir) idle_world
unlink-event_dir_of_example =
    unlink-event_dir_of (codes "a") (codes "/mnt") dir (world-IsValid none) event_dir
      (codes "registered")

look_up-registry_example :
    Events.look_up events (codes "a") idle_world ≡ done (reply dir) idle_world
unfolding lookup text_eq
look_up-registry_example = look_up-registry events idle_world (codes "a") (world-IsValid none)

readdir-registry_example :
    (listing : List DirEntry) × (Events.readdir events idle_world ≡ done (reply listing) idle_world)
    × (map (λ e. e.name) listing ≡ codes "a" ∷ [])
readdir-registry_example = readdir-registry events idle_world (world-IsValid none)

mkdir-Makes_example :
    (w' : World) × (Events.mkdir events (codes "b") idle_world
      ≡ done (reply (dir_of events (codes "b") 1)) w')
    × IsCreated idle_world (codes "b") w'
    × (Events.look_up events (codes "b") w' ≡ done (reply (dir_of events (codes "b") 1)) w')
unfolding lookup text_eq
mkdir-Makes_example = mkdir-Makes events idle_world (codes "b") (world-IsValid none)
