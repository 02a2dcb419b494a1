-- ===== src/Tests/Locations.antt =====
-- The theorems on the directories of an event, for the event of the test data.
use mathlib.Core.List.{Perm}
use mathlib.Core.List.Perm
use jdwpfs.Base.{
  List, [], ◌∷◌, map, none, some, false, ◌≡◌, refl, Bytes, codes, text_eq, last_match, arith,
  if◌then◌else◌,
}
use jdwpfs.Base.Dict.{lookup}
use jdwpfs.Go.Sync.{done, crashed}
use jdwpfs.Go.Decimal.{format_uint}
use jdwpfs.Go.Split.{join, trim_right_byte}
use jdwpfs.Debug.Event.{ModifierDescriptor}
use jdwpfs.Debug.Manager.{World}
use jdwpfs.Fs.Node.{reply, fail, enoent, DirEntry, mem_symlink}
use jdwpfs.Fs.Debuggee.{Debuggee, ClassInfo, Member}
use jdwpfs.Fs.Hooks
use jdwpfs.Fs.Hooks.Laws.{linked_to, readdir-look_up, look_up-symlink_hook}
use jdwpfs.Fs.Location
use jdwpfs.Fs.Location.Laws.{IsKnown, modifier_of-target_of, modifier_of-kind}
use jdwpfs.Fs.Location.Links.{linked, look_up-symlink_location, unlink_lem, symlink_mountpoint}
use jdwpfs.Tests.Data.{idle_world, world-IsSettled, event-HasMaps}

abbrev hooks : Hooks.EventHooksDirectory
hooks = record { event = 0 }

look_up-symlink_hook_example :
    (w' : World) × (Hooks.symlink hooks (codes "/new.so") (codes "log") idle_world
      ≡ done (reply (mem_symlink (codes "/new.so"))) w')
    × ((j : Bytes)
        → Hooks.look_up (λ m. m) hooks j w'
          ≡ done
              (if text_eq (codes "log") j
                then reply (mem_symlink (codes "/log.so"))
                else linked_to (lookup j ((codes "log", codes "/log.so") ∷ [])))
              w')
unfolding lookup text_eq
look_up-symlink_hook_example =
    look_up-symlink_hook (λ m. m) (λ m. Perm.refl m) hooks idle_world (codes "/new.so")
      (codes "log") (world-IsSettled none) (event-HasMaps none).hooks

readdir-look_up_example :
    (listing : List DirEntry) × (Hooks.readdir (λ m. m) hooks idle_world
      ≡ done (reply listing) idle_world)
    × Perm (map (λ e. e.name) listing) (codes "log" ∷ [])
    × ((name : Bytes)
        → Hooks.look_up (λ m. m) hooks name idle_world
          ≡ done (linked_to (lookup name ((codes "log", codes "/log.so") ∷ []))) idle_world)
readdir-look_up_example =
    readdir-look_up (λ m. m) (λ m. Perm.refl m) hooks idle_world (world-IsSettled none)
      (event-HasMaps none).hooks

abbrev location : Location.EventLocationDirectory
location = record { event = 0; absolute_mountpoint = codes "/mnt" }

abbrev class : ClassInfo
class = record { kind = 1; type_id = 8; class_id = 8; signature = codes "LMain;" }

abbrev method : Member
method = record { id = 12; name = codes "main"; signature = codes "()V"; mod_bits = codes "" }

abbrev process : Debuggee
process = record {
  get_all_threads = none;
  get_thread_name = λ _. none;
  get_thread_status = λ _. none;
  get_all_classes = some (class ∷ []);
  get_methods = λ _. some (method ∷ []);
  get_fields = λ _. some [];
}

-- The method of the class, under the name `m`.
abbrev modifier : ModifierDescriptor
modifier = record { name = codes "m"; kind = 1; is_field = false; class_id = 8; object_id = 12 }

modifier-IsKnown : IsKnown process modifier class
unfolding Location.find_class Location.find_member last_match
modifier-IsKnown = record {
  class_fits = omega arith;
  object_fits = omega arith;
  classes = class ∷ [];
  listed = refl;
  class_found = refl;
  members = method ∷ [];
  has_members = refl;
  member = method;
  member_found = refl;
  kind_of_class = refl;
}

abbrev main_path : Bytes
main_path = codes "/mnt/classes/8/methods/12"

target : Location.target_of (codes "/mnt") modifier ≡ main_path
unfolding Location.target_of join trim_right_byte format_uint
target = refl

mountpoint_clean : trim_right_byte Location.slash (codes "/mnt") ≡ codes "/mnt"
unfolding trim_right_byte
mountpoint_clean = refl

-- A system in which every path is absolute and no link.
abbrev paths : Location.Paths
paths = record { abs = λ p. some p; eval_symlinks = λ p. some p }

modifier_of-kind_example : modifier.kind ≡ class.kind
modifier_of-kind_example =
    modifier_of-kind process [] class refl (codes "/mnt") (codes "m")
      (Location.target_of (codes "/mnt") modifier)
      (modifier_of-target_of process modifier class modifier-IsKnown (codes "/mnt")
        mountpoint_clean)

abbrev with_main : World
with_main = linked idle_world location (world-IsSettled none) (event-HasMaps none) modifier

look_up-symlink_location_example :
    (Location.symlink paths process location
        (Location.target_of (codes "/mnt") modifier)
        (codes "m")
        idle_world
      ≡ done (reply (mem_symlink (Location.target_of (codes "/mnt") modifier))) with_main)
    × (Location.look_up location (codes "m") with_main
        ≡ done (reply (mem_symlink (Location.target_of (codes "/mnt") modifier))) with_main)
look_up-symlink_location_example =
    look_up-symlink_location idle_world location (world-IsSettled none) (event-HasMaps none) paths
      process (Location.target_of (codes "/mnt") modifier)
      (Location.target_of (codes "/mnt") modifier) modifier class mountpoint_clean modifier-IsKnown
      refl refl

unlink_lem_example : Location.unlink location (codes "x") idle_world ≡ done (fail enoent) idle_world
unfolding lookup text_eq
unlink_lem_example =
    unlink_lem idle_world location (world-IsSettled none) (event-HasMaps none) (codes "x")

symlink_mountpoint_example :
    Location.symlink paths process location (codes "/mnt") (codes "m") idle_world ≡ crashed
symlink_mountpoint_example =
    symlink_mountpoint paths process idle_world location (codes "/mnt") (codes "m") (codes "/mnt")
      refl refl
