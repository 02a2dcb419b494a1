-- ===== src/Fs/Location.antt =====
-- The location directory of an event, `EventLocationDirectory` of fs/event_control_files.go.
pub mod Laws
pub mod Slashes
pub mod Links
use jdwpfs.Base.{
  ℕ, List, [], ◌∷◌, ◌++◌, map, Bool, true, false, ◌&&◌, ◌||◌, Option, none, some, Bytes, codes,
  text_eq, last_match, ◌==◌, if◌then◌else◌,
}
use jdwpfs.Base.Dict.{Dict, lookup}
use jdwpfs.Go.Sync.{M, pure, crashed, ◌>>=◌, ◌>>◌}
use jdwpfs.Go.Decimal.{format_uint, parse_uint}
use jdwpfs.Go.Split.{split, join, has_prefix, trim_prefix, trim_right_byte}
use jdwpfs.Debug.Event.{
  ModifierDescriptor, set_modifier, delete_modifier, get_modifiers, get_hook_descriptors,
}
use jdwpfs.Debug.Manager.{World, on_event}
use jdwpfs.Fs.Node.{
  Errno, Reply, reply, fail, enoent, ebade, eaddrnotavail, eacces, link, DirEntry, MemSymlink,
  mem_symlink, AttrOut,
}
use jdwpfs.Fs.Debuggee.{Debuggee, ClassInfo, Member}

pub record EventLocationDirectory : Type 0 where
  pub event : ℕ
  pub absolute_mountpoint : Bytes

unfoldable pub new_event_location_directory : ℕ → Bytes → EventLocationDirectory
new_event_location_directory event mountpoint = record {
  event = event;
  absolute_mountpoint = mountpoint;
}

abbrev pub get_attr : EventLocationDirectory → AttrOut → AttrOut
get_attr d out = record out { mode = 0o755 }

-- `filepath.Abs` and `filepath.EvalSymlinks`, which ask the operating system; `none` is an error.
pub record Paths : Type 0 where
  pub abs : Bytes → Option Bytes
  pub eval_symlinks : Bytes → Option Bytes

abbrev pub slash : ℕ
slash = b'/'

-- `for pathComponents[0] == "/" || pathComponents[0] == ""`: past the last component the index is
-- out of range, which is `none`.
unfoldable pub skip_empty : List Bytes → Option (List Bytes)
skip_empty [] = none
skip_empty (c ∷ cs) =
    let rest = skip_empty cs in
    if text_eq c (codes "/") || text_eq c [] then rest else some (c ∷ cs)

-- The test on the four components: the class, whether it is a field, and the field or method.
unfoldable pub four_components : List Bytes → Option (Bytes × Bool × Bytes)
four_components (root ∷ class ∷ sub ∷ object ∷ []) =
    if text_eq root (codes "classes")
      && (text_eq sub (codes "fields") || text_eq sub (codes "methods"))
    then some (class, text_eq sub (codes "fields"), object)
    else none
four_components _ = none

-- The loop over the classes keeps the address of the loop variable, which Go 1.18 shares between
-- the rounds: behind the loop it holds the last class, whichever matched.
unfoldable pub find_class : ℕ → Bool → Option ClassInfo → List ClassInfo → Option ClassInfo
find_class id found variable [] = if found then variable else none
find_class id found variable (c ∷ cs) = find_class id (found || c.class_id == id) (some c) cs

-- The loops over fields and methods only ask whether there is a match.
unfoldable pub find_member : ℕ → List Member → Option Member
find_member id = last_match (λ m. m.id == id) none

-- The field or method that the path names, in the class with the identifier: its object identifier.
check_members : ℕ → Option (List Member) → Reply ℕ
check_members id none = fail eaddrnotavail
check_members id (some ms) = elim (find_member id ms) [ none ↦ fail enoent | some _ ↦ reply id ]

find_object : Debuggee → Bool → ℕ → Bytes → Reply ℕ
find_object jvm is_field class_id object = elim (parse_uint object) [
  | none ↦ fail ebade
  | some id ↦
      if is_field
      then check_members id (jvm.get_fields class_id)
      else check_members id (jvm.get_methods class_id)
]

find_loaded_class : Debuggee → ℕ → Reply ClassInfo
find_loaded_class jvm id = elim jvm.get_all_classes [
  | none ↦ fail eaddrnotavail
  | some classes ↦ elim (find_class id false none classes) [ none ↦ fail enoent | some c ↦ reply c ]
]

describe : Debuggee → Bytes → Bytes → Bool → Bytes → Reply ModifierDescriptor
describe jvm name class is_field object = elim (parse_uint class) [
  | none ↦ fail ebade
  | some class_id ↦ elim (find_loaded_class jvm class_id) [
    | fail e ↦ fail e
    | reply c ↦ elim (find_object jvm is_field class_id object) [
      | fail e ↦ fail e
      | reply id ↦ reply (record {
        name = name;
        kind = c.kind;
        is_field = is_field;
        class_id = class_id;
        object_id = id;
      })
    ]
  ]
]

-- The modifier that a resolved path describes; `none` is the crash.
pub modifier_of : Debuggee → Bytes → Bytes → Bytes → Option (Reply ModifierDescriptor)
modifier_of jvm mountpoint name path =
    if has_prefix path mountpoint
    then elim (skip_empty (split slash (trim_prefix path mountpoint))) [
      | none ↦ none
      | some components ↦ some (elim (four_components components) [
        | none ↦ fail ebade
        | some (class, is_field, object) ↦ describe jvm name class is_field object
      ])
    ]
    else some (fail ebade)

resolve : Paths → Bytes → Option Bytes
resolve paths target = elim (paths.abs target) [ none ↦ none | some p ↦ paths.eval_symlinks p ]

-- The target of a modifier's link.
unfoldable pub target_of : Bytes → ModifierDescriptor → Bytes
target_of mountpoint m = join slash (
    trim_right_byte slash mountpoint
    ∷ codes "classes"
    ∷ format_uint m.class_id
    ∷ (if m.is_field then codes "fields" else codes "methods")
    ∷ format_uint m.object_id
    ∷ [])

add_modifier : ℕ → Bytes → Bytes → Option (Reply ModifierDescriptor) → M World (Reply MemSymlink)
add_modifier p target name none = λ _. crashed
add_modifier p target name (some (fail e)) = pure (fail e)
add_modifier p target name (some (reply m)) = do
  _ ← on_event p (set_modifier name m)
  pure (reply (mem_symlink target))

unfoldable pub symlink :
    Paths → Debuggee → EventLocationDirectory → Bytes → Bytes → M World (Reply MemSymlink)
unfolding add_modifier resolve
symlink paths jvm d target name = elim (resolve paths target) [
  | none ↦ pure (fail enoent)
  | some path ↦ add_modifier d.event target name (modifier_of jvm d.absolute_mountpoint name path)
]

unfoldable pub look_up : EventLocationDirectory → Bytes → M World (Reply MemSymlink)
look_up d name = do
  modifiers ← on_event d.event get_modifiers
  pure (elim (lookup name modifiers) [
    | none ↦ fail enoent
    | some m ↦ reply (mem_symlink (target_of d.absolute_mountpoint m))
  ])

unfoldable pub readdir :
    (Dict ModifierDescriptor → Dict ModifierDescriptor)
    → EventLocationDirectory
    → M World (Reply (List DirEntry))
readdir order d = do
  modifiers ← on_event d.event get_modifiers
  pure (reply (map (λ e. record { mode = link; name = e.1.name }) (order modifiers)))

-- `Unlink` looks the name up among the hooks, and deletes a modifier.
delete_found : ℕ → Bytes → Option Bytes → M World (Reply (Unit {0}))
delete_found p name none = pure (fail enoent)
delete_found p name (some _) = do
  result ← on_event p (delete_modifier name)
  pure (elim result [ none ↦ reply tt | some _ ↦ fail eacces ])

unfoldable pub unlink : EventLocationDirectory → Bytes → M World (Reply (Unit {0}))
unfolding delete_found
unlink d name = do
  hooks ← on_event d.event get_hook_descriptors
  delete_found d.event name (lookup name hooks)
