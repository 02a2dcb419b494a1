-- ===== src/Fs/Hooks.antt =====
-- The hooks directory of an event, `EventHooksDirectory` of fs/event_control_files.go.
pub mod Laws
use jdwpfs.Base.{ℕ, List, map, Option, none, some, Bytes, text_eq, last_match, if◌then◌else◌}
use jdwpfs.Base.Dict.{Dict}
use jdwpfs.Go.Sync.{M, pure, ◌>>=◌}
use jdwpfs.Debug.Event.{set_hook_descriptor, get_hook_descriptors}
use jdwpfs.Debug.Manager.{World, on_event}
use jdwpfs.Fs.Node.{Reply, reply, fail, enoent, link, DirEntry, MemSymlink, mem_symlink, AttrOut}

pub record EventHooksDirectory : Type 0 where
  pub event : ℕ

unfoldable pub new_event_hooks_directory : ℕ → EventHooksDirectory
new_event_hooks_directory event = record { event = event }

abbrev pub get_attr : EventHooksDirectory → AttrOut → AttrOut
get_attr d out = record out { mode = 0o755 }

-- The result of `SetHookDescriptor` is not read.
unfoldable pub symlink : EventHooksDirectory → Bytes → Bytes → M World (Reply MemSymlink)
symlink d target name = do
  _ ← on_event d.event (set_hook_descriptor name target)
  pure (reply (mem_symlink target))

found_link : Option (Bytes × Bytes) → Reply MemSymlink
found_link none = fail enoent
found_link (some (name, target)) = reply (mem_symlink target)

-- The range loops go through the copied map in an order that the language leaves open.
unfoldable pub look_up :
    (Dict Bytes → Dict Bytes) → EventHooksDirectory → Bytes → M World (Reply MemSymlink)
unfolding found_link
look_up order d name = do
  hooks ← on_event d.event get_hook_descriptors
  pure (found_link (last_match (λ e. text_eq e.0 name) none (order hooks)))

unfoldable pub readdir :
    (Dict Bytes → Dict Bytes) → EventHooksDirectory → M World (Reply (List DirEntry))
readdir order d = do
  hooks ← on_event d.event get_hook_descriptors
  pure (reply (map (λ e. record { mode = link; name = e.0 }) (order hooks)))
