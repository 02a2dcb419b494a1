-- ===== src/Fs/Requests.antt =====
-- Requests on the directory of events, as the file system library passes them to the nodes of
-- fs/events.go, fs/event_dir.go and fs/event_control_files.go: it looks the names of the path up,
-- one after the other, and calls the handler of the node that it finds.
pub mod Laws
pub mod Sequences
pub mod Contents
use jdwpfs.Base.{ℕ, List, [], ◌∷◌, Option, none, some, Bytes}
use jdwpfs.Base.Dict.{Dict}
use jdwpfs.Go.Sync.{M, pure, ◌>>=◌}
use jdwpfs.Debug.Plugins.{PluginHost}
use jdwpfs.Debug.Event.{EventKind, SuspendPolicy, ModifierDescriptor}
use jdwpfs.Debug.Event.Run.{Ranging}
use jdwpfs.Debug.Manager.{World}
use jdwpfs.Fs.Node.{Errno, Reply, reply, fail, Mode, DirEntry, MemSymlink}
use jdwpfs.Fs.Debuggee.{Debuggee}
use jdwpfs.Fs.Control
use jdwpfs.Fs.Kind
use jdwpfs.Fs.Policy
use jdwpfs.Fs.Hooks
use jdwpfs.Fs.Location
use jdwpfs.Fs.EventDir
use jdwpfs.Fs.EventDir.{JdwpEventDir, Child, control, kind, suspend_policy, hooks, location}
use jdwpfs.Fs.Events
use jdwpfs.Fs.Events.{JdwpEventsMasterDir}

-- What surrounds one request: the system, the debugged process as it is then, and the orders that
-- the language leaves open.
pub record Setting : Type 0 where
  pub host : PluginHost
  pub ranging : Ranging
  pub kind_string : EventKind → Bytes
  pub policy_string : SuspendPolicy → Bytes
  pub paths : Location.Paths
  pub jvm : Debuggee
  pub hooks_order : Dict Bytes → Dict Bytes
  pub modifiers_order : Dict ModifierDescriptor → Dict ModifierDescriptor

-- The names are those of the event, of the entry in its directory, and of a link there.
pub data Request : Type 0 where
  make_event : Bytes → Request
  list_events : Request
  unlink_entry : Bytes → Bytes → Request
  read_file : Bytes → Bytes → ℕ → Request
  write_file : Bytes → Bytes → Bytes → Request
  list_links : Bytes → Bytes → Request
  follow_link : Bytes → Bytes → Bytes → Request
  make_link : Bytes → Bytes → Bytes → Bytes → Request
  remove_link : Bytes → Bytes → Bytes → Request

-- `unsupported` is the answer of the library for a node without the handler.
pub data Response : Type 0 where
  fails : Errno → Response
  made : JdwpEventDir → Response
  removed : Response
  wrote : ℕ → Response
  shows : Bytes → Response
  links_to : MemSymlink → Response
  lists : List DirEntry → Response
  unsupported : Response

answer : {A : Type 0} → (A → Response) → M World (Reply A) → M World Response
answer f m = do r ← m; pure (elim r [ fail e ↦ fails e | reply a ↦ f a ])

on_found : (Child → M World Response) → Reply (Mode × Child) → M World Response
on_found f (fail e) = pure (fails e)
on_found f (reply (_, child)) = f child

module _ (d : JdwpEventsMasterDir) where
  at_event : Bytes → (JdwpEventDir → M World Response) → M World Response
  at_event event f = do
    found ← Events.look_up d event
    elim found [ fail e ↦ pure (fails e) | reply dir ↦ f dir ]

  at_child : Bytes → Bytes → (Child → M World Response) → M World Response
  unfolding at_event on_found
  at_child event entry f = at_event event (λ dir. on_found f (EventDir.look_up dir entry))

module _ (s : Setting) where
  unfoldable pub write_child : Child → Bytes → M World Response
  unfolding answer
  write_child (control c) text = answer wrote (Control.write s.host s.ranging c text)
  write_child (kind c) text = answer wrote (Kind.write c text)
  write_child (suspend_policy c) text = answer wrote (Policy.write c text)
  write_child (hooks d) text = pure unsupported
  write_child (location d) text = pure unsupported

  unfoldable pub read_child : Child → ℕ → M World Response
  unfolding answer
  read_child (control c) offset = answer shows (Control.read c offset)
  read_child (kind c) offset = answer shows (Kind.read s.kind_string c offset)
  read_child (suspend_policy c) offset = answer shows (Policy.read s.policy_string c offset)
  read_child (hooks d) offset = pure unsupported
  read_child (location d) offset = pure unsupported

  unfoldable pub list_child : Child → M World Response
  unfolding answer
  list_child (hooks d) = answer lists (Hooks.readdir s.hooks_order d)
  list_child (location d) = answer lists (Location.readdir s.modifiers_order d)
  list_child _ = pure unsupported

  unfoldable pub follow_child : Child → Bytes → M World Response
  unfolding answer
  follow_child (hooks d) name = answer links_to (Hooks.look_up s.hooks_order d name)
  follow_child (location d) name = answer links_to (Location.look_up d name)
  follow_child _ name = pure unsupported

  unfoldable pub link_child : Child → Bytes → Bytes → M World Response
  unfolding answer
  link_child (hooks d) target name = answer links_to (Hooks.symlink d target name)
  link_child (location d) target name =
      answer links_to (Location.symlink s.paths s.jvm d target name)
  link_child _ target name = pure unsupported

  -- The hooks directory has no `Unlink`.
  unfoldable pub unlink_child : Child → Bytes → M World Response
  unfolding answer
  unlink_child (location d) name = answer (λ _. removed) (Location.unlink d name)
  unlink_child _ name = pure unsupported

  module _ (d : JdwpEventsMasterDir) where
    unfoldable pub serve : Request → M World Response
    unfolding answer at_event at_child on_found
    serve (make_event name) = answer made (Events.mkdir d name)
    serve list_events = answer lists (Events.readdir d)
    serve (unlink_entry event name) = at_event d event (λ dir. do
      (r, _) ← EventDir.unlink dir name
      pure (elim r [ fail e ↦ fails e | reply _ ↦ removed ]))
    serve (read_file event entry offset) = at_child d event entry (λ child. read_child child offset)
    serve (write_file event entry text) = at_child d event entry (λ child. write_child child text)
    serve (list_links event entry) = at_child d event entry list_child
    serve (follow_link event entry name) = at_child d event entry (λ child. follow_child child name)
    serve (make_link event entry target name) =
        at_child d event entry (λ child. link_child child target name)
    serve (remove_link event entry name) = at_child d event entry (λ child. unlink_child child name)

-- One request after the other, each in a setting of its own.
unfoldable pub serve_all : JdwpEventsMasterDir → List (Setting × Request) → M World (List Response)
serve_all d [] = pure []
serve_all d ((s, r) ∷ rest) = do a ← serve s d r; more ← serve_all d rest; pure (a ∷ more)
