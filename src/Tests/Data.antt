-- ===== src/Tests/Data.antt =====
-- A manager with one event, a host on which every plugin loads, and a debugged process with one
-- class.
use mathlib.Core.List.Perm
use jdwpfs.Base.{ℕ, [], ◌∷◌, Option, none, some, true, false, ◌≡◌, refl, Bytes, codes, arith}
use jdwpfs.Base.Dict.{lookup, insert}
use jdwpfs.Go.Sync.{free, done}
use jdwpfs.Debug.Errors.{ok}
use jdwpfs.Debug.Plugins.{PluginHost, PluginInstance, add_location, build, load}
use jdwpfs.Debug.Plugins.Laws.{Loads}
use jdwpfs.Debug.Event.{DebuggingEvent, breakpoint, suspend_none}
use jdwpfs.Debug.Event.Run.{Ranging, run, load_plugins, add_locations, with_cancel, start}
use jdwpfs.Debug.Event.Running.{started}
use jdwpfs.Debug.Event.Methods.{HasMaps}
use jdwpfs.Debug.Manager.{World, receiver}
use jdwpfs.Debug.Manager.Registry.{IsValid}
use jdwpfs.Debug.Manager.Frame.{IsSettled}

-- An event named `a` with one hook.
abbrev pub event_in : Option ℕ → DebuggingEvent
event_in ctx = record {
  name = codes "a";
  kind = breakpoint;
  suspend_policy = suspend_none;
  modifier_descriptors = [];
  hook_descriptors = (codes "log", codes "/log.so") ∷ [];
  mu = free;
  registered = false;
  ctx = ctx;
  conn = some 7;
  cancel = ctx;
}

abbrev pub world_of : Option ℕ → World
world_of ctx = record {
  manager = record { jdwp_connection = some 7; mu = free; registered_events = 0 ∷ [] };
  next_event = 1;
  event_at = λ _. event_in ctx;
  runtime = record { next_context = 5; cancelled = λ _. false; watches = [] };
}

abbrev pub idle_world : World
idle_world = world_of none

abbrev pub running_world : World
running_world = world_of (some 4)

pub world-IsValid : (ctx : Option ℕ) → IsValid (world_of ctx)
unfolding lookup
world-IsValid ctx = record { unlocked = refl; exist = (omega arith, tt); names = (refl, tt) }

pub world-IsSettled : (ctx : Option ℕ) → IsSettled (world_of ctx) 0
world-IsSettled ctx = record { unlocked = refl; paired = refl }

pub event-HasMaps : (ctx : Option ℕ) → HasMaps (event_in ctx)
unfolding lookup
event-HasMaps ctx = record { modifiers = tt; hooks = (refl, tt) }

abbrev pub host : PluginHost
host = record {
  stat = λ _. none;
  open_plugin = λ _. ok 3;
  lookup_symbol = λ _ _. ok 4;
  is_entrypoint = λ _. true;
  call = λ _ _ _. none;
}

pub path-Loads : (path : Bytes) → Loads host path
path-Loads path = record {
  handle = 3;
  symbol = 4;
  found = refl;
  opened = refl;
  has_symbol = refl;
  typed = refl;
}

abbrev pub ranging : Ranging
ranging = record {
  modifiers_order = λ m. m;
  modifiers_order-perm = λ m. Perm.refl m;
  hooks_order = λ m. m;
  hooks_order-perm = λ m. Perm.refl m;
  paths_order = λ m. m;
  paths_order-perm = λ m. Perm.refl m;
}

-- The plugin that the hook of the event loads as.
abbrev pub plugin : PluginInstance
plugin = record { name = codes "log"; plugin_path = codes "/log.so"; handle = 3; entrypoint = 4 }

-- `Run` of the idle event starts a watch with that plugin.
pub run_idle :
    run host ranging (receiver idle_world 0)
    ≡ done (ok 5) (started host ranging (receiver idle_world 0) (plugin ∷ []))
unfolding run load_plugins add_locations add_location build load with_cancel start lookup insert
run_idle = refl
