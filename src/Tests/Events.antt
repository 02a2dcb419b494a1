-- ===== src/Tests/Events.antt =====
-- The theorems on events and plugins, for the event of the test data.
use mathlib.Core.List.{Perm}
use jdwpfs.Base.{List, [], ◌∷◌, map, none, some, true, false, ◌≡◌, refl, codes}
use jdwpfs.Go.Sync.{done}
use jdwpfs.Debug.Errors.{ok, err, wrap, plugin_builder, context_canceled}
use jdwpfs.Debug.Plugins.{PluginHost, PluginInstance, entrypoint}
use jdwpfs.Debug.Plugins.Laws.{report, failures, entry_of, entrypoint-failures}
use jdwpfs.Debug.Event.{Receiver, is_running}
use jdwpfs.Debug.Event.Run.{run, cancel}
use jdwpfs.Debug.Event.Running.{Ran, run-started, run-Ran, started, watch_of}
use jdwpfs.Debug.Event.Cancelling.{stopped, cancel-run}
use jdwpfs.Debug.Manager.{receiver}
use jdwpfs.Tests.Data.{idle_world, host, ranging, plugin, run_idle, path-Loads, event-HasMaps}

abbrev idle : Receiver
idle = receiver idle_world 0

abbrev busy : Receiver
busy = started host ranging idle (plugin ∷ [])

run-started_example :
    (plugins : List PluginInstance) × (run host ranging idle
      ≡ done (ok 5) (started host ranging idle plugins))
    × Perm (map entry_of plugins) idle.self.hook_descriptors
run-started_example =
    run-started host ranging idle refl (event-HasMaps none).hooks (λ e _. path-Loads e.1)

run-Ran_example : Ran host ranging idle (run host ranging idle)
run-Ran_example = run-Ran host ranging idle refl

cancel-run_example :
    (plugins : List PluginInstance) × (busy.runtime.watches
      ≡ watch_of host ranging idle.self 5 plugins ∷ [])
    × (is_running busy ≡ done true busy)
    × (cancel busy ≡ done (some context_canceled) (stopped busy 5))
    × (is_running (stopped busy 5) ≡ done false (stopped busy 5))
    × ((stopped busy 5).runtime.cancelled 5 ≡ true)
cancel-run_example = cancel-run host ranging idle refl run_idle

-- A host that cannot open any plugin.
abbrev closed_host : PluginHost
closed_host = record host { open_plugin = λ _. err (wrap plugin_builder (codes "no file")) }

entrypoint-failures_example :
    entrypoint host (plugin ∷ []) 9 ≡ report (failures host 9 (plugin ∷ []))
entrypoint-failures_example = entrypoint-failures host (plugin ∷ []) 9
