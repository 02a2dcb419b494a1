-- ===== src/Lib.antt =====
-- The verification library of jdwpfs, a file system that shows a debugged Java process and lets
-- scripts suspend its threads and run plugins on its debugging events.
--
-- The parts of the program and the files that model them:
-- debug/debugging_event.go: `DebuggingEvent`, with `sync.RWMutex`, its setters and getters, `Run`
--   and `Cancel`: Debug/Event.antt and Debug/Event/Run.antt. A method is a function on the receiver
--   and the runtime (contexts made and cancelled, goroutines started) with three outcomes: it
--   returns, it waits on a mutex that is held, or it ends the process (Go/Sync.antt).
-- debug/event_manager.go: `EventManager`: Debug/Manager.antt. Events are shared by pointer, so the
--   world holds them by number, and the registry and the nodes hold the numbers. A registered event
--   is read through `registry`, the map from names to events (Debug/Manager/Registry.antt).
-- debug/plugin_runner.go: the builder and the runner: Debug/Plugins.antt. The operating system and
--   the package `plugin` are the parameter `PluginHost`. Error values: Debug/Errors.antt.
-- fs/event_control_files.go: the files `control` (Fs/Control.antt), `kind` (Fs/Kind.antt) and
--   `suspendPolicy` (Fs/Policy.antt), and the directories `location` (Fs/Location.antt) and `hooks`
--   (Fs/Hooks.antt) of an event. What the debugged process answers is the parameter `Debuggee`
--   (Fs/Debuggee.antt); `filepath.Abs` and `filepath.EvalSymlinks` are the parameter `Paths`.
-- fs/event_dir.go and fs/events.go: Fs/EventDir.antt and Fs/Events.antt.
-- fs/threads.go: the control files of one thread and of all: Fs/ThreadControl.antt. The commands to
--   the debugged process are the parameter `Commands`. The directories: Fs/Threads.antt and
--   Fs/ThreadDir.antt; fs/threads_named.go: Fs/ThreadsNamed.antt. A command returns what the process
--   answers from then on, and whether it succeeded.
-- fs/classes.go, fs/classes_by_signature.go and fs/class_info.go: Fs/Classes.antt,
--   Fs/ClassesBySignature.antt and Fs/ClassInfo.antt; what the directories of methods and of fields
--   have in common: Fs/Members.antt. `sort.Sort` is the parameter `Sorting`, with the laws that the
--   result is a permutation and, for a `Less` that is an order, in that order.
-- fs/rootfs.go: Fs/Root.antt. `net.Dial` and `jdwp.Open` are the parameter `Network`. `OnAdd` gives
--   its calls of the library's `AddChild`, in order.
-- main.go: Main.antt. The parser of the options, `os.Stat`, `filepath.Abs` and `fs.Mount` are the
--   parameter `System`. The wait goes over the signals and unmounts that happen.
-- Fs/Requests.antt puts the handlers of the directory of events together, as the FUSE library calls
--   them: one `Lookup` for each name of a path, then the handler of the node. Fs/Safe.antt and its
--   children are about the worlds that these handlers meet. Fs/Tree.antt walks the other paths
--   below the root, whose nodes only ask the debugged process.
-- The nodes call the event or the manager, the manager calls its events, and an event's `Run` calls
-- the builder, whose plugins the goroutine's hook calls.
--
-- Base and its children hold the shared names: byte strings, maps as association lists, list loops.
-- Go/Decimal.antt, Go/Split.antt, Go/Space.antt, Go/PathEscape.antt and Go/Filepath.antt are the
-- functions of strconv, strings, net/url and path/filepath that the program uses, on bytes. A
-- handler is one sequence of steps: calls of several goroutines at once are not interleaved, and a
-- call that wants a mutex which an earlier one has left held is `blocked`.
-- The slice that `GetAllEvents` returns shares its array with the manager; no handler keeps it.
-- Every loop is over a list, but for the digits of a number `n`, which have `n + 1` rounds of fuel,
-- enough since each round divides by ten. The order of a range over a map is a parameter, in `Run`
-- with the law that it is a permutation. Log lines are left out. File contents and directory
-- streams of the FUSE library are plain values.
--
-- A world is valid (`IsValid`) if the manager's mutex is free, the registered events exist, and no
-- name is registered twice. An event is settled (`IsSettled`) if its mutex is free and its cancel
-- function is set together with its context. A world is sound (`IsSound`) if it is valid, all events
-- are settled, and no key stands twice in the maps of an event.
--
-- Not modelled: the example plugin, which prints the event.
pub mod Base
pub mod Go
pub mod Debug
pub mod Fs
pub mod Main
mod Tests
