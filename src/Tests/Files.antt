-- ===== src/Tests/Files.antt =====
-- The theorems on the files of an event and of a thread.
use mathlib.Core.List.{Perm}
use jdwpfs.Base.{List, [], ◌∷◌, map, none, some, true, false, ◌≡◌, ◌⊎◌, refl, codes, text_eq, ℕ}
use jdwpfs.Base.Dict.{lookup}
use jdwpfs.Go.Sync.{done, free}
use jdwpfs.Go.Space.{trim_space}
use jdwpfs.Debug.Plugins.{PluginInstance}
use jdwpfs.Debug.Plugins.Laws.{entry_of}
use jdwpfs.Debug.Event.{method_entry, suspend_all}
use jdwpfs.Debug.Event.Running.{started}
use jdwpfs.Debug.Manager.{World, receiver, put_back}
use jdwpfs.Debug.Manager.Frame.{runs}
use jdwpfs.Fs.Node.{reply, fail, ebade, efault, eafnosupport, read_from}
use jdwpfs.Fs.Debuggee.{Debuggee}
use jdwpfs.Fs.Control
use jdwpfs.Fs.Control.Replies.{read-write_control, write-start, write-stop}
use jdwpfs.Fs.Kind
use jdwpfs.Fs.Kind.Laws.{read-write_kind, write-unknown_kind, with_kind, name_of}
use jdwpfs.Fs.Policy
use jdwpfs.Fs.Policy.Laws.{read-write_policy, with_policy, policy_name}
use jdwpfs.Fs.ThreadControl
use jdwpfs.Fs.ThreadControl.Laws.{
  SaysResume, SaysSuspend, SaysNothing, Sends, Refuses, sent, write-Sends, write_all_lem,
}
use jdwpfs.Tests.Data.{
  idle_world, running_world, host, ranging, path-Loads, event-HasMaps, world-IsSettled,
}

abbrev control : Control.EventControlFile
control = record { event = 0 }

abbrev kind_file : Kind.EventKindFile
kind_file = record { event = 0 }

abbrev policy_file : Policy.EventSuspendPolicyFile
policy_file = record { event = 0 }

read-write_control_example :
    Control.read control 0 idle_world ≡ done (reply (codes "idle")) idle_world
unfolding Control.command_of Control.write Control.perform read_from trim_space text_eq
read-write_control_example =
    read-write_control host ranging idle_world control (codes "cancel") (world-IsSettled none) 0
      (reply 6) idle_world refl

write-start_example :
    (plugins : List PluginInstance) × (Control.write host ranging control (codes "1\n") idle_world
      ≡ done
          (reply 2)
          (put_back idle_world 0 (started host ranging (receiver idle_world 0) plugins)))
    × Perm (map entry_of plugins) ((codes "log", codes "/log.so") ∷ [])
unfolding Control.command_of trim_space text_eq
write-start_example =
    write-start host ranging idle_world control (codes "1\n") (world-IsSettled none) refl refl
      (event-HasMaps none).hooks (λ e _. path-Loads e.1)

write-stop_example :
    (w' : World) × (Control.write host ranging control (codes "0\n") running_world
      ≡ done (fail ebade) w')
    × (runs w' 0 ≡ false)
unfolding Control.command_of trim_space text_eq
write-stop_example =
    write-stop host ranging running_world control (codes "0\n") (world-IsSettled (some 4)) refl refl

read-write_kind_example :
    (Kind.write kind_file (codes "MethodEntry") idle_world
      ≡ done (reply 11) (with_kind idle_world kind_file (world-IsSettled none) method_entry))
    × (Kind.write kind_file (codes "MethodEntry\n") idle_world
        ≡ done (reply 12) (with_kind idle_world kind_file (world-IsSettled none) method_entry))
    × (Kind.read name_of kind_file 6
          (with_kind idle_world kind_file (world-IsSettled none) method_entry)
        ≡ done
            (reply (codes "Entry"))
            (with_kind idle_world kind_file (world-IsSettled none) method_entry))
unfolding name_of read_from
read-write_kind_example =
    read-write_kind idle_world kind_file (world-IsSettled none) name_of method_entry 6

write-unknown_kind_example :
    Kind.write kind_file (codes "Entry") idle_world ≡ done (fail eafnosupport) idle_world
unfolding lookup trim_space text_eq
write-unknown_kind_example =
    write-unknown_kind idle_world kind_file (world-IsSettled none) (codes "Entry") refl

read-write_policy_example :
    (Policy.write policy_file (codes "SuspendAll") idle_world
      ≡ done (reply 10) (with_policy idle_world policy_file (world-IsSettled none) suspend_all))
    × (Policy.write policy_file (codes "SuspendAll\n") idle_world
        ≡ done (reply 11) (with_policy idle_world policy_file (world-IsSettled none) suspend_all))
    × (Policy.read policy_name policy_file 7
          (with_policy idle_world policy_file (world-IsSettled none) suspend_all)
        ≡ done
            (reply (codes "All"))
            (with_policy idle_world policy_file (world-IsSettled none) suspend_all))
unfolding policy_name read_from
read-write_policy_example =
    read-write_policy idle_world policy_file (world-IsSettled none) policy_name suspend_all 7

-- Every thread has the suspend status of the process.
abbrev process : ℕ → Debuggee
process status = record {
  get_all_threads = some (3 ∷ []);
  get_thread_name = λ _. some (codes "main");
  get_thread_status = λ _. some (1, status);
  get_all_classes = none;
  get_methods = λ _. none;
  get_fields = λ _. none;
}

abbrev commands : ThreadControl.Commands
commands = record {
  suspend = λ _ _. (process 1, true);
  resume = λ _ _. (process 0, true);
  suspend_all = λ _. (process 1, true);
  resume_all = λ _. (process 0, true);
}

abbrev thread : ℕ → ThreadControl.ControlFile
thread status = record { thread_id = 3; mu = free; jvm = process status }

write-Sends_example :
    (SaysResume (codes "0\n")
      × Sends commands (thread 1) refl (codes "0\n") 1 (process 0, true) (some (1, 1)))
    ⊎ ((SaysSuspend (codes "0\n")
          × Sends commands (thread 1) refl (codes "0\n") 0 (process 1, true) (some (1, 1)))
        ⊎ (SaysNothing (codes "0\n")
            × Refuses commands (thread 1) refl (codes "0\n") (some (1, 1))))
write-Sends_example = write-Sends commands (thread 1) refl (codes "0\n")

write_all_lem_example :
    (SaysResume (codes "running")
      × (ThreadControl.write_all commands (codes "running") (thread 0)
          ≡ sent (thread 0) (codes "running") (process 0, true)))
    ⊎ ((SaysSuspend (codes "running")
          × (ThreadControl.write_all commands (codes "running") (thread 0)
              ≡ sent (thread 0) (codes "running") (process 1, true)))
        ⊎ (SaysNothing (codes "running")
            × (ThreadControl.write_all commands (codes "running") (thread 0)
                ≡ done (fail efault) (thread 0))))
write_all_lem_example = write_all_lem commands (thread 0) refl (codes "running")

-- Suspending a running thread, or resuming a suspended one, sends no command.
stays_running : ThreadControl.write commands (codes "0\n") (thread 0) ≡ done (reply 2) (thread 0)
unfolding ThreadControl.write ThreadControl.written_state trim_space text_eq
stays_running = refl

stays_suspended : ThreadControl.write commands (codes "1") (thread 1) ≡ done (reply 1) (thread 1)
unfolding ThreadControl.write ThreadControl.written_state trim_space text_eq
stays_suspended = refl

suspends_all :
    ThreadControl.write_all commands (codes "running") (thread 0) ≡ done (reply 7) (thread 1)
unfolding ThreadControl.write_all ThreadControl.written_state trim_space text_eq
suspends_all = refl
