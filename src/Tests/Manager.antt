-- ===== src/Tests/Manager.antt =====
-- The theorems on the manager, for the manager of the test data.
use jdwpfs.Base.{last_match, [], ◌∷◌, ◌++◌, false, none, some, ◌≡◌, refl, Bytes, codes, text_eq}
use jdwpfs.Base.Dict.{lookup}
use jdwpfs.Go.Sync.{done, crashed, blocked}
use jdwpfs.Debug.Errors.{wrap, debugging_event, ok}
use jdwpfs.Debug.Event.Running.{started}
use jdwpfs.Debug.Manager.{
  World, create_event, get_event, deregister_event, run_event, cancel_event, receiver, put_back,
  find_event,
}
use jdwpfs.Debug.Manager.Registry.{IsCreated, create_event-Creates, get_event-lookup, with_mu}
use jdwpfs.Debug.Manager.Removal.{IsRemoved, deregister_event-Deregisters}
use jdwpfs.Debug.Manager.Held.{Steps, stop, then, start}
use jdwpfs.Debug.Manager.Locks.{
  held_for_reading, run_event-absent, run_event-found, cancel_event-found,
}
use jdwpfs.Tests.Data.{
  plugin, run_idle, idle_world, running_world, world-IsValid, world-IsSettled, host, ranging,
}

create_event-Creates_example :
    (w' : World) × (create_event (codes "b") idle_world ≡ done (ok 1) w')
    × IsCreated idle_world (codes "b") w'
unfolding lookup text_eq
create_event-Creates_example = create_event-Creates idle_world (codes "b") (world-IsValid none)

get_event-lookup_example : get_event (codes "a") idle_world ≡ done (ok 0) idle_world
unfolding lookup text_eq
get_event-lookup_example = get_event-lookup idle_world (codes "a") (world-IsValid none)

deregister_event-Deregisters_example :
    (w' : World) × (deregister_event (codes "a") idle_world ≡ done none w')
    × IsRemoved idle_world (codes "a") 0 w'
unfolding lookup text_eq
deregister_event-Deregisters_example =
    deregister_event-Deregisters idle_world (codes "a") (world-IsValid none) refl refl

run_event-absent_example :
    (run_event host ranging (codes "b") idle_world
      ≡ done
          (some (wrap debugging_event (codes "unable to find event with name " ++ codes "b")))
          (with_mu idle_world held_for_reading))
    × ((w' : World)
        → Steps (with_mu idle_world held_for_reading) w'
        → (other : Bytes)
        → (create_event other w' ≡ blocked) × (deregister_event other w' ≡ blocked))
unfolding lookup text_eq
run_event-absent_example =
    run_event-absent host ranging idle_world (codes "b") (world-IsValid none) refl

cancel_event-found_example : cancel_event (codes "a") running_world ≡ crashed
unfolding lookup text_eq
cancel_event-found_example =
    cancel_event-found running_world (codes "a") (world-IsValid (some 4)) refl
      (world-IsSettled (some 4))

run_event-found_example :
    run_event host ranging (codes "a") idle_world
    ≡ done none (put_back idle_world 0 (started host ranging (receiver idle_world 0) (plugin ∷ [])))
unfolding lookup text_eq
run_event-found_example =
    run_event-found host ranging idle_world (codes "a") (world-IsValid none) _ (ok 5) refl run_idle

-- A second `RunEvent` of the unknown name returns too, and keeps a second read lock.
two_locks :
    Steps
      (with_mu idle_world held_for_reading)
      (with_mu idle_world (record { readers = 2; writer = false }))
unfolding run_event find_event last_match text_eq
two_locks = then stop (start host ranging (codes "b") _ refl)
