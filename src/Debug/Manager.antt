-- ===== src/Debug/Manager.antt =====
-- debug/event_manager.go: the registry of events. Events are shared by reference: the world holds
-- them by number, and the registry, the directories and the files hold those numbers.
pub mod Registry
pub mod Removal
pub mod Held
pub mod Locks
pub mod Frame
use jdwpfs.Base.{
  ℕ, suc, List, [], ◌∷◌, ◌++◌, ◌+◌, Bool, true, false, Option, none, some, Bytes, codes, text_eq,
  last_match, take, drop, ◌==◌, if◌then◌else◌,
}
use jdwpfs.Go.Sync.{
  Outcome, done, blocked, crashed, M, pure, ◌>>=◌, ◌>>◌, gets, modify, RwMutex, free, lock, unlock,
  r_lock, r_unlock,
}
use jdwpfs.Debug.Errors.{GoError, wrap, debugging_event, Result, ok, err}
use jdwpfs.Debug.Plugins.{PluginHost}
use jdwpfs.Debug.Event.{
  DebuggingEvent, Runtime, Receiver, new_stub_debugging_event, set_conn, on_mu,
}
use jdwpfs.Debug.Event.Run.{Ranging, run, cancel}

pub record EventManager : Type 0 where
  pub jdwp_connection : Option ℕ
  pub mu : RwMutex
  pub registered_events : List ℕ

-- All that the handlers share: the manager, the events made so far, and the runtime.
pub record World : Type 0 where
  pub manager : EventManager
  pub next_event : ℕ
  pub event_at : ℕ → DebuggingEvent
  pub runtime : Runtime

unfoldable pub new_event_manager : Option ℕ → EventManager
new_event_manager conn = record { jdwp_connection = conn; mu = free; registered_events = [] }

abbrev pub update : (ℕ → DebuggingEvent) → ℕ → DebuggingEvent → ℕ → DebuggingEvent
update f p e q = if p == q then e else f q

abbrev pub receiver : World → ℕ → Receiver
receiver w p = record { self = w.event_at p; runtime = w.runtime }

abbrev pub put_back : World → ℕ → Receiver → World
put_back w p r = record w { event_at = update w.event_at p r.self; runtime = r.runtime }

-- A method of the event `p`.
unfoldable pub on_event : {A : Type 0} → ℕ → M Receiver A → M World A
on_event p m w = elim (m (receiver w p)) [
  | done a r ↦ done a (put_back w p r)
  | blocked ↦ blocked
  | crashed ↦ crashed
]

-- The manager's mutex.
abbrev pub on_manager : M RwMutex (Unit {0}) → M World (Unit {0})
on_manager m w = elim (m w.manager.mu) [
  | done _ mu ↦ done tt (record w { manager = record w.manager { mu = mu } })
  | blocked ↦ blocked
  | crashed ↦ crashed
]

-- The loop over `registeredEvents`, which goes on behind a match.
unfoldable pub find_event : Bytes → World → Option ℕ
find_event name w =
    last_match (λ p. text_eq (w.event_at p).name name) none w.manager.registered_events

not_found : Bytes → GoError
not_found name = wrap debugging_event (codes "unable to find event with name " ++ name)

-- `&DebuggingEvent{…}`: a new number.
new_event : DebuggingEvent → M World ℕ
new_event e w =
    let p = w.next_event in
    done p (record w { next_event = suc p; event_at = update w.event_at p e })

append_event : ℕ → M World (Unit {0})
append_event p = modify (λ w. record w {
  manager = record w.manager { registered_events = w.manager.registered_events ++ p ∷ [] };
})

create_new : Bytes → Option ℕ → M World (Result ℕ)
create_new name (some _) =
    pure (err (wrap debugging_event (codes "event with name " ++ name ++ codes " already exists")))
create_new name none = do
  event ← new_event (new_stub_debugging_event name)
  conn ← gets (λ w. w.manager.jdwp_connection)
  on_event event (set_conn conn)
  append_event event
  pure (ok event)

unfoldable pub create_event : Bytes → M World (Result ℕ)
unfolding create_new new_event append_event
create_event name = do
  on_manager lock
  found ← gets (find_event name)
  result ← create_new name found
  on_manager unlock
  pure result

found_event : Bytes → Option ℕ → Result ℕ
found_event name none = err (not_found name)
found_event name (some p) = ok p

unfoldable pub get_event : Bytes → M World (Result ℕ)
unfolding found_event not_found
get_event name = do
  on_manager r_lock
  found ← gets (find_event name)
  on_manager r_unlock
  pure (found_event name found)

unfoldable pub get_all_events : M World (Result (List ℕ))
get_all_events = do
  on_manager r_lock
  events ← gets (λ w. w.manager.registered_events)
  on_manager r_unlock
  pure (ok events)

abbrev pub run_result : Result ℕ → Option GoError
run_result (ok _) = none
run_result (err e) = some e

-- `RunEvent` takes the read lock and gives it back only if it finds the event.
run_found : PluginHost → Ranging → Bytes → Option ℕ → M World (Option GoError)
run_found host ranging name none = pure (some (not_found name))
run_found host ranging name (some p) = do
  on_manager r_unlock
  result ← on_event p (run host ranging)
  pure (run_result result)

unfoldable pub run_event : PluginHost → Ranging → Bytes → M World (Option GoError)
unfolding run_found not_found
run_event host ranging name = do
  on_manager r_lock
  found ← gets (find_event name)
  run_found host ranging name found

-- `CancelEvent` defers an `RUnlock`, and calls another before `event.Cancel()`.
cancel_found : Bytes → Option ℕ → M World (Option GoError)
cancel_found name none = pure (some (not_found name))
cancel_found name (some p) = do on_manager r_unlock; on_event p cancel

unfoldable pub cancel_event : Bytes → M World (Option GoError)
unfolding cancel_found not_found
cancel_event name = do
  on_manager r_lock
  found ← gets (find_event name)
  result ← cancel_found name found
  on_manager r_unlock
  pure result

-- The loop of `DeregisterEvent`: the last match with its index.
unfoldable pub find_index : (ℕ → Bool) → ℕ → Option (ℕ × ℕ) → List ℕ → Option (ℕ × ℕ)
find_index test i acc [] = acc
find_index test i acc (p ∷ ps) = find_index test (i + 1) (if test p then some (i, p) else acc) ps

remove_event : ℕ → M World (Unit {0})
remove_event i = modify (λ w. record w {
  manager = record w.manager {
    registered_events =
        take i w.manager.registered_events ++ drop (i + 1) w.manager.registered_events;
  };
})

deregister_idle : Bytes → ℕ → Option ℕ → M World (Option GoError)
deregister_idle name i (some _) =
    pure (some (wrap debugging_event (codes "event " ++ name ++ codes " is running\n")))
deregister_idle name i none = do remove_event i; pure none

-- The event's mutex is taken and never given back.
deregister_found : Bytes → Option (ℕ × ℕ) → M World (Option GoError)
deregister_found name none = pure (some (not_found name))
deregister_found name (some (i, p)) = do
  on_event p (on_mu lock)
  ctx ← gets (λ w. (w.event_at p).ctx)
  deregister_idle name i ctx

unfoldable pub deregister_event : Bytes → M World (Option GoError)
unfolding deregister_found deregister_idle remove_event not_found
deregister_event name = do
  on_manager lock
  found ←
      gets
        (λ w. find_index (λ p. text_eq (w.event_at p).name name) 0 none w.manager.registered_events)
  result ← deregister_found name found
  on_manager unlock
  pure result
