-- ===== src/Debug/Manager/Locks.antt =====
-- On the mutex of `EventManager` in debug/event_manager.go.
use jdwpfs.Base.{
  ◌∙◌, Option-cases, inl, inr, ℕ, ◌++◌, false, Option, none, some, ◌≡◌, refl, arith, Bytes, codes,
}
use jdwpfs.Base.Dict.{lookup}
use jdwpfs.Go.Sync.{done, blocked, crashed, RwMutex}
use jdwpfs.Debug.Errors.{GoError, Result, wrap, debugging_event}
use jdwpfs.Debug.Plugins.{PluginHost}
use jdwpfs.Debug.Event.{Receiver}
use jdwpfs.Debug.Event.Run.{Ranging, run, cancel}
use jdwpfs.Debug.Event.Methods.{IsFree}
use jdwpfs.Debug.Event.Cancelling.{cancel-idle, cancel-running}
use jdwpfs.Debug.Manager.Frame.{IsSettled}
use jdwpfs.Debug.Manager.Held.{Steps, Steps-IsHeld, writers_wait}
use jdwpfs.Debug.Manager.{
  World, on_event, create_event, run_event, cancel_event, deregister_event, receiver, put_back,
  run_result,
}
use jdwpfs.Debug.Manager.Registry.{
  registry, IsValid, with_mu, find_event-with_mu, find_event-lookup,
}

abbrev pub held_for_reading : RwMutex
held_for_reading = record { readers = 1; writer = false }

module _ (host : PluginHost) (ranging : Ranging) (w : World) (name : Bytes) (v : IsValid w) where
  -- In a valid world, `RunEvent` of a name that is not registered returns an error and keeps
  -- the manager's read lock. After any number of calls that return, of methods of events and of
  -- `GetEvent`, `GetAllEvents`, `RunEvent`, `CreateEvent` and `DeregisterEvent`, a call of
  -- `CreateEvent` or `DeregisterEvent` of any name waits for that lock.
  pub run_event-absent :
      lookup name (registry w) ≡ none
      → (run_event host ranging name w
          ≡ done
              (some (wrap debugging_event (codes "unable to find event with name " ++ name)))
              (with_mu w held_for_reading))
        × ((w' : World)
            → Steps (with_mu w held_for_reading) w'
            → (other : Bytes)
            → (create_event other w' ≡ blocked) × (deregister_event other w' ≡ blocked))
  unfolding run_event
  run_event-absent h = (
    ground (arith, find_event-with_mu w name held_for_reading, find_event-lookup w name v),
    λ w' s other. writers_wait w' (Steps-IsHeld s (0, refl)) other,
  )

  -- In a valid world, if `Run` of the event registered under a name returns, then `RunEvent` of
  -- that name returns its error or none, and leaves what `Run` left, the manager as before.
  pub run_event-found :
      {p : ℕ} (r' : Receiver) (result : Result ℕ)
      → lookup name (registry w) ≡ some p
      → run host ranging (receiver w p) ≡ done result r'
      → run_event host ranging name w ≡ done (run_result result) (put_back w p r')
  unfolding run_event on_event
  run_event-found r' result h q =
      ground (arith, find_event-with_mu w name held_for_reading, find_event-lookup w name v)

cancel_settled :
    (r : Receiver)
    → IsFree r
    → r.self.cancel ≡ r.self.ctx
    → (result : Option GoError) × (r' : Receiver) × (cancel r ≡ done result r')
cancel_settled r f paired = elim (Option-cases r.self.ctx) [
  | inl idle ↦ (_, _, cancel-idle r f idle)
  | inr (c, at) ↦ (_, _, cancel-running r c f at (paired ∙ at))
]

-- In a valid world, `CancelEvent` of a registered name whose event is settled, running or not,
-- ends the process.
pub cancel_event-found :
    (w : World) (name : Bytes) {p : ℕ}
    → IsValid w
    → lookup name (registry w) ≡ some p
    → IsSettled w p
    → cancel_event name w ≡ crashed
unfolding cancel_event on_event
cancel_event-found w name {p} v h s =
    let (result, r', q) = cancel_settled (receiver w p) s.unlocked s.paired in
    ground (arith, find_event-with_mu w name held_for_reading, find_event-lookup w name v, q)
