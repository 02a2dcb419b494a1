-- ===== src/Debug/Manager/Held.antt =====
-- On calls while somebody holds the read lock of the manager of debug/event_manager.go.
use jdwpfs.Base.{ℕ, suc, List, Option, none, some, false, ◌≡◌, refl, Bytes}
use jdwpfs.Go.Sync.{Outcome, done, blocked, crashed, M}
use jdwpfs.Debug.Errors.{GoError, Result}
use jdwpfs.Debug.Plugins.{PluginHost}
use jdwpfs.Debug.Event.{Receiver}
use jdwpfs.Debug.Event.Run.{Ranging, run}
use jdwpfs.Debug.Manager.{
  World, on_event, receiver, create_event, get_event, get_all_events, run_event, deregister_event,
  find_event, run_found, put_back,
}

-- Somebody holds the read lock.
abbrev pub IsHeld : World → Type 0
IsHeld w = (n : ℕ) × (w.manager.mu ≡ record { readers = suc n; writer = false })

-- A call that returns: a method of an event, or any call of the manager but `CancelEvent`.
pub data Step (w : World) : World → Type 1 where
  method :
      {A : Type 0} {w' : World} (p : ℕ) (m : M Receiver A) (a : A)
      → on_event p m w ≡ done a w'
      → Step w w'
  get :
      {w' : World} (name : Bytes) (result : Result ℕ)
      → get_event name w ≡ done result w'
      → Step w w'
  get_all : {w' : World} (result : Result (List ℕ)) → get_all_events w ≡ done result w' → Step w w'
  start :
      {w' : World} (host : PluginHost) (ranging : Ranging) (name : Bytes) (result : Option GoError)
      → run_event host ranging name w ≡ done result w'
      → Step w w'
  create :
      {w' : World} (name : Bytes) (result : Result ℕ)
      → create_event name w ≡ done result w'
      → Step w w'
  deregister :
      {w' : World} (name : Bytes) (result : Option GoError)
      → deregister_event name w ≡ done result w'
      → Step w w'

-- Any number of such calls, one after the other.
pub data Steps (w : World) : World → Type 1 where
  stop : Steps w w
  then : {v u : World} → Steps w v → Step v u → Steps w u

abbrev StaysHeld : {A : Type 0} → Outcome World A → Type 0
StaysHeld (done _ w) = IsHeld w
StaysHeld blocked = Unit {0}
StaysHeld crashed = Unit {0}

returned :
    {A : Type 0} {o : Outcome World A} (a : A) (w : World) → StaysHeld o → o ≡ done a w → IsHeld w
returned a w h e = rw e at h

blocked-held : {A : Type 0} {o : Outcome World A} → o ≡ blocked → StaysHeld o
blocked-held e = rw e tt

on_event-held :
    {A : Type 0} (p : ℕ) (m : M Receiver A) (w : World) → IsHeld w → StaysHeld (on_event p m w)
unfolding on_event
on_event-held p m w h =
    elim (m (receiver w p))
      as (λ o.
        StaysHeld
          (elim o [ done a r ↦ done a (put_back w p r) | blocked ↦ blocked | crashed ↦ crashed ])) [
            | done a r ↦ h
            | blocked ↦ tt
            | crashed ↦ tt
          ]

then-held :
    {A B : Type 0} (o : Outcome World A) (f : A → M World B)
    → StaysHeld o
    → ((a : A) (w : World) → IsHeld w → StaysHeld (f a w))
    → StaysHeld (elim o [ done a w ↦ f a w | blocked ↦ blocked | crashed ↦ crashed ])
then-held (done a w) f h k = k a w h
then-held blocked f h k = tt
then-held crashed f h k = tt

get_event-held : (name : Bytes) (w : World) → IsHeld w → StaysHeld (get_event name w)
unfolding get_event
get_event-held name w (n, q) = rw q (n, refl)

get_all_events-held : (w : World) → IsHeld w → StaysHeld (get_all_events w)
unfolding get_all_events
get_all_events-held w (n, q) = rw q (n, refl)

run_found-held :
    (host : PluginHost) (ranging : Ranging) (name : Bytes) (found : Option ℕ) (w : World) {n : ℕ}
    → w.manager.mu ≡ record { readers = suc (suc n); writer = false }
    → StaysHeld (run_found host ranging name found w)
unfolding run_found
run_found-held host ranging name none w {n} q = (suc n, q)
run_found-held host ranging name (some p) w {n} q = rw q (
    then-held (on_event p (run host ranging) _) _ (on_event-held p (run host ranging) _ (n, refl))
      (λ a w' h. h))

run_event-held :
    (host : PluginHost) (ranging : Ranging) (name : Bytes) (w : World)
    → IsHeld w
    → StaysHeld (run_event host ranging name w)
unfolding run_event find_event
run_event-held host ranging name w (n, q) =
    rw q (run_found-held host ranging name (find_event name w) _ refl)

-- Nobody can write.
pub writers_wait :
    (w : World)
    → IsHeld w
    → (name : Bytes) → (create_event name w ≡ blocked) × (deregister_event name w ≡ blocked)
unfolding create_event deregister_event
writers_wait w (n, q) name = (rw q refl, rw q refl)

Step-IsHeld : {w w' : World} → Step w w' → IsHeld w → IsHeld w'
Step-IsHeld {w} {w'} (method p m a e) h = returned a w' (on_event-held p m w h) e
Step-IsHeld {w} {w'} (get name r e) h = returned r w' (get_event-held name w h) e
Step-IsHeld {w} {w'} (get_all r e) h = returned r w' (get_all_events-held w h) e
Step-IsHeld {w} {w'} (start host ranging name r e) h =
    returned r w' (run_event-held host ranging name w h) e
Step-IsHeld {w} {w'} (create name r e) h = returned r w' (blocked-held (writers_wait w h name).0) e
Step-IsHeld {w} {w'} (deregister name r e) h =
    returned r w' (blocked-held (writers_wait w h name).1) e

pub Steps-IsHeld : {w w' : World} → Steps w w' → IsHeld w → IsHeld w'
Steps-IsHeld stop h = h
Steps-IsHeld (then s t) h = Step-IsHeld t (Steps-IsHeld s h)
