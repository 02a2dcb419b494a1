-- ===== src/Fs/Safe.antt =====
-- Calls that keep the events of debug/event_manager.go in order: the state between two calls of the
-- handlers, and the rules for a handler that is composed of methods.
pub mod Methods
pub mod Files
pub mod Directories
use jdwpfs.Base.{
  ℕ, List, [], ◌++◌, append-nil, append_assoc, Bool, true, false, Option, some, ◌≡◌, refl, sym, ap,
  ◌∙◌, inl, inr, arith, Bytes, Bool-cases, ◌==◌, ==_iff,
}
use jdwpfs.Base.Dict.{Dict, lookup}
use jdwpfs.Base.Dict.Nodup.{NodupKeys}
use jdwpfs.Go.Sync.{Outcome, done, blocked, crashed, M, pure, ◌>>=◌}
use jdwpfs.Debug.Event.{Receiver}
use jdwpfs.Debug.Event.Methods.{IsFree, HasMaps}
use jdwpfs.Debug.Manager.{World, receiver, put_back, on_event}
use jdwpfs.Debug.Manager.Registry.{IsValid, registry, entries-update}
use jdwpfs.Debug.Manager.Frame.{IsSettled}

-- Nobody holds a mutex, no name is registered twice, each event has a cancel function with its
-- context, and no map has a key twice.
pub record IsSound (w : World) : Type 0 where
  pub valid : IsValid w
  pub settled : (p : ℕ) → IsSettled w p
  pub maps : (p : ℕ) → HasMaps (w.event_at p)

-- The registry only gets longer.
abbrev pub Grows : World → World → Type 0
Grows w w' = (more : Dict ℕ) × (registry w' ≡ registry w ++ more)

pub Grows-refl : (w : World) → Grows w w
Grows-refl w = ([], sym (append-nil (registry w)))

pub Grows-trans : (w w' w'' : World) → Grows w w' → Grows w' w'' → Grows w w''
Grows-trans w w' w'' (more, e) (rest, e') =
    (more ++ rest, rw (e', e) (append_assoc (registry w) more rest))

-- A call that returns with the state in order again and never waits; `Crash` is why it crashes.
abbrev pub Safe : {A : Type 0} → Type 0 → World → Outcome World A → Type 0
Safe Crash w (done _ w') = IsSound w' × Grows w w'
Safe Crash w blocked = ⊥
Safe Crash w crashed = Crash

-- The same for a method of an event, which keeps its name.
pub record IsOk (r : Receiver) : Type 0 where
  pub unlocked : IsFree r
  pub paired : r.self.cancel ≡ r.self.ctx
  pub maps : HasMaps r.self

abbrev pub Tame : {A : Type 0} → Type 0 → Receiver → Outcome Receiver A → Type 0
Tame Crash r (done _ r') = IsOk r' × (r'.self.name ≡ r.self.name)
Tame Crash r blocked = ⊥
Tame Crash r crashed = Crash

pub receiver-IsOk : (w : World) (p : ℕ) → IsSound w → IsOk (receiver w p)
receiver-IsOk w p s = record {
  unlocked = (s.settled p).unlocked;
  paired = (s.settled p).paired;
  maps = s.maps p;
}

module _ {A : Type 0} (Crash : Type 0) where
  pub pure-Safe : (w : World) (a : A) → IsSound w → Safe Crash w (pure a w)
  pure-Safe w a s = (s, Grows-refl w)

  pub Safe-same :
      (w : World) (m : M World A) (a : A) → IsSound w → m w ≡ done a w → Safe Crash w (m w)
  Safe-same w m a s q = rw q (s, Grows-refl w)

  pub Tame-same :
      (r : Receiver) (m : M Receiver A) (a : A) → IsOk r → m r ≡ done a r → Tame Crash r (m r)
  Tame-same r m a k q = rw q (k, refl)

  put_back-Safe :
      (w : World) (p : ℕ) (a : A) (r : Receiver)
      → IsSound w
      → IsOk r
      → r.self.name ≡ (w.event_at p).name
      → Safe Crash w (done a (put_back w p r))
  put_back-Safe w p a r s k named =
      let same : registry (put_back w p r) ≡ registry w =
        entries-update w.event_at p r.self w.manager.registered_events named in
      (
        record {
          valid = record {
            unlocked = s.valid.unlocked;
            exist = s.valid.exist;
            names = rw same s.valid.names;
          };
          settled = λ q. elim (Bool-cases (p == q)) [
            | inl e ↦ record { unlocked = rw e k.unlocked; paired = rw e k.paired }
            | inr e ↦ record {
              unlocked = rw e (s.settled q).unlocked;
              paired = rw e (s.settled q).paired;
            }
          ];
          maps = λ q. elim (Bool-cases (p == q)) [
            | inl e ↦ record { modifiers = rw e k.maps.modifiers; hooks = rw e k.maps.hooks }
            | inr e ↦ record {
              modifiers = rw e (s.maps q).modifiers;
              hooks = rw e (s.maps q).hooks;
            }
          ];
        },
        ([], rw same (sym (append-nil (registry w)))),
      )

  -- A tame method of an event is a safe call.
  pub on_event-Safe :
      (w : World) (p : ℕ) (m : M Receiver A)
      → IsSound w
      → Tame Crash (receiver w p) (m (receiver w p))
      → Safe Crash w (on_event p m w)
  unfolding on_event
  on_event-Safe w p m s t = go (m (receiver w p)) t
    where
      go :
          (out : Outcome Receiver A)
          → Tame Crash (receiver w p) out
          → Safe Crash w (elim out [
            | done a r ↦ done a (put_back w p r)
            | blocked ↦ blocked
            | crashed ↦ crashed
          ])
      go (done a r) (k, named) = put_back-Safe w p a r s k named
      go blocked h = h
      go crashed h = h

-- A safe call behind a safe call.
pub bind-Safe :
    {A B : Type 0} (Crash : Type 0) (w : World) (m : M World A) (f : A → M World B)
    → Safe Crash w (m w)
    → ((a : A) (w' : World) → m w ≡ done a w' → IsSound w' → Safe Crash w' (f a w'))
    → Safe Crash w ((m >>= f) w)
bind-Safe {A} {B} Crash w m f h k = go (m w) refl h
  where
    later : (w' : World) (out : Outcome World B) → Grows w w' → Safe Crash w' out → Safe Crash w out
    later w' (done b w'') g (s, g') = (s, Grows-trans w w' w'' g g')
    later w' blocked g h = h
    later w' crashed g h = h

    go :
        (out : Outcome World A)
        → m w ≡ out
        → Safe Crash w out
        → Safe Crash w (elim out [ done a s' ↦ f a s' | blocked ↦ blocked | crashed ↦ crashed ])
    go (done a w') q (s, g) = later w' (f a w') g (k a w' q s)
    go blocked q h = h
    go crashed q h = h
