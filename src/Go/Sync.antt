-- ===== src/Go/Sync.antt =====
-- How a call ends, and `sync.RWMutex` as one goroutine sees it.
use jdwpfs.Base.{ℕ, zero, suc, ◌≡◌, refl, Bool, true, false}

-- A call returns with the new state, waits on a mutex that is held, or ends the process: by a panic
-- or by a fatal error of the runtime.
pub data Outcome (S A : Type 0) : Type 0 where
  done : A → S → Outcome S A
  blocked : Outcome S A
  crashed : Outcome S A

abbrev pub M : Type 0 → Type 0 → Type 0
M S A = S → Outcome S A

module _ {S : Type 0} where
  abbrev pub pure : {A : Type 0} → A → M S A
  pure a s = done a s

  infixl 5 ◌>>=◌ ◌>>◌
  abbrev pub ◌>>=◌ : {A B : Type 0} → M S A → (A → M S B) → M S B
  ◌>>=◌ m f s = elim (m s) [ done a s' ↦ f a s' | blocked ↦ blocked | crashed ↦ crashed ]

  abbrev pub ◌>>◌ : {B : Type 0} → M S (Unit {0}) → M S B → M S B
  m >> k = m >>= λ _. k

  abbrev pub gets : {A : Type 0} → (S → A) → M S A
  gets f s = done (f s) s

  abbrev pub modify : (S → S) → M S (Unit {0})
  modify f s = done tt (f s)

-- `sync.RWMutex`: the read locks held, and whether the write lock is held.
pub record RwMutex : Type 0 where
  pub readers : ℕ
  pub writer : Bool

abbrev pub free : RwMutex
free = record { readers = zero; writer = false }

abbrev pub held_for_writing : RwMutex
held_for_writing = record { readers = zero; writer = true }

-- `Lock` waits until nobody holds the mutex.
abbrev lock_state : ℕ → Bool → Outcome RwMutex (Unit {0})
lock_state zero false = done tt held_for_writing
lock_state (suc n) false = blocked
lock_state n true = blocked

abbrev pub lock : M RwMutex (Unit {0})
lock m = lock_state m.readers m.writer

-- `RLock` waits for the writer only.
abbrev r_lock_state : ℕ → Bool → Outcome RwMutex (Unit {0})
r_lock_state n false = done tt (record { readers = suc n; writer = false })
r_lock_state n true = blocked

abbrev pub r_lock : M RwMutex (Unit {0})
r_lock m = r_lock_state m.readers m.writer

-- An unlock of what is not held is a fatal error.
abbrev unlock_state : ℕ → Bool → Outcome RwMutex (Unit {0})
unlock_state n true = done tt (record { readers = n; writer = false })
unlock_state n false = crashed

abbrev pub unlock : M RwMutex (Unit {0})
unlock m = unlock_state m.readers m.writer

abbrev r_unlock_state : ℕ → Bool → Outcome RwMutex (Unit {0})
r_unlock_state zero w = crashed
r_unlock_state (suc n) w = done tt (record { readers = n; writer = w })

abbrev pub r_unlock : M RwMutex (Unit {0})
r_unlock m = r_unlock_state m.readers m.writer

-- A free mutex is free again after a critical section, and a second unlock ends the process.
lock-unlock : (lock >> unlock) free ≡ done tt free
lock-unlock = refl

r_lock-r_unlock_twice : (r_lock >> r_unlock >> r_unlock) free ≡ crashed
r_lock-r_unlock_twice = refl
