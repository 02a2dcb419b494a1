-- ===== src/Fs/Requests/Sequences.antt =====
-- On sequences of requests to the directory of events, of fs/events.go.
use jdwpfs.Base.{ℕ, suc, List, [], ◌∷◌, length, false, Option, ◌≡◌, ◌⊎◌, refl, ap, inl, inr, codes}
use jdwpfs.Go.Sync.{Outcome, done, blocked, crashed, ◌>>=◌}
use jdwpfs.Debug.Event.{new_stub_debugging_event}
use jdwpfs.Debug.Manager.{World, new_event_manager}
use jdwpfs.Fs.Events.{JdwpEventsMasterDir}
use jdwpfs.Fs.Safe.{IsSound, Safe, Grows, Grows-refl, Grows-trans, bind-Safe}
use jdwpfs.Fs.Requests.{Setting, Request, Response, serve, serve_all}
use jdwpfs.Fs.Requests.Laws.{Crashes, serve-Safe}

-- Some request ends the process.
abbrev pub CrashesAny : JdwpEventsMasterDir → List (Setting × Request) → Type 0
CrashesAny d [] = ⊥
CrashesAny d ((s, r) ∷ rest) = Crashes s d r ⊎ CrashesAny d rest

-- The world of a file system that was just mounted: no event, and nobody holds a mutex.
abbrev pub mounted : Option ℕ → World
mounted conn = record {
  manager = new_event_manager conn;
  next_event = 0;
  event_at = λ _. new_stub_debugging_event (codes "");
  runtime = record { next_context = 0; cancelled = λ _. false; watches = [] };
}

pub mounted-IsSound : (conn : Option ℕ) → IsSound (mounted conn)
unfolding new_event_manager new_stub_debugging_event
mounted-IsSound conn = record {
  valid = record { unlocked = refl; exist = tt; names = tt };
  settled = λ p. record { unlocked = refl; paired = refl };
  maps = λ p. record { modifiers = tt; hooks = tt };
}

Safe-weaken :
    {A : Type 0} {C D : Type 0} (w : World) (out : Outcome World A)
    → (C → D)
    → Safe C w out
    → Safe D w out
Safe-weaken w (done a w') f h = h
Safe-weaken w blocked f h = h
Safe-weaken w crashed f h = f h

pub serve_all-Safe :
    (d : JdwpEventsMasterDir) (requests : List (Setting × Request)) (w : World)
    → IsSound w
    → Safe (CrashesAny d requests) w (serve_all d requests w)
unfolding serve_all
serve_all-Safe d [] w s = (s, Grows-refl w)
serve_all-Safe d ((st, r) ∷ rest) w s =
    bind-Safe _ w (serve st d r) _ (Safe-weaken w (serve st d r w) inl (serve-Safe st d w s r))
      (λ a w' q s'.
        bind-Safe _ w' (serve_all d rest) _
          (Safe-weaken w' (serve_all d rest w') inr (serve_all-Safe d rest w' s'))
          (λ more w'' q' s''. (s'', Grows-refl w'')))

returns :
    {A : Type 0} {Crash : Type 0} (w : World) (out : Outcome World A)
    → Safe Crash w out
    → ¬ Crash
    → (a : A) × (w' : World) × (out ≡ done a w') × IsSound w' × Grows w w'
returns w (done a w') h n = (a, w', refl, h.0, h.1)
returns w blocked h n = absurd h
returns w crashed h n = absurd (n h)

serve_all_cons :
    (d : JdwpEventsMasterDir) (st : Setting) (r : Request) (rest : List (Setting × Request))
    (a : Response) (more : List Response) (w w' w'' : World)
    → serve st d r w ≡ done a w'
    → serve_all d rest w' ≡ done more w''
    → serve_all d ((st, r) ∷ rest) w ≡ done (a ∷ more) w''
unfolding serve_all
serve_all_cons d st r rest a more w w' w'' q q' = rw (q, ◌>>=◌, q') refl

-- In a sound world, requests of which none has a cause to crash all return, and leave a sound world
-- whose registry is the old one with possibly more entries behind.
pub serve_all-returns :
    (d : JdwpEventsMasterDir) (requests : List (Setting × Request)) (w : World)
    → IsSound w
    → ¬ CrashesAny d requests
    → (responses : List Response) × (w' : World) × (serve_all d requests w ≡ done responses w')
      × (length responses ≡ length requests)
      × IsSound w'
      × Grows w w'
unfolding serve_all
serve_all-returns d [] w s n = ([], w, refl, refl, s, Grows-refl w)
serve_all-returns d ((st, r) ∷ rest) w s n =
    let (a, w', q, s', g) = returns w (serve st d r w) (serve-Safe st d w s r) (λ c. n (inl c)) in
    let (more, w'', q', len, s'', g') = serve_all-returns d rest w' s' (λ c. n (inr c)) in
    (
      a ∷ more,
      w'',
      serve_all_cons d st r rest a more w w' w'' q q',
      ap suc len,
      s'',
      Grows-trans w w' w'' g g',
    )
