-- ===== src/Fs/Control/Laws.antt =====
-- On `Write` of `EventControlFile` in fs/event_control_files.go.
use jdwpfs.Base.{
  ℕ, Bool, true, false, some, ◌≡◌, refl, ◌∙◌, inl, inr, arith, Bytes, Bool-cases, Option-cases,
}
use jdwpfs.Go.Sync.{Outcome, done, blocked, crashed, ◌>>=◌}
use jdwpfs.Go.Space.{trim_space}
use jdwpfs.Debug.Errors.{Result, ok, err, context_canceled}
use jdwpfs.Debug.Plugins.{PluginHost}
use jdwpfs.Debug.Plugins.Laws.{Mistyped}
use jdwpfs.Debug.Event.{Receiver, is_set}
use jdwpfs.Debug.Event.Run.{Ranging, run, cancel}
use jdwpfs.Debug.Event.Running.{Ran, run-Ran}
use jdwpfs.Debug.Event.Cancelling.{cancel-running, stopped}
use jdwpfs.Debug.Manager.{World, receiver, put_back}
use jdwpfs.Debug.Manager.Frame.{
  IsSettled, runs, is_running-runs, Keeps, put_back-Keeps, Keeps-refl, on_event-done,
  on_event-crashed, update-at,
}
use jdwpfs.Fs.Node.{Reply, reply, fail, ebade, written}
use jdwpfs.Fs.Control.{
  EventControlFile, Command, run_word, start, cancel_word, stop, unknown, command_of, write,
  perform, start_unless, stop_if,
}

-- Whether the event runs after a command.
abbrev pub after : Command → Bool → Bool
after run_word running = running
after start running = true
after cancel_word running = running
after stop running = false
after unknown running = running

-- How a write ends, and what the event and the rest of the world are then.
abbrev pub Effect : PluginHost → World → ℕ → Command → Outcome World (Reply ℕ) → Type 0
Effect host w p c (done _ w') = (runs w' p ≡ after c (runs w p)) × IsSettled w' p × Keeps w p w'
Effect host w p c blocked = ⊥
Effect host w p c crashed = (c ≡ start) × (runs w p ≡ false) × Mistyped host

module _ (host : PluginHost) (ranging : Ranging) (w : World) (p : ℕ) (text : Bytes)
    (s : IsSettled w p) where
  -- The event as a method left it.
  put_back-effect :
      (r : Receiver) (b : Bool)
      → r.self.mu ≡ (w.event_at p).mu
      → r.self.cancel ≡ r.self.ctx
      → is_set r.self.ctx ≡ b
      → (runs (put_back w p r) p ≡ b) × IsSettled (put_back w p r) p × Keeps w p (put_back w p r)
  put_back-effect r b m c k = (
    rw (update-at w.event_at p r.self) k,
    record {
      unlocked = rw (update-at w.event_at p r.self) (m ∙ s.unlocked);
      paired = rw (update-at w.event_at p r.self) c;
    },
    put_back-Keeps w p r,
  )

  pub start_done :
      (result : Result ℕ) (r : Receiver)
      → run host ranging (receiver w p) ≡ done result r
      → start_unless host ranging p text false w
        ≡ done (elim result [ ok _ ↦ reply (written text) | err _ ↦ fail ebade ]) (put_back w p r)
  start_done (ok c) r q = ground (arith, on_event-done p (run host ranging) w (ok c) r q)
  start_done (err e) r q = ground (arith, on_event-done p (run host ranging) w (err e) r q)

  start_crashed :
      run host ranging (receiver w p) ≡ crashed → start_unless host ranging p text false w ≡ crashed
  start_crashed q = ground (arith, on_event-crashed p (run host ranging) w q)

  start-Effect :
      (out : Outcome Receiver (Result ℕ))
      → run host ranging (receiver w p) ≡ out
      → Ran host ranging (receiver w p) out
      → runs w p ≡ false
      → Effect host w p start (start_unless host ranging p text false w)
  start-Effect (done (ok c) r) q (number, plugins, same) idle =
      rw (start_done (ok c) r q) (
        put_back-effect r true (ground (arith, same)) (ground (arith, same)) (ground (arith, same)))
  start-Effect (done (err e) r) q same idle =
      rw (start_done (err e) r q) (
        put_back-effect r true (ground (arith, same)) (ground (arith, same)) (ground (arith, same)))
  start-Effect blocked q h idle = absurd h
  start-Effect crashed q bad idle = rw (start_crashed q) (refl, idle, bad)

  pub stop_done :
      (c : ℕ)
      → (w.event_at p).ctx ≡ some c
      → stop_if host ranging p text true w
        ≡ done (fail ebade) (put_back w p (stopped (receiver w p) c))
  stop_done c e = ground (
    arith,
    on_event-done p cancel w (some context_canceled) (stopped (receiver w p) c)
        (cancel-running (receiver w p) c s.unlocked e (s.paired ∙ e)),
  )

  stop-Effect :
      (c : ℕ)
      → (w.event_at p).ctx ≡ some c
      → Effect host w p stop (stop_if host ranging p text true w)
  stop-Effect c e =
      rw (stop_done c e) (put_back-effect (stopped (receiver w p) c) false refl refl refl)

  pub perform-start :
      perform host ranging start p text w ≡ start_unless host ranging p text (runs w p) w
  unfolding perform
  perform-start = rw (is_running-runs w p s, ◌>>=◌)

  pub perform-stop : perform host ranging stop p text w ≡ stop_if host ranging p text (runs w p) w
  unfolding perform
  perform-stop = rw (is_running-runs w p s, ◌>>=◌)

  start-Effect_running :
      runs w p ≡ true → Effect host w p start (start_unless host ranging p text true w)
  start-Effect_running e = (e, s, Keeps-refl w p)

  stop-Effect_idle : runs w p ≡ false → Effect host w p stop (stop_if host ranging p text false w)
  stop-Effect_idle e = (e, s, Keeps-refl w p)

  perform-Effect : (c : Command) → Effect host w p c (perform host ranging c p text w)
  unfolding perform
  perform-Effect run_word = (refl, s, Keeps-refl w p)
  perform-Effect cancel_word = (refl, s, Keeps-refl w p)
  perform-Effect unknown = (refl, s, Keeps-refl w p)
  perform-Effect start = elim (Bool-cases (runs w p)) [
    | inl e ↦ rw (perform-start, e) (start-Effect_running e)
    | inr e ↦
        rw (perform-start, e)
          (start-Effect _ refl (run-Ran host ranging (receiver w p) s.unlocked) e)
  ]
  perform-Effect stop = elim (Option-cases (w.event_at p).ctx) [
    | inl e ↦ let idle : runs w p ≡ false = rw e in rw (perform-stop, idle) (stop-Effect_idle idle)
    | inr (c, e) ↦ let busy : runs w p ≡ true = rw e in rw (perform-stop, busy) (stop-Effect c e)
  ]

pub write-Effect :
    (host : PluginHost) (ranging : Ranging) (w : World) (c : EventControlFile) (text : Bytes)
    → IsSettled w c.event
    → Effect host w c.event (command_of (trim_space text)) (write host ranging c text w)
unfolding write
write-Effect host ranging w c text s = perform-Effect host ranging w c.event text s _
