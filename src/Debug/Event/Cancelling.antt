-- ===== src/Debug/Event/Cancelling.antt =====
-- On `Cancel` and `Run` of debug/debugging_event.go.
use jdwpfs.Base.{
  ℕ, List, ◌∷◌, ◌++◌, true, false, none, some, ◌≡◌, refl, ◌∙◌, [], arith, codes, if◌then◌else◌,
  ◌==◌, ==_iff,
}
use jdwpfs.Go.Sync.{done, held_for_writing}
use jdwpfs.Debug.Errors.{GoError, ok, err, wrap, debugging_event, context_canceled}
use jdwpfs.Debug.Plugins.{PluginHost, PluginInstance}
use jdwpfs.Debug.Event.{Receiver, is_running}
use jdwpfs.Debug.Event.Methods.{IsFree, is_running_lem}
use jdwpfs.Debug.Event.Run.{Ranging, run, cancel, call_cancel, ctx_done, ctx_err}
use jdwpfs.Debug.Event.Running.{watch_of, run-Ran}

-- The receiver after its context was cancelled and forgotten.
abbrev pub stopped : Receiver → ℕ → Receiver
stopped r c = record {
  self = record r.self { ctx = none; cancel = none };
  runtime = record r.runtime { cancelled = λ d. if c == d then true else r.runtime.cancelled d };
}

pub cancel-idle :
    (r : Receiver)
    → IsFree r
    → r.self.ctx ≡ none
    → cancel r
      ≡ done (some (wrap debugging_event (codes "e " ++ r.self.name ++ codes " not running\n"))) r
unfolding cancel
cancel-idle r h e = ground arith

-- A context's cancel function closes its `Done` and sets its `Err`.
cancel_closes :
    (r : Receiver) (c : ℕ)
    → let s = record r {
      runtime = record r.runtime {
        cancelled = λ d. if c == d then true else r.runtime.cancelled d;
      };
    } in
      (call_cancel (some c) r ≡ done tt s)
      × (ctx_done c s ≡ done tt s)
      × (ctx_err c s ≡ done (some context_canceled) s)
unfolding call_cancel ctx_done ctx_err
cancel_closes r c = (refl, rw ((==_iff c c).1 refl), rw ((==_iff c c).1 refl))

-- Cancelling a running event stops it, and returns the error of a cancelled context.
pub cancel-running :
    (r : Receiver) (c : ℕ)
    → IsFree r
    → r.self.ctx ≡ some c
    → r.self.cancel ≡ some c
    → cancel r ≡ done (some context_canceled) (stopped r c)
unfolding cancel
cancel-running r c h e e' =
    ground (arith, cancel_closes (record r { self = record r.self { mu = held_for_writing } }) c)

module _ (host : PluginHost) (ranging : Ranging) (r : Receiver) (h : IsFree r) where
  -- If `Run` on an event with a free mutex returned an error, the event still counts as running
  -- although no goroutine was started.
  pub run-error-IsRunning :
      {e : GoError} {r' : Receiver}
      → run host ranging r ≡ done (err e) r'
      → (is_running r' ≡ done true r') × (r'.runtime.watches ≡ r.runtime.watches)
  run-error-IsRunning q =
      let same = rw q at (run-Ran host ranging r h) in
      (is_running_lem _ (ground (arith, same)) ∙ ground (arith, same), ground (arith, same))

  -- If `Run` on an event with a free mutex succeeded, it added one goroutine and the event is
  -- running; a `Cancel` behind it returns the error of a cancelled context, leaves the event
  -- idle, and has cancelled the context that `Run` returned.
  pub cancel-run :
      {c : ℕ} {r' : Receiver}
      → run host ranging r ≡ done (ok c) r'
      → (plugins : List PluginInstance) × (r'.runtime.watches
          ≡ r.runtime.watches ++ watch_of host ranging r.self c plugins ∷ [])
        × (is_running r' ≡ done true r')
        × (cancel r' ≡ done (some context_canceled) (stopped r' c))
        × (is_running (stopped r' c) ≡ done false (stopped r' c))
        × ((stopped r' c).runtime.cancelled c ≡ true)
  cancel-run {c} {r'} q =
      let (number, plugins, same) = rw q at (run-Ran host ranging r h) in
      (
        plugins,
        ground (arith, same, number),
        is_running_lem _ (ground (arith, same)) ∙ ground (arith, same),
        cancel-running r' c (ground (arith, same)) (ground (arith, same, number))
            (ground (arith, same, number)),
        is_running_lem _ (ground (arith, same)),
        rw ((==_iff c c).1 refl),
      )
