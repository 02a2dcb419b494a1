-- ===== src/Debug/Event/Run.antt =====
-- `Run` and `Cancel` of debug/debugging_event.go.
use mathlib.Core.List.{Perm}
use jdwpfs.Base.{
  ℕ, suc, List, [], ◌∷◌, ◌++◌, map, Bool, true, false, Option, none, some, Bytes, codes, ◌==◌,
  if◌then◌else◌,
}
use jdwpfs.Base.Dict.{Dict}
use jdwpfs.Go.Sync.{M, pure, done, blocked, crashed, ◌>>=◌, ◌>>◌, gets}
use jdwpfs.Debug.Errors.{GoError, context_canceled, wrap, debugging_event, Result, ok, err}
use jdwpfs.Debug.Plugins.{PluginHost, PluginInstance, add_location, build, entrypoint}
use jdwpfs.Debug.Event.{
  ModifierDescriptor, EventModifier, field_only, location_only, Watch, WatchCall, Receiver, locked,
  set_self,
}

-- The orders in which the range loops of one call of `Run` go through the maps: Go leaves them open.
pub record Ranging : Type 0 where
  pub modifiers_order : Dict ModifierDescriptor → Dict ModifierDescriptor
  pub modifiers_order-perm : (m : Dict ModifierDescriptor) → Perm (modifiers_order m) m
  pub hooks_order : Dict Bytes → Dict Bytes
  pub hooks_order-perm : (m : Dict Bytes) → Perm (hooks_order m) m
  pub paths_order : Dict Bytes → Dict Bytes
  pub paths_order-perm : (m : Dict Bytes) → Perm (paths_order m) m

-- The switch on `descriptor.IsField`. The identifiers are `uint64` on both sides of the conversions.
unfoldable pub to_event_modifier : ModifierDescriptor → EventModifier
to_event_modifier d =
    if d.is_field
    then field_only d.class_id d.object_id
    else location_only d.kind d.class_id d.object_id 0

-- `context.WithCancel`: a new context, which is not cancelled, and its cancel function.
unfoldable pub with_cancel : M Receiver ℕ
with_cancel r =
    let c = r.runtime.next_context in
    done c (record r {
      runtime = record r.runtime {
        next_context = suc c;
        cancelled = λ d. if c == d then false else r.runtime.cancelled d;
      };
    })

-- The loop over the hooks, `AddLocation` for each.
unfoldable pub add_locations : PluginHost → Dict Bytes → Dict Bytes → Result (Dict Bytes)
add_locations host paths [] = ok paths
add_locations host paths ((name, path) ∷ rest) = elim (add_location host name path paths) [
  | err e ↦ err e
  | ok paths' ↦ add_locations host paths' rest
]

module _ (host : PluginHost) (ranging : Ranging) where
  unfoldable pub load_plugins : Dict Bytes → M Receiver (Result (List PluginInstance))
  load_plugins hooks = elim (add_locations host [] (ranging.hooks_order hooks)) [
    | err e ↦ pure (err e)
    | ok paths ↦ build host [] (ranging.paths_order paths)
  ]

  -- `go func() …`
  unfoldable pub start : ℕ → List EventModifier → List PluginInstance → M Receiver (Result ℕ)
  start c modifiers plugins r =
      let watch : Watch = record { ctx = c; plugins = plugins; modifiers = modifiers } in
      done (ok c)
        (record r { runtime = record r.runtime { watches = r.runtime.watches ++ watch ∷ [] } })

  -- The context is stored before the plugins are loaded, and stays when that fails.
  unfoldable pub run : M Receiver (Result ℕ)
  run = locked (do
    c ← with_cancel
    set_self (λ e. record e { ctx = some c; cancel = some c })
    e ← gets (λ r. r.self)
    plugins ← load_plugins e.hook_descriptors
    elim plugins [
      | err x ↦ pure (err x)
      | ok ps ↦
          start c
            (map (λ d. to_event_modifier d.1) (ranging.modifiers_order e.modifier_descriptors)) ps
    ])

-- The goroutine, when it runs, reads the event's fields without its mutex.
unfoldable pub begin_watch : Watch → M Receiver WatchCall
begin_watch watch = gets (λ r. record {
  watch = watch;
  conn = r.self.conn;
  kind = r.self.kind;
  suspend_policy = r.self.suspend_policy;
})

-- The hook that the goroutine passes on: whether every plugin took the event.
unfoldable pub hook : PluginHost → Watch → ℕ → Bool
hook host watch event = elim (entrypoint host watch.plugins event) [ none ↦ true | some _ ↦ false ]

-- `e.cancel()`: the cancel function of a context; a call of nil panics.
unfoldable pub call_cancel : Option ℕ → M Receiver (Unit {0})
call_cancel none r = crashed
call_cancel (some c) r = done tt (record r {
  runtime = record r.runtime { cancelled = λ d. if c == d then true else r.runtime.cancelled d };
})

-- `e.ctx.Err()` when `Done` is closed.
unfoldable pub ctx_err : ℕ → M Receiver (Option GoError)
ctx_err c = gets (λ r. if r.runtime.cancelled c then some context_canceled else none)

-- `<-e.ctx.Done()` waits for the cancellation.
unfoldable pub ctx_done : ℕ → M Receiver (Unit {0})
ctx_done c r = if r.runtime.cancelled c then done tt r else blocked

cancel_ctx : Option ℕ → M Receiver (Option GoError)
cancel_ctx none = do
  e ← gets (λ r. r.self)
  pure (some (wrap debugging_event (codes "e " ++ e.name ++ codes " not running\n")))
cancel_ctx (some c) = do
  e ← gets (λ r. r.self)
  call_cancel e.cancel
  ctx_done c
  cancel_error ← ctx_err c
  set_self (λ e. record e { ctx = none; cancel = none })
  pure cancel_error

unfoldable pub cancel : M Receiver (Option GoError)
unfolding cancel_ctx
cancel = locked (do e ← gets (λ r. r.self); cancel_ctx e.ctx)
