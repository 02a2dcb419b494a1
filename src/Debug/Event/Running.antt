-- ===== src/Debug/Event/Running.antt =====
-- On `Run` of debug/debugging_event.go.
use mathlib.Core.List.{Mem, mem-cons_self, mem-cons_of_mem, Perm}
use mathlib.Core.List.Perm
use jdwpfs.Base.{
  ℕ, suc, List, [], ◌∷◌, ◌++◌, map, false, some, ◌≡◌, refl, ap, ◌∙◌, inl, inr, arith, Bytes,
  append_assoc, append-nil, if◌then◌else◌, ◌==◌, true, false, none, Option-cases, ◌↔◌, sym,
}
use jdwpfs.Base.Dict.{Dict}
use jdwpfs.Base.Dict.Nodup.{
  NodupKeys, NodupKeys-perm, AreNew, AreNew-nil, AreNew-snoc, insert-eq-append,
}
use jdwpfs.Go.Sync.{Outcome, done, blocked, crashed, free, held_for_writing}
use jdwpfs.Debug.Errors.{GoError, Result, ok, err, Result-cases}
use jdwpfs.Debug.Plugins.{PluginHost, PluginInstance, add_location, entrypoint}
use jdwpfs.Debug.Plugins.Laws.{
  Loads, build-Loads, entry_of, Mistyped, Built, build-Built, failures, report, entrypoint-failures,
}
use jdwpfs.Debug.Event.{Watch, Receiver, DebuggingEvent}
use jdwpfs.Debug.Event.Methods.{IsFree}
use jdwpfs.Debug.Event.Run.{
  Ranging, to_event_modifier, with_cancel, add_locations, load_plugins, start, run, hook,
}

-- The receiver of a call of `Run` with a new context stored in the event.
abbrev pub marked : Receiver → Receiver
marked r =
    let c = r.runtime.next_context in
    record {
      self = record r.self { ctx = some c; cancel = some c };
      runtime = record {
        next_context = suc c;
        cancelled = λ d. if c == d then false else r.runtime.cancelled d;
        watches = r.runtime.watches;
      };
    }

module _ (host : PluginHost) where
  add_locations-found :
      (paths acc : Dict Bytes)
      → NodupKeys paths
      → AreNew paths acc
      → ((e : Bytes × Bytes) → Mem e paths → Loads host e.1)
      → add_locations host acc paths ≡ ok (acc ++ paths)
  unfolding add_locations add_location
  add_locations-found [] acc u a h = rw append-nil
  add_locations-found ((k, v) ∷ m) acc (fresh, u) (hk, a) h =
      let l : Loads host v = h (k, v) mem-cons_self in
      rw (l.found, hk, insert-eq-append k v acc hk, add_locations)
        (add_locations-found m (acc ++ (k, v) ∷ []) u (AreNew-snoc k v acc m fresh a)
            (λ e mem. h e (mem-cons_of_mem _ mem))
          ∙ ap ok (append_assoc acc ((k, v) ∷ []) m))

module _ (host : PluginHost) (ranging : Ranging) where
  -- The goroutine that `Run` starts, with a modifier for each descriptor.
  abbrev pub watch_of : DebuggingEvent → ℕ → List PluginInstance → Watch
  watch_of e c plugins = record {
    ctx = c;
    plugins = plugins;
    modifiers = map (λ d. to_event_modifier d.1) (ranging.modifiers_order e.modifier_descriptors);
  }

  abbrev pub started : Receiver → List PluginInstance → Receiver
  started r plugins =
      let m = marked r in
      record m {
        runtime = record m.runtime {
          watches = r.runtime.watches ++ watch_of r.self r.runtime.next_context plugins ∷ [];
        };
      }

  -- How `Run` ends.
  abbrev pub Ran : Receiver → Outcome Receiver (Result ℕ) → Type 0
  Ran r (done (ok c) r') =
      (c ≡ r.runtime.next_context) × (plugins : List PluginInstance) × (r' ≡ started r plugins)
  Ran r (done (err e) r') = r' ≡ marked r
  Ran r blocked = ⊥
  Ran r crashed = Mistyped host

  -- The receiver while the plugins are loaded.
  abbrev entered : Receiver → Receiver
  entered r = record (marked r) { self = record (marked r).self { mu = held_for_writing } }

  run_loaded :
      (r : Receiver) (plugins : List PluginInstance)
      → IsFree r
      → load_plugins host ranging r.self.hook_descriptors (entered r)
        ≡ done (ok plugins) (entered r)
      → run host ranging r ≡ done (ok r.runtime.next_context) (started r plugins)
  unfolding run with_cancel start
  run_loaded r plugins h l = ground arith

  run_failed :
      (r : Receiver) (e : GoError)
      → IsFree r
      → load_plugins host ranging r.self.hook_descriptors (entered r) ≡ done (err e) (entered r)
      → run host ranging r ≡ done (err e) (marked r)
  unfolding run with_cancel start
  run_failed r e h l = ground arith

  run_crashed :
      (r : Receiver)
      → IsFree r
      → load_plugins host ranging r.self.hook_descriptors (entered r) ≡ crashed
      → run host ranging r ≡ crashed
  unfolding run with_cancel start
  run_crashed r h l = ground arith

  -- How the loading of the plugins ends.
  abbrev LoadCases : Receiver → Outcome Receiver (Result (List PluginInstance)) → Type 0
  LoadCases s (done (ok plugins) s') = s' ≡ s
  LoadCases s (done (err e) s') = s' ≡ s
  LoadCases s blocked = ⊥
  LoadCases s crashed = Mistyped host

  Built-LoadCases :
      (s : Receiver) (l : Dict Bytes) (out : Outcome Receiver (Result (List PluginInstance)))
      → Built host s l out
      → LoadCases s out
  Built-LoadCases s l (done (ok plugins) s') h = h.0
  Built-LoadCases s l (done (err e) s') h = h
  Built-LoadCases s l blocked h = h
  Built-LoadCases s l crashed h = h

  load_plugins-LoadCases :
      (hooks : Dict Bytes) (s : Receiver) → LoadCases s (load_plugins host ranging hooks s)
  unfolding load_plugins
  load_plugins-LoadCases hooks s =
      elim (Result-cases (add_locations host [] (ranging.hooks_order hooks))) [
        | inr (e, q) ↦ rw (q, load_plugins) refl
        | inl (paths, q) ↦
            rw (q, load_plugins)
              (Built-LoadCases s _ _ (build-Built host (ranging.paths_order paths) [] s))
      ]

  -- On an event with a free mutex, `Run` never waits; if it returns, the event has a new
  -- context and cancel function and its mutex is free; if it returned no error it also returned
  -- that context and added one goroutine, and if it returned an error it added none. It ends
  -- the process only if some plugin's symbol is not an entry point.
  pub run-Ran : (r : Receiver) → IsFree r → Ran r (run host ranging r)
  run-Ran r h =
      go (load_plugins host ranging r.self.hook_descriptors (entered r)) refl
        (load_plugins-LoadCases _ _)
    where
      go :
          (out : Outcome Receiver (Result (List PluginInstance)))
          → load_plugins host ranging r.self.hook_descriptors (entered r) ≡ out
          → LoadCases (entered r) out
          → Ran r (run host ranging r)
      go (done (ok plugins) s') e same =
          rw (run_loaded r plugins h (e ∙ ap (done (ok plugins)) same)) (refl, plugins, refl)
      go (done (err x) s') e same = rw (run_failed r x h (e ∙ ap (done (err x)) same)) refl
      go blocked e h = absurd h
      go crashed e bad = rw (run_crashed r h e) bad

  load_plugins-Loads :
      (hooks : Dict Bytes) (s : Receiver)
      → NodupKeys hooks
      → ((e : Bytes × Bytes) → Mem e hooks → Loads host e.1)
      → (plugins : List PluginInstance) × (load_plugins host ranging hooks s ≡ done (ok plugins) s)
        × Perm (map entry_of plugins) hooks
  unfolding load_plugins
  load_plugins-Loads hooks s u h =
      let ordered = ranging.hooks_order hooks in
      let perm = ranging.hooks_order-perm hooks in
      let found =
        add_locations-found host ordered [] (NodupKeys-perm (Perm.symm perm) u) (AreNew-nil ordered)
          (λ e mem. h e ((Perm.mem_iff perm).0 mem)) in
      let paths_perm = ranging.paths_order-perm ordered in
      let (plugins, built, names) =
        build-Loads host (ranging.paths_order ordered) [] s
          (λ e mem. h e ((Perm.mem_iff perm).0 ((Perm.mem_iff paths_perm).0 mem))) in
      (plugins, rw (found, load_plugins) built, rw names (Perm.trans paths_perm perm))

  -- If the event's mutex is free, no two of its hooks share a name, and every hook's file
  -- exists, opens and has an entry point of the right type, then `Run` succeeds, stores a new
  -- context with its cancel function, and starts one goroutine; its plugins are, up to order,
  -- the event's hooks by name and path, whatever order the range loops go in.
  pub run-started :
      (r : Receiver)
      → IsFree r
      → NodupKeys r.self.hook_descriptors
      → ((e : Bytes × Bytes) → Mem e r.self.hook_descriptors → Loads host e.1)
      → (plugins : List PluginInstance) × (run host ranging r
          ≡ done (ok r.runtime.next_context) (started r plugins))
        × Perm (map entry_of plugins) r.self.hook_descriptors
  run-started r free u h =
      let (plugins, loaded, names) = load_plugins-Loads r.self.hook_descriptors (entered r) u h in
      (plugins, run_loaded r plugins free loaded, names)

report-nil : (es : List GoError) → report es ≡ none → es ≡ []
report-nil [] h = refl
report-nil (e ∷ es) h = ground arith

-- The hook that `Run` passes to the debugger returns true for an event if and only if none of the
-- goroutine's plugins fails for it.
pub hook-failures :
    (host : PluginHost) (watch : Watch) (event : ℕ)
    → (hook host watch event ≡ true) ↔ (failures host event watch.plugins ≡ [])
unfolding hook
hook-failures host watch event =
    let e = entrypoint-failures host watch.plugins event in
    elim (Option-cases (entrypoint host watch.plugins event)) [
      | inl q ↦ (λ _. report-nil _ (sym e ∙ q), λ _. rw (q, hook) refl)
      | inr (x, q) ↦ (λ h. ground (arith, h), λ h. ground (arith, e, h))
    ]
