-- ===== src/Debug/Plugins/Laws.antt =====
-- The plugin builder and runner of debug/plugin_runner.go: what loads, what fails, and which errors
-- an event's run reports.
use mathlib.Core.List.{Mem, mem-cons_self, mem-cons_of_mem}
use mathlib.Core.List.{map-append}
use mathlib.Core.Path.{subst}
use jdwpfs.Base.{
  ℕ, List, [], ◌∷◌, ◌++◌, map, true, false, Option, none, some, ◌≡◌, refl, sym, ap, ◌∙◌, inl, inr,
  arith, Bytes, codes, append_assoc, append-nil, Option-cases, Bool-cases,
}
use jdwpfs.Base.Dict.{Dict}
use jdwpfs.Go.Sync.{Outcome, done, blocked, crashed, ◌>>=◌}
use jdwpfs.Debug.Errors.{
  GoError, nil, wrap_err, plugin_errors, plugin, Result, ok, err, from_list, add_error-from_list,
  Result-cases,
}
use jdwpfs.Debug.Plugins.{
  PluginHost, PluginInstance, plugin_entrypoint, load, build, consume, entrypoint,
}

-- A file that the builder turns into a plugin.
pub record Loads (host : PluginHost) (path : Bytes) : Type 0 where
  pub handle : ℕ
  pub symbol : ℕ
  pub found : host.stat path ≡ none
  pub opened : host.open_plugin path ≡ ok handle
  pub has_symbol : host.lookup_symbol handle plugin_entrypoint ≡ ok symbol
  pub typed : host.is_entrypoint symbol ≡ true

-- What the hook reports: nothing if no plugin fails, and else the errors of all that fail.
abbrev pub report : List GoError → Option GoError
report [] = none
report (e ∷ es) = some (plugin_errors (from_list (e ∷ es)))

-- The name and the path that a plugin was registered with.
abbrev pub entry_of : PluginInstance → Bytes × Bytes
entry_of i = (i.name, i.plugin_path)

-- Some plugin's symbol is no entry point.
abbrev pub Mistyped : PluginHost → Type 0
Mistyped host =
    (handle : ℕ) × (symbol : ℕ) × (host.lookup_symbol handle plugin_entrypoint ≡ ok symbol)
    × (host.is_entrypoint symbol ≡ false)

-- How a loop of `Build` over the entries ends.
abbrev pub Built :
    {S : Type 0}
    → PluginHost
    → S
    → List (Bytes × Bytes)
    → Outcome S (Result (List PluginInstance))
    → Type 0
Built host s entries (done (ok plugins) s') = (s' ≡ s) × (map entry_of plugins ≡ entries)
Built host s entries (done (err e) s') = s' ≡ s
Built host s entries blocked = ⊥
Built host s entries crashed = Mistyped host

module _ (host : PluginHost) where
  -- The errors of the plugins that fail for an event, in the order of the plugins.
  unfoldable pub failures : ℕ → List PluginInstance → List GoError
  failures event [] = []
  failures event (i ∷ rest) =
      let more = failures event rest in
      elim (host.call i.entrypoint i.name event) [
        | none ↦ more
        | some e ↦ wrap_err plugin (codes "error processing plugin") e ∷ more
      ]

  consume-from_list :
      (event : ℕ) (plugins : List PluginInstance) (errors : List GoError)
      → consume host event (from_list errors) plugins ≡ from_list (errors ++ failures event plugins)
  unfolding consume failures
  consume-from_list event [] errors = rw append-nil
  consume-from_list event (i ∷ rest) errors =
      elim (Option-cases (host.call i.entrypoint i.name event)) [
        | inl e ↦ ground (arith, consume-from_list event rest errors)
        | inr (x, e) ↦
            let y = wrap_err plugin (codes "error processing plugin") x in
            ground (
              arith,
              add_error-from_list errors y,
              consume-from_list event rest (errors ++ y ∷ []),
              append_assoc errors (y ∷ []) (failures event rest),
            )
      ]

  entrypoint-consume :
      (plugins : List PluginInstance) (event : ℕ) (es : List GoError)
      → consume host event nil plugins ≡ from_list es
      → entrypoint host plugins event ≡ report es
  unfolding entrypoint from_list
  entrypoint-consume plugins event [] h = ground arith
  entrypoint-consume plugins event (e ∷ es) h = ground arith

  -- The runner calls every plugin on an event and reports the errors of exactly those that
  -- fail, in order, each wrapped once; it reports no error if none fails.
  pub entrypoint-failures :
      (plugins : List PluginInstance) (event : ℕ)
      → entrypoint host plugins event ≡ report (failures event plugins)
  unfolding from_list
  entrypoint-failures plugins event =
      entrypoint-consume plugins event _ (consume-from_list event plugins [])

  load-Loads :
      {S : Type 0} (name path : Bytes) (l : Loads host path) (s : S)
      → load host name path s
        ≡ done
            (ok (record {
              name = name;
              plugin_path = path;
              handle = l.handle;
              entrypoint = l.symbol;
            }))
            s
  unfolding load
  load-Loads name path l s = ground (arith, l.opened, l.has_symbol, l.typed)

  pub build-Loads :
      {S : Type 0} (paths : Dict Bytes) (instances : List PluginInstance) (s : S)
      → ((e : Bytes × Bytes) → Mem e paths → Loads host e.1)
      → (loaded : List PluginInstance) × (build host instances paths s
          ≡ done (ok (instances ++ loaded)) s)
        × (map (λ i. (i.name, i.plugin_path)) loaded ≡ paths)
  unfolding build
  build-Loads [] instances s h = ([], rw append-nil, refl)
  build-Loads ((name, path) ∷ rest) instances s h =
      let l : Loads host path = h (name, path) mem-cons_self in
      let i : PluginInstance = record {
        name = name;
        plugin_path = path;
        handle = l.handle;
        entrypoint = l.symbol;
      } in
      let (loaded, built, names) =
        build-Loads rest (instances ++ i ∷ []) s (λ e m. h e (mem-cons_of_mem _ m)) in
      (
        i ∷ loaded,
        rw (load-Loads name path l s, ◌>>=◌)
            (built ∙ ap (λ t. done (ok t) s) (append_assoc instances (i ∷ []) loaded)),
        ap (λ t. (name, path) ∷ t) names,
      )

  entries-snoc :
      (instances : List PluginInstance) (i : PluginInstance) (rest : List (Bytes × Bytes))
      → map entry_of (instances ++ i ∷ []) ++ rest ≡ map entry_of instances ++ entry_of i ∷ rest
  entries-snoc instances i rest = simp (map-append, append_assoc)

  -- The loop of `Build` never waits and changes nothing outside its instances; if it returns no
  -- error, the instances have the names and paths of those it began with followed by the
  -- entries it ranged over, in order. It ends the process only if some plugin's symbol is not
  -- an entry point.
  pub build-Built :
      {S : Type 0} (paths : Dict Bytes) (instances : List PluginInstance) (s : S)
      → Built host s (map entry_of instances ++ paths) (build host instances paths s)
  unfolding build load
  build-Built [] instances s = (refl, sym (append-nil _))
  build-Built ((name, path) ∷ rest) instances s = elim (Result-cases (host.open_plugin path)) [
    | inr (e, q) ↦ rw (q, load) refl
    | inl (p, q) ↦ elim (Result-cases (host.lookup_symbol p plugin_entrypoint)) [
      | inr (e, q') ↦ rw (q, q', load) refl
      | inl (x, q') ↦ elim (Bool-cases (host.is_entrypoint x)) [
        | inr untyped ↦ rw (q, q', untyped, load) (p, x, q', untyped)
        | inl typed ↦
            let i : PluginInstance = record {
              name = name;
              plugin_path = path;
              handle = p;
              entrypoint = x;
            } in
            rw (q, q', typed, load)
              (subst (λ l. Built host s l (build host (instances ++ i ∷ []) rest s))
                (entries-snoc instances i rest) (build-Built rest (instances ++ i ∷ []) s))
      ]
    ]
  ]
