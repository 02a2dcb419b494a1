-- ===== src/Debug/Plugins.antt =====
-- debug/plugin_runner.go: the builder that loads the plugins, and the runner that calls them.
pub mod Laws
use jdwpfs.Base.{
  ℕ, List, [], ◌∷◌, ◌++◌, Bool, true, false, Option, none, some, Bytes, codes, if◌then◌else◌,
}
use jdwpfs.Base.Dict.{Dict, lookup, insert}
use jdwpfs.Go.Sync.{M, pure, crashed, ◌>>=◌}
use jdwpfs.Debug.Errors.{
  GoError, GoErrors, nil, cons, wrap, wrap_err, plugin_errors, Result, ok, err,
}
use jdwpfs.Debug.Errors.{plugin_builder, plugin, add_error}

-- The operating system and the package `plugin`, as far as the builder calls them. Plugins, symbols
-- and events are handles; `call` is the call of an entry point's value.
pub record PluginHost : Type 0 where
  pub stat : Bytes → Option GoError
  pub open_plugin : Bytes → Result ℕ
  pub lookup_symbol : ℕ → Bytes → Result ℕ
  -- the type assertion to `func(string, jdwp.Event) error`
  pub is_entrypoint : ℕ → Bool
  pub call : ℕ → Bytes → ℕ → Option GoError

abbrev pub plugin_entrypoint : Bytes
plugin_entrypoint = codes "JdwpfsPluginEntrypoint"

pub record PluginInstance : Type 0 where
  pub name : Bytes
  pub plugin_path : Bytes
  pub handle : ℕ
  pub entrypoint : ℕ

module _ (host : PluginHost) where
  -- `AddLocation`, on the builder's map `pluginPaths`.
  unfoldable pub add_location : Bytes → Bytes → Dict Bytes → Result (Dict Bytes)
  add_location name location paths = elim (host.stat location) [
    | some e ↦ err (wrap_err plugin_builder (codes "unable to find plugin file") e)
    | none ↦ elim (lookup name paths) [
      | some _ ↦ err (wrap plugin_builder (codes "plugin already registered"))
      | none ↦ ok (insert name location paths)
    ]
  ]

  -- The body of the loop of `Build`. A symbol of another type makes the assertion panic.
  unfoldable pub load : {S : Type 0} → Bytes → Bytes → M S (Result PluginInstance)
  load name path = elim (host.open_plugin path) [
    | err e ↦ pure (err (wrap_err plugin_builder (codes "unable to open plugin") e))
    | ok p ↦ elim (host.lookup_symbol p plugin_entrypoint) [
      | err e ↦ pure (err (wrap_err plugin_builder (codes "unable to find symbol in plugin") e))
      | ok s ↦
          if host.is_entrypoint s
          then pure (ok (record { name = name; plugin_path = path; handle = p; entrypoint = s }))
          else (λ _. crashed)
    ]
  ]

  -- `Build`, over the entries of `pluginPaths` in the order of the range loop.
  unfoldable pub build :
      {S : Type 0} → List PluginInstance → Dict Bytes → M S (Result (List PluginInstance))
  build instances [] = pure (ok instances)
  build instances ((name, path) ∷ rest) = do
    r ← load name path
    elim r [ err e ↦ pure (err e) | ok i ↦ build (instances ++ i ∷ []) rest ]

  -- The loop of `PluginRunner.Entrypoint`, and its result: nil if no plugin failed.
  unfoldable pub consume : ℕ → GoErrors → List PluginInstance → GoErrors
  consume event errors [] = errors
  consume event errors (i ∷ rest) = elim (host.call i.entrypoint i.name event) [
    | none ↦ consume event errors rest
    | some e ↦
        consume event (add_error errors (wrap_err plugin (codes "error processing plugin") e)) rest
  ]

  unfoldable pub entrypoint : List PluginInstance → ℕ → Option GoError
  unfolding consume
  entrypoint plugins event = elim (consume event nil plugins) [
    | nil ↦ none
    | cons e es ↦ some (plugin_errors (cons e es))
  ]
