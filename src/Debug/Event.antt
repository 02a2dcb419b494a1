-- ===== src/Debug/Event.antt =====
-- debug/debugging_event.go: the event, its fields behind a mutex, and the methods that only read
-- or write them. `Run` and `Cancel` are in the child `Run`.
pub mod Run
pub mod Methods
pub mod Running
pub mod Cancelling
use jdwpfs.Base.{
  ℕ, suc, List, [], ◌∷◌, ◌++◌, Bool, true, false, Option, none, some, Bytes, codes, ◌==◌,
  if◌then◌else◌,
}
use jdwpfs.Base.Dict.{Dict, lookup, insert, erase}
use jdwpfs.Go.Sync.{
  Outcome, done, blocked, crashed, M, pure, ◌>>=◌, ◌>>◌, gets, RwMutex, free, lock, unlock, r_lock,
  r_unlock,
}
use jdwpfs.Debug.Errors.{GoError, wrap, debugging_event}
use jdwpfs.Debug.Plugins.{PluginInstance}

-- The constants of `jdwp.EventKind` and `jdwp.SuspendPolicy` that the program names.
pub data EventKind : Type 0 where
  single_step breakpoint frame_pop exception user_defined thread_start thread_death : EventKind
  class_prepare class_unload class_load field_access field_modification exception_catch : EventKind
  method_entry method_exit vm_start vm_death : EventKind

pub data SuspendPolicy : Type 0 where
  suspend_none suspend_event_thread suspend_all : SuspendPolicy

pub record ModifierDescriptor : Type 0 where
  pub name : Bytes
  pub kind : ℕ
  pub is_field : Bool
  pub class_id : ℕ
  pub object_id : ℕ

-- `ctx` and `cancel` are nil or name a context; `conn` is nil or a handle.
pub record DebuggingEvent : Type 0 where
  pub name : Bytes
  pub kind : EventKind
  pub suspend_policy : SuspendPolicy
  pub modifier_descriptors : Dict ModifierDescriptor
  pub hook_descriptors : Dict Bytes
  pub mu : RwMutex
  pub registered : Bool
  pub ctx : Option ℕ
  pub conn : Option ℕ
  pub cancel : Option ℕ

-- `FieldOnlyEventModifier` and `LocationOnlyEventModifier`.
pub data EventModifier : Type 0 where
  field_only : ℕ → ℕ → EventModifier
  location_only : ℕ → ℕ → ℕ → ℕ → EventModifier

-- What the goroutine of `Run` keeps of the call that started it: its context, the plugins that its
-- hook calls, and the modifiers.
pub record Watch : Type 0 where
  pub ctx : ℕ
  pub plugins : List PluginInstance
  pub modifiers : List EventModifier

-- The arguments of its call of `WatchEvents`.
pub record WatchCall : Type 0 where
  pub watch : Watch
  pub conn : Option ℕ
  pub kind : EventKind
  pub suspend_policy : SuspendPolicy

-- What the methods touch outside the event: the contexts made so far, which of them are cancelled,
-- and the goroutines started.
pub record Runtime : Type 0 where
  pub next_context : ℕ
  pub cancelled : ℕ → Bool
  pub watches : List Watch

-- The receiver of a method, and the runtime.
pub record Receiver : Type 0 where
  pub self : DebuggingEvent
  pub runtime : Runtime

unfoldable pub new_stub_debugging_event : Bytes → DebuggingEvent
new_stub_debugging_event name = record {
  name = name;
  kind = vm_death;
  suspend_policy = suspend_none;
  modifier_descriptors = [];
  hook_descriptors = [];
  mu = free;
  registered = false;
  ctx = none;
  conn = none;
  cancel = none;
}

abbrev pub on_mu : M RwMutex (Unit {0}) → M Receiver (Unit {0})
on_mu m r = elim (m r.self.mu) [
  | done _ mu ↦ done tt (record r { self = record r.self { mu = mu } })
  | blocked ↦ blocked
  | crashed ↦ crashed
]

-- `e.mu.Lock(); defer e.mu.Unlock()` and `e.mu.RLock(); defer e.mu.RUnlock()` around a body.
abbrev pub locked : {A : Type 0} → M Receiver A → M Receiver A
locked body = do on_mu lock; a ← body; on_mu unlock; pure a

abbrev pub r_locked : {A : Type 0} → M Receiver A → M Receiver A
r_locked body = do on_mu r_lock; a ← body; on_mu r_unlock; pure a

abbrev pub set_self : (DebuggingEvent → DebuggingEvent) → M Receiver (Unit {0})
set_self f r = done tt (record r { self = f r.self })

unfoldable pub set_kind : EventKind → M Receiver (Unit {0})
set_kind kind = locked (set_self (λ e. record e { kind = kind }))

unfoldable pub set_suspend_policy : SuspendPolicy → M Receiver (Unit {0})
set_suspend_policy policy = locked (set_self (λ e. record e { suspend_policy = policy }))

-- A hook is set once: a second target under the same name is refused.
put_hook : Bytes → Bytes → Option Bytes → M Receiver Bool
put_hook name target (some _) = pure false
put_hook name target none = do
  set_self (λ e. record e { hook_descriptors = insert name target e.hook_descriptors })
  pure true

unfoldable pub set_hook_descriptor : Bytes → Bytes → M Receiver Bool
unfolding put_hook
set_hook_descriptor name target =
    locked (do old ← gets (λ r. lookup name r.self.hook_descriptors); put_hook name target old)

drop_hook : Bytes → Option Bytes → M Receiver Bool
drop_hook name none = pure false
drop_hook name (some _) = do
  set_self (λ e. record e { hook_descriptors = erase name e.hook_descriptors })
  pure true

unfoldable pub remove_hook_descriptor : Bytes → M Receiver Bool
unfolding drop_hook
remove_hook_descriptor name =
    locked (do old ← gets (λ r. lookup name r.self.hook_descriptors); drop_hook name old)

-- The error result is always nil.
unfoldable pub set_modifier : Bytes → ModifierDescriptor → M Receiver (Option GoError)
set_modifier name d = locked (do
  set_self (λ e. record e { modifier_descriptors = insert name d e.modifier_descriptors })
  pure none)

unfoldable pub set_registered : Bool → M Receiver (Unit {0})
set_registered registered = locked (set_self (λ e. record e { registered = registered }))

unfoldable pub set_ctx : Option ℕ → M Receiver (Unit {0})
set_ctx ctx = locked (set_self (λ e. record e { ctx = ctx }))

unfoldable pub set_conn : Option ℕ → M Receiver (Unit {0})
set_conn conn = locked (set_self (λ e. record e { conn = conn }))

unfoldable pub set_cancel : Option ℕ → M Receiver (Unit {0})
set_cancel cancel = locked (set_self (λ e. record e { cancel = cancel }))

unfoldable pub get_kind : M Receiver EventKind
get_kind = r_locked (gets (λ r. r.self.kind))

unfoldable pub get_suspend_policy : M Receiver SuspendPolicy
get_suspend_policy = r_locked (gets (λ r. r.self.suspend_policy))

-- The copy of a map, entry by entry.
unfoldable pub copy : {V : Type 0} → Dict V → Dict V → Dict V
copy descriptors [] = descriptors
copy descriptors ((k, v) ∷ m) = copy (insert k v descriptors) m

unfoldable pub get_hook_descriptors : M Receiver (Dict Bytes)
unfolding copy
get_hook_descriptors = r_locked (gets (λ r. copy [] r.self.hook_descriptors))

unfoldable pub get_modifiers : M Receiver (Dict ModifierDescriptor)
unfolding copy
get_modifiers = r_locked (gets (λ r. copy [] r.self.modifier_descriptors))

unfoldable pub get_registered : M Receiver Bool
get_registered = r_locked (gets (λ r. r.self.registered))

drop_modifier : Bytes → Option ModifierDescriptor → M Receiver (Option GoError)
drop_modifier name none =
    pure (some (wrap debugging_event (codes "modifier " ++ name ++ codes " not found")))
drop_modifier name (some _) = do
  set_self (λ e. record e { modifier_descriptors = erase name e.modifier_descriptors })
  pure none

-- The map is changed under the read lock.
unfoldable pub delete_modifier : Bytes → M Receiver (Option GoError)
unfolding drop_modifier
delete_modifier name =
    r_locked (do old ← gets (λ r. lookup name r.self.modifier_descriptors); drop_modifier name old)

abbrev pub is_set : Option ℕ → Bool
is_set none = false
is_set (some _) = true

unfoldable pub is_running : M Receiver Bool
is_running = r_locked (gets (λ r. is_set r.self.ctx))
