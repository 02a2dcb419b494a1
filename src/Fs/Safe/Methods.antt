-- ===== src/Fs/Safe/Methods.antt =====
-- The methods of debug/debugging_event.go that the handlers call.
use jdwpfs.Base.{ℕ, ◌≡◌, refl, ◌∙◌, inl, inr, Bytes, Option-cases}
use jdwpfs.Base.Dict.{lookup}
use jdwpfs.Base.Dict.Nodup.{NodupKeys, insert-NodupKeys, erase-NodupKeys}
use jdwpfs.Go.Sync.{Outcome, done, blocked, crashed}
use jdwpfs.Debug.Errors.{Result, ok, err}
use jdwpfs.Debug.Plugins.{PluginHost}
use jdwpfs.Debug.Plugins.Laws.{Mistyped}
use jdwpfs.Debug.Event.{
  EventKind, SuspendPolicy, ModifierDescriptor, Receiver, set_kind, set_suspend_policy,
  set_hook_descriptor, set_modifier, delete_modifier, get_kind, get_suspend_policy,
  get_hook_descriptors, get_modifiers, is_running,
}
use jdwpfs.Debug.Event.Methods.{
  IsFree, set_kind_lem, set_suspend_policy_lem, set_modifier_lem, get_kind_lem,
  get_suspend_policy_lem, is_running_lem, get_hook_descriptors_lem, get_modifiers_lem,
  set_hook_descriptor_new, set_hook_descriptor_old, delete_modifier_new, delete_modifier_old,
}
use jdwpfs.Debug.Event.Run.{Ranging, run, cancel}
use jdwpfs.Debug.Event.Running.{Ran, run-Ran}
use jdwpfs.Debug.Event.Cancelling.{cancel-idle, cancel-running}
use jdwpfs.Fs.Safe.{IsOk, Tame, Tame-same}

IsOk-of :
    (r : Receiver)
    → IsFree r
    → r.self.cancel ≡ r.self.ctx
    → NodupKeys r.self.modifier_descriptors
    → NodupKeys r.self.hook_descriptors
    → IsOk r
IsOk-of r f e m h = record { unlocked = f; paired = e; maps = record { modifiers = m; hooks = h } }

module _ (host : PluginHost) (ranging : Ranging) (r : Receiver) (k : IsOk r) where
  marked-Tame :
      (out : Outcome Receiver (Result ℕ)) → Ran host ranging r out → Tame (Mistyped host) r out
  marked-Tame (done (ok c) r') (number, plugins, same) =
      rw same (IsOk-of _ k.unlocked refl k.maps.modifiers k.maps.hooks, refl)
  marked-Tame (done (err e) r') same =
      rw same (IsOk-of _ k.unlocked refl k.maps.modifiers k.maps.hooks, refl)
  marked-Tame blocked h = h
  marked-Tame crashed h = h

  pub run-Tame : Tame (Mistyped host) r (run host ranging r)
  run-Tame = marked-Tame (run host ranging r) (run-Ran host ranging r k.unlocked)

module _ (Crash : Type 0) (r : Receiver) (k : IsOk r) where
  pub cancel-Tame : Tame Crash r (cancel r)
  cancel-Tame = elim (Option-cases r.self.ctx) [
    | inl e ↦ Tame-same Crash r cancel _ k (cancel-idle r k.unlocked e)
    | inr (c, e) ↦
        rw (cancel-running r c k.unlocked e (k.paired ∙ e))
          (IsOk-of _ k.unlocked refl k.maps.modifiers k.maps.hooks, refl)
  ]

  pub is_running-Tame : Tame Crash r (is_running r)
  is_running-Tame = Tame-same Crash r is_running _ k (is_running_lem r k.unlocked)

  pub get_kind-Tame : Tame Crash r (get_kind r)
  get_kind-Tame = Tame-same Crash r get_kind _ k (get_kind_lem r k.unlocked)

  pub get_suspend_policy-Tame : Tame Crash r (get_suspend_policy r)
  get_suspend_policy-Tame =
      Tame-same Crash r get_suspend_policy _ k (get_suspend_policy_lem r k.unlocked)

  pub get_hook_descriptors-Tame : Tame Crash r (get_hook_descriptors r)
  get_hook_descriptors-Tame =
      Tame-same Crash r get_hook_descriptors _ k
        (get_hook_descriptors_lem r k.unlocked k.maps.hooks)

  pub get_modifiers-Tame : Tame Crash r (get_modifiers r)
  get_modifiers-Tame =
      Tame-same Crash r get_modifiers _ k (get_modifiers_lem r k.unlocked k.maps.modifiers)

  pub set_kind-Tame : (kind : EventKind) → Tame Crash r (set_kind kind r)
  set_kind-Tame kind =
      rw (set_kind_lem r k.unlocked kind)
        (IsOk-of _ k.unlocked k.paired k.maps.modifiers k.maps.hooks, refl)

  pub set_suspend_policy-Tame :
      (policy : SuspendPolicy) → Tame Crash r (set_suspend_policy policy r)
  set_suspend_policy-Tame policy =
      rw (set_suspend_policy_lem r k.unlocked policy)
        (IsOk-of _ k.unlocked k.paired k.maps.modifiers k.maps.hooks, refl)

  pub set_modifier-Tame :
      (name : Bytes) (m : ModifierDescriptor) → Tame Crash r (set_modifier name m r)
  set_modifier-Tame name m = rw (set_modifier_lem r k.unlocked name m) (
    IsOk-of _ k.unlocked k.paired (insert-NodupKeys name m _ k.maps.modifiers) k.maps.hooks,
    refl,
  )

  pub delete_modifier-Tame : (name : Bytes) → Tame Crash r (delete_modifier name r)
  delete_modifier-Tame name = elim (Option-cases (lookup name r.self.modifier_descriptors)) [
    | inl e ↦ Tame-same Crash r (delete_modifier name) _ k (delete_modifier_new r k.unlocked name e)
    | inr (m, e) ↦
        rw (delete_modifier_old r k.unlocked name e) (
          IsOk-of _ k.unlocked k.paired (erase-NodupKeys name _ k.maps.modifiers) k.maps.hooks,
          refl,
        )
  ]

  pub set_hook_descriptor-Tame :
      (name target : Bytes) → Tame Crash r (set_hook_descriptor name target r)
  set_hook_descriptor-Tame name target = elim (Option-cases (lookup name r.self.hook_descriptors)) [
    | inl e ↦ rw (set_hook_descriptor_new r k.unlocked name target e) (
      IsOk-of _ k.unlocked k.paired k.maps.modifiers (insert-NodupKeys name target _ k.maps.hooks),
      refl,
    )
    | inr (old, e) ↦
        Tame-same Crash r (set_hook_descriptor name target) _ k
          (set_hook_descriptor_old r k.unlocked name target e)
  ]
