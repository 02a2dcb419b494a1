-- ===== src/Fs/Safe/Files.antt =====
-- The handlers of the files of an event, of fs/event_control_files.go.
use jdwpfs.Base.{ℕ, Bool, true, false, inl, inr, Bytes, Option-cases}
use jdwpfs.Base.Dict.{lookup}
use jdwpfs.Go.Space.{trim_space}
use jdwpfs.Debug.Plugins.{PluginHost}
use jdwpfs.Debug.Plugins.Laws.{Mistyped}
use jdwpfs.Debug.Event.{
  EventKind, SuspendPolicy, set_kind, set_suspend_policy, get_kind, get_suspend_policy, is_running,
}
use jdwpfs.Debug.Event.Run.{Ranging, run, cancel}
use jdwpfs.Debug.Manager.{World, on_event}
use jdwpfs.Fs.Control
use jdwpfs.Fs.Kind
use jdwpfs.Fs.Policy
use jdwpfs.Fs.Safe.{IsSound, Safe, receiver-IsOk, Grows-refl, on_event-Safe, bind-Safe}
use jdwpfs.Fs.Safe.Methods.{
  run-Tame, cancel-Tame, is_running-Tame, get_kind-Tame, get_suspend_policy-Tame, set_kind-Tame,
  set_suspend_policy-Tame,
}

module _ (host : PluginHost) (ranging : Ranging) (p : ℕ) (text : Bytes) where
  start-Safe :
      (w : World) (running : Bool)
      → IsSound w
      → Safe (Mistyped host) w (Control.start_unless host ranging p text running w)
  start-Safe w true s = (s, Grows-refl w)
  start-Safe w false s =
      bind-Safe _ w (on_event p (run host ranging)) _
        (on_event-Safe _ w p (run host ranging) s (run-Tame host ranging _ (receiver-IsOk w p s)))
        (λ a w' q s'. (s', Grows-refl w'))

  stop-Safe :
      (w : World) (running : Bool)
      → IsSound w
      → Safe (Mistyped host) w (Control.stop_if host ranging p text running w)
  stop-Safe w false s = (s, Grows-refl w)
  stop-Safe w true s =
      bind-Safe _ w (on_event p cancel) _
        (on_event-Safe _ w p cancel s (cancel-Tame _ _ (receiver-IsOk w p s)))
        (λ a w' q s'. (s', Grows-refl w'))

  perform-Safe :
      (w : World) (c : Control.Command)
      → IsSound w
      → Safe (Mistyped host) w (Control.perform host ranging c p text w)
  unfolding Control.perform
  perform-Safe w Control.run_word s = (s, Grows-refl w)
  perform-Safe w Control.cancel_word s = (s, Grows-refl w)
  perform-Safe w Control.unknown s = (s, Grows-refl w)
  perform-Safe w Control.start s =
      bind-Safe _ w (on_event p is_running) _
        (on_event-Safe _ w p is_running s (is_running-Tame _ _ (receiver-IsOk w p s)))
        (λ a w' q s'. start-Safe w' a s')
  perform-Safe w Control.stop s =
      bind-Safe _ w (on_event p is_running) _
        (on_event-Safe _ w p is_running s (is_running-Tame _ _ (receiver-IsOk w p s)))
        (λ a w' q s'. stop-Safe w' a s')

pub write_control-Safe :
    (host : PluginHost) (ranging : Ranging) (w : World) (c : Control.EventControlFile)
    (text : Bytes)
    → IsSound w
    → Safe (Mistyped host) w (Control.write host ranging c text w)
unfolding Control.write
write_control-Safe host ranging w c text s = perform-Safe host ranging c.event text w _ s

module _ (Crash : Type 0) (w : World) (s : IsSound w) where
  pub read_control-Safe :
      (c : Control.EventControlFile) (offset : ℕ) → Safe Crash w (Control.read c offset w)
  unfolding Control.read
  read_control-Safe c offset =
      bind-Safe _ w (on_event c.event is_running) _
        (on_event-Safe _ w c.event is_running s (is_running-Tame _ _ (receiver-IsOk w c.event s)))
        (λ a w' q s'. (s', Grows-refl w'))

  pub read_kind-Safe :
      (kind_string : EventKind → Bytes) (c : Kind.EventKindFile) (offset : ℕ)
      → Safe Crash w (Kind.read kind_string c offset w)
  unfolding Kind.read
  read_kind-Safe kind_string c offset =
      bind-Safe _ w (on_event c.event get_kind) _
        (on_event-Safe _ w c.event get_kind s (get_kind-Tame _ _ (receiver-IsOk w c.event s)))
        (λ a w' q s'. (s', Grows-refl w'))

  pub read_policy-Safe :
      (policy_string : SuspendPolicy → Bytes) (c : Policy.EventSuspendPolicyFile) (offset : ℕ)
      → Safe Crash w (Policy.read policy_string c offset w)
  unfolding Policy.read
  read_policy-Safe policy_string c offset =
      bind-Safe _ w (on_event c.event get_suspend_policy) _
        (on_event-Safe _ w c.event get_suspend_policy s
          (get_suspend_policy-Tame _ _ (receiver-IsOk w c.event s)))
        (λ a w' q s'. (s', Grows-refl w'))

  pub write_kind-Safe : (c : Kind.EventKindFile) (text : Bytes) → Safe Crash w (Kind.write c text w)
  unfolding Kind.write
  write_kind-Safe c text = elim (Option-cases (lookup (trim_space text) Kind.event_kind_repr_map)) [
    | inl e ↦ rw e (s, Grows-refl w)
    | inr (k, e) ↦ rw e (
        bind-Safe Crash w (on_event c.event (set_kind k)) _
          (on_event-Safe _ w c.event (set_kind k) s
            (set_kind-Tame _ _ (receiver-IsOk w c.event s) k))
          (λ a w' q s'. (s', Grows-refl w')))
  ]

  pub write_policy-Safe :
      (c : Policy.EventSuspendPolicyFile) (text : Bytes) → Safe Crash w (Policy.write c text w)
  unfolding Policy.write
  write_policy-Safe c text =
      elim (Option-cases (lookup (trim_space text) Policy.suspend_policy_repr_map)) [
        | inl e ↦ rw e (s, Grows-refl w)
        | inr (k, e) ↦ rw e (
            bind-Safe Crash w (on_event c.event (set_suspend_policy k)) _
              (on_event-Safe _ w c.event (set_suspend_policy k) s
                (set_suspend_policy-Tame _ _ (receiver-IsOk w c.event s) k))
              (λ a w' q s'. (s', Grows-refl w')))
      ]
