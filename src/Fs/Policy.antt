-- ===== src/Fs/Policy.antt =====
-- The suspend policy file of an event, `EventSuspendPolicyFile` of fs/event_control_files.go.
pub mod Laws
use jdwpfs.Base.{ℕ, [], ◌∷◌, Option, none, some, ◌≡◌, refl, Bytes, codes}
use jdwpfs.Base.Dict.{Dict, lookup}
use jdwpfs.Go.Sync.{M, pure, ◌>>=◌, ◌>>◌}
use jdwpfs.Go.Space.{trim_space}
use jdwpfs.Debug.Event.{
  SuspendPolicy, suspend_none, suspend_event_thread, suspend_all, set_suspend_policy,
  get_suspend_policy,
}
use jdwpfs.Debug.Manager.{World, on_event}
use jdwpfs.Fs.Node.{
  Reply, reply, fail, eafnosupport, SetAttrIn, AttrOut, written, read_from, open_direct,
  set_attributes,
}

-- `suspendPolicyReprMap`
abbrev pub suspend_policy_repr_map : Dict SuspendPolicy
suspend_policy_repr_map =
    (codes "SuspendNone", suspend_none)
    ∷ (codes "SuspendEventThread", suspend_event_thread)
    ∷ (codes "SuspendAll", suspend_all)
    ∷ []

pub record EventSuspendPolicyFile : Type 0 where
  pub event : ℕ

unfoldable pub new_event_suspend_policy_file : ℕ → EventSuspendPolicyFile
new_event_suspend_policy_file event = record { event = event }

abbrev pub open_node : EventSuspendPolicyFile → ℕ → Reply ℕ
open_node c = open_direct

abbrev pub get_attr : EventSuspendPolicyFile → AttrOut → AttrOut
get_attr c out = record out { mode = 0o660 }

abbrev pub set_attr : EventSuspendPolicyFile → SetAttrIn → AttrOut → Reply AttrOut
set_attr c = set_attributes

-- `suspendPolicy.String()` is a method of the debugger library.
unfoldable pub read : (SuspendPolicy → Bytes) → EventSuspendPolicyFile → ℕ → M World (Reply Bytes)
read policy_string c offset = do
  policy ← on_event c.event get_suspend_policy
  pure (read_from (policy_string policy) offset)

store_policy : ℕ → Bytes → Option SuspendPolicy → M World (Reply ℕ)
store_policy p text none = pure (fail eafnosupport)
store_policy p text (some policy) = do
  on_event p (set_suspend_policy policy)
  pure (reply (written text))

unfoldable pub write : EventSuspendPolicyFile → Bytes → M World (Reply ℕ)
unfolding store_policy
write c text = store_policy c.event text (lookup (trim_space text) suspend_policy_repr_map)
