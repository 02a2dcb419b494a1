-- ===== src/Fs/Policy/Laws.antt =====
-- On `EventSuspendPolicyFile` of fs/event_control_files.go.
use jdwpfs.Base.{ℕ, ◌++◌, none, some, ◌≡◌, refl, arith, Bytes, codes, text_eq}
use jdwpfs.Base.Dict.{lookup}
use jdwpfs.Go.Sync.{done, ◌>>=◌}
use jdwpfs.Go.Space.{trim_space}
use jdwpfs.Debug.Event.{
  SuspendPolicy, suspend_none, suspend_event_thread, suspend_all, set_suspend_policy,
  get_suspend_policy,
}
use jdwpfs.Debug.Event.Methods.{set_suspend_policy_lem, get_suspend_policy_lem}
use jdwpfs.Debug.Manager.{World, receiver, put_back}
use jdwpfs.Debug.Manager.Frame.{IsSettled, on_event-done, on_event-put_back}
use jdwpfs.Fs.Node.{reply, fail, eafnosupport, written, read_from}
use jdwpfs.Fs.Policy.{EventSuspendPolicyFile, suspend_policy_repr_map, read, write}

-- The name under which a suspend policy is documented.
unfoldable pub policy_name : SuspendPolicy → Bytes
policy_name suspend_none = codes "SuspendNone"
policy_name suspend_event_thread = codes "SuspendEventThread"
policy_name suspend_all = codes "SuspendAll"

-- With or without the line feed of `echo`, the name of a policy is that of no other.
named :
    (k : SuspendPolicy)
    → (lookup (trim_space (policy_name k)) suspend_policy_repr_map ≡ some k)
      × (lookup (trim_space (policy_name k ++ codes "\n")) suspend_policy_repr_map ≡ some k)
unfolding lookup trim_space policy_name text_eq
named suspend_none = (refl, refl)
named suspend_event_thread = (refl, refl)
named suspend_all = (refl, refl)

module _ (w : World) (c : EventSuspendPolicyFile) (s : IsSettled w c.event) where
  -- The world with the event's policy changed.
  abbrev pub with_policy : SuspendPolicy → World
  with_policy k =
      put_back w c.event
        (record (receiver w c.event) { self = record (w.event_at c.event) { suspend_policy = k } })

  write_known :
      (text : Bytes) (k : SuspendPolicy)
      → lookup (trim_space text) suspend_policy_repr_map ≡ some k
      → write c text w ≡ done (reply (written text)) (with_policy k)
  unfolding write
  write_known text k e = ground (
    arith,
    on_event-done c.event (set_suspend_policy k) w tt _
        (set_suspend_policy_lem (receiver w c.event) s.unlocked k),
  )

  -- A text that names no policy is refused, and changes nothing.
  pub write-unknown_policy :
      (text : Bytes)
      → lookup (trim_space text) suspend_policy_repr_map ≡ none
      → write c text w ≡ done (fail eafnosupport) w
  unfolding write
  write-unknown_policy text e = rw e

  read-with_policy :
      (policy_string : SuspendPolicy → Bytes) (k : SuspendPolicy) (offset : ℕ)
      → read policy_string c offset (with_policy k)
        ≡ done (read_from (policy_string k) offset) (with_policy k)
  unfolding read
  read-with_policy policy_string k offset =
      let r = record (receiver w c.event) {
        self = record (w.event_at c.event) { suspend_policy = k };
      } in
      rw (
        on_event-put_back c.event get_suspend_policy w r k r (get_suspend_policy_lem r s.unlocked),
        ◌>>=◌,
      )

  -- For a settled event and each suspend policy, writing the policy's documented name to the
  -- policy file, with or without a line feed, replies the number of bytes and sets that policy,
  -- and a read then shows that policy's text from the offset on and changes nothing.
  pub read-write_policy :
      (policy_string : SuspendPolicy → Bytes) (k : SuspendPolicy) (offset : ℕ)
      → (write c (policy_name k) w ≡ done (reply (written (policy_name k))) (with_policy k))
        × (write c (policy_name k ++ codes "\n") w
            ≡ done (reply (written (policy_name k ++ codes "\n"))) (with_policy k))
        × (read policy_string c offset (with_policy k)
            ≡ done (read_from (policy_string k) offset) (with_policy k))
  read-write_policy policy_string k offset = (
    write_known _ k (named k).0,
    write_known _ k (named k).1,
    read-with_policy policy_string k offset,
  )
