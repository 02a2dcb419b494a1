-- ===== src/Debug/Event/Methods.antt =====
-- What the methods of debug/debugging_event.go that read or write fields do, on an event whose
-- mutex is free.
use jdwpfs.Base.{
  ℕ, [], ◌∷◌, ◌++◌, true, false, Option, none, some, ◌≡◌, arith, Bytes, codes, append_assoc,
  append-nil,
}
use jdwpfs.Base.Dict.{Dict, lookup, insert, erase}
use jdwpfs.Base.Dict.Nodup.{NodupKeys, AreNew, AreNew-nil, AreNew-snoc, insert-eq-append}
use jdwpfs.Go.Sync.{done, free}
use jdwpfs.Debug.Errors.{wrap, debugging_event}
use jdwpfs.Debug.Event.{
  EventKind, SuspendPolicy, ModifierDescriptor, DebuggingEvent, Receiver, is_set, copy, set_kind,
  set_suspend_policy, set_hook_descriptor, remove_hook_descriptor, set_modifier, set_conn, get_kind,
  get_suspend_policy, get_hook_descriptors, get_modifiers, delete_modifier, is_running,
}

abbrev pub IsFree : Receiver → Type 0
IsFree r = r.self.mu ≡ free

-- The receiver with its event changed.
abbrev pub with_self : Receiver → (DebuggingEvent → DebuggingEvent) → Receiver
with_self r f = record r { self = f r.self }

-- What an event's maps satisfy.
pub record HasMaps (e : DebuggingEvent) : Type 0 where
  pub modifiers : NodupKeys e.modifier_descriptors
  pub hooks : NodupKeys e.hook_descriptors

copy-append : {V : Type 0} (m acc : Dict V) → NodupKeys m → AreNew m acc → copy acc m ≡ acc ++ m
unfolding copy
copy-append [] acc h a = rw append-nil
copy-append ((k, v) ∷ m) acc (fresh, h) (hk, a) =
    rw (insert-eq-append k v acc hk, copy-append m _ h (AreNew-snoc k v acc m fresh a))
      (append_assoc acc _ m)

-- The copy of a map holds the same entries.
pub copy_self : {V : Type 0} (m : Dict V) → NodupKeys m → copy [] m ≡ m
copy_self m h = copy-append m [] h (AreNew-nil m)

module _ (r : Receiver) (h : IsFree r) where
  pub set_kind_lem :
      (k : EventKind) → set_kind k r ≡ done tt (with_self r (λ e. record e { kind = k }))
  unfolding set_kind
  set_kind_lem k = ground arith

  pub set_suspend_policy_lem :
      (p : SuspendPolicy)
      → set_suspend_policy p r ≡ done tt (with_self r (λ e. record e { suspend_policy = p }))
  unfolding set_suspend_policy
  set_suspend_policy_lem p = ground arith

  pub set_conn_lem :
      (c : Option ℕ) → set_conn c r ≡ done tt (with_self r (λ e. record e { conn = c }))
  unfolding set_conn
  set_conn_lem c = ground arith

  pub set_modifier_lem :
      (name : Bytes) (d : ModifierDescriptor)
      → set_modifier name d r
        ≡ done none (
            with_self r
              (λ e. record e { modifier_descriptors = insert name d e.modifier_descriptors }))
  unfolding set_modifier
  set_modifier_lem name d = ground arith

  pub get_kind_lem : get_kind r ≡ done r.self.kind r
  unfolding get_kind
  get_kind_lem = ground arith

  pub get_suspend_policy_lem : get_suspend_policy r ≡ done r.self.suspend_policy r
  unfolding get_suspend_policy
  get_suspend_policy_lem = ground arith

  pub is_running_lem : is_running r ≡ done (is_set r.self.ctx) r
  unfolding is_running
  is_running_lem = ground arith

  pub get_hook_descriptors_lem :
      NodupKeys r.self.hook_descriptors → get_hook_descriptors r ≡ done r.self.hook_descriptors r
  unfolding get_hook_descriptors
  get_hook_descriptors_lem u = ground (arith, copy_self r.self.hook_descriptors u)

  pub get_modifiers_lem :
      NodupKeys r.self.modifier_descriptors → get_modifiers r ≡ done r.self.modifier_descriptors r
  unfolding get_modifiers
  get_modifiers_lem u = ground (arith, copy_self r.self.modifier_descriptors u)

  pub set_hook_descriptor_new :
      (name target : Bytes)
      → lookup name r.self.hook_descriptors ≡ none
      → set_hook_descriptor name target r
        ≡ done true (
            with_self r
              (λ e. record e { hook_descriptors = insert name target e.hook_descriptors }))
  unfolding set_hook_descriptor
  set_hook_descriptor_new name target n = ground arith

  pub set_hook_descriptor_old :
      (name target : Bytes) {t : Bytes}
      → lookup name r.self.hook_descriptors ≡ some t
      → set_hook_descriptor name target r ≡ done false r
  unfolding set_hook_descriptor
  set_hook_descriptor_old name target n = ground arith

  pub remove_hook_descriptor_old :
      (name : Bytes) {t : Bytes}
      → lookup name r.self.hook_descriptors ≡ some t
      → remove_hook_descriptor name r
        ≡ done true
            (with_self r (λ e. record e { hook_descriptors = erase name e.hook_descriptors }))
  unfolding remove_hook_descriptor
  remove_hook_descriptor_old name n = ground arith

  pub delete_modifier_new :
      (name : Bytes)
      → lookup name r.self.modifier_descriptors ≡ none
      → delete_modifier name r
        ≡ done (some (wrap debugging_event (codes "modifier " ++ name ++ codes " not found"))) r
  unfolding delete_modifier
  delete_modifier_new name n = ground arith

  pub delete_modifier_old :
      (name : Bytes) {d : ModifierDescriptor}
      → lookup name r.self.modifier_descriptors ≡ some d
      → delete_modifier name r
        ≡ done none (
            with_self r
              (λ e. record e { modifier_descriptors = erase name e.modifier_descriptors }))
  unfolding delete_modifier
  delete_modifier_old name n = ground arith
