-- ===== src/Base/Dict/Nodup.antt =====
-- Maps as the language has them: no key stands twice.
use mathlib.Core.Logic.Or
use mathlib.Core.Logic.{inl, inr, ∥∥₁_elim}
use mathlib.Core.HLevel.{⊥_prop}
use mathlib.Core.Path.{◌≡◌, refl, sym, ◌∙◌, ap₂}
use mathlib.Core.Bool.{false}
use mathlib.Core.Option.{Option, none, some, is_set}
use mathlib.Core.List.{
  List, [], ◌∷◌, ◌++◌, map, Mem, mem-cons, not-mem-nil, Nodup, Nodup-nil, Nodup-cons, Perm, Permᴰ,
}
use mathlib.Core.List.Perm
use native.Mathlib.Omega.{arith}
use jdwpfs.Base.Tests.{Bool-cases, if◌then◌else◌}
use jdwpfs.Base.Text.{Bytes, text_eq, text_eq_iff, text_eq_refl}
use jdwpfs.Base.Dict.{Dict, lookup, insert, erase, lookup-insert, lookup-erase}

module _ {ℓ} {V : Type ℓ} where
  abbrev pub NodupKeys : Dict V → Type ℓ
  NodupKeys [] = Unit
  NodupKeys ((k, v) ∷ m) = (lookup k m ≡ none) × NodupKeys m

  abbrev pub keys : Dict V → List Bytes
  keys = map (λ e. e.0)

  not-mem_of_lookup : (k : Bytes) (m : Dict V) → lookup k m ≡ none → ¬ Mem k (keys m)
  unfolding lookup
  not-mem_of_lookup k [] h mem = not-mem-nil mem
  not-mem_of_lookup k ((j, v) ∷ m) h mem =
      Or.elim ⊥_prop (mem-cons.0 mem) (λ e. ground (arith, text_eq_iff j k, e))
        (not-mem_of_lookup k m (ground (arith, text_eq_iff j k)))

  lookup_of_not-mem : (k : Bytes) (m : Dict V) → ¬ Mem k (keys m) → lookup k m ≡ none
  unfolding lookup
  lookup_of_not-mem k [] h = refl
  lookup_of_not-mem k ((j, v) ∷ m) h = elim (Bool-cases (text_eq j k)) [
    | inl e ↦ absurd (h (mem-cons.1 (Or.inl (sym ((text_eq_iff j k).0 e)))))
    | inr e ↦ rw e (lookup_of_not-mem k m (λ mem. h (mem-cons.1 (Or.inr mem))))
  ]

  NodupKeys-Nodup : (m : Dict V) → NodupKeys m → Nodup (keys m)
  NodupKeys-Nodup [] h = Nodup-nil
  NodupKeys-Nodup ((k, v) ∷ m) (fresh, h) =
      Nodup-cons.1 (not-mem_of_lookup k m fresh, NodupKeys-Nodup m h)

  NodupKeys_of_Nodup : (m : Dict V) → Nodup (keys m) → NodupKeys m
  NodupKeys_of_Nodup [] h = tt
  NodupKeys_of_Nodup ((k, v) ∷ m) h =
      let (fresh, rest) = Nodup-cons.0 h in (lookup_of_not-mem k m fresh, NodupKeys_of_Nodup m rest)

  pub NodupKeys-perm : {m n : Dict V} → Perm m n → NodupKeys m → NodupKeys n
  NodupKeys-perm {m} {n} p h =
      NodupKeys_of_Nodup n (Perm.nodup (Perm.map (λ e. e.0) p) (NodupKeys-Nodup m h))

  pub insert-NodupKeys : (k : Bytes) (v : V) (m : Dict V) → NodupKeys m → NodupKeys (insert k v m)
  unfolding insert lookup
  insert-NodupKeys k v [] h = (refl, tt)
  insert-NodupKeys k v ((j, w) ∷ m) h =
      ground
        (arith, text_eq_iff j k, lookup-insert k j v m, text_eq_iff k j, insert-NodupKeys k v m)

  pub erase-NodupKeys : (k : Bytes) (m : Dict V) → NodupKeys m → NodupKeys (erase k m)
  unfolding erase lookup
  erase-NodupKeys k [] h = tt
  erase-NodupKeys k ((j, w) ∷ m) h =
      ground (arith, text_eq_iff j k, lookup-erase k j m, erase-NodupKeys k m)

  -- A new key goes to the end.
  pub insert-eq-append :
      (k : Bytes) (v : V) (m : Dict V) → lookup k m ≡ none → insert k v m ≡ m ++ (k, v) ∷ []
  unfolding insert lookup
  insert-eq-append k v [] h = refl
  insert-eq-append k v ((j, w) ∷ m) h = ground (arith, insert-eq-append k v m)

  pub erase-absent : (k : Bytes) (m : Dict V) → lookup k m ≡ none → erase k m ≡ m
  unfolding erase lookup
  erase-absent k [] h = refl
  erase-absent k ((j, w) ∷ m) h = ground (arith, erase-absent k m)

  -- A new entry that is deleted again leaves the map as it was.
  pub erase-insert :
      (k : Bytes) (v : V) (m : Dict V) → lookup k m ≡ none → erase k (insert k v m) ≡ m
  unfolding erase insert lookup
  erase-insert k v [] h = ground (arith, text_eq_refl k)
  erase-insert k v ((j, w) ∷ m) h = ground (arith, erase-insert k v m)

  lookup-snoc :
      (j k : Bytes) (v : V) (m : Dict V)
      → lookup j m ≡ none
      → text_eq k j ≡ false
      → lookup j (m ++ (k, v) ∷ []) ≡ none
  unfolding lookup
  lookup-snoc j k v [] h d = ground arith
  lookup-snoc j k v ((i, w) ∷ m) h d = ground (arith, lookup-snoc j k v m)

  -- No key of `m` is a key of `acc`.
  abbrev pub AreNew : Dict V → Dict V → Type ℓ
  AreNew [] acc = Unit
  AreNew ((k, v) ∷ m) acc = (lookup k acc ≡ none) × AreNew m acc

  pub AreNew-nil : (m : Dict V) → AreNew m []
  unfolding lookup
  AreNew-nil [] = tt
  AreNew-nil (e ∷ m) = (refl, AreNew-nil m)

  pub AreNew-snoc :
      (k : Bytes) (v : V) (acc m : Dict V)
      → lookup k m ≡ none
      → AreNew m acc
      → AreNew m (acc ++ (k, v) ∷ [])
  unfolding lookup
  AreNew-snoc k v acc [] fresh h = tt
  AreNew-snoc k v acc ((j, w) ∷ m) fresh (hj, h) = (
    ground (arith, lookup-snoc j k v acc, text_eq_iff k j, text_eq_iff j k),
    AreNew-snoc k v acc m (ground arith) h,
  )

  -- The value under a key in a map with one more entry in front.
  abbrev front : Bytes → Bytes × V → Option V → Option V
  front k e rest = if text_eq e.0 k then some e.1 else rest

  front_swap :
      (k : Bytes) (a b : Bytes × V) (rest : Option V)
      → text_eq b.0 a.0 ≡ false
      → front k a (front k b rest) ≡ front k b (front k a rest)
  front_swap k a b rest d =
      ground (arith, text_eq_iff a.0 k, text_eq_iff b.0 k, text_eq_iff b.0 a.0)

  lookup-permᴰ : (k : Bytes) {m n : Dict V} → Permᴰ m n → NodupKeys m → lookup k m ≡ lookup k n
  unfolding lookup
  lookup-permᴰ k Permᴰ.nil u = refl
  lookup-permᴰ k (Permᴰ.cons e p) (fresh, u) = ap₂ (front k) e (lookup-permᴰ k p u)
  lookup-permᴰ k (Permᴰ.swap {a} {b} {l} e e') u =
      front_swap k a b (lookup k l) (ground arith)
      ∙ ap₂ (λ x y. front k x (front k y (lookup k l))) e' e
  lookup-permᴰ k (Permᴰ.trans p q) u =
      lookup-permᴰ k p u ∙ lookup-permᴰ k q (NodupKeys-perm ∣ p ∣₁ u)

  -- A map is the same in every order of its entries.
  pub lookup-perm :
      IsSet V → (k : Bytes) {m n : Dict V} → Perm m n → NodupKeys m → lookup k m ≡ lookup k n
  lookup-perm set k p u = ∥∥₁_elim p (is_set set _ _) (λ q. lookup-permᴰ k q u)
