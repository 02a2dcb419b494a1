-- ===== src/Base/Lists.antt =====
-- Lists measured by native numbers, predicates on their elements, and the search loop that the
-- code writes for every lookup.
use Prim.Native.Nat.{ℕ, zero, suc, ◌+◌}
use mathlib.Core.Path.{◌≡◌, refl, ◌∙◌, ap}
use mathlib.Core.Logic.{inl, inr}
use mathlib.Core.Bool.{Bool, true, false}
use mathlib.Core.Option.{Option, none, some, or_else}
use mathlib.Core.List.{List, [], ◌∷◌, ◌++◌}
use native.Mathlib.Omega.{arith}
use jdwpfs.Base.Tests.{if◌then◌else◌, Option-cases}

module _ {ℓ} {A : Type ℓ} where
  abbrev pub length : List A → ℕ
  length [] = 0
  length (x ∷ xs) = suc (length xs)

  abbrev pub drop : ℕ → List A → List A
  drop zero xs = xs
  drop (suc n) [] = []
  drop (suc n) (x ∷ xs) = drop n xs

  abbrev pub take : ℕ → List A → List A
  take zero xs = []
  take (suc n) [] = []
  take (suc n) (x ∷ xs) = x ∷ take n xs

  -- `found = acc; for _, x := range xs { if test(x) { found = x } }`: the last match wins.
  unfoldable pub last_match : (A → Bool) → Option A → List A → Option A
  last_match test acc [] = acc
  last_match test acc (x ∷ xs) = last_match test (if test x then some x else acc) xs

module _ {ℓ κ} {A : Type ℓ} (P : A → Type κ) where
  abbrev pub All : List A → Type κ
  All [] = Unit
  All (x ∷ xs) = P x × All xs

  pub All-take : (n : ℕ) (xs : List A) → All xs → All (take n xs)
  All-take zero xs h = tt
  All-take (suc n) [] h = tt
  All-take (suc n) (x ∷ xs) (px, h) = (px, All-take n xs h)

  pub All-drop : (n : ℕ) (xs : List A) → All xs → All (drop n xs)
  All-drop zero xs h = h
  All-drop (suc n) [] h = tt
  All-drop (suc n) (x ∷ xs) (px, h) = All-drop n xs h

  pub All-append : (xs ys : List A) → All xs → All ys → All (xs ++ ys)
  All-append [] ys _ hy = hy
  All-append (x ∷ xs) ys (px, hx) hy = (px, All-append xs ys hx hy)

  pub All-middle : (xs : List A) (x : A) (ys : List A) → All (xs ++ x ∷ ys) → P x
  All-middle [] x ys (px, _) = px
  All-middle (y ∷ xs) x ys (_, h) = All-middle xs x ys h

module _ {ℓ} {A : Type ℓ} where
  pub length-append : (xs ys : List A) → length (xs ++ ys) ≡ length xs + length ys
  length-append [] ys = omega arith
  length-append (x ∷ xs) ys = omega (arith, length-append xs ys)

  pub drop-length-append : (xs ys : List A) → drop (length xs) (xs ++ ys) ≡ ys
  drop-length-append [] ys = refl
  drop-length-append (x ∷ xs) ys = drop-length-append xs ys

module _ {ℓ} {A : Type ℓ} (test : A → Bool) where
  -- The loop from any start is the loop from nothing, with the start as its default.
  pub last_match-or_else :
      (xs : List A) (acc : Option A)
      → last_match test acc xs ≡ or_else (last_match test none xs) acc
  unfolding last_match or_else
  last_match-or_else [] acc = refl
  last_match-or_else (x ∷ xs) acc = ground (
    arith,
    last_match-or_else xs (if test x then some x else acc),
    last_match-or_else xs (if test x then some x else none),
  )

  pub last_match-append :
      (xs ys : List A) (acc : Option A)
      → last_match test acc (xs ++ ys) ≡ last_match test (last_match test acc xs) ys
  unfolding last_match
  last_match-append [] ys acc = refl
  last_match-append (x ∷ xs) ys acc = last_match-append xs ys _

  -- Where nothing passes the test, the variable keeps its first value.
  pub last_match-none :
      (xs : List A) (acc : Option A) → All (λ x. test x ≡ false) xs → last_match test acc xs ≡ acc
  unfolding last_match
  last_match-none [] acc _ = refl
  last_match-none (x ∷ xs) acc (hx, h) = ground (arith, last_match-none xs acc h)

  -- The element behind which nothing passes is the one found.
  pub last_match-split :
      (xs : List A) (x : A) (ys : List A) (acc : Option A)
      → test x ≡ true
      → All (λ y. test y ≡ false) ys
      → last_match test acc (xs ++ x ∷ ys) ≡ some x
  unfolding last_match
  last_match-split xs x ys acc hx h =
      rw (last_match-append xs (x ∷ ys) acc, last_match, hx) (last_match-none ys (some x) h)

  -- Nothing found means that nothing passes.
  pub last_match-eq-none :
      (xs : List A) → last_match test none xs ≡ none → All (λ x. test x ≡ false) xs
  unfolding last_match or_else
  last_match-eq-none [] h = tt
  last_match-eq-none (x ∷ xs) h =
      ground (arith, last_match-or_else xs (if test x then some x else none), last_match-eq-none xs)

  -- Conversely, what is found stands in the list with nothing behind it that passes.
  pub last_match_sound :
      (xs : List A) (r : A)
      → last_match test none xs ≡ some r
      → (before : List A) × (behind : List A) × (xs ≡ before ++ r ∷ behind)
        × (test r ≡ true)
        × All (λ y. test y ≡ false) behind
  unfolding last_match or_else
  last_match_sound [] r h = cc
  last_match_sound (x ∷ xs) r h = elim (Option-cases (last_match test none xs)) [
    | inl e ↦ (
      [],
      xs,
      ground (arith, last_match-or_else xs (if test x then some x else none)),
      ground (arith, last_match-or_else xs (if test x then some x else none)),
      last_match-eq-none xs e,
    )
    | inr (a, e) ↦
        let same : a ≡ r =
          ground (arith, last_match-or_else xs (if test x then some x else none)) in
        let (before, behind, split, passes, none_behind) =
          last_match_sound xs r (e ∙ ap some same) in
        (x ∷ before, behind, ap (λ l. x ∷ l) split, passes, none_behind)
  ]
