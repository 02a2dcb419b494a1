-- ===== src/Go/Split.antt =====
-- `strings.Split` and `strings.Join` at a separator of one byte, `HasPrefix`, `TrimPrefix` and
-- `TrimRight`.
use mathlib.Core.List.{reverse}
use jdwpfs.Base.{
  ℕ, List, [], ◌∷◌, ◌++◌, ◌≡◌, refl, ap, ◌∙◌, inl, inr, Bool-cases, ==_iff, ◌≢◌, Bool, true, false,
  ◌&&◌, arith, Bytes, ◌==◌, if◌then◌else◌, All, append_assoc, append-nil, length, drop,
  drop-length-append,
}

-- `cur` is the part that is being read.
split_from : ℕ → Bytes → Bytes → List Bytes
split_from sep cur [] = cur ∷ []
split_from sep cur (c ∷ s) = elim (c == sep) [
  | true ↦ cur ∷ split_from sep [] s
  | false ↦ split_from sep (cur ++ c ∷ []) s
]

unfoldable pub split : ℕ → Bytes → List Bytes
unfolding split_from
split sep s = split_from sep [] s

unfoldable pub join : ℕ → List Bytes → Bytes
join sep [] = []
join sep (p ∷ []) = p
join sep (p ∷ q ∷ ps) = p ++ sep ∷ join sep (q ∷ ps)

unfoldable pub has_prefix : Bytes → Bytes → Bool
has_prefix s [] = true
has_prefix [] (p ∷ ps) = false
has_prefix (c ∷ s) (p ∷ ps) = c == p && has_prefix s ps

-- `TrimPrefix(s, p)`
unfoldable pub trim_prefix : Bytes → Bytes → Bytes
unfolding has_prefix
trim_prefix s p = if has_prefix s p then drop (length p) s else s

trim_left_byte : ℕ → Bytes → Bytes
trim_left_byte b [] = []
trim_left_byte b (c ∷ s) = let rest = trim_left_byte b s in if c == b then rest else c ∷ s

-- `TrimRight(s, b)` for a cut set of one byte.
unfoldable pub trim_right_byte : ℕ → Bytes → Bytes
unfolding trim_left_byte
trim_right_byte b s = reverse (trim_left_byte b (reverse s))

abbrev pub Lacks : ℕ → Bytes → Type 0
Lacks b = All (λ c. c ≢ b)

-- A part that lacks the separator ends at the first separator behind it.
split_from-append :
    (sep : ℕ) (p cur s : Bytes)
    → Lacks sep p
    → split_from sep cur (p ++ sep ∷ s) ≡ (cur ++ p) ∷ split_from sep [] s
unfolding split_from
split_from-append sep [] cur s h = ground (arith, append-nil cur)
split_from-append sep (c ∷ p) cur s h =
    ground (arith, split_from-append sep p (cur ++ c ∷ []) s, append_assoc cur (c ∷ []) p)

split_from_self : (sep : ℕ) (p cur : Bytes) → Lacks sep p → split_from sep cur p ≡ (cur ++ p) ∷ []
unfolding split_from
split_from_self sep [] cur h = rw append-nil
split_from_self sep (c ∷ p) cur h =
    ground (arith, split_from_self sep p (cur ++ c ∷ []), append_assoc cur (c ∷ []) p)

-- Splitting a join gives the parts back, if there is one and none holds the separator.
pub split-join :
    (sep : ℕ) (ps : List Bytes) → ps ≢ [] → All (Lacks sep) ps → split sep (join sep ps) ≡ ps
unfolding join split
split-join sep [] h _ = absurd (h refl)
split-join sep (p ∷ []) _ (hp, _) = split_from_self sep p [] hp
split-join sep (p ∷ q ∷ ps) _ (hp, h) =
    rw (split_from-append sep p [] (join sep (q ∷ ps)) hp)
      (ap (λ l. p ∷ l) (split-join sep (q ∷ ps) (cc) h))

has_prefix-append : (p s : Bytes) → has_prefix (p ++ s) p ≡ true
unfolding has_prefix
has_prefix-append [] s = refl
has_prefix-append (c ∷ p) s = ground (arith, has_prefix-append p s)

-- The prefix is cut off exactly.
pub trim_prefix-append :
    (p s : Bytes) → (has_prefix (p ++ s) p ≡ true) × (trim_prefix (p ++ s) p ≡ s)
unfolding trim_prefix
trim_prefix-append p s =
    (has_prefix-append p s, rw (has_prefix-append p s) (drop-length-append p s))

-- A text without itself is empty.
pub trim_prefix_self : (p : Bytes) → (has_prefix p p ≡ true) × (trim_prefix p p ≡ [])
trim_prefix_self p =
    let (starts, rest) = trim_prefix-append p [] in (rw append-nil at starts, rw append-nil at rest)

has_prefix-drop : (s p : Bytes) → has_prefix s p ≡ true → s ≡ p ++ drop (length p) s
unfolding has_prefix
has_prefix-drop s [] h = refl
has_prefix-drop [] (b ∷ p) h = ground arith
has_prefix-drop (c ∷ s) (b ∷ p) h = ground (arith, has_prefix-drop s p)

-- A prefix that is found stands in front of what is left.
pub has_prefix_sound : (s p : Bytes) → has_prefix s p ≡ true → s ≡ p ++ trim_prefix s p
unfolding trim_prefix
has_prefix_sound s p h = rw h (has_prefix-drop s p h)

split_from-first :
    (sep : ℕ) (cur s : Bytes)
    → (t : Bytes) × (rest : List Bytes) × (split_from sep cur s ≡ (cur ++ t) ∷ rest)
unfolding split_from
split_from-first sep cur [] = ([], [], rw append-nil refl)
split_from-first sep cur (a ∷ s) = elim (Bool-cases (a == sep)) [
  | inl e ↦ ([], split_from sep [] s, rw (split_from, e, append-nil) refl)
  | inr e ↦
      let (t, rest, q) = split_from-first sep (cur ++ a ∷ []) s in
      (a ∷ t, rest, rw (split_from, e) (q ∙ ap (λ l. l ∷ rest) (append_assoc cur (a ∷ []) t)))
]

-- The first part begins with the first byte, unless that is the separator.
pub split-first :
    (sep c : ℕ) (s : Bytes)
    → c ≢ sep
    → (t : Bytes) × (rest : List Bytes) × (split sep (c ∷ s) ≡ (c ∷ t) ∷ rest)
unfolding split split_from
split-first sep c s h =
    let (t, rest, q) = split_from-first sep (c ∷ []) s in (t, rest, ground (arith, q))

-- A separator in front gives an empty part in front.
pub split-sep : (sep : ℕ) (s : Bytes) → split sep (sep ∷ s) ≡ [] ∷ split sep s
unfolding split split_from
split-sep sep s = ground (arith, ==_iff sep sep)
