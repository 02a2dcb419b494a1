-- ===== src/Go/Space.antt =====
-- `strings.TrimSpace`, on the UTF-8 bytes of a text.
use mathlib.Core.List.{reverse}
use jdwpfs.Base.{ℕ, [], ◌∷◌, ◌≡◌, refl, Bool, ◌&&◌, ◌||◌, Bytes, codes, ◌==◌, leb, if◌then◌else◌}

-- The ASCII white space: tab, line feed, vertical tab, form feed, carriage return, blank.
space_1 : ℕ → Bool
space_1 a = (leb 9 a && leb a 13) || a == 32

-- U+0085 and U+00A0.
space_2 : ℕ → ℕ → Bool
space_2 a b = a == 0xc2 && (b == 0x85 || b == 0xa0)

-- U+1680, U+2000 to U+200A, U+2028, U+2029, U+202F, U+205F, U+3000.
space_3 : ℕ → ℕ → ℕ → Bool
space_3 a b c =
    (a == 0xe1 && b == 0x9a && c == 0x80)
    || (a == 0xe2
        && b == 0x80
        && ((leb 0x80 c && leb c 0x8a) || c == 0xa8 || c == 0xa9 || c == 0xaf))
    || (a == 0xe2 && b == 0x81 && c == 0x9f)
    || (a == 0xe3 && b == 0x80 && c == 0x80)

-- Drops white space from the front, by tests for a character of two and of three bytes.
trim_by : (ℕ → ℕ → Bool) → (ℕ → ℕ → ℕ → Bool) → Bytes → Bytes
unfolding space_1
trim_by two three [] = []
trim_by two three (a ∷ []) = if space_1 a then [] else a ∷ []
trim_by two three (a ∷ b ∷ []) =
    let rest = trim_by two three (b ∷ []) in
    if space_1 a then rest else if two a b then [] else a ∷ b ∷ []
trim_by two three (a ∷ b ∷ c ∷ s) =
    let past_1 = trim_by two three (b ∷ c ∷ s) in
    let past_2 = trim_by two three (c ∷ s) in
    let past_3 = trim_by two three s in
    if space_1 a
    then past_1
    else if two a b
    then past_2
    else if three a b c
    then past_3
    else a ∷ b ∷ c ∷ s

unfoldable pub trim_space : Bytes → Bytes
unfolding trim_by space_2 space_3
trim_space s =
    reverse
      (trim_by (λ b a. space_2 a b) (λ c b a. space_3 a b c) (reverse (trim_by space_2 space_3 s)))

trimmed_line : trim_space (codes " 1 0\n") ≡ codes "1 0"
unfolding trim_space
trimmed_line = refl

trimmed_nbsp : trim_space (0xc2 ∷ 0xa0 ∷ b'1' ∷ 0xe2 ∷ 0x80 ∷ 0x83 ∷ []) ≡ b'1' ∷ []
unfolding trim_space
trimmed_nbsp = refl
