-- ===== src/Go/Decimal.antt =====
-- `strconv.FormatUint(n, 10)` and `strconv.ParseUint(s, 10, 64)`.
pub mod RoundTrip
pub mod Bounds
use jdwpfs.Base.{
  ℕ, zero, suc, ◌+◌, ◌-◌, ◌*◌, ◌/◌, ◌%◌, ◌^◌, [], ◌∷◌, ◌++◌, Option, none, some, ◌≡◌, refl, ◌||◌,
  Bytes, codes, ltb, if◌then◌else◌,
}

abbrev pub max_u64 : ℕ
max_u64 = 2 ^ 64 - 1

-- The digits of `n`, most significant first. Each round drops a digit, so `n + 1` rounds are
-- enough.
unfoldable pub digits : ℕ → ℕ → Bytes
digits zero n = []
digits (suc f) n =
    let front = digits f (n / 10) in
    if ltb n 10 then (b'0' + n) ∷ [] else front ++ (b'0' + n % 10) ∷ []

unfoldable pub format_uint : ℕ → Bytes
unfolding digits
format_uint n = digits (suc n) n

-- A byte that is no digit is a syntax error, and a value above 2^64 - 1 a range error.
unfoldable pub scan_uint : ℕ → Bytes → Option ℕ
scan_uint n [] = some n
scan_uint n (c ∷ s) =
    let m = n * 10 + (c - b'0') in
    let rest = scan_uint m s in
    if ltb c b'0' || ltb b'9' c then none else if ltb max_u64 m then none else rest

-- `none` is an error.
unfoldable pub parse_uint : Bytes → Option ℕ
unfolding scan_uint
parse_uint [] = none
parse_uint (c ∷ s) = scan_uint 0 (c ∷ s)

format_uint-max : format_uint max_u64 ≡ codes "18446744073709551615"
unfolding format_uint
format_uint-max = refl

parse_uint-over : parse_uint (codes "18446744073709551616") ≡ none
unfolding parse_uint
parse_uint-over = refl
