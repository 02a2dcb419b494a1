-- ===== src/Go/Decimal/RoundTrip.antt =====
-- On `strconv.FormatUint` and `strconv.ParseUint`.
use jdwpfs.Base.{
  ℕ, zero, suc, ◌+◌, ◌/◌, ◌%◌, ◌≤◌, ◌<◌, [], ◌∷◌, ◌++◌, some, ◌≡◌, ◌≢◌, refl, ap, sym, ◌∙◌,
  append-nil, arith, Bytes, ltb, All, All-append, Bool-cases, inl, inr, append_assoc,
}
use jdwpfs.Go.Decimal.{max_u64, digits, format_uint, scan_uint, parse_uint}

abbrev pub IsDigit : ℕ → Type 0
IsDigit c = (b'0' ≤ c) × (c ≤ b'9')

-- Reading the digits of `n` is reading on from `n`.
scan_uint-digits :
    (f n : ℕ) (s : Bytes) → n < f → n ≤ max_u64 → scan_uint 0 (digits f n ++ s) ≡ scan_uint n s
unfolding digits scan_uint
scan_uint-digits zero n s h fits = elim h [ ]
scan_uint-digits (suc f) n s h fits = elim (Bool-cases (ltb n 10)) [
  | inl e ↦ rw e (ground arith)
  | inr e ↦
      rw
        (
          e,
          append_assoc (digits f (n / 10)) _ s,
          scan_uint-digits f (n / 10) _ (ground arith) (ground arith),
        )
        (ground arith)
]

digits-IsDigit : (f n : ℕ) → All IsDigit (digits f n)
unfolding digits
digits-IsDigit zero n = tt
digits-IsDigit (suc f) n = elim (Bool-cases (ltb n 10)) [
  | inl e ↦ rw e (ground arith)
  | inr e ↦
      rw e (All-append IsDigit (digits f (n / 10)) _ (digits-IsDigit f (n / 10)) (ground arith))
]

-- A printed number is made of digits.
pub format_uint-IsDigit : (n : ℕ) → All IsDigit (format_uint n)
unfolding format_uint
format_uint-IsDigit n = digits-IsDigit (suc n) n

append-cons-ne-nil : (s : Bytes) (c : ℕ) → s ++ c ∷ [] ≢ []
append-cons-ne-nil [] c = cc
append-cons-ne-nil (d ∷ s) c = cc

pub format_uint-ne-nil : (n : ℕ) → format_uint n ≢ []
unfolding format_uint
format_uint-ne-nil n = ground (arith, append-cons-ne-nil (digits n (n / 10)) (b'0' + n % 10))

parse_uint-scan : (s : Bytes) → s ≢ [] → parse_uint s ≡ scan_uint 0 s
unfolding parse_uint
parse_uint-scan [] h = absurd (h refl)
parse_uint-scan (c ∷ s) h = refl

-- Every uint64 is read back from its decimal print.
pub parse_uint-format_uint : (n : ℕ) → n ≤ max_u64 → parse_uint (format_uint n) ≡ some n
unfolding format_uint
parse_uint-format_uint n h = rw (parse_uint-scan _ (format_uint-ne-nil n)) (
    ap (scan_uint 0) (sym (append-nil (digits (suc n) n)))
    ∙ scan_uint-digits (suc n) n [] (omega arith) h
    ∙ unfold scan_uint in refl)
