-- ===== src/Go/Decimal/Bounds.antt =====
-- On the texts that `strconv.ParseUint(s, 10, 64)` accepts.
use jdwpfs.Base.{
  ℕ, ◌+◌, ◌-◌, ◌*◌, ◌≤◌, [], ◌∷◌, All, some, ◌||◌, ◌≡◌, ◌≢◌, ◌↔◌, refl, ap, ◌∙◌, arith, Bytes, ltb,
  Bool-cases, inl, inr,
}
use jdwpfs.Go.Decimal.{max_u64, scan_uint, parse_uint}
use jdwpfs.Go.Decimal.RoundTrip.{IsDigit}

-- The number that digits stand for, behind those of `n`.
abbrev pub value : ℕ → Bytes → ℕ
value n [] = n
value n (c ∷ s) = value (n * 10 + (c - b'0')) s

-- A text of digits only, at least one, whose number fits 64 bits.
abbrev pub Numeral : Bytes → ℕ → Type 0
Numeral s n = (s ≢ []) × All IsDigit s × (value 0 s ≡ n) × (n ≤ max_u64)

value-grows : (n : ℕ) (s : Bytes) → n ≤ value n s
value-grows n [] = omega arith
value-grows n (c ∷ s) = omega (arith, value-grows (n * 10 + (c - b'0')) s)

scan_uint-value :
    (s : Bytes) (n : ℕ) → All IsDigit s → value n s ≤ max_u64 → scan_uint n s ≡ some (value n s)
unfolding scan_uint
scan_uint-value [] n h b = refl
scan_uint-value (c ∷ s) n ((lo, hi), h) b =
    let m = n * 10 + (c - b'0') in ground (arith, value-grows m s, scan_uint-value s m h b)

scan_uint-some :
    (s : Bytes) (n r : ℕ)
    → n ≤ max_u64
    → scan_uint n s ≡ some r
    → All IsDigit s × (value n s ≡ r) × (r ≤ max_u64)
unfolding scan_uint
scan_uint-some [] n r b q = ground arith
scan_uint-some (c ∷ s) n r b q =
    let m = n * 10 + (c - b'0') in
    elim (Bool-cases (ltb c b'0' || ltb b'9' c)) [
      | inl e ↦ ground arith
      | inr e ↦ elim (Bool-cases (ltb max_u64 m)) [
        | inl e' ↦ ground arith
        | inr e' ↦
            let (h, v, fits) = scan_uint-some s m r (ground arith) (ground arith) in
            (((ground arith, ground arith), h), v, fits)
      ]
    ]

pub parse_uint-Numeral : (s : Bytes) (n : ℕ) → (parse_uint s ≡ some n) ↔ Numeral s n
unfolding parse_uint
parse_uint-Numeral [] n = ((λ q. cc), (λ h. absurd (h.0 refl)))
parse_uint-Numeral (c ∷ s) n = (
  (λ q. let (h, v, fits) = scan_uint-some (c ∷ s) 0 n (omega arith) q in ((λ e. cc), h, v, fits)),
  (λ (_, h, v, fits). scan_uint-value (c ∷ s) 0 h (omega (arith, v, fits)) ∙ ap some v),
)
