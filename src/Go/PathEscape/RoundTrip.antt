-- ===== src/Go/PathEscape/RoundTrip.antt =====
-- On `url.PathEscape` and `url.PathUnescape`.
use jdwpfs.Base.{
  ℕ, ap, ◌∙◌, ◌<◌, ◌/◌, ◌%◌, ◌*◌, ◌+◌, [], ◌∷◌, true, false, some, ◌≡◌, refl, arith, Bytes, All,
  Bool-cases, inl, inr, ◌==◌,
}
use jdwpfs.Go.PathEscape.{
  should_escape, upper_hex, path_escape, is_hex, unhex, prepend, path_unescape,
}

hex_digit : (d : ℕ) → d < 16 → (is_hex (upper_hex d) ≡ true) × (unhex (upper_hex d) ≡ d)
unfolding upper_hex is_hex unhex
hex_digit d h = ground arith

unescape_plain :
    (c : ℕ) (s : Bytes) → (c == b'%') ≡ false → path_unescape (c ∷ s) ≡ prepend c (path_unescape s)
unfolding path_unescape
unescape_plain c [] h = ground arith
unescape_plain c (a ∷ []) h = ground arith
unescape_plain c (a ∷ b ∷ s) h = ground arith

unescape_pair :
    (a b : ℕ) (s : Bytes)
    → is_hex a ≡ true
    → is_hex b ≡ true
    → path_unescape (b'%' ∷ a ∷ b ∷ s) ≡ prepend (unhex a * 16 + unhex b) (path_unescape s)
unfolding path_unescape
unescape_pair a b s ha hb = ground arith

unescape_hex :
    (c : ℕ) (s : Bytes)
    → c < 256
    → path_unescape (b'%' ∷ upper_hex (c / 16) ∷ upper_hex (c % 16) ∷ s)
      ≡ prepend c (path_unescape s)
unescape_hex c s h =
    let hi = hex_digit (c / 16) (omega arith) in
    let lo = hex_digit (c % 16) (omega arith) in
    let value : unhex (upper_hex (c / 16)) * 16 + unhex (upper_hex (c % 16)) ≡ c =
      omega (arith, hi.1, lo.1) in
    unescape_pair _ _ s hi.0 lo.0 ∙ ap (λ n. prepend n (path_unescape s)) value

not_percent : (c : ℕ) → should_escape c ≡ false → (c == b'%') ≡ false
unfolding should_escape
not_percent c h = ground arith

pub path_unescape-path_escape :
    (s : Bytes) → All (λ c. c < 256) s → path_unescape (path_escape s) ≡ some s
unfolding path_escape path_unescape prepend
path_unescape-path_escape [] h = refl
path_unescape-path_escape (c ∷ s) (hc, h) = elim (Bool-cases (should_escape c)) [
  | inl e ↦ ground (arith, unescape_hex c (path_escape s) hc, path_unescape-path_escape s h)
  | inr e ↦
      ground
        (arith, unescape_plain c (path_escape s) (not_percent c e), path_unescape-path_escape s h)
]
