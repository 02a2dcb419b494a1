-- ===== src/Go/PathEscape.antt =====
-- `url.PathEscape` and `url.PathUnescape`, on bytes.
pub mod RoundTrip
use jdwpfs.Base.{
  ℕ, ◌+◌, ◌-◌, ◌*◌, ◌/◌, ◌%◌, List, [], ◌∷◌, Bool, true, false, not, ◌&&◌, ◌||◌, Option, none, some,
  ◌≡◌, refl, Bytes, codes, ltb, leb, ◌==◌, if◌then◌else◌,
}

-- Letters, digits and `-_.~` are never escaped, `$&+:=@` not within a segment of a path.
unfoldable pub should_escape : ℕ → Bool
should_escape c = not (
    (leb b'a' c && leb c b'z')
    || (leb b'A' c && leb c b'Z')
    || (leb b'0' c && leb c b'9')
    || c == b'-'
    || c == b'_'
    || c == b'.'
    || c == b'~'
    || c == b'$'
    || c == b'&'
    || c == b'+'
    || c == b':'
    || c == b'='
    || c == b'@')

unfoldable pub upper_hex : ℕ → ℕ
upper_hex d = if ltb d 10 then b'0' + d else b'A' + (d - 10)

unfoldable pub path_escape : Bytes → Bytes
unfolding should_escape upper_hex
path_escape [] = []
path_escape (c ∷ s) =
    let rest = path_escape s in
    if should_escape c then b'%' ∷ upper_hex (c / 16) ∷ upper_hex (c % 16) ∷ rest else c ∷ rest

unfoldable pub is_hex : ℕ → Bool
is_hex c = (leb b'0' c && leb c b'9') || (leb b'a' c && leb c b'f') || (leb b'A' c && leb c b'F')

unfoldable pub unhex : ℕ → ℕ
unhex c =
    if leb b'0' c && leb c b'9'
    then c - b'0'
    else if leb b'a' c && leb c b'f'
    then c - b'a' + 10
    else if leb b'A' c && leb c b'F'
    then c - b'A' + 10
    else 0

prepend : ℕ → Option Bytes → Option Bytes
prepend c none = none
prepend c (some s) = some (c ∷ s)

-- `none` is the error for a `%` without two hexadecimal digits.
unfoldable pub path_unescape : Bytes → Option Bytes
unfolding is_hex unhex prepend
path_unescape [] = some []
path_unescape (c ∷ []) = elim (c == b'%') [ true ↦ none | false ↦ some (c ∷ []) ]
path_unescape (c ∷ a ∷ []) = elim (c == b'%') [
  | true ↦ none
  | false ↦ prepend c (path_unescape (a ∷ []))
]
path_unescape (c ∷ a ∷ b ∷ s) = elim (c == b'%') [
  | true ↦ elim (is_hex a && is_hex b) [
    | true ↦ prepend (unhex a * 16 + unhex b) (path_unescape s)
    | false ↦ none
  ]
  | false ↦ prepend c (path_unescape (a ∷ b ∷ s))
]

escape_signature : path_escape (codes "[Ljava/lang/A$1;") ≡ codes "%5BLjava%2Flang%2FA$1%3B"
unfolding path_escape
escape_signature = refl

unescape_bad : path_unescape (codes "a%2") ≡ none
unfolding path_unescape
unescape_bad = refl
