-- ===== src/Fs/Tree/Follow.antt =====
-- On walking the paths of fs/rootfs.go below the mount point.
use jdwpfs.Base.{
  ℕ, List, [], ◌∷◌, ◌++◌, All, Bool, ltb, ◌&&◌, true, ◌≡◌, ◌≢◌, refl, sym, ap, arith, Bytes, codes,
  text_eq, append_assoc,
}
use jdwpfs.Go.Decimal.{format_uint}
use jdwpfs.Go.Decimal.RoundTrip.{IsDigit, format_uint-IsDigit, format_uint-ne-nil}
use jdwpfs.Go.Split.{join, split-join, trim_prefix-append, Lacks}
use jdwpfs.Go.Filepath.Clean.{IsName}
use jdwpfs.Fs.Root.{AddedChild}
use jdwpfs.Fs.Tree.{View, root, walk, follow}

-- All bytes are letters, digits or others behind the slash.
unfoldable pub behind_slash : Bytes → Bool
behind_slash [] = true
behind_slash (c ∷ s) = ltb b'/' c && behind_slash s

behind_slash-Lacks : (s : Bytes) → behind_slash s ≡ true → Lacks b'/' s
unfolding behind_slash
behind_slash-Lacks [] h = tt
behind_slash-Lacks (c ∷ s) h = (λ e. ground arith, behind_slash-Lacks s (ground arith))

pub behind_slash-IsName : (c : ℕ) (s : Bytes) → behind_slash (c ∷ s) ≡ true → IsName (c ∷ s)
unfolding behind_slash text_eq
behind_slash-IsName c s h = record {
  lacks_slash = behind_slash-Lacks (c ∷ s) h;
  not_empty = refl;
  not_dot = ground arith;
  not_dots = ground arith;
}

digits_behind_slash : (s : Bytes) → All IsDigit s → behind_slash s ≡ true
unfolding behind_slash
digits_behind_slash [] h = refl
digits_behind_slash (c ∷ s) ((lo, hi), h) = ground (arith, digits_behind_slash s h)

digits-IsName : (s : Bytes) → s ≢ [] → All IsDigit s → IsName s
digits-IsName [] n h = absurd (n refl)
digits-IsName (c ∷ s) n h = behind_slash-IsName c s (digits_behind_slash (c ∷ s) h)

pub format_uint-IsName : (n : ℕ) → IsName (format_uint n)
format_uint-IsName n = digits-IsName (format_uint n) (format_uint-ne-nil n) (format_uint-IsDigit n)

pub follow-join :
    (v : View) (children : List AddedChild) (mountpoint q : Bytes) (qs : List Bytes)
    → All (Lacks b'/') (q ∷ qs)
    → follow v children mountpoint (mountpoint ++ b'/' ∷ join b'/' (q ∷ qs))
      ≡ walk v children root (q ∷ qs)
unfolding follow
follow-join v children mountpoint q qs h =
    let path-eq : mountpoint ++ b'/' ∷ join b'/' (q ∷ qs)
        ≡ (mountpoint ++ codes "/") ++ join b'/' (q ∷ qs) =
      sym (append_assoc mountpoint (codes "/") (join b'/' (q ∷ qs))) in
    let cut = trim_prefix-append (mountpoint ++ codes "/") (join b'/' (q ∷ qs)) in
    rw (path-eq, cut.0, cut.1) (ap (walk v children root) (split-join b'/' (q ∷ qs) (cc) h))
