-- ===== src/Go/Filepath/Clean.antt =====
-- On `filepath.Clean` and `filepath.Join` for an absolute path that is clean already.
use mathlib.Core.List.{reverse, reverse_aux, reverse-reverse}
use jdwpfs.Base.{
  List, [], ◌∷◌, ◌++◌, All, All-append, true, false, ◌≡◌, refl, sym, ap, ◌∙◌, Bytes, codes, text_eq,
  append_assoc,
}
use jdwpfs.Go.Split.{split, join, split-join, Lacks}
use jdwpfs.Go.Filepath.{clean, push, push_all, is_rooted, or_dot, join_path}

-- A name in a path that `Clean` keeps.
pub record IsName (c : Bytes) : Type 0 where
  pub lacks_slash : Lacks b'/' c
  pub not_empty : text_eq c [] ≡ false
  pub not_dot : text_eq c (codes ".") ≡ false
  pub not_dots : text_eq c (codes "..") ≡ false

-- The names of an absolute path, which is not the root.
pub record IsAbsolute (path : Bytes) : Type 0 where
  pub first : Bytes
  pub names : List Bytes
  pub path-eq : path ≡ b'/' ∷ join b'/' (first ∷ names)
  pub are_names : All IsName (first ∷ names)

push_name : (kept : List Bytes) (c : Bytes) → IsName c → push true kept c ≡ c ∷ kept
unfolding push
push_name [] c h = rw (h.not_empty, h.not_dot, h.not_dots) refl
push_name (top ∷ kept) c h = rw (h.not_empty, h.not_dot, h.not_dots) refl

push_all_names :
    (cs kept : List Bytes) → All IsName cs → push_all true kept cs ≡ reverse_aux cs kept
unfolding push_all
push_all_names [] kept h = refl
push_all_names (c ∷ cs) kept (hc, h) = rw (push_name kept c hc) (push_all_names cs (c ∷ kept) h)

join-append :
    (p q : Bytes) (ps qs : List Bytes)
    → join b'/' ((p ∷ ps) ++ q ∷ qs) ≡ join b'/' (p ∷ ps) ++ b'/' ∷ join b'/' (q ∷ qs)
unfolding join
join-append p q [] qs = refl
join-append p q (p' ∷ ps) qs =
    ap (λ l. p ++ b'/' ∷ l) (join-append p' q ps qs)
    ∙ sym (append_assoc p (b'/' ∷ join b'/' (p' ∷ ps)) (b'/' ∷ join b'/' (q ∷ qs)))

All-lack : (cs : List Bytes) → All IsName cs → All (Lacks b'/') cs
All-lack [] h = tt
All-lack (c ∷ cs) (hc, h) = (hc.lacks_slash, All-lack cs h)

clean-names :
    (c : Bytes) (cs : List Bytes)
    → All IsName (c ∷ cs)
    → clean (b'/' ∷ join b'/' (c ∷ cs)) ≡ b'/' ∷ join b'/' (c ∷ cs)
unfolding clean or_dot is_rooted push_all push text_eq join
clean-names c cs h =
    let parts : split b'/' (b'/' ∷ join b'/' (c ∷ cs)) ≡ [] ∷ c ∷ cs =
      split-join b'/' ([] ∷ c ∷ cs) (cc) (tt, All-lack (c ∷ cs) h) in
    ap (λ l. b'/' ∷ join b'/' (reverse l))
      (ap (push_all true []) parts ∙ push_all_names (c ∷ cs) [] h)
    ∙ ap (λ l. b'/' ∷ join b'/' l) (reverse-reverse (c ∷ cs))

pub join_path-append :
    (path : Bytes) (q : Bytes) (qs : List Bytes)
    → IsAbsolute path
    → All IsName (q ∷ qs)
    → join_path (path ∷ q ∷ qs) ≡ path ++ b'/' ∷ join b'/' (q ∷ qs)
unfolding join_path join
join_path-append path q qs a h = rw a.path-eq (
    ap (λ p. clean (b'/' ∷ p)) (sym (join-append a.first q a.names qs))
    ∙ clean-names a.first (a.names ++ q ∷ qs)
        (All-append IsName (a.first ∷ a.names) (q ∷ qs) a.are_names h)
    ∙ ap (λ p. b'/' ∷ p) (join-append a.first q a.names qs))
