-- ===== src/Go/Filepath.antt =====
-- `filepath.Clean` and `filepath.Join`, for the separator `/`.
pub mod Clean
use mathlib.Core.List.{reverse}
use jdwpfs.Base.{
  ℕ, List, [], ◌∷◌, ◌++◌, Bool, true, false, ◌||◌, ◌≡◌, refl, Bytes, codes, text_eq, ◌==◌,
  if◌then◌else◌,
}
use jdwpfs.Go.Split.{split, join}

-- A component behind the kept ones, the last of which comes first. `..` takes the last one back,
-- unless that is `..` itself; at the root it is dropped.
push : Bool → List Bytes → Bytes → List Bytes
push rooted [] c =
    if text_eq c [] || text_eq c (codes ".")
    then []
    else if text_eq c (codes "..")
    then (if rooted then [] else c ∷ [])
    else c ∷ []
push rooted (top ∷ kept) c =
    if text_eq c [] || text_eq c (codes ".")
    then top ∷ kept
    else if text_eq c (codes "..")
    then (if text_eq top (codes "..") then c ∷ top ∷ kept else kept)
    else c ∷ top ∷ kept

push_all : Bool → List Bytes → List Bytes → List Bytes
push_all rooted kept [] = kept
push_all rooted kept (c ∷ cs) = push_all rooted (push rooted kept c) cs

is_rooted : Bytes → Bool
is_rooted [] = false
is_rooted (c ∷ s) = c == b'/'

or_dot : Bytes → Bytes
or_dot [] = codes "."
or_dot (c ∷ s) = c ∷ s

unfoldable pub clean : Bytes → Bytes
unfolding push push_all is_rooted or_dot
clean path = or_dot (
    (if is_rooted path then codes "/" else [])
    ++ join b'/' (reverse (push_all (is_rooted path) [] (split b'/' path))))

-- `Join` leaves empty elements out at the front, and has no result if there are only such.
unfoldable pub join_path : List Bytes → Bytes
unfolding clean
join_path [] = []
join_path ([] ∷ elements) = join_path elements
join_path ((c ∷ s) ∷ elements) = clean (join b'/' ((c ∷ s) ∷ elements))

joined : join_path (codes "/mnt/x/" ∷ codes "threads" ∷ codes "12" ∷ []) ≡ codes "/mnt/x/threads/12"
unfolding join_path join split text_eq
joined = refl

cleaned : clean (codes "a/../../b/./c//..") ≡ codes "../b"
unfolding clean join split text_eq
cleaned = refl
