-- ===== src/Fs/ClassInfo/Info.antt =====
-- On the texts of the methods and of the fields of a class, of fs/class_info.go.
use mathlib.Core.Path.{subst}
use mathlib.Core.Logic.{∥∥₁_elim}
use mathlib.Core.List.Perm
use mathlib.Core.List.{Perm, Mem, Memᴰ, mem-cons_self, mem-cons_of_mem}
use jdwpfs.Base.{
  Bool, List, [], ◌∷◌, ◌++◌, ◌≢◌, map, All, All-append, some, ◌≡◌, refl, sym, ap, ◌∙◌, arith, Bytes,
  codes, text_eq, append_assoc, append-nil,
}
use jdwpfs.Go.Decimal.{format_uint}
use jdwpfs.Go.Decimal.RoundTrip.{IsDigit, format_uint-IsDigit}
use jdwpfs.Go.Split.{split, join, split-join, Lacks}
use jdwpfs.Fs.Node.{Reply, reply, Mode, regular, mem_regular_file}
use jdwpfs.Fs.Debuggee.{Debuggee, Member}
use jdwpfs.Fs.ClassInfo.Order.{
  Ascending, method_less-IsOrder, field_less-IsOrder, method_less-Ascending, field_less-Ascending,
}
use jdwpfs.Fs.ClassInfo.{
  method_less, field_less, IsOrder, IsSorted, Sorting, info_text, info_file, Child, text_file,
  JdwpClassInfoDir, look_up,
}
use jdwpfs.Fs.ClassInfo.Order.{DistinctIds, DistinctIds-Identified, Ascending-unique}

-- What one member's line shows, without its line feed.
abbrev pub line : Member → Bytes
line m = format_uint m.id ++ codes "\t" ++ m.name ++ codes "\t" ++ m.signature

abbrev body : List Member → Bytes
body [] = []
body (m ∷ ms) = line m ++ b'\n' ∷ body ms

abbrev pub lines : List Member → List Bytes
lines ms = map line ms ++ [] ∷ []

info_text-body : (ms : List Member) (text : Bytes) → info_text text ms ≡ text ++ body ms
unfolding info_text
info_text-body [] text = rw append-nil refl
info_text-body (m ∷ ms) text = info_text-body ms _ ∙ (simp append_assoc)

join-lines : (ms : List Member) → join b'\n' (lines ms) ≡ body ms
unfolding join
join-lines [] = refl
join-lines (m ∷ []) = refl
join-lines (m ∷ n ∷ ms) = ap (λ l. line m ++ b'\n' ∷ l) (join-lines (n ∷ ms))

-- The name and the signature hold no line feed.
abbrev pub IsPlain : Member → Type 0
IsPlain m = Lacks b'\n' m.name × Lacks b'\n' m.signature

digits-Lacks : (s : Bytes) → All IsDigit s → Lacks b'\n' s
digits-Lacks [] h = tt
digits-Lacks (c ∷ s) ((lo, hi), h) = (λ e. omega (arith, lo, e), digits-Lacks s h)

line-Lacks : (m : Member) → IsPlain m → Lacks b'\n' (line m)
line-Lacks m (n, s) =
    let tab : Lacks b'\n' (codes "\t") = (λ e. omega (arith, e), tt) in
    join2 _ m.signature
      (join2 _ (codes "\t")
        (join2 _ m.name
          (join2 (format_uint m.id) (codes "\t") (digits-Lacks _ (format_uint-IsDigit m.id)) tab) n)
        tab)
      s
  where
    join2 : (xs ys : Bytes) → Lacks b'\n' xs → Lacks b'\n' ys → Lacks b'\n' (xs ++ ys)
    join2 = All-append (λ c. c ≢ b'\n')

lines-Lacks : (ms : List Member) → All IsPlain ms → All (Lacks b'\n') (lines ms)
lines-Lacks [] h = (tt, tt)
lines-Lacks (m ∷ ms) (hm, h) = (line-Lacks m hm, lines-Lacks ms h)

-- The reply is a file with one line for each of the members, by ascending identifiers.
abbrev pub ShowsInfo : Reply (Mode × Child) → List Member → Type 0
ShowsInfo r ms =
    (text : Bytes) × (sorted : List Member) × (r
      ≡ reply (regular, text_file (mem_regular_file text)))
    × (split b'\n' text ≡ lines sorted)
    × Perm sorted ms
    × Ascending sorted

Lacks-prop : (s : Bytes) → IsProp (Lacks b'\n' s)
Lacks-prop [] = hlevel
Lacks-prop (c ∷ s) = hlevel (Lacks-prop s)

IsPlain-member : (m : Member) {ms : List Member} → Memᴰ m ms → All IsPlain ms → IsPlain m
IsPlain-member m (Memᴰ.head e) (h, _) = subst IsPlain (sym e) h
IsPlain-member m (Memᴰ.tail d) (_, h) = IsPlain-member m d h

All-IsPlain : (ms : List Member) → ((m : Member) → Mem m ms → IsPlain m) → All IsPlain ms
All-IsPlain [] h = tt
All-IsPlain (m ∷ ms) h =
    (h m mem-cons_self, All-IsPlain ms (λ n n_in. h n (mem-cons_of_mem m n_in)))

perm-IsPlain : {ms ns : List Member} → Perm ms ns → All IsPlain ns → All IsPlain ms
perm-IsPlain {ms} p h = All-IsPlain ms (λ m m_in.
    ∥∥₁_elim ((Perm.mem_iff p).0 m_in) (hlevel (Lacks-prop m.name, Lacks-prop m.signature))
      (λ d. IsPlain-member m d h))

split-info_text : (ms : List Member) → All IsPlain ms → split b'\n' (info_text [] ms) ≡ lines ms
split-info_text ms h =
    ap (split b'\n') (info_text-body ms [] ∙ sym (join-lines ms))
    ∙ split-join b'\n' (lines ms) (lines-ne-nil ms) (lines-Lacks ms h)
  where
    lines-ne-nil : (ms : List Member) → lines ms ≢ []
    lines-ne-nil [] e = cc
    lines-ne-nil (m ∷ ms) e = cc

-- The file that lists the members, sorted by the program's `Less`.
module _ (s : Sorting) (lt : Member → Member → Bool) (order : IsOrder lt)
    (ascends : (ms : List Member) → IsSorted lt ms → Ascending ms) where
  sort-Ascending : (ms : List Member) → Ascending (s.sort lt ms)
  sort-Ascending ms = ascends (s.sort lt ms) (s.sort-IsSorted lt order ms)

  info_file-ShowsInfo :
      (ms : List Member) → All IsPlain ms → ShowsInfo (info_file s lt (some ms)) ms
  unfolding info_file
  info_file-ShowsInfo ms h = (
    _,
    _,
    refl,
    split-info_text (s.sort lt ms) (perm-IsPlain (s.sort-perm lt ms) h),
    s.sort-perm lt ms,
    sort-Ascending ms,
  )

  sort_unique :
      (s' : Sorting) (ms ns : List Member)
      → Perm ms ns
      → DistinctIds ms
      → s.sort lt ms ≡ s'.sort lt ns
  sort_unique s' ms ns p h =
      Ascending-unique (s.sort lt ms) (s'.sort lt ns)
        (Perm.trans (s.sort-perm lt ms) (Perm.trans p (Perm.symm (s'.sort-perm lt ns))))
        (λ m n m_in n_in.
          DistinctIds-Identified ms h m n ((Perm.mem_iff (s.sort-perm lt ms)).0 m_in)
            ((Perm.mem_iff (s.sort-perm lt ms)).0 n_in))
        (sort-Ascending ms) (ascends (s'.sort lt ns) (s'.sort-IsSorted lt order ns))

module _ (d : JdwpClassInfoDir) where
  -- If the debugged process lists the methods and the fields of a class, and no name or
  -- signature holds a line feed, then the files `methodInfo` and `fieldInfo` have one line for
  -- each method or field, with its identifier, name and signature, by ascending identifiers,
  -- and nothing behind the last line feed. The sort is only assumed to give a permutation that
  -- is in order for a `Less` that is an order.
  pub look_up-ShowsInfo :
      (s : Sorting) (jvm : Debuggee) {methods fields : List Member}
      → jvm.get_methods d.type_id ≡ some methods
      → jvm.get_fields d.type_id ≡ some fields
      → All IsPlain methods
      → All IsPlain fields
      → ShowsInfo (look_up s jvm d (codes "methodInfo")) methods
        × ShowsInfo (look_up s jvm d (codes "fieldInfo")) fields
  unfolding look_up text_eq
  look_up-ShowsInfo s jvm {methods} {fields} qm qf pm pf = (
    rw qm (info_file-ShowsInfo s method_less method_less-IsOrder method_less-Ascending methods pm),
    rw qf (info_file-ShowsInfo s field_less field_less-IsOrder field_less-Ascending fields pf),
  )

  -- If no two methods and no two fields of a class have the same identifier, the files
  -- `methodInfo` and `fieldInfo` depend neither on the order in which the debugged process
  -- lists the methods and the fields, nor on how the library sorts.
  pub look_up-info_order :
      (s s' : Sorting) (jvm jvm' : Debuggee) {methods methods' fields fields' : List Member}
      → jvm.get_methods d.type_id ≡ some methods
      → jvm'.get_methods d.type_id ≡ some methods'
      → jvm.get_fields d.type_id ≡ some fields
      → jvm'.get_fields d.type_id ≡ some fields'
      → Perm methods methods'
      → Perm fields fields'
      → DistinctIds methods
      → DistinctIds fields
      → (look_up s jvm d (codes "methodInfo") ≡ look_up s' jvm' d (codes "methodInfo"))
        × (look_up s jvm d (codes "fieldInfo") ≡ look_up s' jvm' d (codes "fieldInfo"))
  unfolding look_up info_file text_eq
  look_up-info_order s s' jvm jvm' {methods = ms} {methods' = ms'} {fields = fs} {fields' = fs'} qm
        qm' qf qf' pm pf hm hf =
      (
        rw
            (
              qm,
              qm',
              sort_unique s method_less method_less-IsOrder method_less-Ascending s' ms ms' pm hm,
            )
            refl,
        rw
            (
              qf,
              qf',
              sort_unique s field_less field_less-IsOrder field_less-Ascending s' fs fs' pf hf,
            )
            refl,
      )
