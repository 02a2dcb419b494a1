-- ===== src/Tests/Sorting.antt =====
-- A sorting for the tests: by insertion.
use mathlib.Core.List.{Perm}
use mathlib.Core.List.Perm
use jdwpfs.Base.{
  List, [], ◌∷◌, All, Bool, true, false, ◌≡◌, arith, Bool-cases, inl, inr, if◌then◌else◌,
}
use jdwpfs.Fs.Debuggee.{Member}
use jdwpfs.Fs.ClassInfo.{Sorting, IsOrder, IsSorted}

insert : (Member → Member → Bool) → Member → List Member → List Member
insert lt m [] = m ∷ []
insert lt m (n ∷ ns) = let rest = insert lt m ns in if lt n m then n ∷ rest else m ∷ n ∷ ns

unfoldable pub sort : (Member → Member → Bool) → List Member → List Member
unfolding insert
sort lt [] = []
sort lt (m ∷ ms) = insert lt m (sort lt ms)

module _ (lt : Member → Member → Bool) where
  insert-perm : (m : Member) (ns : List Member) → Perm (insert lt m ns) (m ∷ ns)
  unfolding insert
  insert-perm m [] = Perm.refl (m ∷ [])
  insert-perm m (n ∷ ns) = elim (Bool-cases (lt n m)) [
    | inl e ↦ rw e (Perm.trans (Perm.cons n (insert-perm m ns)) (Perm.swap m n ns))
    | inr e ↦ rw e (Perm.refl (m ∷ n ∷ ns))
  ]

  pub sort-perm : (ms : List Member) → Perm (sort lt ms) ms
  unfolding sort
  sort-perm [] = Perm.nil
  sort-perm (m ∷ ms) = Perm.trans (insert-perm m (sort lt ms)) (Perm.cons m (sort-perm ms))

  module _ (order : IsOrder lt) where
    insert-All :
        (k m : Member) (ns : List Member)
        → lt m k ≡ false
        → All (λ n. lt n k ≡ false) ns
        → All (λ n. lt n k ≡ false) (insert lt m ns)
    unfolding insert
    insert-All k m [] hm h = (hm, tt)
    insert-All k m (n ∷ ns) hm (hn, h) = elim (Bool-cases (lt n m)) [
      | inl e ↦ rw e (hn, insert-All k m ns hm h)
      | inr e ↦ rw e (hm, (hn, h))
    ]

    All-not_less :
        (m n : Member) (ns : List Member)
        → lt n m ≡ false
        → All (λ k. lt k n ≡ false) ns
        → All (λ k. lt k m ≡ false) ns
    All-not_less m n [] e h = tt
    All-not_less m n (k ∷ ns) e (hk, h) = (order.not_transitive k n m hk e, All-not_less m n ns e h)

    asymmetric : (m n : Member) → lt n m ≡ true → lt m n ≡ false
    asymmetric m n e = elim (Bool-cases (lt m n)) [
      | inl e' ↦
          let both = order.transitive n m n e e' in let never = order.irreflexive n in ground arith
      | inr e' ↦ e'
    ]

    insert-IsSorted :
        (m : Member) (ns : List Member) → IsSorted lt ns → IsSorted lt (insert lt m ns)
    unfolding insert
    insert-IsSorted m [] h = (tt, tt)
    insert-IsSorted m (n ∷ ns) (lo, h) = elim (Bool-cases (lt n m)) [
      | inl e ↦ rw e (insert-All n m ns (asymmetric m n e) lo, insert-IsSorted m ns h)
      | inr e ↦ rw e ((e, All-not_less m n ns e lo), (lo, h))
    ]

    pub sort-IsSorted : (ms : List Member) → IsSorted lt (sort lt ms)
    unfolding sort
    sort-IsSorted [] = tt
    sort-IsSorted (m ∷ ms) = insert-IsSorted m (sort lt ms) (sort-IsSorted ms)

abbrev pub sorting : Sorting
sorting = record { sort = sort; sort-perm = sort-perm; sort-IsSorted = sort-IsSorted }
