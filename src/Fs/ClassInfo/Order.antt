-- ===== src/Fs/ClassInfo/Order.antt =====
-- On lists of methods or fields by ascending identifiers, of fs/class_info.go.
use mathlib.Core.Path.{subst}
use mathlib.Core.Logic.{∥∥₁_elim}
use mathlib.Core.List.Perm
use mathlib.Core.List.{Perm, Mem, Memᴰ, mem-cons_self, mem-cons_of_mem}
use native.Mathlib.Bridge.{le_prop}
use jdwpfs.Base.{Bool, false, ℕ, List, [], ◌∷◌, ◌≤◌, ◌≢◌, All, ◌≡◌, sym, ap, ◌∙◌, arith}
use jdwpfs.Fs.Debuggee.{Member}
use jdwpfs.Fs.ClassInfo.{method_less, field_less, IsOrder, IsSorted}

-- By ascending identifiers.
abbrev pub Ascending : List Member → Type 0
Ascending [] = Unit {0}
Ascending (m ∷ ms) = All (λ n. m.id ≤ n.id) ms × Ascending ms

pub method_less-IsOrder : IsOrder method_less
unfolding method_less
method_less-IsOrder = record {
  irreflexive = λ m. ground arith;
  transitive = λ k m n p q. ground arith;
  not_transitive = λ k m n p q. ground arith;
}

pub field_less-IsOrder : IsOrder field_less
unfolding field_less
field_less-IsOrder = record {
  irreflexive = λ m. ground arith;
  transitive = λ k m n p q. ground arith;
  not_transitive = λ k m n p q. ground arith;
}

module _ (lt : Member → Member → Bool) (by_id : (m n : Member) → lt n m ≡ false → m.id ≤ n.id) where
  All-by_id :
      (m : Member) (ns : List Member) → All (λ n. lt n m ≡ false) ns → All (λ n. m.id ≤ n.id) ns
  All-by_id m [] h = tt
  All-by_id m (n ∷ ns) (hn, h) = (by_id m n hn, All-by_id m ns h)

  IsSorted-Ascending : (ms : List Member) → IsSorted lt ms → Ascending ms
  IsSorted-Ascending [] h = tt
  IsSorted-Ascending (m ∷ ms) (hm, h) = (All-by_id m ms hm, IsSorted-Ascending ms h)

pub method_less-Ascending : (ms : List Member) → IsSorted method_less ms → Ascending ms
unfolding method_less
method_less-Ascending = IsSorted-Ascending method_less (λ m n h. ground arith)

pub field_less-Ascending : (ms : List Member) → IsSorted field_less ms → Ascending ms
unfolding field_less
field_less-Ascending = IsSorted-Ascending field_less (λ m n h. ground arith)

-- Members with the same identifier are the same.
abbrev pub Identified : List Member → Type 0
Identified ms = (m n : Member) → Mem m ms → Mem n ms → m.id ≡ n.id → m ≡ n

abbrev pub DistinctIds : List Member → Type 0
DistinctIds [] = Unit {0}
DistinctIds (m ∷ ms) = All (λ n. n.id ≢ m.id) ms × DistinctIds ms

Member-set : IsSet Member
Member-set = hlevel

absent : (id : ℕ) (n : Member) {ms : List Member} → Memᴰ n ms → All (λ k. k.id ≢ id) ms → n.id ≢ id
absent id n (Memᴰ.head e) (h, _) q = h (ap (λ (k : Member). k.id) (sym e) ∙ q)
absent id n (Memᴰ.tail d) (_, h) q = absent id n d h q

same_member :
    (m n : Member) {ms : List Member} → Memᴰ m ms → Memᴰ n ms → DistinctIds ms → m.id ≡ n.id → m ≡ n
same_member m n (Memᴰ.head e) (Memᴰ.head e') h q = e ∙ sym e'
same_member m n (Memᴰ.head e) (Memᴰ.tail d) (h, _) q =
    absurd (absent _ n d h (sym q ∙ ap (λ (k : Member). k.id) e))
same_member m n (Memᴰ.tail d) (Memᴰ.head e) (h, _) q =
    absurd (absent _ m d h (q ∙ ap (λ (k : Member). k.id) e))
same_member m n (Memᴰ.tail d) (Memᴰ.tail d') (_, h) q = same_member m n d d' h q

pub DistinctIds-Identified : (ms : List Member) → DistinctIds ms → Identified ms
DistinctIds-Identified ms h m n m_in n_in q =
    ∥∥₁_elim m_in (Member-set m n)
      (λ d. ∥∥₁_elim n_in (Member-set m n) (λ d'. same_member m n d d' h q))

All-le : (id : ℕ) (n : Member) {ms : List Member} → Memᴰ n ms → All (λ k. id ≤ k.id) ms → id ≤ n.id
All-le id n (Memᴰ.head e) (hm, h) = subst (λ (k : Member). id ≤ k.id) (sym e) hm
All-le id n (Memᴰ.tail d) (hm, h) = All-le id n d h

first_le :
    (m : Member) (ms : List Member) (n : Member) → Ascending (m ∷ ms) → Mem n (m ∷ ms) → m.id ≤ n.id
first_le m ms n (lo, _) mem =
    ∥∥₁_elim mem le_prop (λ d. All-le m.id n {ms = m ∷ ms} d (omega arith, lo))

first-eq :
    (m n : Member) (ms ns : List Member)
    → Perm (m ∷ ms) (n ∷ ns)
    → Identified (m ∷ ms)
    → Ascending (m ∷ ms)
    → Ascending (n ∷ ns)
    → m ≡ n
first-eq m n ms ns p h a b =
    let n_in : Mem n (m ∷ ms) = (Perm.mem_iff p).1 mem-cons_self in
    let m_in : Mem m (n ∷ ns) = (Perm.mem_iff p).0 mem-cons_self in
    let le = first_le m ms n a n_in in
    let ge = first_le n ns m b m_in in h m n mem-cons_self n_in (omega (arith, le, ge))

pub Ascending-unique :
    (ms ns : List Member) → Perm ms ns → Identified ms → Ascending ms → Ascending ns → ms ≡ ns
Ascending-unique [] ns p h a b = Perm.nil-eq p
Ascending-unique (m ∷ ms) [] p h a b = Perm.eq-nil p
Ascending-unique (m ∷ ms) (n ∷ ns) p h a b =
    let same = first-eq m n ms ns p h a b in
    let rest =
      Ascending-unique ms ns
        (Perm.cons_inv (subst (λ (k : Member). Perm (m ∷ ms) (k ∷ ns)) (sym same) p))
        (λ k l k_in l_in. h k l (mem-cons_of_mem m k_in) (mem-cons_of_mem m l_in)) a.1 b.1 in
    ap (λ k. k ∷ ms) same ∙ ap (λ l. n ∷ l) rest
