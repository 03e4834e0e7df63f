-- ===== src/Collections/SortedSet.antt =====
-- `BTreeSet` as the strictly ascending list of its elements, which is the order of its iteration.
use Prim.Native.Nat.Ordering.{lt, eq, gt}
use ndn_repo.Base.{◌≡◌, refl, false, not, ◌||◌, ◌&&◌, List, [], ◌∷◌, arith, All, All-imp}
use ndn_repo.Base.Order.{Ord}
use ndn_repo.Collections.Distinct.{contains}
use ndn_repo.Collections.Sort.{Ascending}

abbrev pub BTreeSet {ℓ} : Type ℓ → Type ℓ
BTreeSet K = List K

module _ {ℓ} {K : Type ℓ} ⦃o : Ord K⦄ where
  unfoldable pub insert : K → BTreeSet K → BTreeSet K
  insert x [] = x ∷ []
  insert x (y ∷ ys) =
      let rest = insert x ys in elim (o.cmp x y) [ lt ↦ x ∷ (y ∷ ys) | eq ↦ y ∷ ys | gt ↦ y ∷ rest ]

  unfoldable pub delete : K → BTreeSet K → BTreeSet K
  delete x [] = []
  delete x (y ∷ ys) =
      let rest = delete x ys in elim (o.cmp x y) [ lt ↦ y ∷ ys | eq ↦ ys | gt ↦ y ∷ rest ]

  pub contains-insert :
      (x : K) (ys : BTreeSet K) (a : K) → contains (insert x ys) a ≡ (o.beq x a || contains ys a)
  unfolding contains insert
  contains-insert x [] a = refl
  contains-insert x (y ∷ ys) a = ground (arith, contains-insert x ys a, o.same_of_eq x y)

  All-insert : (P : K → Type 0) (x : K) (ys : BTreeSet K) → P x → All P ys → All P (insert x ys)
  unfolding insert
  All-insert P x [] p h = (p, tt)
  All-insert P x (y ∷ ys) p (q, h) = ground (arith, All-insert P x ys p h)

  All-delete : (P : K → Type 0) (x : K) (ys : BTreeSet K) → All P ys → All P (delete x ys)
  unfolding delete
  All-delete P x [] h = tt
  All-delete P x (y ∷ ys) (q, h) = ground (arith, All-delete P x ys h)

  -- What is below a set is not in it.
  below : (x : K) (ys : BTreeSet K) → All (λ z. o.cmp x z ≡ lt) ys → contains ys x ≡ false
  unfolding contains
  below x [] h = refl
  below x (y ∷ ys) (p, h) = ground (arith, below x ys h, o.eq_of_beq y x, o.eq_self x)

  -- What is below the head of an ascending list is below all of it.
  All-below :
      (x y : K) (ys : BTreeSet K)
      → All (λ z. o.cmp y z ≡ lt) ys
      → o.cmp x y ≡ lt
      → All (λ z. o.cmp x z ≡ lt) (y ∷ ys)
  All-below x y ys h e = (e, All-imp (λ z. o.below_trans x y z e) ys h)

  pub insert-Ascending :
      (x : K) (ys : BTreeSet K) → Ascending o.cmp ys → Ascending o.cmp (insert x ys)
  unfolding insert
  insert-Ascending x [] h = (tt, tt)
  insert-Ascending x (y ∷ ys) (p, h) = ground (
    arith,
    insert-Ascending x ys h,
    All-insert (λ z. o.cmp y z ≡ lt) x ys,
    o.mirror_gt x y,
    All-below x y ys p,
  )

  pub delete-Ascending :
      (x : K) (ys : BTreeSet K) → Ascending o.cmp ys → Ascending o.cmp (delete x ys)
  unfolding delete
  delete-Ascending x [] h = tt
  delete-Ascending x (y ∷ ys) (p, h) =
      ground (arith, delete-Ascending x ys h, All-delete (λ z. o.cmp y z ≡ lt) x ys p)

  pub contains-delete :
      (x : K) (ys : BTreeSet K) (a : K)
      → Ascending o.cmp ys
      → contains (delete x ys) a ≡ (not (o.beq x a) && contains ys a)
  unfolding contains delete
  contains-delete x [] a h = ground arith
  contains-delete x (y ∷ ys) a (p, h) = ground (
    arith,
    contains-delete x ys a h,
    All-below x y ys p,
    below x (y ∷ ys),
    below y ys p,
    o.eq_of_beq x a,
    o.eq_of_beq y a,
    o.same_of_eq x y,
    o.eq_self x,
  )
