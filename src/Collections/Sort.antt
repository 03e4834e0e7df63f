-- ===== src/Collections/Sort.antt =====
-- `slice::sort_by` as a stable insertion sort, with lawful comparisons.
use Prim.Native.Nat.Ordering.{lt, eq, gt}
use mathlib.Core.Path.{ap₂}
use ndn_repo.Base.{
  suc, ◌≡◌, refl, sym, ap, ◌∙◌, true, false, ◌||◌, List, [], ◌∷◌, map, arith, length, All, All-imp,
  Bool-cases, inl, inr, Ordering, ◌⊎◌, if◌then◌else◌,
}
use ndn_repo.Base.Order.{Ord, IsLawful, is_gt}
use ndn_repo.Collections.Distinct.{contains, Distinct, SameContent, All-contains, beq_sym}

Ordering-cases : (r : Ordering) → ((r ≡ lt) ⊎ (r ≡ eq)) ⊎ (r ≡ gt)
Ordering-cases lt = inl (inl refl)
Ordering-cases eq = inl (inr refl)
Ordering-cases gt = inr refl

module _ {ℓ} {A : Type ℓ} (c : A → A → Ordering) where
  unfoldable pub insert_by : A → List A → List A
  insert_by x [] = x ∷ []
  insert_by x (y ∷ ys) =
      let later = insert_by x ys in if is_gt (c x y) then y ∷ later else x ∷ y ∷ ys

  -- Elements that compare equal keep their order.
  unfoldable pub sort_by : List A → List A
  unfolding insert_by
  sort_by [] = []
  sort_by (x ∷ xs) = insert_by x (sort_by xs)

  abbrev pub Ascending : List A → Type 0
  Ascending [] = Unit
  Ascending (x ∷ xs) = All (λ y. c x y ≡ lt) xs × Ascending xs

  length-insert_by : (x : A) (ys : List A) → length (insert_by x ys) ≡ suc (length ys)
  unfolding insert_by
  length-insert_by x [] = refl
  length-insert_by x (y ∷ ys) = ground (arith, length-insert_by x ys)

  pub length-sort_by : (xs : List A) → length (sort_by xs) ≡ length xs
  unfolding sort_by
  length-sort_by [] = refl
  length-sort_by (x ∷ xs) = length-insert_by x (sort_by xs) ∙ ap suc (length-sort_by xs)

  pub All-insert_by {κ} :
      (P : A → Type κ) (x : A) (ys : List A) → P x → All P ys → All P (insert_by x ys)
  unfolding insert_by
  All-insert_by P x [] px h = (px, tt)
  All-insert_by P x (y ∷ ys) px h = ground (arith, All-insert_by P x ys px h.1)

  pub All-sort_by {κ} : (P : A → Type κ) (xs : List A) → All P xs → All P (sort_by xs)
  unfolding sort_by
  All-sort_by P [] h = tt
  All-sort_by P (x ∷ xs) (px, h) = All-insert_by P x (sort_by xs) px (All-sort_by P xs h)

-- Sorting by a comparison of images is sorting the images.
module _ {ℓ κ} {A : Type ℓ} {B : Type κ} (c : B → B → Ordering) (g : A → B) where
  map-insert_by :
      (x : A) (ys : List A)
      → map g (insert_by (λ a b. c (g a) (g b)) x ys) ≡ insert_by c (g x) (map g ys)
  unfolding insert_by
  map-insert_by x [] = refl
  map-insert_by x (y ∷ ys) = ground (arith, map-insert_by x ys)

  pub map-sort_by : (xs : List A) → map g (sort_by (λ a b. c (g a) (g b)) xs) ≡ sort_by c (map g xs)
  unfolding sort_by
  map-sort_by [] = refl
  map-sort_by (x ∷ xs) = map-insert_by x _ ∙ ap (insert_by c (g x)) (map-sort_by xs)

module _ {ℓ} {K : Type ℓ} ⦃o : Ord K⦄ (c : K → K → Ordering) where
  contains-insert_by :
      (x : K) (ys : List K) (a : K) → contains (insert_by c x ys) a ≡ (o.beq x a || contains ys a)
  unfolding insert_by contains
  contains-insert_by x [] a = refl
  contains-insert_by x (y ∷ ys) a = ground (arith, contains-insert_by x ys a)

  pub contains-sort_by : (xs : List K) → SameContent (sort_by c xs) xs
  unfolding sort_by contains
  contains-sort_by [] a = refl
  contains-sort_by (x ∷ xs) a =
      ground (arith, contains-insert_by x (sort_by c xs) a, contains-sort_by xs a)

module _ {ℓ} {K : Type ℓ} ⦃o : Ord K⦄ {c : K → K → Ordering} (law : IsLawful c) where
  insert_by-Ascending :
      (x : K) (ys : List K)
      → contains ys x ≡ false
      → Ascending c ys
      → Ascending c (insert_by c x ys)
  unfolding insert_by contains
  insert_by-Ascending x [] n h = (tt, tt)
  insert_by-Ascending x (y ∷ ys) n h = elim (Ordering-cases (c x y)) [
    | inl (inl e) ↦ rw e ((e, All-imp (λ z. law.below_trans x y z e) ys h.0), h)
    | inl (inr e) ↦ absurd (ne (law.same_of_eq x y e))
    | inr e ↦ rw e (
      All-insert_by c (λ z. c y z ≡ lt) x ys (law.mirror_gt x y e) h.0,
      insert_by-Ascending x ys (ground arith) h.1,
    )
  ]
    where
      ne : x ≡ y → ⊥
      ne p = ground (arith, o.beq_refl x)

  -- A list without repetitions is sorted strictly.
  pub sort_by-Ascending : (xs : List K) → Distinct xs → Ascending c (sort_by c xs)
  unfolding sort_by
  sort_by-Ascending [] d = tt
  sort_by-Ascending (x ∷ xs) (n, d) =
      insert_by-Ascending x (sort_by c xs) (contains-sort_by c xs x ∙ n) (sort_by-Ascending xs d)

  not_before : (x : K) (xs : List K) → All (λ y. c x y ≡ lt) xs → contains xs x ≡ false
  not_before x xs h = elim (Bool-cases (contains xs x)) [
    | inl e ↦ ground (arith, All-contains (λ y. c x y ≡ lt) xs x h e, law.eq_self x)
    | inr e ↦ e
  ]

  heads_eq :
      (x y : K) (xs ys : List K)
      → All (λ z. c x z ≡ lt) xs
      → All (λ z. c y z ≡ lt) ys
      → contains (y ∷ ys) x ≡ true
      → contains (x ∷ xs) y ≡ true
      → x ≡ y
  unfolding contains
  heads_eq x y xs ys hx hy my mx = elim (Bool-cases (o.beq x y)) [
    | inl e ↦ o.eq_of_beq x y e
    | inr e ↦ ground (
      arith,
      beq_sym x y,
      All-contains (λ z. c y z ≡ lt) ys x hy,
      All-contains (λ z. c x z ≡ lt) xs y hx,
      law.mirror_lt x y,
    )
  ]

  -- An ascending list is decided by its content.
  pub Ascending-eq :
      (xs ys : List K) → Ascending c xs → Ascending c ys → SameContent xs ys → xs ≡ ys
  unfolding contains
  Ascending-eq [] [] hx hy s = refl
  Ascending-eq [] (y ∷ ys) hx hy s = ground (arith, s y, o.beq_refl y)
  Ascending-eq (x ∷ xs) [] hx hy s = ground (arith, s x, o.beq_refl x)
  Ascending-eq (x ∷ xs) (y ∷ ys) hx hy s =
      let e =
        heads_eq x y xs ys hx.0 hy.0 (ground (arith, s x, o.beq_refl x))
          (ground (arith, s y, o.beq_refl y)) in
      ap₂ ◌∷◌ e (
        Ascending-eq xs ys hx.1 hy.1 (λ a.
          ground (arith, s a, o.eq_of_beq x a, not_before x xs hx.0, not_before y ys hy.0, e)))

  -- Sorting forgets the order in which the elements were given.
  pub sort_by-eq :
      (xs ys : List K) → Distinct xs → Distinct ys → SameContent xs ys → sort_by c xs ≡ sort_by c ys
  sort_by-eq xs ys dx dy s =
      Ascending-eq _ _ (sort_by-Ascending xs dx) (sort_by-Ascending ys dy)
        (λ a. contains-sort_by c xs a ∙ s a ∙ sym (contains-sort_by c ys a))

  pub Ascending-Distinct : (xs : List K) → Ascending c xs → Distinct xs
  Ascending-Distinct [] h = tt
  Ascending-Distinct (x ∷ xs) (p, h) = (not_before x xs p, Ascending-Distinct xs h)

-- Lists without repetitions and with one content are equally long.
pub length-SameContent {ℓ} :
    {K : Type ℓ} ⦃o : Ord K⦄ (xs ys : List K)
    → Distinct xs
    → Distinct ys
    → SameContent xs ys
    → length xs ≡ length ys
length-SameContent ⦃o⦄ xs ys dx dy s =
    sym (length-sort_by o.cmp xs)
    ∙ ap length (sort_by-eq o.lawful xs ys dx dy s)
    ∙ length-sort_by o.cmp ys
