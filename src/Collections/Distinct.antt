-- ===== src/Collections/Distinct.antt =====
-- Membership tests on a list (`contains`), lists without repetitions, and lists of one content.
use ndn_repo.Base.{
  ℕ, zero, suc, ◌≤◌, ◌<◌, ◌≡◌, refl, Bool, true, false, not, ◌||◌, ◌&&◌, List, [], ◌∷◌, ◌++◌, arith,
  keep, length, length-keep-le, take, All, Bool-cases, inl, inr,
}
use ndn_repo.Base.Order.{Ord, nat_ord, nat_eq_of_beq}
use mathlib.Core.Path.{subst}

module _ {ℓ} {K : Type ℓ} ⦃o : Ord K⦄ where
  unfoldable pub contains : List K → K → Bool
  contains [] a = false
  contains (x ∷ xs) a = o.beq x a || contains xs a

  abbrev pub Distinct : List K → Type 0
  Distinct [] = Unit
  Distinct (x ∷ xs) = (contains xs x ≡ false) × Distinct xs

  abbrev pub SameContent : List K → List K → Type ℓ
  SameContent xs ys = (a : K) → contains xs a ≡ contains ys a

  pub beq_sym : (a b : K) → o.beq a b ≡ o.beq b a
  beq_sym a b = ground (arith, o.eq_of_beq a b, o.eq_of_beq b a, o.beq_refl a, o.beq_refl b)

  pub contains-keep :
      (p : K → Bool) (xs : List K) (a : K) → contains (keep p xs) a ≡ (p a && contains xs a)
  unfolding contains keep
  contains-keep p [] a = ground arith
  contains-keep p (x ∷ xs) a = ground (arith, contains-keep p xs a, o.eq_of_beq x a)

  pub keep-Distinct : (p : K → Bool) (xs : List K) → Distinct xs → Distinct (keep p xs)
  unfolding keep
  keep-Distinct p [] d = tt
  keep-Distinct p (x ∷ xs) d = ground (arith, keep-Distinct p xs d.1, contains-keep p xs x)

  pub contains-take :
      (n : ℕ) (xs : List K) (a : K) → contains (take n xs) a ≡ true → contains xs a ≡ true
  unfolding contains
  contains-take zero xs a h = cc
  contains-take (suc n) [] a h = h
  contains-take (suc n) (x ∷ xs) a h = ground (arith, contains-take n xs a)

  pub take-Distinct : (n : ℕ) (xs : List K) → Distinct xs → Distinct (take n xs)
  take-Distinct zero xs d = tt
  take-Distinct (suc n) [] d = tt
  take-Distinct (suc n) (x ∷ xs) d = ground (arith, take-Distinct n xs d.1, contains-take n xs x)

  -- What holds of all elements holds of a member.
  pub All-contains {κ} :
      (P : K → Type κ) (xs : List K) (a : K) → All P xs → contains xs a ≡ true → P a
  unfolding contains
  All-contains P [] a h c = cc
  All-contains P (x ∷ xs) a h c = elim (Bool-cases (o.beq x a)) [
    | inl e ↦ subst P (o.eq_of_beq x a e) h.0
    | inr e ↦ All-contains P xs a h.1 (ground arith)
  ]

  pub All-of_contains {κ} :
      (P : K → Type κ) (xs : List K) → ((a : K) → contains xs a ≡ true → P a) → All P xs
  unfolding contains
  All-of_contains P [] h = tt
  All-of_contains P (x ∷ xs) h =
      (h x (ground (arith, o.beq_refl x)), All-of_contains P xs (λ a m. h a (ground arith)))

  pub contains-append :
      (xs ys : List K) (a : K) → contains (xs ++ ys) a ≡ (contains xs a || contains ys a)
  unfolding contains
  contains-append [] ys a = refl
  contains-append (x ∷ xs) ys a = ground (arith, contains-append xs ys a)

  pub append-Distinct :
      (xs ys : List K)
      → Distinct xs
      → Distinct ys
      → All (λ a. contains ys a ≡ false) xs
      → Distinct (xs ++ ys)
  append-Distinct [] ys dx dy h = dy
  append-Distinct (x ∷ xs) ys dx dy h =
      ground (arith, append-Distinct xs ys dx.1 dy h.1, contains-append xs ys x)

  -- The list without one value.
  without : K → List K → List K
  without a xs = keep (λ x. not (o.beq x a)) xs

  length-without : (a : K) (xs : List K) → contains xs a ≡ true → length (without a xs) < length xs
  unfolding without contains keep
  length-without a [] h = cc
  length-without a (x ∷ xs) h =
      ground (arith, length-without a xs, length-keep-le (λ y. not (o.beq y a)) xs)

  -- A list without repetitions is no longer than a list that holds its elements.
  pub length-le_of_subset :
      (xs ys : List K)
      → Distinct xs
      → ((a : K) → contains xs a ≡ true → contains ys a ≡ true)
      → length xs ≤ length ys
  unfolding contains
  length-le_of_subset [] ys d h = omega arith
  length-le_of_subset (x ∷ xs) ys d h = omega (
    arith,
    length-without x ys (h x (ground (arith, o.beq_refl x))),
    length-le_of_subset xs (without x ys) d.1 (λ a m.
        unfold without in
        ground (arith, h a, contains-keep (λ y. not (o.beq y x)) ys a, o.eq_of_beq a x)),
  )

-- A number that is not below a bound is none of some numbers that are.
pub contains_below :
    (held : List ℕ) (lo i : ℕ) → All (λ j. j < lo) held → lo ≤ i → contains held i ≡ false
unfolding contains nat_ord
contains_below [] lo i h le = refl
contains_below (j ∷ held) lo i (lt, h) le =
    ground (arith, contains_below held lo i h le, nat_eq_of_beq j i)
