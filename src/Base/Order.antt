-- ===== src/Base/Order.antt =====
-- `Eq` and `Ord` as the code uses them of a name: equality tests and a lawful total comparison.
use Prim.Native.Nat.{ℕ, compare, Ordering}
use Prim.Native.Nat.Ordering.{lt, eq, gt}
use mathlib.Core.Path.{◌≡◌}
use mathlib.Core.Bool.{Bool, true, false}
use native.Mathlib.Omega.{arith}

-- What the trait `Ord` asks of `cmp`: the two strict answers are each other's mirror image.
pub record IsLawful {ℓ} {K : Type ℓ} (cmp : K → K → Ordering) : Type ℓ where
  pub same_of_eq : (x y : K) → cmp x y ≡ eq → x ≡ y
  pub eq_self : (x : K) → cmp x x ≡ eq
  pub mirror_lt : (x y : K) → cmp x y ≡ lt → cmp y x ≡ gt
  pub mirror_gt : (x y : K) → cmp x y ≡ gt → cmp y x ≡ lt
  pub below_trans : (x y z : K) → cmp x y ≡ lt → cmp y z ≡ lt → cmp x z ≡ lt

pub record Ord {ℓ} (K : Type ℓ) : Type ℓ where
  pub beq : K → K → Bool
  pub cmp : K → K → Ordering
  pub beq_refl : (a : K) → beq a a ≡ true
  pub eq_of_beq : (a b : K) → beq a b ≡ true → a ≡ b
  pub lawful : IsLawful cmp
  pub open lawful use *

-- `Ordering::then_with`
abbrev pub then_with : Ordering → Ordering → Ordering
then_with eq second = second
then_with first _ = first

abbrev pub is_gt : Ordering → Bool
is_gt gt = true
is_gt _ = false

unfoldable pub nat_beq : ℕ → ℕ → Bool
nat_beq a b = elim (compare a b) [ Ordering.eq ↦ true | _ ↦ false ]

pub nat_beq_refl : (a : ℕ) → nat_beq a a ≡ true
unfolding nat_beq
nat_beq_refl a = ground arith

pub nat_eq_of_beq : (a b : ℕ) → nat_beq a b ≡ true → a ≡ b
unfolding nat_beq
nat_eq_of_beq a b h = ground arith

pub compare-IsLawful : IsLawful compare
compare-IsLawful = ground arith

-- Numbers as names, for concrete runs.
instance unfoldable pub nat_ord : Ord ℕ
unfolding nat_beq
nat_ord = record {
  beq = nat_beq;
  cmp = compare;
  beq_refl = nat_beq_refl;
  eq_of_beq = nat_eq_of_beq;
  lawful = compare-IsLawful;
}
