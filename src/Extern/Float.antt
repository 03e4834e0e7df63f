-- ===== src/Extern/Float.antt =====
-- `f64`, as the placement uses it: utilisations and the watermark. The laws are those of IEEE 754
-- for values that are not NaN: comparison is that of a numeric key (-0 and +0 have one key), and
-- a quotient of a number by a number other than 0 is not NaN.
use ndn_repo.Base.{ℕ, ◌≡◌, ◌<◌, Bool, false, Option, some, compare, Ordering}

pub record Float (F : Type 0) : Type 0 where
  pub of_u64 : ℕ → F
  pub zero_f : F
  pub div : F → F → F
  pub lt_f : F → F → Bool
  pub partial_cmp : F → F → Option Ordering
  pub is_nan : F → Bool
  pub key : F → ℕ
  pub cmp_key :
      (a b : F)
      → is_nan a ≡ false
      → is_nan b ≡ false
      → partial_cmp a b ≡ some (compare (key a) (key b))
  pub zero_num : is_nan zero_f ≡ false
  pub div_num : (a b : ℕ) → 0 < b → is_nan (div (of_u64 a) (of_u64 b)) ≡ false
