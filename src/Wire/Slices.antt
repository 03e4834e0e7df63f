-- ===== src/Wire/Slices.antt =====
-- Slices of octets, and the parts that a list is cut into.
use ndn_repo.Base.{
  ℕ, zero, suc, ◌+◌, ◌-◌, ◌≡◌, ◌≤◌, refl, ap, ◌∙◌, sym, Bool, true, false, ◌&&◌, List, [], ◌∷◌,
  ◌++◌, length, take, ◌==◌, arith,
}

module _ {ℓ} {A : Type ℓ} where
  -- What is left of a list from a position on.
  abbrev pub skip : ℕ → List A → List A
  skip zero xs = xs
  skip (suc n) [] = []
  skip (suc n) (x ∷ xs) = skip n xs

  pub length-skip : (n : ℕ) (xs : List A) → length (skip n xs) ≡ length xs - n
  length-skip zero xs = omega arith
  length-skip (suc n) [] = omega arith
  length-skip (suc n) (x ∷ xs) = omega (arith, length-skip n xs)

  pub skip-append : (n : ℕ) (xs ys : List A) → length xs ≡ n → skip n (xs ++ ys) ≡ ys
  skip-append zero [] ys h = refl
  skip-append zero (x ∷ xs) ys h = absurd (omega arith)
  skip-append (suc n) [] ys h = absurd (omega arith)
  skip-append (suc n) (x ∷ xs) ys h = skip-append n xs ys (omega arith)

  pub take-append : (n : ℕ) (xs ys : List A) → length xs ≡ n → take n (xs ++ ys) ≡ xs
  take-append zero [] ys h = refl
  take-append zero (x ∷ xs) ys h = absurd (omega arith)
  take-append (suc n) [] ys h = absurd (omega arith)
  take-append (suc n) (x ∷ xs) ys h = ap (λ zs. x ∷ zs) (take-append n xs ys (omega arith))

  pub take-append_more :
      (k m : ℕ) (xs ys : List A) → k ≡ length xs + m → take k (xs ++ ys) ≡ xs ++ take m ys
  take-append_more k m [] ys h = ap (λ z. take z ys) (omega arith)
  take-append_more zero m (x ∷ xs) ys h = absurd (omega arith)
  take-append_more (suc k) m (x ∷ xs) ys h =
      ap (λ zs. x ∷ zs) (take-append_more k m xs ys (omega arith))

  pub take_all : (n : ℕ) (xs : List A) → length xs ≤ n → take n xs ≡ xs
  take_all zero [] h = refl
  take_all zero (x ∷ xs) h = absurd (omega arith)
  take_all (suc n) [] h = refl
  take_all (suc n) (x ∷ xs) h = ap (λ zs. x ∷ zs) (take_all n xs (omega arith))

  pub take-skip : (n : ℕ) (xs : List A) → take n xs ++ skip n xs ≡ xs
  take-skip zero xs = refl
  take-skip (suc n) [] = refl
  take-skip (suc n) (x ∷ xs) = ap (λ zs. x ∷ zs) (take-skip n xs)

  skip-nil : (n : ℕ) → skip n [] ≡ []
  skip-nil zero = refl
  skip-nil (suc n) = refl

  pub skip-skip : (m n k : ℕ) (xs : List A) → k ≡ m + n → skip n (skip m xs) ≡ skip k xs
  skip-skip zero n k xs h = ap (λ z. skip z xs) (omega arith)
  skip-skip (suc m) n k [] h = skip-nil n ∙ sym (skip-nil k)
  skip-skip (suc m) n zero (x ∷ xs) h = absurd (omega arith)
  skip-skip (suc m) n (suc k) (x ∷ xs) h = skip-skip m n k xs (omega arith)

  unfoldable pub repeat : A → ℕ → List A
  repeat x zero = []
  repeat x (suc n) = x ∷ repeat x n

  pub length-repeat : (x : A) (n : ℕ) → length (repeat x n) ≡ n
  unfolding repeat
  length-repeat x zero = refl
  length-repeat x (suc n) = omega (arith, length-repeat x n)

unfoldable pub bytes_eq : List ℕ → List ℕ → Bool
bytes_eq [] [] = true
bytes_eq [] (b ∷ ys) = false
bytes_eq (a ∷ xs) [] = false
bytes_eq (a ∷ xs) (b ∷ ys) = a == b && bytes_eq xs ys

pub bytes_eq_refl : (xs : List ℕ) → bytes_eq xs xs ≡ true
unfolding bytes_eq
bytes_eq_refl [] = refl
bytes_eq_refl (a ∷ xs) = ground (arith, bytes_eq_refl xs)

-- The parts of a record after its first octet.
pub skip_parts :
    (len digest check body : List ℕ)
    → length len ≡ 4
    → length digest ≡ 32
    → length check ≡ 32
    → (take 4 (len ++ (digest ++ (check ++ body))) ≡ len)
      × (take 32 (skip 4 (len ++ (digest ++ (check ++ body)))) ≡ digest)
      × (take 32 (skip 36 (len ++ (digest ++ (check ++ body)))) ≡ check)
      × (skip 68 (len ++ (digest ++ (check ++ body))) ≡ body)
skip_parts len digest check body h4 hd hc =
    let from4 = skip-append 4 len (digest ++ (check ++ body)) h4 in
    let from36 =
      sym (skip-skip 4 32 36 (len ++ (digest ++ (check ++ body))) refl)
      ∙ ap (skip 32) from4
      ∙ skip-append 32 digest (check ++ body) hd in
    (
      take-append 4 len _ h4,
      ap (take 32) from4 ∙ take-append 32 digest _ hd,
      ap (take 32) from36 ∙ take-append 32 check body hc,
      sym (skip-skip 36 32 68 (len ++ (digest ++ (check ++ body))) refl)
          ∙ ap (skip 32) from36
          ∙ skip-append 32 check body hc,
    )

pub skip_all {ℓ} : {A : Type ℓ} (n : ℕ) (xs : List A) → length xs ≤ n → skip n xs ≡ []
skip_all zero [] h = refl
skip_all zero (x ∷ xs) h = absurd (omega arith)
skip_all (suc n) [] h = refl
skip_all (suc n) (x ∷ xs) h = skip_all n xs (omega arith)
