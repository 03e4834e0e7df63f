-- ===== src/Wire/Words.antt =====
-- `from_be_bytes` of the unsigned integers, and the chunks of a fixed size.
use ndn_repo.Base.{
  ℕ, zero, suc, ◌+◌, ◌*◌, ◌/◌, ◌%◌, ◌^◌, ◌≡◌, ◌≤◌, ◌<◌, refl, sym, ap, ◌∙◌, List, [], ◌∷◌, ◌++◌,
  length, take, length-append, length-take, All, All-take, arith,
}
use mathlib.Core.List.{flatten, append-nil, append_assoc}
use native.Mathlib.Nat.{pow-suc, mul-suc}
use ndn_repo.Wire.Nni.{be_bytes}
use ndn_repo.Wire.Slices.{skip, take-append, skip-append, length-skip, take-skip}

unfoldable pub number_from : ℕ → List ℕ → ℕ
number_from v [] = v
number_from v (b ∷ bytes) = number_from (v * 256 + b) bytes

unfoldable pub from_be_bytes : List ℕ → ℕ
unfolding number_from
from_be_bytes bytes = number_from 0 bytes

number_from-append :
    (v : ℕ) (xs ys : List ℕ) → number_from v (xs ++ ys) ≡ number_from (number_from v xs) ys
unfolding number_from
number_from-append v [] ys = refl
number_from-append v (x ∷ xs) ys = number_from-append (v * 256 + x) xs ys

-- A number of k octets is read back.
pub from_be_bytes-be_bytes : (k v : ℕ) → v < 256 ^ k → from_be_bytes (be_bytes k v) ≡ v
unfolding from_be_bytes be_bytes number_from
from_be_bytes-be_bytes zero v h = omega arith
from_be_bytes-be_bytes (suc k) v h =
    number_from-append 0 (be_bytes k (v / 256)) ((v % 256) ∷ [])
    ∙ rw (from_be_bytes-be_bytes k (v / 256) (omega arith)) (omega arith)

number_from-lt :
    (v a c : ℕ) (bytes : List ℕ)
    → c ≡ length bytes + a
    → v < 256 ^ a
    → All (λ b. b < 256) bytes
    → number_from v bytes < 256 ^ c
unfolding number_from
number_from-lt v a c [] e h octets = let same : c ≡ a = omega arith in rw same h
number_from-lt v a c (b ∷ bytes) e h (o, octets) =
    number_from-lt (v * 256 + b) (suc a) c bytes (omega arith) (omega (arith, pow-suc 256 a)) octets

-- Of k octets the number has at most k octets.
pub from_be_bytes-lt :
    (k : ℕ) (bytes : List ℕ)
    → length bytes ≡ k
    → All (λ b. b < 256) bytes
    → from_be_bytes bytes < 256 ^ k
unfolding from_be_bytes
from_be_bytes-lt k bytes e octets = number_from-lt 0 0 k bytes (omega arith) (omega arith) octets

pub length-be_bytes : (k v : ℕ) → length (be_bytes k v) ≡ k
unfolding be_bytes
length-be_bytes zero v = refl
length-be_bytes (suc k) v =
    omega
      (arith, length-append (be_bytes k (v / 256)) ((v % 256) ∷ []), length-be_bytes k (v / 256))

-- The first `count` chunks of a size.
unfoldable pub chunks : ℕ → ℕ → List ℕ → List (List ℕ)
chunks size zero bytes = []
chunks size (suc count) bytes = take size bytes ∷ chunks size count (skip size bytes)

-- `as_chunks` of a size that is not 0: the whole chunks of the octets, without what remains.
unfoldable pub as_chunks : ℕ → List ℕ → List (List ℕ)
unfolding chunks
as_chunks size bytes = chunks size (length bytes / size) bytes

chunks-flatten :
    (size : ℕ) (parts : List (List ℕ))
    → All (λ part. length part ≡ size) parts
    → chunks size (length parts) (flatten parts) ≡ parts
unfolding chunks flatten
chunks-flatten size [] sized = refl
chunks-flatten size (part ∷ parts) (here, sized) = rw (
  take-append size part (flatten parts) here,
  skip-append size part (flatten parts) here,
  chunks-flatten size parts sized,
)

pub length-flatten :
    (size : ℕ) (parts : List (List ℕ))
    → All (λ part. length part ≡ size) parts
    → length (flatten parts) ≡ size * length parts
unfolding flatten
length-flatten size [] sized = omega arith
length-flatten size (part ∷ parts) (here, sized) =
    grind (arith, length-append part (flatten parts), length-flatten size parts sized)

div_mul : (size count : ℕ) → 1 ≤ size → (size * count) / size ≡ count
div_mul size count some_size = grind arith

pub as_chunks-flatten :
    (size : ℕ) (parts : List (List ℕ))
    → 1 ≤ size
    → All (λ part. length part ≡ size) parts
    → as_chunks size (flatten parts) ≡ parts
unfolding as_chunks
as_chunks-flatten size parts some_size sized =
    rw (as_chunks, length-flatten size parts sized, div_mul size (length parts) some_size)
      (chunks-flatten size parts sized)

length-chunks : (size count : ℕ) (bytes : List ℕ) → length (chunks size count bytes) ≡ count
unfolding chunks
length-chunks size zero bytes = refl
length-chunks size (suc count) bytes = omega (arith, length-chunks size count (skip size bytes))

chunks_sized :
    (size count : ℕ) (bytes : List ℕ)
    → length bytes ≡ size * count
    → All (λ part. length part ≡ size) (chunks size count bytes)
unfolding chunks
chunks_sized size zero bytes e = tt
chunks_sized size (suc count) bytes e =
    let step = mul-suc size count in
    (
      omega (arith, length-take size bytes),
      chunks_sized size count (skip size bytes) (omega (arith, length-skip size bytes)),
    )

flatten-chunks :
    (size count : ℕ) (bytes : List ℕ)
    → length bytes ≡ size * count
    → flatten (chunks size count bytes) ≡ bytes
unfolding chunks flatten
flatten-chunks size zero [] e = refl
flatten-chunks size zero (b ∷ bytes) e = absurd (omega arith)
flatten-chunks size (suc count) bytes e =
    let step = mul-suc size count in
    let rest : flatten (chunks size count (skip size bytes)) ≡ skip size bytes =
      flatten-chunks size count (skip size bytes) (omega (arith, length-skip size bytes)) in
    ap (λ xs. take size bytes ++ xs) rest ∙ take-skip size bytes

-- Octets of which nothing remains are cut into as many chunks as they make, and make the octets again.
pub as_chunks_whole :
    (size count : ℕ) (bytes : List ℕ)
    → 1 ≤ size
    → length bytes ≡ size * count
    → (length (as_chunks size bytes) ≡ count)
      × All (λ part. length part ≡ size) (as_chunks size bytes)
      × (flatten (as_chunks size bytes) ≡ bytes)
unfolding as_chunks
as_chunks_whole size count bytes some_size e =
    rw (as_chunks, e, div_mul size count some_size)
      (
        length-chunks size count bytes,
        chunks_sized size count bytes e,
        flatten-chunks size count bytes e,
      )

be_bytes-number_from :
    (k v c : ℕ) (bytes : List ℕ)
    → c ≡ length bytes + k
    → All (λ b. b < 256) bytes
    → be_bytes c (number_from v bytes) ≡ be_bytes k v ++ bytes
unfolding number_from be_bytes
be_bytes-number_from k v c [] e octets =
    let same : c ≡ k = omega arith in ap (λ x. be_bytes x v) same ∙ sym (append-nil (be_bytes k v))
be_bytes-number_from k v c (b ∷ bytes) e (o, octets) =
    let high : (v * 256 + b) / 256 ≡ v = omega arith in
    let low : (v * 256 + b) % 256 ≡ b = omega arith in
    be_bytes-number_from (suc k) (v * 256 + b) c bytes (omega arith) octets
    ∙ rw (be_bytes, high, low) (append_assoc (be_bytes k v) (b ∷ []) bytes)

All-skip {ℓ} : {A : Type ℓ} (P : A → Type 0) (n : ℕ) (xs : List A) → All P xs → All P (skip n xs)
All-skip P zero xs h = h
All-skip P (suc n) [] h = tt
All-skip P (suc n) (x ∷ xs) (here, h) = All-skip P n xs h

-- The octets of a slice are those of its number.
pub be_bytes-slice :
    (k at : ℕ) (bytes : List ℕ)
    → at + k ≤ length bytes
    → All (λ b. b < 256) bytes
    → be_bytes k (from_be_bytes (take k (skip at bytes))) ≡ take k (skip at bytes)
unfolding from_be_bytes be_bytes
be_bytes-slice k at bytes fit octets =
    be_bytes-number_from 0 0 k (take k (skip at bytes))
      (omega (arith, length-take k (skip at bytes), length-skip at bytes))
      (All-take _ k (skip at bytes) (All-skip _ at bytes octets))

-- The number that a slice holds fits as many octets as the slice has.
pub from_be_bytes-slice :
    (k at : ℕ) (bytes : List ℕ)
    → at + k ≤ length bytes
    → All (λ b. b < 256) bytes
    → from_be_bytes (take k (skip at bytes)) < 256 ^ k
from_be_bytes-slice k at bytes fit octets =
    from_be_bytes-lt k (take k (skip at bytes))
      (omega (arith, length-take k (skip at bytes), length-skip at bytes))
      (All-take _ k (skip at bytes) (All-skip _ at bytes octets))
