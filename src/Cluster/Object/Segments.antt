-- ===== src/Cluster/Object/Segments.antt =====
-- crates/ndn-repo-cluster/src/erasure.rs: the source segments of an object, laid end to end.
use ndn_repo.Base.{
  ℕ, zero, suc, ◌+◌, ◌-◌, ◌*◌, ◌/◌, ◌≡◌, ◌≤◌, refl, ap, ◌∙◌, sym, max, List, [], ◌∷◌, ◌++◌, length,
  take, length-append, length-take, All, arith,
}
use mathlib.Core.List.{flatten}
use native.Mathlib.Nat.{add-mul, mul-le-mul_left, div-add-mod, mod-lt, suc-mul}
use ndn_repo.Wire.Slices.{skip, repeat, length-repeat, skip-skip, take-skip, length-skip, skip_all}
use ndn_repo.Cluster.Object.{shard_len_of, resize, segment}

unfoldable pub segments : List ℕ → ℕ → ℕ → ℕ → List (List ℕ)
segments padded size i zero = []
segments padded size i (suc count) = segment padded size i ∷ segments padded size (suc i) count

pub length-segments :
    (padded : List ℕ) (size i count : ℕ) → length (segments padded size i count) ≡ count
unfolding segments
length-segments padded size i zero = refl
length-segments padded size i (suc count) = omega (arith, length-segments padded size (suc i) count)

-- The segments are the padded object from the first of them on.
pub flatten-segments :
    (padded : List ℕ) (size i count : ℕ)
    → length padded ≤ (i + count) * size
    → flatten (segments padded size i count) ≡ skip (i * size) padded
unfolding segments segment flatten
flatten-segments padded size i zero all =
    sym (skip_all (i * size) padded (omega (arith, add-mul i 0 size)))
flatten-segments padded size i (suc count) all =
    ap (λ xs. take size (skip (i * size) padded) ++ xs)
      (flatten-segments padded size (suc i) count (
          omega (
            arith,
            add-mul i (suc count) size,
            add-mul (suc i) count size,
            suc-mul count size,
            suc-mul i size,
          ))
        ∙ sym (skip-skip (i * size) size (suc i * size) padded (omega (arith, suc-mul i size))))
    ∙ take-skip size (skip (i * size) padded)

-- Each segment has the same size.
pub segments_sized :
    (padded : List ℕ) (size i count : ℕ)
    → (i + count) * size ≤ length padded
    → All (λ seg. length seg ≡ size) (segments padded size i count)
unfolding segments segment
segments_sized padded size i zero fit = tt
segments_sized padded size i (suc count) fit = (
  omega (
    arith,
    length-take size (skip (i * size) padded),
    length-skip (i * size) padded,
    add-mul i (suc count) size,
    suc-mul count size,
  ),
  segments_sized padded size (suc i) count (
      omega (
        arith,
        add-mul i (suc count) size,
        add-mul (suc i) count size,
        suc-mul count size,
        suc-mul i size,
      )),
)

-- k shards have room for the object.
pub shard_len_of-room : (k len : ℕ) → 1 ≤ k → len ≤ shard_len_of k len * k
unfolding shard_len_of
shard_len_of-room k len some_sources =
    let padded = len + (k - 1) in
    let q = padded / k in
    let wide : q ≤ max q 1 = omega arith in
    omega (arith, mul-le-mul_left k wide, div-add-mod padded k, mod-lt padded some_sources)

pub length-resize : (size : ℕ) (content : List ℕ) → length (resize size content) ≡ size
unfolding resize
length-resize size content = omega (
  arith,
  length-append (take size content) (repeat 0 (size - length content)),
  length-take size content,
  length-repeat {A = ℕ} 0 (size - length content),
)
