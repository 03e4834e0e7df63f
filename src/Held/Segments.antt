-- ===== src/Held/Segments.antt =====
-- crates/ndn-repo/src/held.rs: the source segments of a wire, laid end to end.
use ndn_repo.Base.{
  ℕ, zero, suc, ◌+◌, ◌-◌, ◌*◌, ◌≡◌, ◌≤◌, refl, ap, ◌∙◌, sym, List, [], ◌∷◌, ◌++◌, length, take,
  length-append, length-take, All, min, arith, inl, inr, le_or_lt,
}
use mathlib.Core.List.{flatten, append_assoc, append-nil}
use native.Mathlib.Nat.{suc-mul, add-mul}
use ndn_repo.Wire.Slices.{
  skip, length-skip, take-append_more, take_all, take-skip, skip-skip, repeat, length-repeat,
  take-append, skip_all,
}
use ndn_repo.Held.Shards.{source_segment}

unfoldable pub sources : List ℕ → ℕ → ℕ → ℕ → List (List ℕ)
sources wire size i zero = []
sources wire size i (suc count) = source_segment wire size i ∷ sources wire size (suc i) count

pub length-sources : (wire : List ℕ) (size i count : ℕ) → length (sources wire size i count) ≡ count
unfolding sources
length-sources wire size i zero = refl
length-sources wire size i (suc count) = omega (arith, length-sources wire size (suc i) count)

-- Each segment has the same size.
pub length-source_segment :
    (wire : List ℕ) (size i : ℕ) → length (source_segment wire size i) ≡ size
unfolding source_segment
length-source_segment wire size i = omega (
  arith,
  add-mul i 1 size,
  length-append
      (take (min ((i + 1) * size) (length wire) - min (i * size) (length wire))
        (skip (min (i * size) (length wire)) wire))
      (repeat 0 (size - (min ((i + 1) * size) (length wire) - min (i * size) (length wire)))),
  length-take (min ((i + 1) * size) (length wire) - min (i * size) (length wire))
      (skip (min (i * size) (length wire)) wire),
  length-skip (min (i * size) (length wire)) wire,
  length-repeat {A = ℕ} 0
      (size - (min ((i + 1) * size) (length wire) - min (i * size) (length wire))),
)

pub sources_sized :
    (wire : List ℕ) (size i count : ℕ) → All (λ seg. length seg ≡ size) (sources wire size i count)
unfolding sources
sources_sized wire size i zero = tt
sources_sized wire size i (suc count) =
    (length-source_segment wire size i, sources_sized wire size (suc i) count)

-- A full segment and what comes after it.
take-full :
    (body rest : List ℕ) (size m : ℕ)
    → length body ≡ m
    → size ≤ m
    → take (m - size) rest ≡ skip size body
    → take m ((take size body ++ []) ++ rest) ≡ body
take-full body rest size m h le later =
    ap (λ xs. take m (xs ++ rest)) (append-nil (take size body))
    ∙ take-append_more m (m - size) (take size body) rest (omega (arith, length-take size body))
    ∙ ap (λ xs. take size body ++ xs) later
    ∙ take-skip size body

-- The last segment, its padding and what comes after it.
take-last :
    (body zeros rest : List ℕ) (m : ℕ)
    → length body ≡ m
    → take m ((take m body ++ zeros) ++ rest) ≡ body
take-last body zeros rest m h =
    ap (take m) (append_assoc (take m body) zeros rest)
    ∙ take-append m (take m body) (zeros ++ rest) (omega (arith, length-take m body))
    ∙ take_all m body (omega arith)

-- The segments from `i` on are the wire from there on, and padding.
pub take-flatten-sources :
    (wire : List ℕ) (size i count m : ℕ)
    → m ≡ length wire - i * size
    → length wire ≤ (i + count) * size
    → take m (flatten (sources wire size i count)) ≡ skip (min (i * size) (length wire)) wire
unfolding sources source_segment flatten repeat
take-flatten-sources wire size i zero m em enough =
    take_all m [] (omega arith)
    ∙ sym (skip_all (min (i * size) (length wire)) wire (omega (arith, add-mul i 0 size)))
take-flatten-sources wire size i (suc count) m em enough =
    let start = min (i * size) (length wire) in
    let part = min ((i + 1) * size) (length wire) - start in
    let body = skip start wire in
    let sized = length-skip start wire in
    let step = add-mul i 1 size in
    elim (le_or_lt size m) [
      | inl full ↦
          let later =
            take-flatten-sources wire size (suc i) count (m - size) (omega (arith, suc-mul i size))
              (omega (
                arith,
                add-mul (suc i) count size,
                add-mul i (suc count) size,
                suc-mul i size,
                suc-mul count size,
              )) in
          let whole : part ≡ size = omega arith in
          let unpadded : size - part ≡ 0 = omega arith in
          rw (unpadded, whole, repeat)
            (take-full body (flatten (sources wire size (suc i) count)) size m (omega arith) full
              (later ∙ sym (skip-skip start size _ wire (omega (arith, suc-mul i size)))))
      | inr short ↦
          let rest_of : part ≡ m = omega arith in rw rest_of (take-last body _ _ m (omega arith))
    ]
