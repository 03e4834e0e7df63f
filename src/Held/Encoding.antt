-- ===== src/Held/Encoding.antt =====
-- crates/ndn-repo/src/held.rs: what `encode` writes to the stripes, by what the codec does.
use ndn_repo.Base.{
  ℕ, zero, suc, ◌+◌, ◌-◌, ◌%◌, ◌≡◌, ◌≤◌, ◌<◌, refl, ap, ◌∙◌, sym, some, List, [], ◌∷◌, ◌++◌, length,
  get_elem?, All, arith, length-append, All-append,
}
use mathlib.Core.List.{append_assoc, append-nil}
use mathlib.Core.Path.{subst}
use ndn_repo.Extern.Coding.{Codec, IsCodec, Sha256}
use ndn_repo.Held.Shards.{Erasure, new_erasure, shard_size, source_segment, shard_record}
use ndn_repo.Held.Segments.{sources, length-sources, length-source_segment}
use ndn_repo.Held.Stripes.{feed_sources, parity_records, encode}

-- The numbers of an `Erasure` that `new` lets through.
pub record IsErasure (e : Erasure) : Type 0 where
  pub some_sources : 1 ≤ e.k
  pub enough_shards : e.k ≤ e.n
  pub few_shards : e.n ≤ 255

-- `new` lets only such numbers through.
pub new_erasure-IsErasure : (k n : ℕ) (e : Erasure) → new_erasure k n ≡ some e → IsErasure e
unfolding new_erasure
new_erasure-IsErasure k n e made = record {
  some_sources = ground arith;
  enough_shards = ground arith;
  few_shards = ground arith;
}

module _ ⦃h : Sha256⦄ where
  -- The records of some shards, for the stripes from `i` on.
  unfoldable pub records_of : List ℕ → ℕ → List (List ℕ) → List (List ℕ)
  records_of wire i [] = []
  records_of wire i (shard ∷ shards) = shard_record wire i shard ∷ records_of wire (suc i) shards

  pub length-records_of :
      (wire : List ℕ) (i : ℕ) (shards : List (List ℕ))
      → length (records_of wire i shards) ≡ length shards
  unfolding records_of
  length-records_of wire i [] = refl
  length-records_of wire i (x ∷ xs) = omega (arith, length-records_of wire (suc i) xs)

  records_of-append :
      (wire : List ℕ) (i j : ℕ) (xs ys : List (List ℕ))
      → j ≡ i + length xs
      → records_of wire i (xs ++ ys) ≡ records_of wire i xs ++ records_of wire j ys
  unfolding records_of
  records_of-append wire i j [] ys e = ap (λ a. records_of wire a ys) (omega arith)
  records_of-append wire i j (x ∷ xs) ys e =
      ap (λ rs. shard_record wire i x ∷ rs) (records_of-append wire (suc i) j xs ys (omega arith))

get_elem?-sources :
    (wire : List ℕ) (size j count i at : ℕ)
    → i < count
    → at ≡ j + i
    → get_elem? (sources wire size j count) i ≡ some (source_segment wire size at)
unfolding sources
get_elem?-sources wire size j zero i at h e = absurd (omega arith)
get_elem?-sources wire size j (suc count) zero at h e =
    ap (λ a. some (source_segment wire size a)) (omega arith)
get_elem?-sources wire size j (suc count) (suc i) at h e =
    get_elem?-sources wire size (suc j) count i at (omega arith) (omega arith)

module _ ⦃c : Codec⦄ (e : Erasure) (law : IsCodec c e.k e.n) where
  -- The coded shards from `i` on.
  unfoldable pub coded_from : List (List ℕ) → ℕ → ℕ → List (List ℕ)
  coded_from segs i zero = []
  coded_from segs i (suc count) = law.coded segs i ∷ coded_from segs (suc i) count

  pub length-coded_from :
      (segs : List (List ℕ)) (i count : ℕ) → length (coded_from segs i count) ≡ count
  unfolding coded_from
  length-coded_from segs i zero = refl
  length-coded_from segs i (suc count) = omega (arith, length-coded_from segs (suc i) count)

  coded_from-append :
      (segs : List (List ℕ)) (i a b j total : ℕ)
      → j ≡ i + a
      → total ≡ a + b
      → coded_from segs i a ++ coded_from segs j b ≡ coded_from segs i total
  unfolding coded_from
  coded_from-append segs i zero b j total ej et =
      ap (λ x. coded_from segs x b) (omega arith) ∙ ap (coded_from segs i) (omega arith)
  coded_from-append segs i (suc a) b j zero ej et = absurd (omega arith)
  coded_from-append segs i (suc a) b j (suc total) ej et =
      ap (λ xs. law.coded segs i ∷ xs)
        (coded_from-append segs (suc i) a b j total (omega arith) (omega arith))

  -- The code is systematic: the source segments are the first shards.
  sources_coded :
      (wire : List ℕ) (size i count : ℕ)
      → i + count ≤ e.k
      → sources wire size i count ≡ coded_from (sources wire size 0 e.k) i count
  unfolding sources coded_from
  sources_coded wire size i zero fit = refl
  sources_coded wire size i (suc count) fit =
      ap (λ xs. source_segment wire size i ∷ xs)
        (sources_coded wire size (suc i) count (omega arith))
      ∙ ap (λ seg. seg ∷ coded_from (sources wire size 0 e.k) (suc i) count)
          (sym (
            law.coded_source (sources wire size 0 e.k) i (source_segment wire size i)
              (get_elem?-sources wire size 0 e.k i i (omega arith) (omega arith)) (omega arith)))

  module _ ⦃h : Sha256⦄ where
    feed_sources_lem :
        (wire : List ℕ) (size i count : ℕ) (enc : c.Encoder) (segs : List (List ℕ))
        → law.Fed enc segs
        → length segs + count ≤ e.k
        → All (λ s. length s ≡ size) segs
        → (last : c.Encoder) × (feed_sources wire size i count enc
            ≡ some (last, records_of wire i (sources wire size i count)))
          × law.Fed last (segs ++ sources wire size i count)
    unfolding feed_sources records_of sources
    feed_sources_lem wire size i zero enc segs fed fit sized = (enc, refl, rw append-nil fed)
    feed_sources_lem wire size i (suc count) enc segs fed fit sized =
        let seg = source_segment wire size i in
        let same = length-source_segment wire size i in
        let (next, accepted, more) = law.feed_lem enc segs seg fed (omega arith) (rw same sized) in
        let (last, done, all) =
          feed_sources_lem wire size (suc i) count next (segs ++ seg ∷ []) more
            (omega (arith, length-append segs (seg ∷ [])))
            (All-append _ segs (seg ∷ []) sized (same, tt)) in
        (
          last,
          rw (feed_sources, accepted, done) refl,
          subst (λ xs. law.Fed last xs) (append_assoc segs (seg ∷ []) _) all,
        )

    parity_records_lem :
        (wire : List ℕ) (i count : ℕ) (enc : c.Encoder) (segs : List (List ℕ))
        → law.Fed enc segs
        → length segs ≡ e.k
        → e.k ≤ i
        → i + count ≤ e.n
        → e.n ≤ 255
        → parity_records wire i count enc ≡ some (records_of wire i (coded_from segs i count))
    unfolding parity_records records_of coded_from
    parity_records_lem wire i zero enc segs fed full lo hi few = refl
    parity_records_lem wire i (suc count) enc segs fed full lo hi few =
        let low : i % 65536 ≡ i = omega arith in
        rw (
          parity_records,
          low,
          law.parity_lem enc segs i fed full lo (omega arith),
          parity_records_lem wire (suc i) count enc segs fed full (omega arith) (omega arith) few,
        )

    -- A wire is always encoded: stripe `i` gets the record of the coded shard `i`.
    pub encode_lem :
        (wire : List ℕ)
        → IsErasure e
        → encode e wire
          ≡ some (
              records_of wire 0
                (coded_from (sources wire (shard_size e (length wire)) 0 e.k) 0 e.n))
    unfolding encode
    encode_lem wire ok =
        let size = shard_size e (length wire) in
        let segs = sources wire size 0 e.k in
        let parts = coded_from segs e.k (e.n - e.k) in
        let full = length-sources wire size 0 e.k in
        let (enc, made, fresh) = law.enc_new_lem in
        let (last, done, fed) = feed_sources_lem wire size 0 e.k enc [] fresh (omega arith) tt in
        let checks =
          parity_records_lem wire e.k (e.n - e.k) last segs fed full (omega arith)
            (omega (arith, ok.enough_shards)) ok.few_shards in
        rw (encode, made, done, checks)
          (ap (λ xs. some xs)
            (sym (records_of-append wire 0 e.k segs parts (omega (arith, full)))
              ∙ ap (records_of wire 0) (
                  ap (λ xs. xs ++ parts) (sources_coded wire size 0 e.k (omega arith))
                  ∙ coded_from-append segs 0 e.k (e.n - e.k) e.k e.n (omega arith)
                      (omega (arith, ok.enough_shards)))))
