-- ===== src/Cluster/Object/Recover.antt =====
-- crates/ndn-repo-cluster/src/erasure.rs: an object put together again from verified shards.
use ndn_repo.Base.{
  ℕ, suc, ◌+◌, ◌-◌, ◌*◌, ◌≡◌, ◌≤◌, ◌<◌, ◌⊎◌, refl, ap, ◌∙◌, sym, true, false, if◌then◌else◌, none,
  some, List, [], ◌∷◌, ◌++◌, length, take, arith, inl, inr, le_or_lt, leb,
}
use mathlib.Core.List.{flatten}
use mathlib.Core.Path.{subst}
use native.Mathlib.Nat.{mul_comm, zero-mul}
use ndn_repo.Base.Order.{nat_ord}
use ndn_repo.Collections.HashMap.{unwrap_or}
use ndn_repo.Collections.Distinct.{contains}
use ndn_repo.Extern.Coding.{Codec, IsCodec, Sha256}
use ndn_repo.Extern.Names.{NameTree}
use ndn_repo.Wire.Slices.{skip, repeat, take-append, take_all}
use ndn_repo.Cluster.Object.{
  ErasureManifest, Shard, shard_len_of, resize, total_shards, encode_object,
}
use ndn_repo.Cluster.Object.Reading.{verified, absorb_verified, reconstruct}
use ndn_repo.Cluster.Object.Segments.{
  length-segments, flatten-segments, shard_len_of-room, length-resize,
}
use ndn_repo.Cluster.Object.Coded.{bytes_at, made, cut, hashed_keeps, shards_coded}
use ndn_repo.Cluster.Object.Encoding.{source_segments, blank, bodies, encode_object_lem}

module _ ⦃h : Sha256⦄ where
  -- Some pairs of an index and bytes, of which those that pass the gate are shards, each index once
  -- and none of `held`.
  abbrev pub Genuine :
      {N : Type 0} → List (Shard N) → List (List ℕ) → List ℕ → List (ℕ × List ℕ) → Type 0
  Genuine shards hashes held [] = Unit
  Genuine shards hashes held ((i, bytes) ∷ given) =
      ((verified hashes i bytes ≡ false) × Genuine shards hashes held given)
      ⊎ ((bytes_at shards i ≡ some bytes)
          × (contains held i ≡ false)
          × Genuine shards hashes (i ∷ held) given)

  -- How many pass the gate.
  unfoldable pub count : List (List ℕ) → List (ℕ × List ℕ) → ℕ
  count hashes [] = 0
  count hashes ((i, bytes) ∷ given) =
      let rest = count hashes given in if verified hashes i bytes then suc rest else rest

  module _ ⦃c : Codec⦄ (k n : ℕ) (law : IsCodec c k n) {N : Type 0} (shards : List (Shard N))
      (hashes segs : List (List ℕ))
      (coded : (i : ℕ) (bytes : List ℕ)
        → bytes_at shards i ≡ some bytes
        → (i < n) × (bytes ≡ law.coded segs i) × (verified hashes i bytes ≡ true)) where
    -- The decoder is complete when it has k of the shards, and then it recovers the segments.
    absorb_verified_lem :
        (given : List (ℕ × List ℕ)) (d : c.Decoder) (held : List ℕ)
        → law.Holds d segs held
        → Genuine shards hashes held given
        → length held < k
        → (c.is_complete (absorb_verified hashes d given)
            ≡ leb k (length held + count hashes given))
          × (k ≤ length held + count hashes given
              → c.recover (absorb_verified hashes d given) ≡ some segs)
    unfolding absorb_verified count
    absorb_verified_lem [] d held holds genuine short = (
      law.complete_lem d segs held holds ∙ ap (leb k) (omega arith),
      λ enough. absurd (omega arith),
    )
    absorb_verified_lem ((i, bytes) ∷ given) d held holds (inl (bad, genuine)) short =
        rw bad (absorb_verified_lem given d held holds genuine short)
    absorb_verified_lem ((i, bytes) ∷ given) d held holds (inr (known, new, genuine)) short =
        let (few, same, passes) = coded i bytes known in
        let (fine, more) =
          subst (λ b. ((c.absorb d i b).1 ≡ true) × law.Holds (c.absorb d i b).0 segs (i ∷ held))
            (sym same) (law.absorb_lem d segs held i holds short new few) in
        let complete = law.complete_lem (c.absorb d i bytes).0 segs (i ∷ held) more in
        elim (le_or_lt k (suc (length held))) [
          | inl last ↦
              let now : leb k (suc (length held)) ≡ true = ground arith in
              let all : leb k (length held + suc (count hashes given)) ≡ true = ground arith in
              rw (passes, fine, complete, now)
                (complete ∙ now ∙ sym all, λ enough. law.recover_lem _ segs (i ∷ held) more last)
          | inr early ↦
              let partial : leb k (suc (length held)) ≡ false = ground arith in
              let (ended, back) =
                absorb_verified_lem given (c.absorb d i bytes).0 (i ∷ held) more genuine early in
              rw (passes, fine, complete, partial)
                (ended ∙ ap (leb k) (omega arith), λ enough. back (omega arith))
        ]

length-source_segments : (k : ℕ) (content : List ℕ) → length (source_segments k content) ≡ k
unfolding source_segments
length-source_segments k content = length-segments _ _ 0 k

-- The segments are the object and its padding.
take-source_segments :
    (k : ℕ) (content : List ℕ)
    → 1 ≤ k
    → take (length content) (flatten (take k (source_segments k content))) ≡ content
unfolding source_segments resize repeat
take-source_segments k content some_sources =
    let size = shard_len_of k (length content) in
    let padded = resize (size * k) content in
    let first : 0 * size ≡ 0 = omega (arith, zero-mul size) in
    let fits = shard_len_of-room k (length content) some_sources in
    ap (λ xs. take (length content) (flatten xs))
      (take_all k _ (omega (arith, length-segments padded size 0 k)))
    ∙ ap (take (length content)) (
        flatten-segments padded size 0 k
          (omega (arith, length-resize (size * k) content, mul_comm size k)))
    ∙ ap (λ start. take (length content) (skip start padded)) first
    ∙ ap (λ xs. take (length content) (xs ++ repeat 0 (size * k - length content)))
        (take_all (size * k) content fits)
    ∙ take-append (length content) content (repeat 0 (size * k - length content)) refl

module _ ⦃c : Codec⦄ ⦃h : Sha256⦄ {N : Type 0} ⦃t : NameTree N⦄ (k r : ℕ)
    (law : IsCodec c k (k + r)) (object : N) (content : List ℕ) where
  reconstruct-made :
      (given : List (ℕ × List ℕ))
      → 1 ≤ k
      → Genuine (cut k r law object content) (made k r law object content).shard_hashes [] given
      → reconstruct (made k r law object content) given ≡ (
          if leb k (count (made k r law object content).shard_hashes given)
          then some content
          else none)
  unfolding reconstruct
  reconstruct-made given some_sources genuine =
      let m = made k r law object content in
      let segs = source_segments k content in
      let fields = hashed_keeps (blank object content k (k + r)) (bodies k r law content) in
      let m_k : m.k ≡ k = ap (λ x. x.k) fields in
      let m_n : m.n ≡ k + r = ap (λ x. x.n) fields in
      let m_len : m.original_len ≡ length content = ap (λ x. x.original_len) fields in
      let full = length-source_segments k content in
      let (d, new, holds) = law.dec_new_lem segs full in
      let (ended, back) =
        absorb_verified_lem k (k + r) law (cut k r law object content) m.shard_hashes segs
          (shards_coded k r law object content) given d [] holds genuine some_sources in
      let start : 0 + count m.shard_hashes given ≡ count m.shard_hashes given = omega arith in
      elim (le_or_lt k (count m.shard_hashes given)) [
        | inl enough ↦
            let yes : leb k (count m.shard_hashes given) ≡ true = ground arith in
            rw
              (
                m_k,
                m_n,
                m_len,
                new,
                ended,
                start,
                yes,
                back (omega arith),
                take-source_segments k content some_sources,
              )
              refl
        | inr few ↦
            let no : leb k (count m.shard_hashes given) ≡ false = ground arith in
            rw (m_k, m_n, m_len, new, ended, start, no) refl
      ]

  module _ (shards : List (Shard N)) (m : ErasureManifest N)
      (encoded : encode_object object content k r ≡ some (shards, m)) where
    -- `encode_object` lets only such numbers of shards through.
    shards_range : (1 ≤ k) × (k + r ≤ 255)
    unfolding encode_object total_shards
    shards_range = (ground (arith, encoded), ground (arith, encoded))

    -- What `reconstruct` makes of shards of an encoded object, in any order, of which those that pass
    -- the gate are shards of the object, each index once: with k of them the object, else nothing.
    pub reconstruct-encode_object :
        (given : List (ℕ × List ℕ))
        → Genuine shards m.shard_hashes [] given
        → reconstruct m given ≡ (if leb k (count m.shard_hashes given) then some content else none)
    reconstruct-encode_object given genuine =
        let whole : List (Shard N) × ErasureManifest N =
          (cut k r law object content, made k r law object content) in
        let same : whole ≡ (shards, m) =
          ap (λ o. unwrap_or o whole)
            (sym (encode_object_lem k r law object content shards_range.0 shards_range.1)
              ∙ encoded) in
        subst
          (λ x.
            Genuine x.0 x.1.shard_hashes [] given
            → reconstruct x.1 given
              ≡ (if leb k (count x.1.shard_hashes given) then some content else none))
          same (reconstruct-made given shards_range.0) genuine
