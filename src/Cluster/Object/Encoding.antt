-- ===== src/Cluster/Object/Encoding.antt =====
-- crates/ndn-repo-cluster/src/erasure.rs: the shards that `encode_object` cuts and codes.
use ndn_repo.Base.{
  ℕ, zero, suc, ◌+◌, ◌-◌, ◌*◌, ◌%◌, ◌^◌, ◌≡◌, ◌≤◌, refl, ap, ◌∙◌, true, some, List, [], ◌∷◌, ◌++◌,
  length, length-append, All, All-append, arith, leb,
}
use mathlib.Core.List.{append-nil, append_assoc}
use mathlib.Core.Path.{subst}
use native.Mathlib.Nat.{mul_comm}
use ndn_repo.Extern.Coding.{Codec, IsCodec, Sha256}
use ndn_repo.Extern.Names.{NameTree}
use ndn_repo.Cluster.Object.Segments.{segments, length-segments, segments_sized, length-resize}
use ndn_repo.Cluster.Object.{
  ErasureManifest, Shard, shard_name, shard_len_of, resize, segment, shard_of, push_hash,
  source_shards, parity_shards, total_shards, encode_object,
}

-- The shards of some bodies, from index `i` on.
unfoldable pub shards_from :
    {N : Type 0} → ⦃t : NameTree N⦄ → ErasureManifest N → ℕ → List (List ℕ) → List (Shard N)
shards_from m i [] = []
shards_from m i (body ∷ bodies) = shard_of m i body ∷ shards_from m (suc i) bodies

-- A manifest with the hashes of some bodies added.
unfoldable pub hashed :
    {N : Type 0} → ⦃h : Sha256⦄ → ErasureManifest N → List (List ℕ) → ErasureManifest N
hashed m [] = m
hashed m (body ∷ bodies) = hashed (push_hash m body) bodies

shards_from-push_hash :
    {N : Type 0}
    → ⦃t : NameTree N⦄ → ⦃h : Sha256⦄
    → (m : ErasureManifest N) (i : ℕ) (body : List ℕ) (bodies : List (List ℕ))
    → shards_from (push_hash m body) i bodies ≡ shards_from m i bodies
unfolding shards_from shard_of shard_name push_hash
shards_from-push_hash m i body [] = refl
shards_from-push_hash m i body (b ∷ bodies) =
    ap (λ xs. shard_of m i b ∷ xs) (shards_from-push_hash m (suc i) body bodies)

module _ ⦃c : Codec⦄ (k n : ℕ) (law : IsCodec c k n) where
  -- The coded shards from `i` on.
  unfoldable pub coded_from : List (List ℕ) → ℕ → ℕ → List (List ℕ)
  coded_from segs i zero = []
  coded_from segs i (suc count) = law.coded segs i ∷ coded_from segs (suc i) count

  module _ {N : Type 0} ⦃t : NameTree N⦄ ⦃h : Sha256⦄ where
    source_shards_lem :
        (padded : List ℕ) (size i count : ℕ) (enc : c.Encoder) (m : ErasureManifest N)
        (segs : List (List ℕ))
        → law.Fed enc segs
        → length segs + count ≤ k
        → All (λ s. length s ≡ size) segs
        → All (λ s. length s ≡ size) (segments padded size i count)
        → (last : c.Encoder) × (source_shards padded size i count enc m
            ≡ some (
              last,
              hashed m (segments padded size i count),
              shards_from m i (segments padded size i count),
            ))
          × law.Fed last (segs ++ segments padded size i count)
    unfolding source_shards hashed shards_from segments
    source_shards_lem padded size i zero enc m segs fed fit sized rest =
        (enc, refl, rw append-nil fed)
    source_shards_lem padded size i (suc count) enc m segs fed fit sized (same, rest) =
        let seg = segment padded size i in
        let (next, accepted, more) = law.feed_lem enc segs seg fed (omega arith) (rw same sized) in
        let (last, done, all) =
          source_shards_lem padded size (suc i) count next (push_hash m seg) (segs ++ seg ∷ []) more
            (omega (arith, length-append segs (seg ∷ [])))
            (All-append _ segs (seg ∷ []) sized (same, tt)) rest in
        (
          last,
          rw (source_shards, accepted, done, shards_from-push_hash m (suc i) seg _) refl,
          subst (λ xs. law.Fed last xs) (append_assoc segs (seg ∷ []) _) all,
        )

    parity_shards_lem :
        (i count : ℕ) (enc : c.Encoder) (m : ErasureManifest N) (segs : List (List ℕ))
        → law.Fed enc segs
        → length segs ≡ k
        → k ≤ i
        → i + count ≤ n
        → parity_shards i count enc m
          ≡ some (hashed m (coded_from segs i count), shards_from m i (coded_from segs i count))
    unfolding parity_shards hashed shards_from coded_from
    parity_shards_lem i zero enc m segs fed full lo hi = refl
    parity_shards_lem i (suc count) enc m segs fed full lo hi = rw (
      parity_shards,
      law.parity_lem enc segs i fed full lo (omega arith),
      parity_shards_lem (suc i) count enc (push_hash m (law.coded segs i)) segs fed full
          (omega arith) (omega arith),
      shards_from-push_hash m (suc i) (law.coded segs i) _,
    )

-- The manifest that the shards are counted in.
abbrev pub blank : {N : Type 0} → N → List ℕ → ℕ → ℕ → ErasureManifest N
blank object content k n = record {
  object = object;
  k = k;
  n = n;
  original_len = length content;
  shard_len = shard_len_of k (length content) % 2 ^ 32;
  shard_hashes = [];
}

-- The source segments of an object.
unfoldable pub source_segments : ℕ → List ℕ → List (List ℕ)
source_segments k content =
    segments (resize (shard_len_of k (length content) * k) content)
      (shard_len_of k (length content)) 0 k

-- The source segments and the parity shards, in the order of their indices.
abbrev pub bodies : ⦃c : Codec⦄ (k r : ℕ) (law : IsCodec c k (k + r)) → List ℕ → List (List ℕ)
bodies k r law content =
    source_segments k content ++ coded_from k (k + r) law (source_segments k content) k r

shards_from-append :
    {N : Type 0}
    → ⦃t : NameTree N⦄ → (m : ErasureManifest N) (i j : ℕ) (xs ys : List (List ℕ))
    → j ≡ i + length xs
    → shards_from m i (xs ++ ys) ≡ shards_from m i xs ++ shards_from m j ys
unfolding shards_from
shards_from-append m i j [] ys e = ap (λ a. shards_from m a ys) (omega arith)
shards_from-append m i j (x ∷ xs) ys e =
    ap (λ rest. shard_of m i x ∷ rest) (shards_from-append m (suc i) j xs ys (omega arith))

module _ {N : Type 0} ⦃h : Sha256⦄ where
  hashed-append :
      (m : ErasureManifest N) (xs ys : List (List ℕ))
      → hashed m (xs ++ ys) ≡ hashed (hashed m xs) ys
  unfolding hashed
  hashed-append m [] ys = refl
  hashed-append m (x ∷ xs) ys = hashed-append (push_hash m x) xs ys

  module _ ⦃t : NameTree N⦄ where
    shards_from-hashed :
        (m : ErasureManifest N) (i : ℕ) (xs ys : List (List ℕ))
        → shards_from (hashed m xs) i ys ≡ shards_from m i ys
    unfolding hashed
    shards_from-hashed m i [] ys = refl
    shards_from-hashed m i (x ∷ xs) ys =
        shards_from-hashed (push_hash m x) i xs ys ∙ shards_from-push_hash m i x ys

    module _ ⦃c : Codec⦄ (k r : ℕ) (law : IsCodec c k (k + r)) where
      -- An object is always encoded, if the numbers of shards are in range.
      pub encode_object_lem :
          (object : N) (content : List ℕ)
          → 1 ≤ k
          → k + r ≤ 255
          → encode_object object content k r
            ≡ some (
              shards_from (blank object content k (k + r)) 0 (bodies k r law content),
              hashed (blank object content k (k + r)) (bodies k r law content),
            )
      unfolding encode_object total_shards source_segments
      encode_object_lem object content some_sources few =
          let n = k + r in
          let size = shard_len_of k (length content) in
          let padded = resize (size * k) content in
          let segs = segments padded size 0 k in
          let m = blank object content k n in
          let parts = coded_from k n law segs k r in
          let full = length-segments padded size 0 k in
          let (enc, made, fresh) = law.enc_new_lem in
          let (last, done, fed) =
            source_shards_lem k n law padded size 0 k enc m [] fresh (omega arith) tt (
              segments_sized padded size 0 k
                (omega (arith, length-resize (size * k) content, mul_comm size k))) in
          let checks =
            parity_shards_lem k n law k r last (hashed m segs) segs fed full (omega arith)
              (omega arith) in
          let u16 : leb n 65535 ≡ true = ground arith in
          let u8 : leb n 255 ≡ true = ground arith in
          let pos : leb 1 k ≡ true = ground arith in
          let extra : n - k ≡ r = omega arith in
          rw
            (
              u16,
              u8,
              pos,
              made,
              done,
              extra,
              checks,
              shards_from-hashed m k segs parts,
              hashed-append m segs parts,
              shards_from-append m 0 k segs parts (omega (arith, full)),
            )
            refl
