-- ===== src/Cluster/Object/Coded.antt =====
-- crates/ndn-repo-cluster/src/erasure.rs: the shards of an encoded object, by index.
use ndn_repo.Base.{
  ℕ, zero, suc, ◌+◌, ◌*◌, ◌≡◌, ◌<◌, ◌⊎◌, refl, ap, ◌∙◌, sym, true, if◌then◌else◌, Option, none,
  some, List, [], ◌∷◌, ◌++◌, length, get_elem?, arith, inl, inr, ◌==◌, Bool-cases,
}
use mathlib.Core.List.{append_assoc, append-nil, map}
use ndn_repo.Base.Order.{nat_ord}
use ndn_repo.Extern.Coding.{Codec, IsCodec, Sha256}
use ndn_repo.Extern.Names.{NameTree}
use ndn_repo.Wire.Slices.{bytes_eq_refl}
use ndn_repo.Cluster.Object.{ErasureManifest, Shard, shard_len_of, resize, shard_of, push_hash}
use ndn_repo.Cluster.Object.Reading.{verified}
use ndn_repo.Cluster.Object.Segments.{length-segments}
use ndn_repo.Cluster.Object.Encoding.{
  shards_from, hashed, coded_from, source_segments, blank, bodies,
}

-- The bytes of the shard with an index.
unfoldable pub bytes_at : {N : Type 0} → List (Shard N) → ℕ → Option (List ℕ)
bytes_at [] i = none
bytes_at (s ∷ shards) i = if s.index == i then some s.bytes else bytes_at shards i

-- The place of an element in two lists end to end.
get_elem?-append :
    (xs ys : List (List ℕ)) (j : ℕ) (b : List ℕ)
    → get_elem? (xs ++ ys) j ≡ some b
    → ((j < length xs) × (get_elem? xs j ≡ some b))
      ⊎ ((d : ℕ) × (j ≡ length xs + d) × (get_elem? ys d ≡ some b))
get_elem?-append [] ys j b e = inr (j, omega arith, e)
get_elem?-append (x ∷ xs) ys zero b e = inl (omega arith, e)
get_elem?-append (x ∷ xs) ys (suc j) b e = elim (get_elem?-append xs ys j b e) [
  | inl (lt, found) ↦ inl (omega arith, found)
  | inr (d, at, found) ↦ inr (d, omega arith, found)
]

get_elem?-map :
    (f : List ℕ → List ℕ) (xs : List (List ℕ)) (j : ℕ) (b : List ℕ)
    → get_elem? xs j ≡ some b
    → get_elem? (map f xs) j ≡ some (f b)
get_elem?-map f [] j b e = cc
get_elem?-map f (x ∷ xs) zero b e = cc
get_elem?-map f (x ∷ xs) (suc j) b e = get_elem?-map f xs j b e

bytes_at-shards_from :
    {N : Type 0}
    → ⦃t : NameTree N⦄ → (m : ErasureManifest N) (lo i : ℕ) (xs : List (List ℕ)) (bytes : List ℕ)
    → bytes_at (shards_from m lo xs) i ≡ some bytes
    → (j : ℕ) × (i ≡ lo + j) × (get_elem? xs j ≡ some bytes)
unfolding bytes_at shards_from shard_of
bytes_at-shards_from m lo i [] bytes e = cc
bytes_at-shards_from m lo i (x ∷ xs) bytes e = elim (Bool-cases (lo == i)) [
  | inl here ↦ (0, ground (arith, here), ground (arith, here, e))
  | inr later ↦
      let (j, at, found) = bytes_at-shards_from m (suc lo) i xs bytes (ground (arith, later, e)) in
      (suc j, omega arith, found)
]

shard_hashes-hashed :
    {N : Type 0}
    → ⦃h : Sha256⦄ → (m : ErasureManifest N) (xs : List (List ℕ))
    → (hashed m xs).shard_hashes ≡ m.shard_hashes ++ map h.sha256 xs
unfolding hashed push_hash
shard_hashes-hashed m [] = sym (append-nil m.shard_hashes)
shard_hashes-hashed ⦃h⦄ m (x ∷ xs) =
    shard_hashes-hashed (push_hash m x) xs
    ∙ append_assoc m.shard_hashes (h.sha256 x ∷ []) (map h.sha256 xs)

-- `hashed` changes nothing but the hashes.
pub hashed_keeps :
    {N : Type 0}
    → ⦃h : Sha256⦄ → (m : ErasureManifest N) (xs : List (List ℕ))
    → hashed m xs ≡ (record m { shard_hashes = (hashed m xs).shard_hashes })
unfolding hashed push_hash
hashed_keeps m [] = refl
hashed_keeps m (x ∷ xs) = hashed_keeps (push_hash m x) xs

module _ ⦃c : Codec⦄ (k n : ℕ) (law : IsCodec c k n) where
  get_elem?-coded_from :
      (segs : List (List ℕ)) (i total j : ℕ) (b : List ℕ)
      → get_elem? (coded_from k n law segs i total) j ≡ some b
      → (j < total) × (b ≡ law.coded segs (i + j))
  unfolding coded_from
  get_elem?-coded_from segs i zero j b e = cc
  get_elem?-coded_from segs i (suc total) zero b e =
      (omega arith, let at : i + 0 ≡ i = omega arith in rw at (cc))
  get_elem?-coded_from segs i (suc total) (suc j) b e =
      let (lt, same) = get_elem?-coded_from segs (suc i) total j b e in
      (omega arith, same ∙ ap (law.coded segs) (omega arith))

module _ ⦃c : Codec⦄ ⦃h : Sha256⦄ {N : Type 0} ⦃t : NameTree N⦄ (k r : ℕ)
    (law : IsCodec c k (k + r)) (object : N) (content : List ℕ) where
  abbrev pub made : ErasureManifest N
  made = hashed (blank object content k (k + r)) (bodies k r law content)

  abbrev pub cut : List (Shard N)
  cut = shards_from (blank object content k (k + r)) 0 (bodies k r law content)

  -- Each shard is coded from the source segments, and its hash is in the manifest.
  pub shards_coded :
      (i : ℕ) (bytes : List ℕ)
      → bytes_at cut i ≡ some bytes
      → (i < k + r)
        × (bytes ≡ law.coded (source_segments k content) i)
        × (verified made.shard_hashes i bytes ≡ true)
  unfolding verified source_segments
  shards_coded i bytes e =
      let (j, at, found) =
        bytes_at-shards_from (blank object content k (k + r)) 0 i (bodies k r law content) bytes
          e in
      let same_place : i ≡ j = omega arith in
      let listed : get_elem? made.shard_hashes i ≡ some (h.sha256 bytes) =
        ap (λ hashes. get_elem? hashes i)
          (shard_hashes-hashed (blank object content k (k + r)) (bodies k r law content))
        ∙ ap (get_elem? (map h.sha256 (bodies k r law content))) same_place
        ∙ get_elem?-map h.sha256 (bodies k r law content) j bytes found in
      let passes : verified made.shard_hashes i bytes ≡ true =
        rw (verified, listed) (bytes_eq_refl (h.sha256 bytes)) in
      let full =
        length-segments (resize (shard_len_of k (length content) * k) content)
          (shard_len_of k (length content)) 0 k in
      elim (get_elem?-append (source_segments k content)
        (coded_from k (k + r) law (source_segments k content) k r) j bytes found) [
          | inl (lt, source) ↦ (
            omega (arith, full),
            sym (
                law.coded_source (source_segments k content) i bytes
                  (ap (get_elem? (source_segments k content)) same_place ∙ source)
                  (omega (arith, full))),
            passes,
          )
          | inr (d, far, check) ↦
              let (lt, same) =
                get_elem?-coded_from k (k + r) law (source_segments k content) k r d bytes check in
              (
                omega (arith, full),
                same ∙ ap (law.coded (source_segments k content)) (omega (arith, full)),
                passes,
              )
        ]
