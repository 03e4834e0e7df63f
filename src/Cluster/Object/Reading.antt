-- ===== src/Cluster/Object/Reading.antt =====
-- crates/ndn-repo-cluster/src/erasure.rs: an object read back from its shards.
use ndn_repo.Base.{
  ℕ, zero, suc, Bool, false, ◌&&◌, Option, none, some, List, [], ◌∷◌, take, get_elem?,
  if◌then◌else◌,
}
use mathlib.Core.List.{flatten}
use ndn_repo.Extern.Coding.{Codec, Sha256}
use ndn_repo.Extern.Names.{NameTree}
use ndn_repo.Extern.Store.{DataPacket}
use ndn_repo.Wire.Fields.{◌>>=◌}
use ndn_repo.Wire.Slices.{bytes_eq}
use ndn_repo.Cluster.Object.{ErasureManifest, shard_name}

-- The integrity gate: the bytes have the hash of their index.
unfoldable pub verified : ⦃h : Sha256⦄ → List (List ℕ) → ℕ → List ℕ → Bool
verified ⦃h⦄ hashes index bytes = elim (get_elem? hashes index) [
  | none ↦ false
  | some hash ↦ bytes_eq (h.sha256 bytes) hash
]

module _ ⦃c : Codec⦄ ⦃h : Sha256⦄ where
  -- The loop of `reconstruct`: what fails the gate or the codec is passed over.
  unfoldable pub absorb_verified : List (List ℕ) → c.Decoder → List (ℕ × List ℕ) → c.Decoder
  absorb_verified hashes d [] = d
  absorb_verified hashes d ((index, bytes) ∷ shards) =
      let passed = absorb_verified hashes d shards in
      let (d', fine) = c.absorb d index bytes in
      let rest = absorb_verified hashes d' shards in
      if verified hashes index bytes
      then (if fine && c.is_complete d' then d' else rest)
      else passed

module _ {N : Type 0} ⦃c : Codec⦄ ⦃h : Sha256⦄ where
  unfoldable pub reconstruct : ErasureManifest N → List (ℕ × List ℕ) → Option (List ℕ)
  reconstruct m shards = do
    dec ← c.dec_new m.k m.n
    let absorbed = absorb_verified m.shard_hashes dec shards
    if c.is_complete absorbed
        then (c.recover absorbed >>= λ segs. some (take m.original_len (flatten (take m.k segs))))
        else none

-- The content of a fetched packet.
unfoldable pub content_of : {N : Type 0} (p : DataPacket N) → Option (List ℕ) → Option (List ℕ)
content_of p fetched = fetched >>= λ wire. p.decode_data wire >>= λ d. p.content d

-- `flatten` and `filter_map` of what was gathered.
unfoldable pub decode_gathered :
    {N : Type 0} (p : DataPacket N) → List (Option (ℕ × List ℕ)) → List (ℕ × List ℕ)
decode_gathered p [] = []
decode_gathered p (none ∷ gathered) = decode_gathered p gathered
decode_gathered p (some (i, wire) ∷ gathered) =
    let rest = decode_gathered p gathered in
    elim (p.decode_data wire >>= λ d. p.content d) [ none ↦ rest | some bytes ↦ (i, bytes) ∷ rest ]

module _ {N : Type 0} ⦃p : DataPacket N⦄ ⦃t : NameTree N⦄ where
  -- The loop of `reconstruct_with`, from shard `i` on.
  unfoldable pub gather : ErasureManifest N → (N → Option (List ℕ)) → ℕ → ℕ → List (ℕ × List ℕ)
  gather m fetch i zero = []
  gather m fetch i (suc count) =
      let rest = gather m fetch (suc i) count in
      elim (content_of p (fetch (shard_name m i))) [ none ↦ rest | some bytes ↦ (i, bytes) ∷ rest ]

  -- The first pass of `reconstruct_with_async`: a fetch that timed out is `none`.
  unfoldable pub gather_timed :
      ErasureManifest N → (N → Option (Option (List ℕ))) → ℕ → ℕ → List (Option (ℕ × List ℕ))
  gather_timed m fetch i zero = []
  gather_timed m fetch i (suc count) =
      elim (fetch (shard_name m i)) [
        | none ↦ none
        | some answer ↦ elim answer [ none ↦ none | some wire ↦ some (i, wire) ]
      ]
      ∷ gather_timed m fetch (suc i) count

  module _ ⦃c : Codec⦄ ⦃h : Sha256⦄ where
    unfoldable pub reconstruct_with : ErasureManifest N → (N → Option (List ℕ)) → Option (List ℕ)
    reconstruct_with m fetch = reconstruct m (gather m fetch 0 m.n)

    -- The fetches run at once; the answers stand in the order of the indices.
    unfoldable pub reconstruct_with_async :
        ErasureManifest N → (N → Option (Option (List ℕ))) → Option (List ℕ)
    reconstruct_with_async m fetch = reconstruct m (decode_gathered p (gather_timed m fetch 0 m.n))
