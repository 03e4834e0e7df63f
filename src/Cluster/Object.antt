-- ===== src/Cluster/Object.antt =====
-- crates/ndn-repo-cluster/src/erasure.rs: an object as erasure shards under a manifest. An error of
-- the codec is `none`; the names are built by `append`, an index is written in decimal digits.
pub mod Coded
pub mod Encoding
pub mod Fetching
pub mod Manifest
pub mod Reading
pub mod Received
pub mod Recover
pub mod Segments
pub mod Tests
use ndn_repo.Base.{
  ℕ, zero, suc, ◌+◌, ◌-◌, ◌*◌, ◌/◌, ◌%◌, ◌^◌, max, Bool, true, false, ◌&&◌, ◌||◌, Option, none,
  some, List, [], ◌∷◌, ◌++◌, length, take, get_elem?, ltb, leb, ◌==◌, if◌then◌else◌,
}
use mathlib.Core.List.{flatten}
use ndn_repo.Extern.Coding.{Codec, Sha256}
use ndn_repo.Extern.Names.{NameTree}
use ndn_repo.Extern.Store.{DataPacket}
use ndn_repo.Extern.Tlv.{NameCodec}
use ndn_repo.Wire.Fields.{◌>>=◌}
use ndn_repo.Wire.Nni.{be_bytes}
use ndn_repo.Wire.Slices.{skip, repeat, bytes_eq}
use ndn_repo.Wire.Words.{from_be_bytes, as_chunks}

-- "EC"
abbrev pub ec_keyword : List ℕ
ec_keyword = 0x45 ∷ 0x43 ∷ []

-- "manifest"
abbrev pub manifest_keyword : List ℕ
manifest_keyword = 0x6d ∷ 0x61 ∷ 0x6e ∷ 0x69 ∷ 0x66 ∷ 0x65 ∷ 0x73 ∷ 0x74 ∷ []

pub record ErasureManifest (N : Type 0) : Type 0 where
  pub object : N
  pub k : ℕ
  pub n : ℕ
  pub original_len : ℕ
  pub shard_len : ℕ
  pub shard_hashes : List (List ℕ)

pub record Shard (N : Type 0) : Type 0 where
  pub index : ℕ
  pub name : N
  pub bytes : List ℕ

-- `to_string` of a u16, which has at most 5 digits.
unfoldable pub digits : ℕ → ℕ → List ℕ
digits zero v = []
digits (suc fuel) v =
    let rest = digits fuel (v / 10) in
    if ltb v 10 then (48 + v) ∷ [] else rest ++ (48 + v % 10) ∷ []

unfoldable pub decimal : ℕ → List ℕ
unfolding digits
decimal v = digits 5 v

module _ {N : Type 0} ⦃t : NameTree N⦄ where
  unfoldable pub shard_name : ErasureManifest N → ℕ → N
  shard_name m index = t.append (t.append m.object ec_keyword) (decimal index)

  unfoldable pub names_from : ErasureManifest N → ℕ → ℕ → List N
  names_from m i zero = []
  names_from m i (suc count) = shard_name m i ∷ names_from m (suc i) count

  unfoldable pub shard_names : ErasureManifest N → List N
  unfolding names_from
  shard_names m = names_from m 0 m.n

  unfoldable pub manifest_name : N → N
  manifest_name object = t.append (t.append object ec_keyword) manifest_keyword

module _ {N : Type 0} ⦃c : NameCodec N⦄ where
  unfoldable pub to_bytes : ErasureManifest N → List ℕ
  to_bytes m =
      let name_tlv = c.encode_to_tlv m.object in
      be_bytes 2 m.k
      ++ (be_bytes 2 m.n
          ++ (be_bytes 8 m.original_len
              ++ (be_bytes 4 m.shard_len
                  ++ (be_bytes 4 (length name_tlv % 2 ^ 32)
                      ++ (name_tlv ++ flatten m.shard_hashes)))))

  -- The reading of what follows the first 20 octets.
  unfoldable pub manifest_body : ℕ → ℕ → ℕ → ℕ → ℕ → List ℕ → Option (ErasureManifest N)
  manifest_body k n original_len shard_len name_len b =
      if ltb (length b) (20 + name_len)
      then none
      else (c.decode_from_tlv (take name_len (skip 20 b)) >>= λ object.
          let hashes = skip (20 + name_len) b in
          if length hashes == 32 * n
          then some (record {
            object = object;
            k = k;
            n = n;
            original_len = original_len;
            shard_len = shard_len;
            shard_hashes = as_chunks 32 hashes;
          })
          else none)

  -- The sum 20 + name_len does not overflow: name_len is a u32.
  unfoldable pub from_bytes : List ℕ → Option (ErasureManifest N)
  from_bytes b =
      if ltb (length b) 20
      then none
      else manifest_body (from_be_bytes (take 2 b)) (from_be_bytes (take 2 (skip 2 b)))
          (from_be_bytes (take 8 (skip 4 b))) (from_be_bytes (take 4 (skip 12 b)))
          (from_be_bytes (take 4 (skip 16 b))) b

-- The size of each shard: `div_ceil` by a number that is not 0, at least 1.
unfoldable pub shard_len_of : ℕ → ℕ → ℕ
shard_len_of k len = max ((len + (k - 1)) / k) 1

-- `resize` to a size, with zeros.
unfoldable pub resize : ℕ → List ℕ → List ℕ
resize size content = take size content ++ repeat 0 (size - length content)

-- The slice that is source shard `i`.
unfoldable pub segment : List ℕ → ℕ → ℕ → List ℕ
segment padded size i = take size (skip (i * size) padded)

-- `checked_add` of u16s, and the filter on its result.
unfoldable pub total_shards : ℕ → ℕ → Option ℕ
total_shards k redundancy =
    if leb (k + redundancy) 65535 && leb (k + redundancy) 255 && leb 1 k
    then some (k + redundancy)
    else none

unfoldable pub shard_of : {N : Type 0} → ⦃t : NameTree N⦄ → ErasureManifest N → ℕ → List ℕ → Shard N
shard_of m i bytes = record { index = i; name = shard_name m i; bytes = bytes }

unfoldable pub push_hash :
    {N : Type 0} → ⦃h : Sha256⦄ → ErasureManifest N → List ℕ → ErasureManifest N
push_hash ⦃h⦄ m bytes = record m { shard_hashes = m.shard_hashes ++ h.sha256 bytes ∷ [] }

module _ {N : Type 0} ⦃t : NameTree N⦄ ⦃c : Codec⦄ ⦃h : Sha256⦄ where
  -- The loop over the source shards, from `i` on.
  unfoldable pub source_shards :
      List ℕ
      → ℕ
      → ℕ
      → ℕ
      → c.Encoder
      → ErasureManifest N
      → Option (c.Encoder × ErasureManifest N × List (Shard N))
  source_shards padded size i zero enc m = some (enc, m, [])
  source_shards padded size i (suc count) enc m = do
    fed ← c.feed enc (segment padded size i)
    (last, full, shards) ←
        source_shards padded size (suc i) count fed (push_hash m (segment padded size i))
    some (last, full, shard_of m i (segment padded size i) ∷ shards)

  -- The loop over the parity shards.
  unfoldable pub parity_shards :
      ℕ → ℕ → c.Encoder → ErasureManifest N → Option (ErasureManifest N × List (Shard N))
  parity_shards i zero enc m = some (m, [])
  parity_shards i (suc count) enc m = do
    parity ← c.parity enc i
    (full, shards) ← parity_shards (suc i) count enc (push_hash m parity)
    some (full, shard_of m i parity ∷ shards)

  unfoldable pub encode_object : N → List ℕ → ℕ → ℕ → Option (List (Shard N) × ErasureManifest N)
  encode_object object content k redundancy = do
    n ← total_shards k redundancy
    let size : ℕ = shard_len_of k (length content)
    let padded : List ℕ = resize (size * k) content
    let empty : ErasureManifest N = record {
      object = object;
      k = k;
      n = n;
      original_len = length content;
      shard_len = size % 2 ^ 32;
      shard_hashes = [];
    }
    enc ← c.enc_new k n
    (fed, half, sources) ← source_shards padded size 0 k enc empty
    (full, parities) ← parity_shards k (n - k) fed half
    some (sources ++ parities, full)

module _ {N : Type 0} ⦃p : DataPacket N⦄ where
  unfoldable pub shard_data : Shard N → List ℕ
  shard_data s = p.build s.name s.bytes

  unfoldable pub decode_manifest_data : ⦃c : NameCodec N⦄ → p.Data → Option (ErasureManifest N)
  decode_manifest_data d = p.content d >>= λ b. from_bytes b

-- `sign` is `sign_with_sync` of the signer on a packet of a name and a content.
unfoldable pub manifest_data :
    {N : Type 0}
    → ⦃t : NameTree N⦄ → ⦃c : NameCodec N⦄ → ErasureManifest N
    → (N → List ℕ → Option (List ℕ))
    → Option (List ℕ)
manifest_data m sign = sign (manifest_name m.object) (to_bytes m)
