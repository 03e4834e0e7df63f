-- ===== src/Cluster/Object/Tests.antt =====
-- crates/ndn-repo-cluster/src/erasure.rs: an object of two octets in three shards of which one suffices.
use ndn_repo.Base.{
  ℕ, zero, suc, ◌≡◌, ◌<◌, refl, ap, ◌∙◌, sym, if◌then◌else◌, Option, none, some, List, [], ◌∷◌,
  ◌++◌, All, arith, inl, inr, leb, ◌==◌, length,
}
use ndn_repo.Base.Order.{nat_ord}
use ndn_repo.Collections.HashMap.{unwrap_or}
use ndn_repo.Extern.Concrete.{octet_name, octet_packet, numbered_names}
use ndn_repo.Extern.Copies.{copies, copies-IsCodec, length_digest}
use ndn_repo.Wire.Slices.{repeat, bytes_eq}
use ndn_repo.Wire.Words.{number_from, from_be_bytes, chunks, as_chunks}
use ndn_repo.Cluster.Object.{
  ErasureManifest, Shard, shard_name, to_bytes, from_bytes, manifest_body, digits, decimal,
  shard_len_of, resize, segment, shard_of, push_hash, source_shards, parity_shards, total_shards,
  encode_object,
}
use ndn_repo.Cluster.Object.Reading.{
  verified, content_of, gather, reconstruct_with, reconstruct_with_async,
}
use ndn_repo.Cluster.Object.Manifest.{IsManifest, from_bytes-to_bytes}
use ndn_repo.Cluster.Object.Received.{wire_form, from_bytes-wire_form}
use ndn_repo.Cluster.Object.Coded.{bytes_at}
use ndn_repo.Cluster.Object.Recover.{count}
use ndn_repo.Cluster.Object.Fetching.{
  IsHonest, in_time, reconstruct_with_async_lem, reconstruct_with-encode_object,
}

abbrev small : ErasureManifest ℕ
small = record {
  object = 5;
  k = 1;
  n = 2;
  original_len = 3;
  shard_len = 3;
  shard_hashes = (3 ∷ repeat 0 31) ∷ (4 ∷ repeat 0 31) ∷ [];
}

small-IsManifest : IsManifest small
unfolding repeat octet_name
small-IsManifest = record {
  k_u16 = omega arith;
  n_u16 = omega arith;
  original_len_u64 = omega arith;
  shard_len_u32 = omega arith;
  name_u32 = omega arith;
  all_hashes = refl;
  hashes_32 = (refl, (refl, tt));
}

from_bytes-to_bytes_example : from_bytes (to_bytes small) ≡ some small
from_bytes-to_bytes_example = from_bytes-to_bytes small small-IsManifest

-- The octets of a manifest of one shard, whose name is written as two octets.
abbrev single : List ℕ
single =
    (0 ∷ 1 ∷ 0 ∷ 1 ∷ 0 ∷ 0 ∷ 0 ∷ 0 ∷ 0 ∷ 0 ∷ 0 ∷ 9 ∷ 0 ∷ 0 ∷ 0 ∷ 9 ∷ 0 ∷ 0 ∷ 0 ∷ 2 ∷ 5 ∷ 6 ∷ [])
    ++ (7 ∷ repeat 0 31)

abbrev single_read : ErasureManifest ℕ
single_read = record {
  object = 5;
  k = 1;
  n = 1;
  original_len = 9;
  shard_len = 9;
  shard_hashes = (7 ∷ repeat 0 31) ∷ [];
}

single_octets : All (λ octet. octet < 256) single
unfolding repeat
single_octets = omega arith

from_bytes-single : from_bytes single ≡ some single_read
unfolding from_bytes manifest_body from_be_bytes number_from as_chunks chunks octet_name repeat
from_bytes-single = refl

from_bytes-wire_form_example :
    (name_tlv : List ℕ) × (octet_name.decode_from_tlv name_tlv ≡ some single_read.object)
    × (single ≡ wire_form single_read name_tlv)
    × (length single_read.shard_hashes ≡ single_read.n)
    × All (λ hash. length hash ≡ 32) single_read.shard_hashes
from_bytes-wire_form_example =
    from_bytes-wire_form single single_read single_octets from_bytes-single

abbrev pair : List ℕ
pair = 7 ∷ 8 ∷ []

abbrev hash_of_pair : List ℕ
hash_of_pair = 2 ∷ repeat 0 31

abbrev made_manifest : ErasureManifest ℕ
made_manifest = record {
  object = 1;
  k = 1;
  n = 3;
  original_len = 2;
  shard_len = 2;
  shard_hashes = hash_of_pair ∷ hash_of_pair ∷ hash_of_pair ∷ [];
}

abbrev made_shards : List (Shard ℕ)
made_shards =
    shard_of made_manifest 0 pair
    ∷ shard_of made_manifest 1 pair
    ∷ shard_of made_manifest 2 pair
    ∷ []

-- Shard 2 answers, and shard 0 with an octet too few.
abbrev answers : ℕ → Option (List ℕ)
answers name =
    if name == shard_name made_manifest 2
    then some (name ∷ pair)
    else if name == shard_name made_manifest 0
    then some (name ∷ 7 ∷ [])
    else none

encoded : encode_object 1 pair 1 2 ≡ some (made_shards, made_manifest)
unfolding encode_object total_shards source_shards parity_shards push_hash shard_of shard_name
    segment resize shard_len_of repeat length_digest
encoded = refl

honest : IsHonest made_manifest made_shards answers
unfolding verified content_of bytes_at shard_of shard_name decimal digits number_from numbered_names
    octet_packet bytes_eq length_digest repeat
honest zero bytes few found =
    inl (ap (λ o. verified made_manifest.shard_hashes 0 (unwrap_or o [])) (sym found))
honest (suc zero) bytes few found = cc
honest (suc (suc zero)) bytes few found = inr found
honest (suc (suc (suc i))) bytes few found = absurd (omega arith)

enough :
    (if leb 1 (count made_manifest.shard_hashes (gather made_manifest answers 0 3))
      then some pair
      else none)
    ≡ some pair
unfolding count gather verified content_of shard_name decimal digits number_from numbered_names
    octet_packet bytes_eq length_digest repeat
enough = refl

reconstruct_with-encode_object_example : reconstruct_with made_manifest answers ≡ some pair
reconstruct_with-encode_object_example =
    reconstruct_with-encode_object 1 2 copies-IsCodec 1 pair made_shards made_manifest answers
      encoded honest
    ∙ enough

-- The fetch of shard 1 times out.
abbrev timed : ℕ → Option (Option (List ℕ))
timed name = if name == shard_name made_manifest 1 then none else some (answers name)

reconstruct_with_async_lem_example :
    reconstruct_with_async made_manifest timed
    ≡ reconstruct_with made_manifest (λ name. in_time (timed name))
reconstruct_with_async_lem_example = reconstruct_with_async_lem made_manifest timed
