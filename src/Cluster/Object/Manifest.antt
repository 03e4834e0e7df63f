-- ===== src/Cluster/Object/Manifest.antt =====
-- crates/ndn-repo-cluster/src/erasure.rs: the wire form of a manifest.
use ndn_repo.Base.{
  ℕ, ◌+◌, ◌*◌, ◌%◌, ◌^◌, ◌≡◌, ◌≤◌, ◌<◌, refl, ap, ◌∙◌, sym, true, false, some, List, ◌++◌, length,
  take, length-append, length-take, ltb, ◌==◌, All, arith,
}
use mathlib.Core.List.{flatten}
use ndn_repo.Extern.Tlv.{NameCodec}
use ndn_repo.Wire.Nni.{be_bytes}
use ndn_repo.Wire.Slices.{skip, take-append, skip-append, skip-skip, length-skip}
use ndn_repo.Wire.Words.{
  from_be_bytes-be_bytes, length-be_bytes, as_chunks, as_chunks-flatten, length-flatten,
}
use ndn_repo.Cluster.Object.{ErasureManifest, to_bytes, from_bytes, manifest_body}

same_size : (a : ℕ) → (a == a) ≡ true
same_size a = ground arith

-- The parts of four fields of 2, 2, 8 and 4 octets and one of 4, and what follows them.
layout :
    (a b c d e rest : List ℕ)
    → length a ≡ 2
    → length b ≡ 2
    → length c ≡ 8
    → length d ≡ 4
    → length e ≡ 4
    → let w = a ++ (b ++ (c ++ (d ++ (e ++ rest)))) in
      (take 2 w ≡ a)
      × (take 2 (skip 2 w) ≡ b)
      × (take 8 (skip 4 w) ≡ c)
      × (take 4 (skip 12 w) ≡ d)
      × (take 4 (skip 16 w) ≡ e)
      × (skip 20 w ≡ rest)
layout a b c d e rest ha hb hc hd he =
    let w = a ++ (b ++ (c ++ (d ++ (e ++ rest)))) in
    let at2 = skip-append 2 a (b ++ (c ++ (d ++ (e ++ rest)))) ha in
    let at4 =
      sym (skip-skip 2 2 4 w refl)
      ∙ ap (skip 2) at2
      ∙ skip-append 2 b (c ++ (d ++ (e ++ rest))) hb in
    let at12 =
      sym (skip-skip 4 8 12 w refl) ∙ ap (skip 8) at4 ∙ skip-append 8 c (d ++ (e ++ rest)) hc in
    let at16 = sym (skip-skip 12 4 16 w refl) ∙ ap (skip 4) at12 ∙ skip-append 4 d (e ++ rest) hd in
    let at20 = sym (skip-skip 16 4 20 w refl) ∙ ap (skip 4) at16 ∙ skip-append 4 e rest he in
    (
      take-append 2 a _ ha,
      ap (take 2) at2 ∙ take-append 2 b _ hb,
      ap (take 8) at4 ∙ take-append 8 c _ hc,
      ap (take 4) at12 ∙ take-append 4 d _ hd,
      ap (take 4) at16 ∙ take-append 4 e _ he,
      at20,
    )

-- The numbers fit their fields, the octets of the name fit a u32, and there are n hashes of 32 octets.
pub record IsManifest {N : Type 0} ⦃c : NameCodec N⦄ (m : ErasureManifest N) : Type 0 where
  pub k_u16 : m.k < 256 ^ 2
  pub n_u16 : m.n < 256 ^ 2
  pub original_len_u64 : m.original_len < 256 ^ 8
  pub shard_len_u32 : m.shard_len < 256 ^ 4
  pub name_u32 : length (c.encode_to_tlv m.object) < 256 ^ 4
  pub all_hashes : length m.shard_hashes ≡ m.n
  pub hashes_32 : All (λ hash. length hash ≡ 32) m.shard_hashes

module _ {N : Type 0} ⦃c : NameCodec N⦄ where
  manifest_body_lem :
      (m : ErasureManifest N) (b : List ℕ)
      → IsManifest m
      → 20 ≤ length b
      → skip 20 b ≡ c.encode_to_tlv m.object ++ flatten m.shard_hashes
      → manifest_body m.k m.n m.original_len m.shard_len (length (c.encode_to_tlv m.object)) b
        ≡ some m
  unfolding manifest_body
  manifest_body_lem m b ok long after =
      let name = c.encode_to_tlv m.object in
      let hashes = flatten m.shard_hashes in
      let sized : length hashes ≡ 32 * m.n =
        omega (arith, length-flatten 32 m.shard_hashes ok.hashes_32, ok.all_hashes) in
      let room : ltb (length b) (20 + length name) ≡ false =
        ground (arith, length-skip 20 b, ap length after, length-append name hashes) in
      let read : c.decode_from_tlv (take (length name) (skip 20 b)) ≡ some m.object =
        ap (λ xs. c.decode_from_tlv (take (length name) xs)) after
        ∙ ap c.decode_from_tlv (take-append (length name) name hashes refl)
        ∙ c.decode_encode m.object in
      let tail : skip (20 + length name) b ≡ hashes =
        sym (skip-skip 20 (length name) (20 + length name) b refl)
        ∙ ap (skip (length name)) after
        ∙ skip-append (length name) name hashes refl in
      let parts : as_chunks 32 hashes ≡ m.shard_hashes =
        as_chunks-flatten 32 m.shard_hashes (omega arith) ok.hashes_32 in
      rw (room, read, tail, sized, same_size (32 * m.n), parts) refl

  -- Where the fields of a wire form stand.
  to_bytes_fields :
      (m : ErasureManifest N)
      → (take 2 (to_bytes m) ≡ be_bytes 2 m.k)
        × (take 2 (skip 2 (to_bytes m)) ≡ be_bytes 2 m.n)
        × (take 8 (skip 4 (to_bytes m)) ≡ be_bytes 8 m.original_len)
        × (take 4 (skip 12 (to_bytes m)) ≡ be_bytes 4 m.shard_len)
        × (take 4 (skip 16 (to_bytes m)) ≡ be_bytes 4 (length (c.encode_to_tlv m.object) % 2 ^ 32))
        × (skip 20 (to_bytes m) ≡ c.encode_to_tlv m.object ++ flatten m.shard_hashes)
  unfolding to_bytes
  to_bytes_fields m =
      layout (be_bytes 2 m.k) (be_bytes 2 m.n) (be_bytes 8 m.original_len) (be_bytes 4 m.shard_len)
        (be_bytes 4 (length (c.encode_to_tlv m.object) % 2 ^ 32))
        (c.encode_to_tlv m.object ++ flatten m.shard_hashes) (length-be_bytes 2 _)
        (length-be_bytes 2 _) (length-be_bytes 8 _) (length-be_bytes 4 _) (length-be_bytes 4 _)

  -- A manifest is read back from its wire form, if its numbers and the octets of its name fit their
  -- fields, and it has n hashes of 32 octets.
  pub from_bytes-to_bytes :
      (m : ErasureManifest N) → IsManifest m → from_bytes (to_bytes m) ≡ some m
  unfolding from_bytes
  from_bytes-to_bytes m ok =
      let (k, n, len, shard, name, after) = to_bytes_fields m in
      let long : 20 ≤ length (to_bytes m) = omega (
        arith,
        ap length name,
        length-be_bytes 4 (length (c.encode_to_tlv m.object) % 2 ^ 32),
        length-take 4 (skip 16 (to_bytes m)),
        length-skip 16 (to_bytes m),
      ) in
      let fits : ltb (length (to_bytes m)) 20 ≡ false = ground arith in
      let small : length (c.encode_to_tlv m.object) % 2 ^ 32 ≡ length (c.encode_to_tlv m.object) =
        omega (arith, ok.name_u32) in
      rw
        (
          fits,
          k,
          n,
          len,
          shard,
          name,
          small,
          from_be_bytes-be_bytes 2 m.k ok.k_u16,
          from_be_bytes-be_bytes 2 m.n ok.n_u16,
          from_be_bytes-be_bytes 8 m.original_len ok.original_len_u64,
          from_be_bytes-be_bytes 4 m.shard_len ok.shard_len_u32,
          from_be_bytes-be_bytes 4 (length (c.encode_to_tlv m.object)) ok.name_u32,
        )
        (manifest_body_lem m (to_bytes m) ok long after)
