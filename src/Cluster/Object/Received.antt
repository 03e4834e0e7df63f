-- ===== src/Cluster/Object/Received.antt =====
-- crates/ndn-repo-cluster/src/erasure.rs: what the octets are of which a manifest is read.
use ndn_repo.Base.{
  ℕ, ◌+◌, ◌*◌, ◌≡◌, ◌≤◌, ◌<◌, refl, ap, ◌∙◌, sym, some, List, ◌++◌, length, take, length-take, All,
  arith, Option-cases, inl, inr,
}
use mathlib.Core.List.{flatten}
use ndn_repo.Extern.Tlv.{NameCodec}
use ndn_repo.Wire.Nni.{be_bytes}
use ndn_repo.Wire.Slices.{skip, take-skip, skip-skip, length-skip}
use ndn_repo.Wire.Words.{from_be_bytes, as_chunks, as_chunks_whole, be_bytes-slice}
use ndn_repo.Cluster.Object.{ErasureManifest, from_bytes, manifest_body}

-- A slice and what follows it.
cut : (at k next : ℕ) (b : List ℕ) → next ≡ at + k → skip at b ≡ take k (skip at b) ++ skip next b
cut at k next b e =
    sym (take-skip k (skip at b)) ∙ ap (λ xs. take k (skip at b) ++ xs) (skip-skip at k next b e)

-- The fields of a wire form, and what follows them.
cuts :
    (b : List ℕ) (name_len : ℕ)
    → b
      ≡ take 2 b
        ++ (take 2 (skip 2 b)
            ++ (take 8 (skip 4 b)
                ++ (take 4 (skip 12 b)
                    ++ (take 4 (skip 16 b)
                        ++ (take name_len (skip 20 b) ++ skip (20 + name_len) b)))))
cuts b name_len =
    let at20 = cut 20 name_len (20 + name_len) b refl in
    let at16 = cut 16 4 20 b refl ∙ ap (λ xs. take 4 (skip 16 b) ++ xs) at20 in
    let at12 = cut 12 4 16 b refl ∙ ap (λ xs. take 4 (skip 12 b) ++ xs) at16 in
    let at4 = cut 4 8 12 b refl ∙ ap (λ xs. take 8 (skip 4 b) ++ xs) at12 in
    let at2 = cut 2 2 4 b refl ∙ ap (λ xs. take 2 (skip 2 b) ++ xs) at4 in
    cut 0 2 2 b refl ∙ ap (λ xs. take 2 b ++ xs) at2

module _ {N : Type 0} ⦃c : NameCodec N⦄ where
  -- The wire form of a manifest whose name is written as `name_tlv`.
  abbrev pub wire_form : ErasureManifest N → List ℕ → List ℕ
  wire_form m name_tlv =
      be_bytes 2 m.k
      ++ (be_bytes 2 m.n
          ++ (be_bytes 8 m.original_len
              ++ (be_bytes 4 m.shard_len
                  ++ (be_bytes 4 (length name_tlv) ++ (name_tlv ++ flatten m.shard_hashes)))))

  manifest_body_facts :
      (k n original_len shard_len name_len : ℕ) (b : List ℕ) (m : ErasureManifest N)
      → manifest_body k n original_len shard_len name_len b ≡ some m
      → (m.k ≡ k)
        × (m.n ≡ n)
        × (m.original_len ≡ original_len)
        × (m.shard_len ≡ shard_len)
        × (20 + name_len ≤ length b)
        × (c.decode_from_tlv (take name_len (skip 20 b)) ≡ some m.object)
        × (m.shard_hashes ≡ as_chunks 32 (skip (20 + name_len) b))
        × (length (skip (20 + name_len) b) ≡ 32 * n)
  unfolding manifest_body
  manifest_body_facts k n original_len shard_len name_len b m read =
      let hashes = skip (20 + name_len) b in
      elim (Option-cases (c.decode_from_tlv (take name_len (skip 20 b)))) [
        | inl bad ↦ absurd (ground (arith, read, bad))
        | inr (object, good) ↦
            let made : m ≡ record {
              object = object;
              k = k;
              n = n;
              original_len = original_len;
              shard_len = shard_len;
              shard_hashes = as_chunks 32 hashes;
            } =
              ground (arith, read, good) in
            (
              ap (λ x. x.k) made,
              ap (λ x. x.n) made,
              ap (λ x. x.original_len) made,
              ap (λ x. x.shard_len) made,
              ground (arith, read),
              good ∙ ap (λ x. some x.object) (sym made),
              ap (λ x. x.shard_hashes) made,
              ground (arith, read, good),
            )
      ]

  -- The octets of which a manifest is read are its wire form, with octets of the name that read as its
  -- name: none is passed over, and none is left. It has as many hashes as shards, of 32 octets each.
  pub from_bytes-wire_form :
      (b : List ℕ) (m : ErasureManifest N)
      → All (λ octet. octet < 256) b
      → from_bytes b ≡ some m
      → (name_tlv : List ℕ) × (c.decode_from_tlv name_tlv ≡ some m.object)
        × (b ≡ wire_form m name_tlv)
        × (length m.shard_hashes ≡ m.n)
        × All (λ hash. length hash ≡ 32) m.shard_hashes
  unfolding from_bytes
  from_bytes-wire_form b m octets read =
      let long : 20 ≤ length b = ground (arith, read) in
      let name_len = from_be_bytes (take 4 (skip 16 b)) in
      let body : manifest_body (from_be_bytes (take 2 b)) (from_be_bytes (take 2 (skip 2 b)))
            (from_be_bytes (take 8 (skip 4 b))) (from_be_bytes (take 4 (skip 12 b))) name_len b
          ≡ some m =
        ground (arith, read) in
      let (k, n, len, shard, room, named, cut_up, full) = manifest_body_facts _ _ _ _ _ b m body in
      let (many, sized, whole) =
        as_chunks_whole 32 (from_be_bytes (take 2 (skip 2 b))) (skip (20 + name_len) b)
          (omega arith) full in
      let name_size : length (take name_len (skip 20 b)) ≡ name_len =
        omega (arith, length-take name_len (skip 20 b), length-skip 20 b) in
      (
        take name_len (skip 20 b),
        named,
        rw
            (
              k,
              n,
              len,
              shard,
              name_size,
              cut_up,
              whole,
              be_bytes-slice 2 0 b (omega arith) octets,
              be_bytes-slice 2 2 b (omega arith) octets,
              be_bytes-slice 8 4 b (omega arith) octets,
              be_bytes-slice 4 12 b (omega arith) octets,
              be_bytes-slice 4 16 b (omega arith) octets,
            )
            (cuts b name_len),
        rw cut_up (many ∙ sym n),
        rw cut_up sized,
      )
