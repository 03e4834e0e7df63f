-- ===== src/Held/Shards.antt =====
-- crates/ndn-repo/src/held.rs: the shard records of a packet, from its wire and back.
use ndn_repo.Base.{
  ℕ, ◌+◌, ◌-◌, ◌*◌, ◌/◌, ◌%◌, ◌^◌, ◌≡◌, ◌<◌, refl, ap, true, ◌&&◌, ◌||◌, Option, none, some, List,
  [], ◌∷◌, ◌++◌, length, take, length-append, ltb, ◌==◌, min, max, if◌then◌else◌, arith, le→ltb,
}
use ndn_repo.Wire.Nni.{be_bytes}
use ndn_repo.Wire.Fields.{◌>>=◌}
use ndn_repo.Extern.Coding.{Sha256}
use ndn_repo.Wire.Slices.{skip, repeat, bytes_eq, bytes_eq_refl, skip_parts}

pub record Erasure : Type 0 where
  pub k : ℕ
  pub n : ℕ

-- `Erasure::new`, whose error is `none`.
unfoldable pub new_erasure : ℕ → ℕ → Option Erasure
new_erasure k n = if k == 0 || ltb n k || ltb 255 n then none else some (record { k = k; n = n })

unfoldable pub default_erasure : Erasure
default_erasure = record { k = 2; n = 3 }

pub record Shard : Type 0 where
  pub index : ℕ
  pub len : ℕ
  pub digest : List ℕ
  pub body : List ℕ

pub record Assembled : Type 0 where
  pub wire : List ℕ
  pub stale : List ℕ

abbrev pub header : ℕ
header = 1 + 4 + 32 + 32

-- `div_ceil` by a number that is not 0, at least 1.
unfoldable pub shard_size : Erasure → ℕ → ℕ
shard_size e len = max ((len + (e.k - 1)) / e.k) 1

-- `u32::from_be_bytes` of an array of 4.
unfoldable pub u32_of : List ℕ → Option ℕ
u32_of (a ∷ (b ∷ (c ∷ (d ∷ [])))) = some (((a * 256 + b) * 256 + c) * 256 + d)
u32_of _ = none

-- The source segment at `i`, padded with zeros.
unfoldable pub source_segment : List ℕ → ℕ → ℕ → List ℕ
source_segment wire size i =
    let start = min (i * size) (length wire) in
    let end = min ((i + 1) * size) (length wire) in
    take (end - start) (skip start wire) ++ repeat 0 (size - (end - start))

module _ ⦃h : Sha256⦄ where
  -- The closure `record` of `encode`.
  unfoldable pub shard_record : List ℕ → ℕ → List ℕ → List ℕ
  shard_record wire index shard =
      (index % 256)
      ∷ (be_bytes 4 (length wire % 2 ^ 32) ++ (h.sha256 wire ++ (h.sha256 shard ++ shard)))

  -- `ErasureStore::shard`
  unfoldable pub read_shard : Erasure → ℕ → List ℕ → Option Shard
  read_shard e stripe [] = none
  read_shard e stripe (index ∷ bytes) =
      if ltb (length (index ∷ bytes)) header
      then none
      else if index == stripe
      then (u32_of (take 4 bytes) >>= λ len.
          let body = skip 68 bytes in
          if length body == shard_size e len && bytes_eq (h.sha256 body) (take 32 (skip 36 bytes))
          then some (record {
            index = stripe % 65536;
            len = len;
            digest = take 32 (skip 4 bytes);
            body = body;
          })
          else none)
      else none

  u32_of-be_bytes : (v : ℕ) → v < 2 ^ 32 → u32_of (be_bytes 4 v) ≡ some v
  unfolding u32_of be_bytes
  u32_of-be_bytes v small = ap (λ n. some n) (omega arith)

  length-be_bytes : (v : ℕ) → length (be_bytes 4 v) ≡ 4
  unfolding be_bytes
  length-be_bytes v = refl

  -- A stripe reads back the shard that was recorded for it, if the wire has at most u32::MAX octets,
  -- the stripe is one of at most 256, and the shard has the size of the wire's shards.
  pub read_shard-shard_record :
      (e : Erasure) (wire : List ℕ) (stripe : ℕ) (shard : List ℕ)
      → length wire < 2 ^ 32
      → stripe < 256
      → length shard ≡ shard_size e (length wire)
      → read_shard e stripe (shard_record wire stripe shard)
        ≡ some (record { index = stripe; len = length wire; digest = h.sha256 wire; body = shard })
  unfolding read_shard shard_record
  read_shard-shard_record e wire stripe shard small few size =
      let len4 = be_bytes 4 (length wire % 2 ^ 32) in
      let whole : length wire % 2 ^ 32 ≡ length wire = omega arith in
      let (len_part, digest_part, check_part, body_part) =
        skip_parts len4 (h.sha256 wire) (h.sha256 shard) shard (length-be_bytes _)
          (h.length_sha256 wire) (h.length_sha256 shard) in
      rw (
        len_part,
        digest_part,
        check_part,
        body_part,
        u32_of-be_bytes (length wire % 2 ^ 32) (omega arith),
        bytes_eq_refl (h.sha256 shard),
        whole,
        low_octet,
        low_half,
        le→ltb
            (length
              (stripe ∷ (be_bytes 4 (length wire) ++ (h.sha256 wire ++ (h.sha256 shard ++ shard)))))
            header
            (omega (
              arith,
              length-append (be_bytes 4 (length wire)) (h.sha256 wire ++ (h.sha256 shard ++ shard)),
              length-append (h.sha256 wire) (h.sha256 shard ++ shard),
              length-append (h.sha256 shard) shard,
              h.length_sha256 wire,
              h.length_sha256 shard,
              length-be_bytes (length wire),
            )),
        same stripe,
        size,
        same (shard_size e (length wire)),
      )
    where
      low_octet : stripe % 256 ≡ stripe
      low_octet = omega arith

      low_half : stripe % 65536 ≡ stripe
      low_half = omega arith

      same : (v : ℕ) → (v == v) ≡ true
      same v = ground arith
