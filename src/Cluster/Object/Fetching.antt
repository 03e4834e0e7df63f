-- ===== src/Cluster/Object/Fetching.antt =====
-- crates/ndn-repo-cluster/src/erasure.rs: an object read back from shards that are fetched by name.
use ndn_repo.Base.{
  ℕ, zero, suc, ◌+◌, ◌≡◌, ◌≤◌, ◌<◌, ◌⊎◌, refl, ap, false, if◌then◌else◌, Option, none, some, List,
  [], ◌∷◌, All, All-imp, arith, inl, inr, leb, Option-cases,
}
use ndn_repo.Base.Order.{nat_ord}
use ndn_repo.Collections.Distinct.{contains_below}
use ndn_repo.Wire.Fields.{◌>>=◌}
use ndn_repo.Extern.Coding.{Codec, IsCodec, Sha256}
use ndn_repo.Extern.Names.{NameTree}
use ndn_repo.Extern.Store.{DataPacket}
use ndn_repo.Cluster.Object.{ErasureManifest, Shard, shard_name, encode_object}
use ndn_repo.Cluster.Object.Reading.{
  verified, content_of, decode_gathered, gather, gather_timed, reconstruct_with,
  reconstruct_with_async,
}
use ndn_repo.Cluster.Object.Coded.{bytes_at}
use ndn_repo.Cluster.Object.Recover.{Genuine, count, reconstruct-encode_object}

-- What a fetch gives, whether it timed out or not.
abbrev pub in_time : Option (Option (List ℕ)) → Option (List ℕ)
in_time none = none
in_time (some answer) = answer

module _ {N : Type 0} ⦃p : DataPacket N⦄ ⦃t : NameTree N⦄ where
  decode_gathered-gather_timed :
      (m : ErasureManifest N) (fetch : N → Option (Option (List ℕ))) (i total : ℕ)
      → decode_gathered p (gather_timed m fetch i total)
        ≡ gather m (λ name. in_time (fetch name)) i total
  unfolding decode_gathered gather_timed gather content_of
  decode_gathered-gather_timed m fetch i zero = refl
  decode_gathered-gather_timed m fetch i (suc total) =
      let rest = decode_gathered-gather_timed m fetch (suc i) total in
      elim (Option-cases (fetch (shard_name m i))) [
        | inl late ↦ rw (decode_gathered, gather, late) rest
        | inr (none, absent) ↦ rw (decode_gathered, gather, absent) rest
        | inr (some wire, answer) ↦ elim (Option-cases (p.decode_data wire >>= λ d. p.content d)) [
          | inl bad ↦ rw (decode_gathered, gather, answer, bad) rest
          | inr (bytes, good) ↦
              rw (decode_gathered, gather, answer, good) (ap (λ xs. (i, bytes) ∷ xs) rest)
        ]
      ]

  -- The parallel reading gives what the serial one gives on the same answers, a fetch that timed out
  -- being one without an answer.
  pub reconstruct_with_async_lem :
      ⦃c : Codec⦄
      → ⦃h : Sha256⦄ → (m : ErasureManifest N) (fetch : N → Option (Option (List ℕ)))
      → reconstruct_with_async m fetch ≡ reconstruct_with m (λ name. in_time (fetch name))
  unfolding reconstruct_with_async reconstruct_with
  reconstruct_with_async_lem m fetch = rw (decode_gathered-gather_timed m fetch 0 m.n) refl

  module _ ⦃h : Sha256⦄ (m : ErasureManifest N) (shards : List (Shard N))
      (fetch : N → Option (List ℕ)) where
    -- A fetched packet has a shard's bytes as its content, or bytes that do not pass the gate.
    abbrev pub IsHonest : Type 0
    IsHonest =
        (i : ℕ) (bytes : List ℕ)
        → i < m.n
        → content_of p (fetch (shard_name m i)) ≡ some bytes
        → (verified m.shard_hashes i bytes ≡ false) ⊎ (bytes_at shards i ≡ some bytes)

    gather-Genuine :
        (held : List ℕ) (i total : ℕ)
        → IsHonest
        → i + total ≤ m.n
        → All (λ j. j < i) held
        → Genuine shards m.shard_hashes held (gather m fetch i total)
    unfolding gather
    gather-Genuine held i zero honest fit below = tt
    gather-Genuine held i (suc total) honest fit below =
        elim (Option-cases (content_of p (fetch (shard_name m i)))) [
          | inl absent ↦
              rw (gather, absent)
                (gather-Genuine held (suc i) total honest (omega arith)
                  (All-imp (λ j lt. omega arith) held below))
          | inr (bytes, found) ↦ elim (honest i bytes (omega arith) found) [
            | inl bad ↦
                rw (gather, found)
                  (inl (
                    bad,
                    gather-Genuine held (suc i) total honest (omega arith)
                        (All-imp (λ j lt. omega arith) held below),
                  ))
            | inr good ↦
                rw (gather, found)
                  (inr (
                    good,
                    contains_below held i i below (omega arith),
                    gather-Genuine (i ∷ held) (suc i) total honest (omega arith)
                        (omega arith, All-imp (λ j lt. omega arith) held below),
                  ))
          ]
        ]

module _ {N : Type 0} ⦃p : DataPacket N⦄ ⦃t : NameTree N⦄ ⦃c : Codec⦄ ⦃h : Sha256⦄ where
  -- What `reconstruct_with` makes of fetched packets, each of which has the bytes of its shard or bytes
  -- that do not pass the gate: the object if at least k pass it, whichever they are, else nothing.
  pub reconstruct_with-encode_object :
      (k r : ℕ) (law : IsCodec c k (k + r)) (object : N) (content : List ℕ)
      (shards : List (Shard N)) (m : ErasureManifest N) (fetch : N → Option (List ℕ))
      → encode_object object content k r ≡ some (shards, m)
      → IsHonest m shards fetch
      → reconstruct_with m fetch
        ≡ (if leb k (count m.shard_hashes (gather m fetch 0 m.n)) then some content else none)
  unfolding reconstruct_with
  reconstruct_with-encode_object k r law object content shards m fetch encoded honest =
      reconstruct-encode_object k r law object content shards m encoded (gather m fetch 0 m.n)
        (gather-Genuine m shards fetch [] 0 m.n honest (omega arith) tt)
