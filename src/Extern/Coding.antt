-- ===== src/Extern/Coding.antt =====
-- `ndn_coding::{Encoder, Decoder}`, the systematic Reed-Solomon codec, and the digest of `sha2`.
use ndn_repo.Base.{
  ℕ, ◌≡◌, ◌≤◌, ◌<◌, Bool, true, false, Option, some, List, [], ◌∷◌, ◌++◌, length, get_elem?, All,
  leb,
}
use ndn_repo.Base.Order.{nat_ord}
use ndn_repo.Collections.Distinct.{contains}

-- The calls. An error of a call is `none`; of `absorb`, `false`.
pub record Codec : Type 1 where
  pub Encoder : Type 0
  pub Decoder : Type 0
  pub enc_new : ℕ → ℕ → Option Encoder
  pub feed : Encoder → List ℕ → Option Encoder
  pub parity : Encoder → ℕ → Option (List ℕ)
  pub dec_new : ℕ → ℕ → Option Decoder
  pub absorb : Decoder → ℕ → List ℕ → Decoder × Bool
  pub is_complete : Decoder → Bool
  pub recover : Decoder → Option (List (List ℕ))

-- What the codec does for k source shards of n: `coded` is the shard at an index, `Fed` an encoder
-- with what it was fed, `Holds` a decoder with the indices that it has absorbed.
pub record IsCodec (c : Codec) (k n : ℕ) : Type 1 where
  pub coded : List (List ℕ) → ℕ → List ℕ
  pub Fed : c.Encoder → List (List ℕ) → Type 0
  pub Holds : c.Decoder → List (List ℕ) → List ℕ → Type 0
  pub coded_source :
      (segs : List (List ℕ)) (i : ℕ) (seg : List ℕ)
      → get_elem? segs i ≡ some seg
      → i < k
      → coded segs i ≡ seg
  pub coded_length :
      (size : ℕ) (segs : List (List ℕ)) (i : ℕ)
      → length segs ≡ k
      → All (λ seg. length seg ≡ size) segs
      → i < n
      → length (coded segs i) ≡ size
  pub enc_new_lem : (e : c.Encoder) × (c.enc_new k n ≡ some e) × Fed e []
  pub feed_lem :
      (e : c.Encoder) (segs : List (List ℕ)) (seg : List ℕ)
      → Fed e segs
      → length segs < k
      → All (λ s. length s ≡ length seg) segs
      → (e' : c.Encoder) × (c.feed e seg ≡ some e') × Fed e' (segs ++ seg ∷ [])
  pub parity_lem :
      (e : c.Encoder) (segs : List (List ℕ)) (i : ℕ)
      → Fed e segs
      → length segs ≡ k
      → k ≤ i
      → i < n
      → c.parity e i ≡ some (coded segs i)
  pub dec_new_lem :
      (segs : List (List ℕ))
      → length segs ≡ k
      → (d : c.Decoder) × (c.dec_new k n ≡ some d) × Holds d segs []
  pub absorb_lem :
      (d : c.Decoder) (segs : List (List ℕ)) (held : List ℕ) (i : ℕ)
      → Holds d segs held
      → length held < k
      → contains held i ≡ false
      → i < n
      → ((c.absorb d i (coded segs i)).1 ≡ true)
        × Holds (c.absorb d i (coded segs i)).0 segs (i ∷ held)
  pub complete_lem :
      (d : c.Decoder) (segs : List (List ℕ)) (held : List ℕ)
      → Holds d segs held
      → c.is_complete d ≡ leb k (length held)
  pub recover_lem :
      (d : c.Decoder) (segs : List (List ℕ)) (held : List ℕ)
      → Holds d segs held
      → k ≤ length held
      → c.recover d ≡ some segs

pub record Sha256 : Type 0 where
  pub sha256 : List ℕ → List ℕ
  pub length_sha256 : (bytes : List ℕ) → length (sha256 bytes) ≡ 32
