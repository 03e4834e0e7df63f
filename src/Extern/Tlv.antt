-- ===== src/Extern/Tlv.antt =====
-- `ndn_tlv::{TlvWriter, TlvReader}` and the TLV codec of `ndn_packet::Name`. A byte is a number,
-- a writer is what it has written, a reader what it has still to read.
use ndn_repo.Base.{ℕ, ◌≡◌, ◌≤◌, ◌<◌, ◌^◌, Option, none, some, List, [], ◌++◌, length}

-- What the address space holds.
abbrev pub IsAddressable : List ℕ → Type 0
IsAddressable bytes = length bytes < 2 ^ 64

pub record Tlv : Type 0 where
  -- What a call of `write_tlv(typ, value)` appends.
  pub write_tlv : ℕ → List ℕ → List ℕ
  -- What `write_nested(typ, f)` appends, from what `f` writes.
  pub write_nested : ℕ → List ℕ → List ℕ
  -- The type, the value and what follows; `none` for the error.
  pub read_tlv : List ℕ → Option (ℕ × List ℕ × List ℕ)
  pub nested_lem : (typ : ℕ) (body : List ℕ) → write_nested typ body ≡ write_tlv typ body
  pub write_longer : (typ : ℕ) (value : List ℕ) → length value < length (write_tlv typ value)
  pub read_empty : read_tlv [] ≡ none
  pub read_shorter :
      (bytes : List ℕ) (typ : ℕ) (value rest : List ℕ)
      → read_tlv bytes ≡ some (typ, value, rest)
      → length rest < length bytes
  -- The types of an NDN TLV start at 1; those of this program have at most two octets.
  pub read_write :
      (typ : ℕ) (value rest : List ℕ)
      → 1 ≤ typ
      → typ < 65536
      → IsAddressable value
      → read_tlv (write_tlv typ value ++ rest) ≡ some (typ, value, rest)

-- `Name::encode_to_tlv` and `Name::decode_from_tlv`, whose error is `none`.
pub record NameCodec (N : Type 0) : Type 0 where
  pub encode_to_tlv : N → List ℕ
  pub decode_from_tlv : List ℕ → Option N
  pub decode_encode : (n : N) → decode_from_tlv (encode_to_tlv n) ≡ some n
