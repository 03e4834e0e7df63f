-- ===== src/Wire/Nni.antt =====
-- crates/ndn-repo/src/tlv.rs and crates/ndn-repo-cluster/src/msg.rs: the non-negative integer of
-- NDN, in 1, 2, 4 or 8 octets, and its reading, which is alike in both files.
use ndn_repo.Base.{
  ℕ, zero, suc, ◌+◌, ◌*◌, ◌/◌, ◌%◌, ◌^◌, ◌<◌, ◌≤◌, ◌≡◌, refl, ◌∙◌, List, [], ◌∷◌, ◌++◌, leb, arith,
  if◌then◌else◌, length,
}

-- `to_be_bytes` of the low `k` octets.
unfoldable pub be_bytes : ℕ → ℕ → List ℕ
be_bytes zero v = []
be_bytes (suc k) v = be_bytes k (v / 256) ++ (v % 256) ∷ []

-- The shortest of the four widths.
unfoldable pub nni_bytes : ℕ → List ℕ
nni_bytes v =
    if leb v 255
    then be_bytes 1 v
    else if leb v 65535
    then be_bytes 2 v
    else if leb v 4294967295
    then be_bytes 4 v
    else be_bytes 8 v

-- `(v << 8) | b` of a u64 and an octet: the shift drops what passes bit 63, and leaves the low
-- octet 0, so that `|` adds.
unfoldable pub push_octet : ℕ → ℕ → ℕ
push_octet v b = v * 256 % 2 ^ 64 + b

unfoldable pub decode_nni_from : ℕ → List ℕ → ℕ
unfolding push_octet
decode_nni_from v [] = v
decode_nni_from v (b ∷ bytes) = decode_nni_from (push_octet v b) bytes

unfoldable pub decode_nni : List ℕ → ℕ
unfolding decode_nni_from
decode_nni bytes = decode_nni_from 0 bytes

decode_nni_from-append :
    (v : ℕ) (xs ys : List ℕ)
    → decode_nni_from v (xs ++ ys) ≡ decode_nni_from (decode_nni_from v xs) ys
unfolding decode_nni_from
decode_nni_from-append v [] ys = refl
decode_nni_from-append v (x ∷ xs) ys = decode_nni_from-append (push_octet v x) xs ys

-- The octets of a number that fits 64 bits are read back.
decode_nni_from-be_bytes :
    (k v : ℕ) → v < 256 ^ k → v < 2 ^ 64 → decode_nni_from 0 (be_bytes k v) ≡ v
unfolding be_bytes decode_nni_from push_octet
decode_nni_from-be_bytes zero v h small = omega arith
decode_nni_from-be_bytes (suc k) v h small =
    decode_nni_from-append 0 (be_bytes k (v / 256)) ((v % 256) ∷ [])
    ∙ rw (decode_nni_from-be_bytes k (v / 256) (omega arith) (omega arith)) (omega arith)

-- `decode_nni` reads back every u64 that the writer wrote.
pub decode_nni-nni_bytes : (v : ℕ) → v < 2 ^ 64 → decode_nni (nni_bytes v) ≡ v
unfolding decode_nni nni_bytes
decode_nni-nni_bytes v h = ground (
  arith,
  decode_nni_from-be_bytes 1 v,
  decode_nni_from-be_bytes 2 v,
  decode_nni_from-be_bytes 4 v,
  decode_nni_from-be_bytes 8 v,
)

-- A number takes at most 8 octets.
pub length-nni_bytes : (v : ℕ) → length (nni_bytes v) ≤ 8
unfolding nni_bytes be_bytes
length-nni_bytes v = ground arith
