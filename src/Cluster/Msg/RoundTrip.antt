-- ===== src/Cluster/Msg/RoundTrip.antt =====
-- crates/ndn-repo-cluster/src/msg.rs: the messages through the encoder and the decoder.
use ndn_repo.Base.{
  ℕ, ◌≡◌, ◌<◌, ◌^◌, ◌∙◌, ◌||◌, Option, none, some, ◌++◌, ◌==◌, if◌then◌else◌, arith,
}
use ndn_repo.Extern.Tlv.{Tlv, NameCodec, IsAddressable}
use ndn_repo.Wire.Nni.{decode_nni-nni_bytes}
use ndn_repo.Wire.Fields.{read_lenient-nil, IsAddressable-left, IsAddressable-right}
use ndn_repo.Cluster.Msg.{
  ClusterMsg, heartbeat, job, claim, release, default_fields, nni, encode_erasure, name_container,
  encode, field, parse, message_of, decode,
}
use ndn_repo.Cluster.Msg.MsgType
use ndn_repo.Wire.Fields.{read_nested, IsAddressable-body}
use ndn_repo.Cluster.Msg.Read.{read_number, read_number_last, read_name, read_name_last}

abbrev IsU64 : ℕ → Type 0
IsU64 v = v < 2 ^ 64

abbrev IsErasure : Option (ℕ × ℕ) → Type 0
IsErasure none = Unit
IsErasure (some (k, n)) = (k < 65536) × (n < 65536)

-- The numbers of a message have the widths of their types.
abbrev pub IsMsg : {N : Type 0} → ClusterMsg N → Type 0
IsMsg (heartbeat node used total epoch) = IsU64 used × IsU64 total × IsU64 epoch
IsMsg (job target r erasure) = IsU64 r × IsErasure erasure
IsMsg (claim job_ref node ts) = IsU64 ts
IsMsg (release job_ref node) = Unit

-- A job with a 0 in its erasure spec is a job without one.
unfoldable pub normal : {N : Type 0} → ClusterMsg N → ClusterMsg N
normal (job target r (some (k, n))) =
    if k == 0 || n == 0 then job target r none else job target r (some (k, n))
normal msg = msg

module _ {N : Type 0} ⦃w : Tlv⦄ ⦃c : NameCodec N⦄ where
  parse-heartbeat :
      (node : N) (used total epoch : ℕ)
      → IsMsg (heartbeat node used total epoch)
      → IsAddressable (
          name_container MsgType.node node
          ++ (nni MsgType.cap_used used
              ++ (nni MsgType.cap_total total ++ nni MsgType.epoch epoch)))
      → parse (
          name_container MsgType.node node
          ++ (nni MsgType.cap_used used
              ++ (nni MsgType.cap_total total ++ nni MsgType.epoch epoch)))
        ≡ record default_fields {
          node = some node;
          cap_used = used;
          cap_total = total;
          epoch = epoch;
        }
  unfolding parse
  parse-heartbeat node used total epoch (hu, ht, he) fits =
      let right₁ = IsAddressable-right (name_container MsgType.node node) _ fits in
      let right₂ = IsAddressable-right (nni MsgType.cap_used used) _ right₁ in
      let right₃ = IsAddressable-right (nni MsgType.cap_total total) _ right₂ in
      read_name field MsgType.node node _ _ (omega arith) (omega arith)
        (IsAddressable-left _ _ fits)
      ∙ read_number field MsgType.cap_used used _ _ (omega arith) (omega arith)
          (IsAddressable-left _ _ right₁)
      ∙ read_number field MsgType.cap_total total _ _ (omega arith) (omega arith)
          (IsAddressable-left _ _ right₂)
      ∙ read_number_last field MsgType.epoch epoch _ (omega arith) (omega arith) right₃
      ∙ unfold field in
        rw (
          c.decode_encode node,
          decode_nni-nni_bytes used hu,
          decode_nni-nni_bytes total ht,
          decode_nni-nni_bytes epoch he,
        )

  parse-job :
      (target : N) (r : ℕ) (erasure : Option (ℕ × ℕ))
      → IsMsg (job target r erasure)
      → IsAddressable
          (name_container MsgType.target target ++ (nni MsgType.repl r ++ encode_erasure erasure))
      → parse
          (name_container MsgType.target target ++ (nni MsgType.repl r ++ encode_erasure erasure))
        ≡ record default_fields {
          target = some target;
          repl = r;
          ec_k = elim erasure [ none ↦ 0 | some (k, n) ↦ k ];
          ec_n = elim erasure [ none ↦ 0 | some (k, n) ↦ n ];
        }
  unfolding parse encode_erasure
  parse-job target r none (hr, he) fits =
      let right₁ = IsAddressable-right (name_container MsgType.target target) _ fits in
      read_name field MsgType.target target _ _ (omega arith) (omega arith)
        (IsAddressable-left _ _ fits)
      ∙ read_number field MsgType.repl r _ _ (omega arith) (omega arith)
          (IsAddressable-left _ _ right₁)
      ∙ read_lenient-nil field _
      ∙ unfold field in rw (c.decode_encode target, decode_nni-nni_bytes r hr)
  parse-job target r (some (k, n)) (hr, he) fits =
      let right₁ = IsAddressable-right (name_container MsgType.target target) _ fits in
      let right₂ = IsAddressable-right (nni MsgType.repl r) _ right₁ in
      let right₃ = IsAddressable-right (nni MsgType.ec_k k) _ right₂ in
      read_name field MsgType.target target _ _ (omega arith) (omega arith)
        (IsAddressable-left _ _ fits)
      ∙ read_number field MsgType.repl r _ _ (omega arith) (omega arith)
          (IsAddressable-left _ _ right₁)
      ∙ read_number field MsgType.ec_k k _ _ (omega arith) (omega arith)
          (IsAddressable-left _ _ right₂)
      ∙ read_number_last field MsgType.ec_n n _ (omega arith) (omega arith) right₃
      ∙ unfold field in
        rw (
          c.decode_encode target,
          decode_nni-nni_bytes r hr,
          decode_nni-nni_bytes k (omega arith),
          decode_nni-nni_bytes n (omega arith),
        )

  parse-claim :
      (job_ref node : N) (ts : ℕ)
      → IsU64 ts
      → IsAddressable (
          name_container MsgType.job_ref job_ref
          ++ (name_container MsgType.node node ++ nni MsgType.ts ts))
      → parse (
          name_container MsgType.job_ref job_ref
          ++ (name_container MsgType.node node ++ nni MsgType.ts ts))
        ≡ record default_fields { job_ref = some job_ref; node = some node; ts = ts }
  unfolding parse
  parse-claim job_ref node ts h fits =
      let right₁ = IsAddressable-right (name_container MsgType.job_ref job_ref) _ fits in
      let right₂ = IsAddressable-right (name_container MsgType.node node) _ right₁ in
      read_name field MsgType.job_ref job_ref _ _ (omega arith) (omega arith)
        (IsAddressable-left _ _ fits)
      ∙ read_name field MsgType.node node _ _ (omega arith) (omega arith)
          (IsAddressable-left _ _ right₁)
      ∙ read_number_last field MsgType.ts ts _ (omega arith) (omega arith) right₂
      ∙ unfold field in
        rw (c.decode_encode job_ref, c.decode_encode node, decode_nni-nni_bytes ts h)

  parse-release :
      (job_ref node : N)
      → IsAddressable (name_container MsgType.job_ref job_ref ++ name_container MsgType.node node)
      → parse (name_container MsgType.job_ref job_ref ++ name_container MsgType.node node)
        ≡ record default_fields { job_ref = some job_ref; node = some node }
  unfolding parse
  parse-release job_ref node fits =
      read_name field MsgType.job_ref job_ref _ _ (omega arith) (omega arith)
        (IsAddressable-left _ _ fits)
      ∙ read_name_last field MsgType.node node _ (omega arith) (omega arith)
          (IsAddressable-right (name_container MsgType.job_ref job_ref) _ fits)
      ∙ unfold field in rw (c.decode_encode job_ref, c.decode_encode node)

  -- The decoder reads back every message that the encoder wrote, if its numbers have the widths of
  -- their types and the encoding fits the address space; only an erasure spec with a 0 in it comes
  -- back as none.
  pub decode-encode :
      (msg : ClusterMsg N)
      → IsMsg msg
      → IsAddressable (encode msg)
      → decode (encode msg) ≡ some (normal msg)
  unfolding decode encode normal message_of
  decode-encode (heartbeat node used total epoch) h fits = rw (
    read_nested MsgType.heartbeat _ (omega arith) (omega arith) fits,
    parse-heartbeat node used total epoch h (IsAddressable-body MsgType.heartbeat _ fits),
  )
  decode-encode (job target r none) h fits = rw (
    read_nested MsgType.job _ (omega arith) (omega arith) fits,
    parse-job target r none h (IsAddressable-body MsgType.job _ fits),
  )
  decode-encode (job target r (some (k, n))) h fits =
      rw
        (
          read_nested MsgType.job _ (omega arith) (omega arith) fits,
          parse-job target r (some (k, n)) h (IsAddressable-body MsgType.job _ fits),
        )
        (ground arith)
  decode-encode (claim job_ref node ts) h fits = rw (
    read_nested MsgType.claim _ (omega arith) (omega arith) fits,
    parse-claim job_ref node ts h (IsAddressable-body MsgType.claim _ fits),
  )
  decode-encode (release job_ref node) h fits = rw (
    read_nested MsgType.release _ (omega arith) (omega arith) fits,
    parse-release job_ref node (IsAddressable-body MsgType.release _ fits),
  )
