-- ===== src/Cluster/Msg.antt =====
-- crates/ndn-repo-cluster/src/msg.rs: the coordination messages and their codec. A `Name` is an
-- `N` with its TLV codec.
pub mod MsgType
pub mod Read
pub mod RoundTrip
use ndn_repo.Base.{
  ℕ, ◌≡◌, ◌%◌, Bool, true, false, ◌||◌, Option, none, some, List, [], ◌∷◌, ◌++◌, ◌==◌,
  if◌then◌else◌,
}
use ndn_repo.Extern.Tlv.{Tlv, NameCodec}
use ndn_repo.Wire.Nni.{nni_bytes, decode_nni}
use ndn_repo.Wire.Fields.{read_lenient, ◌>>=◌}

pub data ClusterMsg (N : Type 0) : Type 0 where
  -- The node, its capacity used and in total, and the epoch.
  heartbeat : N → ℕ → ℕ → ℕ → ClusterMsg N
  -- The target, the replication factor (0 for the default), and the erasure spec (k, n).
  job : N → ℕ → Option (ℕ × ℕ) → ClusterMsg N
  -- The job, the node and the time.
  claim : N → N → ℕ → ClusterMsg N
  release : N → N → ClusterMsg N

pub record Fields (N : Type 0) : Type 0 where
  pub node : Option N
  pub target : Option N
  pub job_ref : Option N
  pub cap_used : ℕ
  pub cap_total : ℕ
  pub epoch : ℕ
  pub repl : ℕ
  pub ts : ℕ
  pub ec_k : ℕ
  pub ec_n : ℕ

abbrev pub default_fields : {N : Type 0} → Fields N
default_fields = record {
  node = none;
  target = none;
  job_ref = none;
  cap_used = 0;
  cap_total = 0;
  epoch = 0;
  repl = 0;
  ts = 0;
  ec_k = 0;
  ec_n = 0;
}

module _ ⦃w : Tlv⦄ where
  unfoldable pub nni : ℕ → ℕ → List ℕ
  nni typ value = w.write_tlv typ (nni_bytes value)

  unfoldable pub encode_erasure : Option (ℕ × ℕ) → List ℕ
  encode_erasure none = []
  encode_erasure (some (k, n)) = nni MsgType.ec_k k ++ nni MsgType.ec_n n

module _ {N : Type 0} ⦃w : Tlv⦄ ⦃c : NameCodec N⦄ where
  unfoldable pub name_container : ℕ → N → List ℕ
  name_container typ name = w.write_nested typ (c.encode_to_tlv name)

  unfoldable pub encode : ClusterMsg N → List ℕ
  encode (heartbeat node capacity_used capacity_total epoch) = w.write_nested MsgType.heartbeat (
      name_container MsgType.node node
      ++ (nni MsgType.cap_used capacity_used
          ++ (nni MsgType.cap_total capacity_total ++ nni MsgType.epoch epoch)))
  encode (job target replication_factor erasure) = w.write_nested MsgType.job (
      name_container MsgType.target target
      ++ (nni MsgType.repl replication_factor ++ encode_erasure erasure))
  encode (claim job_ref node ts) = w.write_nested MsgType.claim (
      name_container MsgType.job_ref job_ref
      ++ (name_container MsgType.node node ++ nni MsgType.ts ts))
  encode (release job_ref node) =
      w.write_nested MsgType.release
        (name_container MsgType.job_ref job_ref ++ name_container MsgType.node node)

  -- One round of the loop of `Fields::parse`.
  unfoldable pub field : ℕ → List ℕ → Fields N → Fields N
  field typ value f =
      if typ == MsgType.node
      then record f { node = c.decode_from_tlv value }
      else if typ == MsgType.target
      then record f { target = c.decode_from_tlv value }
      else if typ == MsgType.job_ref
      then record f { job_ref = c.decode_from_tlv value }
      else if typ == MsgType.cap_used
      then record f { cap_used = decode_nni value }
      else if typ == MsgType.cap_total
      then record f { cap_total = decode_nni value }
      else if typ == MsgType.epoch
      then record f { epoch = decode_nni value }
      else if typ == MsgType.repl
      then record f { repl = decode_nni value }
      else if typ == MsgType.ts
      then record f { ts = decode_nni value }
      else if typ == MsgType.ec_k
      then record f { ec_k = decode_nni value }
      else if typ == MsgType.ec_n
      then record f { ec_n = decode_nni value }
      else f

  -- `Fields::parse`
  unfoldable pub parse : List ℕ → Fields N
  parse value = read_lenient field value default_fields

  -- The casts to u16 keep the low 16 bits.
  unfoldable pub erasure_of : Fields N → Option (ℕ × ℕ)
  erasure_of f = if f.ec_k == 0 || f.ec_n == 0 then none else some (f.ec_k % 65536, f.ec_n % 65536)

  unfoldable pub message_of : ℕ → Fields N → Option (ClusterMsg N)
  unfolding erasure_of
  message_of typ f =
      if typ == MsgType.heartbeat
      then (f.node >>= λ node. some (heartbeat node f.cap_used f.cap_total f.epoch))
      else if typ == MsgType.job
      then (f.target >>= λ target. some (job target f.repl (erasure_of f)))
      else if typ == MsgType.claim
      then (f.job_ref >>= λ job_ref. f.node >>= λ node. some (claim job_ref node f.ts))
      else if typ == MsgType.release
      then (f.job_ref >>= λ job_ref. f.node >>= λ node. some (release job_ref node))
      else none

  unfoldable pub decode : List ℕ → Option (ClusterMsg N)
  decode value = do (typ, val, rest) ← w.read_tlv value; message_of typ (parse val)
