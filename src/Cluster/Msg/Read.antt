-- ===== src/Cluster/Msg/Read.antt =====
-- crates/ndn-repo-cluster/src/msg.rs: the reading of one field after its writing.
use mathlib.Core.List.{append-nil}
use ndn_repo.Base.{ℕ, ◌≡◌, ◌≤◌, ◌<◌, sym, ap, ◌∙◌, List, [], ◌++◌}
use ndn_repo.Extern.Tlv.{Tlv, NameCodec, IsAddressable}
use ndn_repo.Wire.Nni.{nni_bytes}
use ndn_repo.Wire.Fields.{read_lenient, read_lenient-write, read_lenient-nil, IsAddressable-value}
use ndn_repo.Cluster.Msg.{nni, name_container}

module _ ⦃w : Tlv⦄ {S : Type 0} (step : ℕ → List ℕ → S → S) where
  pub read_number :
      (typ v : ℕ) (rest : List ℕ) (s : S)
      → 1 ≤ typ
      → typ < 65536
      → IsAddressable (nni typ v)
      → read_lenient step (nni typ v ++ rest) s ≡ read_lenient step rest (step typ (nni_bytes v) s)
  unfolding nni
  read_number typ v rest s lo hi fits =
      read_lenient-write step typ (nni_bytes v) rest s lo hi
        (IsAddressable-value typ (nni_bytes v) fits)

  pub read_number_last :
      (typ v : ℕ) (s : S)
      → 1 ≤ typ
      → typ < 65536
      → IsAddressable (nni typ v)
      → read_lenient step (nni typ v) s ≡ step typ (nni_bytes v) s
  read_number_last typ v s lo hi fits =
      ap (λ xs. read_lenient step xs s) (sym (append-nil (nni typ v)))
      ∙ read_number typ v [] s lo hi fits
      ∙ read_lenient-nil step _

  module _ {N : Type 0} ⦃c : NameCodec N⦄ where
    pub read_name :
        (typ : ℕ) (n : N) (rest : List ℕ) (s : S)
        → 1 ≤ typ
        → typ < 65536
        → IsAddressable (name_container typ n)
        → read_lenient step (name_container typ n ++ rest) s
          ≡ read_lenient step rest (step typ (c.encode_to_tlv n) s)
    unfolding name_container
    read_name typ n rest s lo hi fits = rw w.nested_lem (
        read_lenient-write step typ (c.encode_to_tlv n) rest s lo hi
          (IsAddressable-value typ (c.encode_to_tlv n) (rw w.nested_lem at fits)))

    pub read_name_last :
        (typ : ℕ) (n : N) (s : S)
        → 1 ≤ typ
        → typ < 65536
        → IsAddressable (name_container typ n)
        → read_lenient step (name_container typ n) s ≡ step typ (c.encode_to_tlv n) s
    read_name_last typ n s lo hi fits =
        ap (λ xs. read_lenient step xs s) (sym (append-nil (name_container typ n)))
        ∙ read_name typ n [] s lo hi fits
        ∙ read_lenient-nil step _
