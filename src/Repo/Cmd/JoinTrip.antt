-- ===== src/Repo/Cmd/JoinTrip.antt =====
-- crates/ndn-repo/src/tlv.rs: `SyncJoin` through the encoder and the decoder.
use mathlib.Core.List.{append-nil}
use ndn_repo.Base.{ℕ, ◌≡◌, ◌<◌, ◌^◌, refl, sym, ap, ◌∙◌, Option, none, some, List, [], ◌++◌, arith}
use ndn_repo.Extern.Tlv.{Tlv, NameCodec, IsAddressable}
use ndn_repo.Wire.Nni.{nni_bytes, decode_nni-nni_bytes}
use ndn_repo.Wire.Fields.{
  read_fields, read_fields-write, read_fields-nil, IsAddressable-left, IsAddressable-right,
  IsAddressable-value,
}
use ndn_repo.Repo.Cmd.{
  SyncJoin, write_nni, name_container_opt, encode_threshold, encode_sync_join, snapshot_field,
  sync_join_field, decode_sync_join,
}
use ndn_repo.Repo.Cmd.TlvType
use ndn_repo.Repo.Cmd.Names.{Takes, read_fields-name, read_fields-name_last}

-- A threshold is a u64.
abbrev pub IsThreshold : Option ℕ → Type 0
IsThreshold none = Unit
IsThreshold (some t) = t < 2 ^ 64

module _ ⦃w : Tlv⦄ where
  read_snapshot :
      (t : ℕ)
      → t < 2 ^ 64
      → IsAddressable (write_nni TlvType.history_threshold t)
      → read_fields snapshot_field (write_nni TlvType.history_threshold t) none ≡ some (some t)
  unfolding write_nni snapshot_field
  read_snapshot t h fits =
      ap (λ xs. read_fields snapshot_field xs none)
        (sym (append-nil (w.write_tlv 421 (nni_bytes t))))
      ∙ read_fields-write snapshot_field 421 (nni_bytes t) [] none (omega arith) (omega arith)
          (IsAddressable-value 421 (nni_bytes t) fits)
      ∙ read_fields-nil snapshot_field _
      ∙ rw (decode_nni-nni_bytes t h)

module _ {N : Type 0} ⦃w : Tlv⦄ ⦃c : NameCodec N⦄ where
  abbrev join : Option N → Option N → Option N → Option ℕ → Option N → SyncJoin N
  join p g m t s = record {
    protocol = p;
    group = g;
    multicast_prefix = m;
    history_threshold = t;
    security_config = s;
  }

  Takes-protocol :
      (p : Option N)
      → Takes sync_join_field TlvType.protocol p
          (join none none none none none)
          (join p none none none none)
  unfolding sync_join_field
  Takes-protocol none = refl
  Takes-protocol (some n) = rw (c.decode_encode n)

  Takes-group :
      (p g : Option N)
      → Takes sync_join_field TlvType.group g (join p none none none none) (join p g none none none)
  unfolding sync_join_field
  Takes-group p none = refl
  Takes-group p (some n) = rw (c.decode_encode n)

  Takes-multicast :
      (p g m : Option N)
      → Takes sync_join_field TlvType.multicast_prefix m
          (join p g none none none)
          (join p g m none none)
  unfolding sync_join_field
  Takes-multicast p g none = refl
  Takes-multicast p g (some n) = rw (c.decode_encode n)

  Takes-security :
      (p g m : Option N) (t : Option ℕ) (s : Option N)
      → Takes sync_join_field TlvType.security_config s (join p g m t none) (join p g m t s)
  unfolding sync_join_field
  Takes-security p g m t none = refl
  Takes-security p g m t (some n) = rw (c.decode_encode n)

  read_threshold :
      (p g m : Option N) (t : Option ℕ) (rest : List ℕ)
      → IsThreshold t
      → IsAddressable (encode_threshold t)
      → read_fields sync_join_field (encode_threshold t ++ rest) (join p g m none none)
        ≡ read_fields sync_join_field rest (join p g m t none)
  unfolding encode_threshold
  read_threshold p g m none rest h fits = refl
  read_threshold p g m (some t) rest h fits = rw (w.nested_lem 420 snapshot) (
      read_fields-write sync_join_field 420 snapshot rest _ (omega arith) (omega arith) value
      ∙ unfold sync_join_field in rw (read_snapshot t h (inner value)))
    where
      snapshot : List ℕ
      snapshot = write_nni TlvType.history_threshold t

      value : IsAddressable snapshot
      value = IsAddressable-value 420 snapshot (rw w.nested_lem at fits)

      inner : IsAddressable snapshot → IsAddressable (write_nni TlvType.history_threshold t)
      inner v = v

  pub decode_sync_join-encode :
      (j : SyncJoin N)
      → IsThreshold j.history_threshold
      → IsAddressable (encode_sync_join j)
      → decode_sync_join (encode_sync_join j) ≡ some j
  unfolding decode_sync_join encode_sync_join
  decode_sync_join-encode j h fits =
      let right₁ = IsAddressable-right (name_container_opt TlvType.protocol j.protocol) _ fits in
      let right₂ = IsAddressable-right (name_container_opt TlvType.group j.group) _ right₁ in
      let right₃ =
        IsAddressable-right (name_container_opt TlvType.multicast_prefix j.multicast_prefix) _
          right₂ in
      let right₄ = IsAddressable-right (encode_threshold j.history_threshold) _ right₃ in
      read_fields-name sync_join_field 401 j.protocol _ _ _ (omega arith) (omega arith)
        (IsAddressable-left _ _ fits) (Takes-protocol j.protocol)
      ∙ read_fields-name sync_join_field 403 j.group _ _ _ (omega arith) (omega arith)
          (IsAddressable-left _ _ right₁) (Takes-group j.protocol j.group)
      ∙ read_fields-name sync_join_field 404 j.multicast_prefix _ _ _ (omega arith) (omega arith)
          (IsAddressable-left _ _ right₂) (Takes-multicast j.protocol j.group j.multicast_prefix)
      ∙ read_threshold j.protocol j.group j.multicast_prefix j.history_threshold _ h
          (IsAddressable-left _ _ right₃)
      ∙ read_fields-name_last sync_join_field 7604 j.security_config _ _ (omega arith) (omega arith)
          right₄
          (Takes-security j.protocol j.group j.multicast_prefix j.history_threshold
            j.security_config)
