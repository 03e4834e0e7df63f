-- ===== src/Repo/Cmd/RoundTrip.antt =====
-- crates/ndn-repo/src/tlv.rs: commands and replies through the encoder and the decoder.
use mathlib.Core.List.{append-nil, append_assoc}
use ndn_repo.Base.{
  ℕ, ◌≡◌, ◌<◌, ◌^◌, refl, sym, ap, ◌∙◌, true, Option, none, some, List, [], ◌∷◌, ◌++◌, arith,
}
use ndn_repo.Extern.Tlv.{Tlv, NameCodec, IsAddressable}
use ndn_repo.Wire.Nni.{nni_bytes, decode_nni-nni_bytes}
use ndn_repo.Wire.Fields.{
  read_fields, read_fields-write, read_fields-nil, IsAddressable-left, IsAddressable-right,
  IsAddressable-value,
}
use ndn_repo.Wire.Utf8.{is_utf8}
use ndn_repo.Repo.Cmd.{
  SyncLeave, BlobFetch, RepoCmd, sync_join, sync_leave, blob_fetch, RepoCmdRes, write_nni,
  encode_res, encode_message, res_field, decode_res, name_container_opt, encode_sync_join,
  encode_sync_leave, encode_packets, encode_blob_fetch, encode, sync_leave_field, decode_sync_leave,
  blob_fetch_field, decode_blob_fetch, decode,
}
use ndn_repo.Repo.Cmd.TlvType
use ndn_repo.Wire.Fields.{read_nested, IsAddressable-body}
use ndn_repo.Repo.Cmd.Names.{Takes, read_fields-name, read_fields-name_last}
use ndn_repo.Repo.Cmd.JoinTrip.{IsThreshold, decode_sync_join-encode}

module _ {N : Type 0} ⦃w : Tlv⦄ ⦃c : NameCodec N⦄ where
  abbrev leave : Option N → Option N → SyncLeave N
  leave p g = record { protocol = p; group = g }

  Takes-protocol :
      (p : Option N) → Takes sync_leave_field TlvType.protocol p (leave none none) (leave p none)
  unfolding sync_leave_field
  Takes-protocol none = refl
  Takes-protocol (some n) = rw (c.decode_encode n)

  Takes-group : (p g : Option N) → Takes sync_leave_field TlvType.group g (leave p none) (leave p g)
  unfolding sync_leave_field
  Takes-group p none = refl
  Takes-group p (some n) = rw (c.decode_encode n)

  decode_sync_leave-encode :
      (l : SyncLeave N)
      → IsAddressable (encode_sync_leave l)
      → decode_sync_leave (encode_sync_leave l) ≡ some l
  unfolding decode_sync_leave encode_sync_leave
  decode_sync_leave-encode l fits =
      read_fields-name sync_leave_field 401 l.protocol _ _ _ (omega arith) (omega arith)
        (IsAddressable-left _ _ fits) (Takes-protocol l.protocol)
      ∙ read_fields-name_last sync_leave_field 403 l.group _ _ (omega arith) (omega arith)
          (IsAddressable-right (name_container_opt TlvType.protocol l.protocol) _ fits)
          (Takes-group l.protocol l.group)

  abbrev blob : Option N → List (List ℕ) → BlobFetch N
  blob n packets = record { name = n; packets = packets }

  Takes-name :
      (n : Option N) → Takes blob_fetch_field TlvType.blob_name n (blob none []) (blob n [])
  unfolding blob_fetch_field
  Takes-name none = refl
  Takes-name (some n) = rw (c.decode_encode n)

  read_packets :
      (n : Option N) (before packets : List (List ℕ))
      → IsAddressable (encode_packets packets)
      → read_fields blob_fetch_field (encode_packets packets) (blob n before)
        ≡ some (blob n (before ++ packets))
  unfolding encode_packets blob_fetch_field
  read_packets n before [] fits = read_fields-nil blob_fetch_field _ ∙ rw append-nil
  read_packets n before (d ∷ packets) fits =
      read_fields-write blob_fetch_field 442 d (encode_packets packets) _ (omega arith)
        (omega arith)
        (IsAddressable-value 442 d (IsAddressable-left _ (encode_packets packets) fits))
      ∙ read_packets n (before ++ d ∷ []) packets
          (IsAddressable-right (w.write_tlv 442 d) (encode_packets packets) fits)
      ∙ rw append_assoc

  decode_blob_fetch-encode :
      (b : BlobFetch N)
      → IsAddressable (encode_blob_fetch b)
      → decode_blob_fetch (encode_blob_fetch b) ≡ some b
  unfolding decode_blob_fetch encode_blob_fetch
  decode_blob_fetch-encode b fits =
      read_fields-name blob_fetch_field 440 b.name _ _ _ (omega arith) (omega arith)
        (IsAddressable-left _ _ fits) (Takes-name b.name)
      ∙ read_packets b.name [] b.packets
          (IsAddressable-right (name_container_opt TlvType.blob_name b.name) _ fits)

  -- The thresholds of a command are u64s.
  abbrev pub IsCmd : RepoCmd N → Type 0
  IsCmd (sync_join j) = IsThreshold j.history_threshold
  IsCmd (sync_leave l) = Unit
  IsCmd (blob_fetch b) = Unit

  -- The decoder reads back every command that the encoder wrote, whichever of its optional fields
  -- are there, if the threshold is a u64 and the encoding fits the address space.
  pub decode-encode_cmd :
      (cmd : RepoCmd N) → IsCmd cmd → IsAddressable (encode cmd) → decode (encode cmd) ≡ some cmd
  unfolding decode encode
  decode-encode_cmd (sync_join j) h fits = rw (
    read_nested TlvType.sync_join (encode_sync_join j) (omega arith) (omega arith) fits,
    decode_sync_join-encode j h (IsAddressable-body TlvType.sync_join _ fits),
  )
  decode-encode_cmd (sync_leave l) h fits = rw (
    read_nested TlvType.sync_leave (encode_sync_leave l) (omega arith) (omega arith) fits,
    decode_sync_leave-encode l (IsAddressable-body TlvType.sync_leave _ fits),
  )
  decode-encode_cmd (blob_fetch b) h fits = rw (
    read_nested TlvType.blob_fetch (encode_blob_fetch b) (omega arith) (omega arith) fits,
    decode_blob_fetch-encode b (IsAddressable-body TlvType.blob_fetch _ fits),
  )

module _ ⦃w : Tlv⦄ where
  res_message :
      (status : ℕ) (message : List ℕ)
      → is_utf8 message ≡ true
      → IsAddressable (encode_message message)
      → read_fields res_field (encode_message message) (record { status = status; message = [] })
        ≡ some (record { status = status; message = message })
  unfolding res_field encode_message
  res_message status [] text fits = read_fields-nil res_field _
  res_message status (b ∷ bytes) text fits =
      ap (λ xs. read_fields res_field xs (record { status = status; message = [] }))
        (sym (append-nil (w.write_tlv 658 (b ∷ bytes))))
      ∙ read_fields-write res_field 658 (b ∷ bytes) [] _ (omega arith) (omega arith)
          (IsAddressable-value 658 (b ∷ bytes) fits)
      ∙ rw text (read_fields-nil res_field _)

  -- A reply is read back, an empty message included, if the status is a u64, the message is UTF-8
  -- and the encoding fits the address space.
  pub decode_res-encode_res :
      (r : RepoCmdRes)
      → r.status < 2 ^ 64
      → is_utf8 r.message ≡ true
      → IsAddressable (encode_res r)
      → decode_res (encode_res r) ≡ some r
  unfolding decode_res encode_res write_nni
  decode_res-encode_res r small text fits =
      read_fields-write res_field 657 (nni_bytes r.status) (encode_message r.message) _
        (omega arith) (omega arith)
        (IsAddressable-value 657 (nni_bytes r.status)
          (IsAddressable-left _ (encode_message r.message) fits))
      ∙ rw (status_field) (
          res_message r.status r.message text
            (IsAddressable-right (w.write_tlv 657 (nni_bytes r.status)) _ fits))
    where
      status_field :
          res_field 657 (nni_bytes r.status) (record { status = 0; message = [] })
          ≡ some (record { status = r.status; message = [] })
      status_field = unfold res_field in rw (decode_nni-nni_bytes r.status small)
