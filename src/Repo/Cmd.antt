-- ===== src/Repo/Cmd.antt =====
-- crates/ndn-repo/src/tlv.rs: the repository's commands and replies, and their codec. A `Name` is
-- an `N` with its TLV codec, a `String` the octets of its UTF-8 text.
pub mod TlvType
pub mod Names
pub mod JoinTrip
pub mod RoundTrip
use ndn_repo.Base.{
  ℕ, ◌≡◌, Bool, true, false, Option, none, some, List, [], ◌∷◌, ◌++◌, map, ◌==◌, if◌then◌else◌,
}
use mathlib.Core.List.{flatten}
use ndn_repo.Extern.Tlv.{Tlv, NameCodec}
use ndn_repo.Wire.Nni.{nni_bytes, decode_nni}
use ndn_repo.Wire.Fields.{read_fields, ◌>>=◌}
use ndn_repo.Wire.Utf8.{is_utf8}

pub record SyncJoin (N : Type 0) : Type 0 where
  pub protocol : Option N
  pub group : Option N
  pub multicast_prefix : Option N
  pub history_threshold : Option ℕ
  pub security_config : Option N

pub record SyncLeave (N : Type 0) : Type 0 where
  pub protocol : Option N
  pub group : Option N

-- A `Bytes` is the list of its octets; the inline packets come in the order of the wire.
pub record BlobFetch (N : Type 0) : Type 0 where
  pub name : Option N
  pub packets : List (List ℕ)

pub data RepoCmd (N : Type 0) : Type 0 where
  sync_join : SyncJoin N → RepoCmd N
  sync_leave : SyncLeave N → RepoCmd N
  blob_fetch : BlobFetch N → RepoCmd N

pub record RepoCmdRes : Type 0 where
  pub status : ℕ
  pub message : List ℕ

module _ ⦃w : Tlv⦄ where
  unfoldable pub write_nni : ℕ → ℕ → List ℕ
  write_nni typ value = w.write_tlv typ (nni_bytes value)

unfoldable pub ok : RepoCmdRes
ok = record { status = 200; message = [] }

unfoldable pub err : ℕ → List ℕ → RepoCmdRes
err status message = record { status = status; message = message }

module _ ⦃w : Tlv⦄ where
  -- An empty message is not written.
  unfoldable pub encode_message : List ℕ → List ℕ
  encode_message [] = []
  encode_message (b ∷ bytes) = w.write_tlv TlvType.res_message (b ∷ bytes)

  -- `RepoCmdRes::encode`
  unfoldable pub encode_res : RepoCmdRes → List ℕ
  encode_res r = write_nni TlvType.res_status r.status ++ encode_message r.message

  unfoldable pub res_field : ℕ → List ℕ → RepoCmdRes → Option RepoCmdRes
  res_field typ value r =
      if typ == TlvType.res_status
      then some (record r { status = decode_nni value })
      else if typ == TlvType.res_message
      then (if is_utf8 value then some (record r { message = value }) else none)
      else some r

  -- `RepoCmdRes::decode`
  unfoldable pub decode_res : List ℕ → Option RepoCmdRes
  decode_res value = read_fields res_field value (record { status = 0; message = [] })

module _ ⦃w : Tlv⦄ where
  unfoldable pub encode_threshold : Option ℕ → List ℕ
  encode_threshold none = []
  encode_threshold (some t) =
      w.write_nested TlvType.history_snapshot (write_nni TlvType.history_threshold t)

  unfoldable pub encode_packets : List (List ℕ) → List ℕ
  encode_packets [] = []
  encode_packets (d ∷ packets) = w.write_tlv TlvType.blob_data d ++ encode_packets packets

  -- One round of the inner loop over a history snapshot.
  unfoldable pub snapshot_field : ℕ → List ℕ → Option ℕ → Option (Option ℕ)
  snapshot_field typ value t =
      some (if typ == TlvType.history_threshold then some (decode_nni value) else t)

module _ {N : Type 0} ⦃w : Tlv⦄ ⦃c : NameCodec N⦄ where
  unfoldable pub name_container_opt : ℕ → Option N → List ℕ
  name_container_opt typ none = []
  name_container_opt typ (some name) = w.write_nested typ (c.encode_to_tlv name)

  unfoldable pub encode_sync_join : SyncJoin N → List ℕ
  encode_sync_join j =
      name_container_opt TlvType.protocol j.protocol
      ++ (name_container_opt TlvType.group j.group
          ++ (name_container_opt TlvType.multicast_prefix j.multicast_prefix
              ++ (encode_threshold j.history_threshold
                  ++ name_container_opt TlvType.security_config j.security_config)))

  unfoldable pub encode_sync_leave : SyncLeave N → List ℕ
  encode_sync_leave l =
      name_container_opt TlvType.protocol l.protocol ++ name_container_opt TlvType.group l.group

  unfoldable pub encode_blob_fetch : BlobFetch N → List ℕ
  encode_blob_fetch b = name_container_opt TlvType.blob_name b.name ++ encode_packets b.packets

  unfoldable pub encode : RepoCmd N → List ℕ
  encode (sync_join j) = w.write_nested TlvType.sync_join (encode_sync_join j)
  encode (sync_leave l) = w.write_nested TlvType.sync_leave (encode_sync_leave l)
  encode (blob_fetch b) = w.write_nested TlvType.blob_fetch (encode_blob_fetch b)

  -- `decode_name_container`
  abbrev pub decode_name_container : List ℕ → Option N
  decode_name_container value = c.decode_from_tlv value

  unfoldable pub sync_join_field : ℕ → List ℕ → SyncJoin N → Option (SyncJoin N)
  sync_join_field typ value j =
      if typ == TlvType.protocol
      then some (record j { protocol = decode_name_container value })
      else if typ == TlvType.group
      then some (record j { group = decode_name_container value })
      else if typ == TlvType.multicast_prefix
      then some (record j { multicast_prefix = decode_name_container value })
      else if typ == TlvType.history_snapshot
      then (read_fields snapshot_field value j.history_threshold >>= λ t.
          some (record j { history_threshold = t }))
      else if typ == TlvType.security_config
      then some (record j { security_config = decode_name_container value })
      else some j

  unfoldable pub decode_sync_join : List ℕ → Option (SyncJoin N)
  decode_sync_join value = read_fields sync_join_field value (record {
    protocol = none;
    group = none;
    multicast_prefix = none;
    history_threshold = none;
    security_config = none;
  })

  unfoldable pub sync_leave_field : ℕ → List ℕ → SyncLeave N → Option (SyncLeave N)
  sync_leave_field typ value l =
      if typ == TlvType.protocol
      then some (record l { protocol = decode_name_container value })
      else if typ == TlvType.group
      then some (record l { group = decode_name_container value })
      else some l

  unfoldable pub decode_sync_leave : List ℕ → Option (SyncLeave N)
  decode_sync_leave value =
      read_fields sync_leave_field value (record { protocol = none; group = none })

  unfoldable pub blob_fetch_field : ℕ → List ℕ → BlobFetch N → Option (BlobFetch N)
  blob_fetch_field typ value b =
      if typ == TlvType.blob_name
      then some (record b { name = decode_name_container value })
      else if typ == TlvType.blob_data
      then some (record b { packets = b.packets ++ value ∷ [] })
      else some b

  unfoldable pub decode_blob_fetch : List ℕ → Option (BlobFetch N)
  decode_blob_fetch value =
      read_fields blob_fetch_field value (record { name = none; packets = [] })

  -- What follows the first TLV is not read.
  unfoldable pub decode : List ℕ → Option (RepoCmd N)
  decode value = do
    (typ, val, rest) ← w.read_tlv value
    if typ == TlvType.sync_join
        then (decode_sync_join val >>= λ j. some (sync_join j))
        else if typ == TlvType.sync_leave
        then (decode_sync_leave val >>= λ l. some (sync_leave l))
        else if typ == TlvType.blob_fetch
        then (decode_blob_fetch val >>= λ b. some (blob_fetch b))
        else none
