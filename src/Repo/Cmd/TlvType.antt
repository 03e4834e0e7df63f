-- ===== src/Repo/Cmd/TlvType.antt =====
-- crates/ndn-repo/src/tlv.rs, `tlv_type`: the type codes of ndnd's repo/tlv/definitions.go.
use ndn_repo.Base.{ℕ}

abbrev pub sync_join : ℕ
sync_join = 0x1db0

abbrev pub sync_leave : ℕ
sync_leave = 0x1db1

abbrev pub blob_fetch : ℕ
blob_fetch = 0x1db2

abbrev pub protocol : ℕ
protocol = 0x191

abbrev pub group : ℕ
group = 0x193

abbrev pub multicast_prefix : ℕ
multicast_prefix = 0x194

abbrev pub history_snapshot : ℕ
history_snapshot = 0x1a4

abbrev pub history_threshold : ℕ
history_threshold = 0x1a5

abbrev pub security_config : ℕ
security_config = 0x1db4

abbrev pub blob_name : ℕ
blob_name = 0x1b8

abbrev pub blob_data : ℕ
blob_data = 0x1ba

abbrev pub res_status : ℕ
res_status = 0x291

abbrev pub res_message : ℕ
res_message = 0x292
