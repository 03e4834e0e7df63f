-- ===== src/Extern/Sync.antt =====
-- `ndn_sync::SvSync` of a group, as the ingest loop uses it. The world `W` is what the calls change:
-- the network with its replies, the store, the state vectors.
use ndn_repo.Base.{ℕ, ◌≡◌, Bool, true}

pub record SvSync (N W : Type 0) : Type 0 where
  -- Fetches a publication and stores it, if it is valid; the number of packets stored.
  pub ingest_publication : W → N → ℕ → W × ℕ
  -- `svs_data_name(name, group, seq)`.
  pub svs_data_name : N → N → ℕ → N
  -- `store().find_under(name).is_some()`.
  pub found_under : W → N → Bool
  pub ack : W → N → ℕ → W
  -- What the store holds stays, and an acknowledgement is about the vector only.
  pub ingest_keeps :
      (w : W) (name : N) (seq : ℕ) (other : N)
      → found_under w other ≡ true
      → found_under (ingest_publication w name seq).0 other ≡ true
  pub ack_keeps :
      (w : W) (publisher : N) (seq : ℕ) (other : N)
      → found_under w other ≡ true
      → found_under (ack w publisher seq) other ≡ true

-- What a peer's vector shows to be new.
pub record SyncUpdate (N : Type 0) : Type 0 where
  pub publisher : N
  pub name : N
  pub low_seq : ℕ
  pub high_seq : ℕ

-- Of `SvSyncConfig` what this program changes.
pub record SvSyncConfig : Type 0 where
  pub auto_ack : Bool
  pub serve_all_stored : Bool
