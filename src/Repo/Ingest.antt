-- ===== src/Repo/Ingest.antt =====
-- crates/ndn-repo/src/ingest.rs: the ingest loop of a group, on the events in the order in which
-- `select!` takes them. Beside the world, the loop's acknowledgements are kept.
pub mod Acks
mod Tests
use ndn_repo.Base.{ℕ, zero, suc, ◌+◌, ◌-◌, Bool, true, false, List, [], ◌∷◌, ◌++◌, if◌then◌else◌}
use ndn_repo.Extern.Sync.{SvSync, SyncUpdate}

pub data Event (N : Type 0) : Type 0 where
  update : SyncUpdate N → Event N
  closed : Event N
  cancelled : Event N

-- An acknowledged publication.
pub record Ack (N : Type 0) : Type 0 where
  pub publisher : N
  pub name : N
  pub seq : ℕ

module _ {N : Type 0} where
  unfoldable pub ack_of : SyncUpdate N → ℕ → Ack N
  ack_of u seq = record { publisher = u.publisher; name = u.name; seq = seq }

  unfoldable pub present : {W : Type 0} ⦃v : SvSync N W⦄ → N → SyncUpdate N → W → ℕ → Bool
  present ⦃v⦄ group u w seq = v.found_under w (v.svs_data_name u.name group seq)

module _ {N W : Type 0} ⦃v : SvSync N W⦄ where
  -- The loop over the sequence numbers, from `seq` on.
  unfoldable pub ingest_from : Bool → N → SyncUpdate N → ℕ → ℕ → W → W × List (Ack N)
  ingest_from two_phase group u seq zero w = (w, [])
  ingest_from two_phase group u seq (suc count) w =
      let w' = (v.ingest_publication w u.name seq).0 in
      let (acked, acks) =
        ingest_from two_phase group u (suc seq) count (v.ack w' u.publisher seq) in
      let unacked = ingest_from two_phase group u (suc seq) count w' in
      if two_phase
      then (if present group u w' seq then (acked, ack_of u seq ∷ acks) else (w', []))
      else unacked

  unfoldable pub ingest_update : Bool → N → SyncUpdate N → W → W × List (Ack N)
  ingest_update two_phase group u w =
      ingest_from two_phase group u u.low_seq (suc u.high_seq - u.low_seq) w

  unfoldable pub ingest_group : Bool → N → List (Event N) → W → W × List (Ack N)
  ingest_group two_phase group [] w = (w, [])
  ingest_group two_phase group (closed ∷ events) w = (w, [])
  ingest_group two_phase group (cancelled ∷ events) w = (w, [])
  ingest_group two_phase group (update u ∷ events) w =
      let (w', acks) = ingest_update two_phase group u w in
      let (w'', more) = ingest_group two_phase group events w' in (w'', acks ++ more)
