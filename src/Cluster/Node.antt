-- ===== src/Cluster/Node.antt =====
-- crates/ndn-repo-cluster/src/node.rs: the node driver. The asynchronous `run` is a step on each
-- event that its `select!` may take; the channels it sends on are the list of its actions.
pub mod Ticks
pub mod Gossip
pub mod Replication
mod Tests
use ndn_repo.Base.{ℕ, ◌+◌, ◌-◌, ◌%◌, ◌^◌, Option, none, some, List, [], ◌∷◌, ◌++◌, map}
use ndn_repo.Base.Order.{Ord}
use ndn_repo.Extern.Float.{Float}
use ndn_repo.Extern.Tlv.{Tlv, NameCodec}
use ndn_repo.Cluster.Coord.{
  ClusterConfig, ClusterState, ShardPlan, new, observe_heartbeat, observe_job, observe_erasure_job,
  observe_claim, observe_release,
}
use ndn_repo.Cluster.Coord.Queries.{jobs_to_claim, jobs_to_release, shard_plan as state_shard_plan}
use ndn_repo.Cluster.Msg.{ClusterMsg, heartbeat, job, claim, release, encode, decode}

pub record IngestTarget (K : Type 0) : Type 0 where
  pub job_id : K
  pub shard : Option ShardPlan

pub record TickOutcome (K : Type 0) : Type 0 where
  pub publish : List (ClusterMsg K)
  pub ingest : List K
  pub drop : List K

pub record ClusterNode (F K : Type 0) : Type 0 where
  pub self_id : K
  pub state : ClusterState F K
  pub capacity_used : ℕ
  pub capacity_total : ℕ
  pub epoch : ℕ

-- What may happen in `run`: the token is cancelled, a message comes or the channel is closed, or
-- the ticker fires. The clock and the reported capacity come with the event.
pub data Event : Type 0 where
  cancelled : Event
  incoming : Option (List ℕ) → ℕ → Event
  ticked : ℕ → ℕ → Event

-- What `run` hands out: a gossiped message, an ingest decision, a drop decision.
pub data Action (K : Type 0) : Type 0 where
  publish_msg : List ℕ → Action K
  send_ingest : IngestTarget K → Action K
  send_drop : K → Action K

module _ {F K : Type 0} ⦃o : Ord K⦄ where
  unfoldable pub new_node : K → ClusterConfig F → ℕ → ClusterNode F K
  new_node self_id config capacity_total = record {
    self_id = self_id;
    state = new config;
    capacity_used = 0;
    capacity_total = capacity_total;
    epoch = 0;
  }

  unfoldable pub set_capacity_used : ClusterNode F K → ℕ → ClusterNode F K
  set_capacity_used n used = record n { capacity_used = used }

  unfoldable pub announce_job : ClusterNode F K → K → ℕ → ClusterNode F K
  announce_job n target repl = record n { state = observe_job n.state target repl }

  unfoldable pub announce_erasure_job : ClusterNode F K → K → ℕ → ℕ → ClusterNode F K
  announce_erasure_job n target k redundancy = record n {
    state = observe_erasure_job n.state target k redundancy;
  }

  -- What a message does to the state.
  unfoldable pub fold_msg : ClusterState F K → ClusterMsg K → ℕ → ClusterState F K
  fold_msg s (heartbeat node capacity_used capacity_total epoch) now_ns =
      observe_heartbeat s node capacity_used capacity_total now_ns
  fold_msg s (job target replication_factor (some (k, n))) now_ns =
      observe_erasure_job s target k (n - k)
  fold_msg s (job target replication_factor none) now_ns = observe_job s target replication_factor
  fold_msg s (claim job_ref node ts) now_ns = observe_claim s job_ref node ts
  fold_msg s (release job_ref node) now_ns = observe_release s job_ref node

  unfoldable pub observe : ClusterNode F K → ClusterMsg K → ℕ → ClusterNode F K
  observe n msg now_ns = record n { state = fold_msg n.state msg now_ns }

  -- The loop of `tick` over the jobs to release.
  unfoldable pub release_jobs :
      K → List K → ClusterState F K × TickOutcome K → ClusterState F K × TickOutcome K
  release_jobs self_id [] (s, out) = (s, out)
  release_jobs self_id (j ∷ jobs) (s, out) = release_jobs self_id jobs (
    observe_release s j self_id,
    record out { publish = out.publish ++ release j self_id ∷ []; drop = out.drop ++ j ∷ [] },
  )

  -- The loop of `tick` over the jobs to claim.
  unfoldable pub claim_jobs :
      K → ℕ → List K → ClusterState F K × TickOutcome K → ClusterState F K × TickOutcome K
  claim_jobs self_id now_ns [] (s, out) = (s, out)
  claim_jobs self_id now_ns (j ∷ jobs) (s, out) = claim_jobs self_id now_ns jobs (
    observe_claim s j self_id now_ns,
    record out {
      publish = out.publish ++ claim j self_id now_ns ∷ [];
      ingest = out.ingest ++ j ∷ [];
    },
  )

module _ {F K : Type 0} ⦃f : Float F⦄ ⦃o : Ord K⦄ where
  unfoldable pub shard_plan : ClusterNode F K → K → ℕ → Option ShardPlan
  shard_plan n target now_ns = state_shard_plan n.state target n.self_id now_ns

  -- The epoch is a u64.
  unfoldable pub tick : ClusterNode F K → ℕ → ClusterNode F K × TickOutcome K
  tick n now_ns =
      let epoch = (n.epoch + 1) % 2 ^ 64 in
      let beaten = observe_heartbeat n.state n.self_id n.capacity_used n.capacity_total now_ns in
      let out : TickOutcome K = record {
        publish = heartbeat n.self_id n.capacity_used n.capacity_total epoch ∷ [];
        ingest = [];
        drop = [];
      } in
      let shed = release_jobs n.self_id (jobs_to_release beaten n.self_id now_ns) (beaten, out) in
      let claimed = claim_jobs n.self_id now_ns (jobs_to_claim shed.0 n.self_id now_ns) shed in
      (record n { state = claimed.0; epoch = epoch }, claimed.1)

module _ {F K : Type 0} ⦃f : Float F⦄ ⦃o : Ord K⦄ ⦃w : Tlv⦄ ⦃c : NameCodec K⦄ where
  unfoldable pub actions : ClusterNode F K → TickOutcome K → ℕ → List (Action K)
  actions n out now_ns =
      map (λ m. publish_msg (encode m)) out.publish
      ++ (map (λ j. send_ingest (record { job_id = j; shard = shard_plan n j now_ns })) out.ingest
          ++ map (λ j. send_drop j) out.drop)

  -- One turn of the loop of `run`; `none` for its `break`.
  unfoldable pub turn : ClusterNode F K → Event → Option (ClusterNode F K × List (Action K))
  turn n cancelled = none
  turn n (incoming none now_ns) = none
  turn n (incoming (some raw) now_ns) = elim (decode raw) [
    | none ↦ some (n, [])
    | some m ↦ some (observe n m now_ns, [])
  ]
  turn n (ticked now_ns capacity) =
      let (n', out) = tick (set_capacity_used n capacity) now_ns in some (n', actions n' out now_ns)

  -- `run` on the events in their order: the node when it stops, and all that it handed out.
  unfoldable pub run : ClusterNode F K → List Event → ClusterNode F K × List (Action K)
  run n [] = (n, [])
  run n (e ∷ events) = elim (turn n e) [
    | none ↦ (n, [])
    | some (n', acts) ↦ let (n'', later) = run n' events in (n'', acts ++ later)
  ]
