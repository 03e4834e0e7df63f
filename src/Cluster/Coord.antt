-- ===== src/Cluster/Coord.antt =====
-- crates/ndn-repo-cluster/src/coord.rs: the data of the coordination state and the operations
-- that fold gossip into it. A name is a `K` with equality and order, an `f64` an `F`. The code's
-- u16, u32, u64 and usize are numbers; its saturating operations are written out.
pub mod Queries
pub mod Ranking
pub mod View
pub mod Known
pub mod Shards
pub mod Claims
pub mod Releases
pub mod Duties
pub mod Folding
pub mod Convergence
pub mod Agreement
use ndn_repo.Base.{
  ℕ, ◌+◌, ◌-◌, ◌*◌, ◌^◌, min, max, Option, none, some, [], leb, ◌==◌, if◌then◌else◌,
}
use ndn_repo.Base.Order.{Ord}
use ndn_repo.Collections.HashMap.{HashMap, upsert, modify, remove}
use ndn_repo.Extern.Float.{Float}

abbrev pub u16_max : ℕ
u16_max = 65535

abbrev pub u64_max : ℕ
u64_max = 2 ^ 64 - 1

pub record ClusterConfig (F : Type 0) : Type 0 where
  pub replication_factor : ℕ
  pub heartbeat_interval_ns : ℕ
  pub missed_heartbeats : ℕ
  pub capacity_high_watermark : F

pub record NodeStatus : Type 0 where
  pub last_heartbeat_ns : ℕ
  pub capacity_used : ℕ
  pub capacity_total : ℕ

pub record Job (K : Type 0) : Type 0 where
  pub replication_factor : ℕ
  pub claimants : HashMap K ℕ
  pub erasure : Option (ℕ × ℕ)

pub record ShardPlan : Type 0 where
  pub index : ℕ
  pub k : ℕ
  pub n : ℕ

pub record ClusterState (F K : Type 0) : Type 0 where
  pub config : ClusterConfig F
  pub nodes : HashMap K NodeStatus
  pub jobs : HashMap K (Job K)

-- 0.75 is exactly 3 / 4 as an f64.
pub default_config : {F : Type 0} ⦃f : Float F⦄ → ClusterConfig F
default_config ⦃f⦄ = record {
  replication_factor = 3;
  heartbeat_interval_ns = 5000000000;
  missed_heartbeats = 3;
  capacity_high_watermark = f.div (f.of_u64 3) (f.of_u64 4);
}

-- `saturating_mul` of u64.
unfoldable pub dead_after_ns : {F : Type 0} → ClusterConfig F → ℕ
dead_after_ns c = min (c.heartbeat_interval_ns * c.missed_heartbeats) u64_max

unfoldable pub utilization : {F : Type 0} ⦃f : Float F⦄ → NodeStatus → F
utilization ⦃f⦄ s =
    if s.capacity_total == 0
    then f.zero_f
    else f.div (f.of_u64 s.capacity_used) (f.of_u64 s.capacity_total)

-- The derived `Default`.
abbrev pub default_job : {K : Type 0} → Job K
default_job = record { replication_factor = 0; claimants = []; erasure = none }

-- The change that a heartbeat makes to the entry of its node: newer timestamps win.
unfoldable pub beat : ℕ → ℕ → ℕ → NodeStatus → NodeStatus
beat used total now_ns e =
    if leb e.last_heartbeat_ns now_ns
    then record { last_heartbeat_ns = now_ns; capacity_used = used; capacity_total = total }
    else e

unfoldable pub set_replication : {K : Type 0} → ℕ → Job K → Job K
set_replication r j = if r == 0 then j else record j { replication_factor = r }

unfoldable pub set_erasure : {K : Type 0} → ℕ → ℕ → Job K → Job K
set_erasure k redundancy j =
    let k' = max k 1 in
    let n = min (k' + max redundancy 1) u16_max in record j { erasure = some (k', n) }

module _ {K : Type 0} ⦃o : Ord K⦄ where
  -- The change that a claim makes to its job: the greatest timestamp is kept.
  unfoldable pub add_claim : K → ℕ → Job K → Job K
  add_claim node ts_ns j = record j { claimants = upsert node 0 (λ e. max e ts_ns) j.claimants }

  unfoldable pub drop_claim : K → Job K → Job K
  drop_claim node j = record j { claimants = remove node j.claimants }

module _ {F K : Type 0} ⦃o : Ord K⦄ where
  unfoldable pub new : ClusterConfig F → ClusterState F K
  new config = record { config = config; nodes = []; jobs = [] }

  unfoldable pub observe_heartbeat : ClusterState F K → K → ℕ → ℕ → ℕ → ClusterState F K
  observe_heartbeat s node used total now_ns =
      let fresh : NodeStatus = record {
        last_heartbeat_ns = 0;
        capacity_used = used;
        capacity_total = total;
      } in
      record s { nodes = upsert node fresh (beat used total now_ns) s.nodes }

  unfoldable pub observe_job : ClusterState F K → K → ℕ → ClusterState F K
  observe_job s job replication_factor = record s {
    jobs = upsert job default_job (set_replication replication_factor) s.jobs;
  }

  unfoldable pub observe_erasure_job : ClusterState F K → K → ℕ → ℕ → ClusterState F K
  observe_erasure_job s job k redundancy = record s {
    jobs = upsert job default_job (set_erasure k redundancy) s.jobs;
  }

  unfoldable pub observe_claim : ClusterState F K → K → K → ℕ → ClusterState F K
  observe_claim s job node ts_ns = record s {
    jobs = upsert job default_job (add_claim node ts_ns) s.jobs;
  }

  -- An unknown job is left unknown.
  unfoldable pub observe_release : ClusterState F K → K → K → ClusterState F K
  observe_release s job node = record s { jobs = modify job (drop_claim node) s.jobs }
