-- ===== src/Cluster/Coord/Queries.antt =====
-- crates/ndn-repo-cluster/src/coord.rs: the queries on the coordination state, from liveness to
-- the placement decisions.
use ndn_repo.Base.{
  ℕ, suc, ◌-◌, ◌%◌, Bool, false, not, ◌&&◌, Option, none, some, List, [], ◌∷◌, map, keep, take,
  length, ltb, leb, ◌==◌, Ordering, if◌then◌else◌,
}
use ndn_repo.Base.Order.{Ord, then_with}
use ndn_repo.Collections.HashMap.{HashMap, get, contains_key, keys, unwrap_or}
use ndn_repo.Collections.Distinct.{contains}
use ndn_repo.Collections.Sort.{sort_by}
use ndn_repo.Extern.Float.{Float}
use ndn_repo.Cluster.Coord.{
  ClusterConfig, NodeStatus, Job, ShardPlan, ClusterState, dead_after_ns, utilization,
}

-- `iter().position(..)` of the first element equal to `a`.
module _ {K : Type 0} ⦃o : Ord K⦄ where
  unfoldable pub position : List K → K → Option ℕ
  position [] a = none
  position (x ∷ xs) a =
      let later = position xs a in
      if o.beq x a then some 0 else elim later [ none ↦ none | some i ↦ some (suc i) ]

-- The test of `is_live` on a status.
unfoldable pub fresh_at : {F : Type 0} → ClusterConfig F → ℕ → NodeStatus → Bool
fresh_at c now_ns s = leb (now_ns - s.last_heartbeat_ns) (dead_after_ns c)

module _ {F K : Type 0} ⦃f : Float F⦄ ⦃o : Ord K⦄ where
  unfoldable pub is_live : ClusterState F K → K → ℕ → Bool
  unfolding fresh_at
  is_live s node now_ns = elim (get s.nodes node) [
    | none ↦ false
    | some st ↦ fresh_at s.config now_ns st
  ]

  unfoldable pub has_capacity : ClusterState F K → K → Bool
  has_capacity s node = elim (get s.nodes node) [
    | none ↦ false
    | some st ↦ f.lt_f (utilization st) s.config.capacity_high_watermark
  ]

  -- The comparison of both calls of `sort_by`: utilisation ascending, ties by name.
  unfoldable pub by_utilization : K × F → K × F → Ordering
  by_utilization (na, ua) (nb, ub) =
      then_with (unwrap_or (f.partial_cmp ua ub) Ordering.eq) (o.cmp na nb)

  -- The entries of the live nodes with their utilisation, in the order of iteration.
  unfoldable pub live_entries : ClusterState F K → ℕ → HashMap K NodeStatus → List (K × F)
  live_entries s now_ns [] = []
  live_entries s now_ns ((n, st) ∷ m) =
      let rest = live_entries s now_ns m in
      if is_live s n now_ns then (n, utilization st) ∷ rest else rest

  unfoldable pub ranked_live_nodes : ClusterState F K → ℕ → List K
  unfolding by_utilization live_entries
  ranked_live_nodes s now_ns =
      map (λ (e : K × F). e.0) (sort_by by_utilization (live_entries s now_ns s.nodes))

  unfoldable pub shard_holders : ClusterState F K → ℕ → ℕ → List K
  shard_holders s count now_ns = take count (keep (has_capacity s) (ranked_live_nodes s now_ns))

  -- `i as u16`
  unfoldable pub shard_index_of : ClusterState F K → K → ℕ → ℕ → Option ℕ
  unfolding position
  shard_index_of s self_id n now_ns = elim (position (shard_holders s n now_ns) self_id) [
    | none ↦ none
    | some i ↦ some (i % 65536)
  ]

  unfoldable pub effective_replication : ClusterState F K → Job K → ℕ
  effective_replication s job = elim job.erasure [
    | some (k, n) ↦ n
    | none ↦
        if job.replication_factor == 0 then s.config.replication_factor else job.replication_factor
  ]

  unfoldable pub shard_plan : ClusterState F K → K → K → ℕ → Option ShardPlan
  shard_plan s job self_id now_ns = elim (get s.jobs job) [
    | none ↦ none
    | some j ↦ elim j.erasure [
      | none ↦ none
      | some (k, n) ↦ elim (shard_index_of s self_id n now_ns) [
        | none ↦ none
        | some index ↦ some (record { index = index; k = k; n = n })
      ]
    ]
  ]

  -- The live ones of the claimants of a job.
  unfoldable pub live_of : ClusterState F K → ℕ → Job K → List K
  live_of s now_ns j = keep (λ n. is_live s n now_ns) (keys j.claimants)

  unfoldable pub live_claimants : ClusterState F K → K → ℕ → List K
  live_claimants s job now_ns = elim (get s.jobs job) [ none ↦ [] | some j ↦ live_of s now_ns j ]

  unfoldable pub is_under_replicated : ClusterState F K → K → ℕ → Bool
  is_under_replicated s job now_ns = elim (get s.jobs job) [
    | none ↦ false
    | some j ↦ ltb (length (live_claimants s job now_ns)) (effective_replication s j)
  ]

  unfoldable pub under_replicated_jobs : ClusterState F K → ℕ → List K
  under_replicated_jobs s now_ns = keep (λ j. is_under_replicated s j now_ns) (keys s.jobs)

  unfoldable pub may_claim : ClusterState F K → Job K → K → Bool
  may_claim s j n = has_capacity s n && not (contains_key j.claimants n)

  -- The early return at `need == 0` is the `take` of no element.
  unfoldable pub designated_claimers : ClusterState F K → K → ℕ → List K
  unfolding may_claim
  designated_claimers s job now_ns = elim (get s.jobs job) [
    | none ↦ []
    | some j ↦
        let need = effective_replication s j - length (live_claimants s job now_ns) in
        if need == 0 then [] else take need (keep (may_claim s j) (ranked_live_nodes s now_ns))
  ]

  unfoldable pub should_claim : ClusterState F K → K → K → ℕ → Bool
  should_claim s job self_node now_ns = contains (designated_claimers s job now_ns) self_node

  unfoldable pub jobs_to_claim : ClusterState F K → K → ℕ → List K
  jobs_to_claim s self_node now_ns =
      keep (λ j. should_claim s j self_node now_ns) (under_replicated_jobs s now_ns)

  unfoldable pub utilization_of : ClusterState F K → K → F
  utilization_of s n = elim (get s.nodes n) [ none ↦ f.zero_f | some st ↦ utilization st ]

  unfoldable pub designated_keepers : ClusterState F K → K → ℕ → List K
  unfolding by_utilization utilization_of
  designated_keepers s job now_ns = elim (get s.jobs job) [
    | none ↦ []
    | some j ↦
        let live = map (λ n. (n, utilization_of s n)) (live_claimants s job now_ns) in
        map (λ (e : K × F). e.0) (take (effective_replication s j) (sort_by by_utilization live))
  ]

  -- The test of `jobs_to_release` on one entry.
  unfoldable pub must_release : ClusterState F K → K → ℕ → K → Job K → Bool
  must_release s self_node now_ns jid j =
      contains_key j.claimants self_node
      && is_live s self_node now_ns
      && not (contains (designated_keepers s jid now_ns) self_node)

  unfoldable pub releases_of : ClusterState F K → K → ℕ → HashMap K (Job K) → List K
  unfolding must_release
  releases_of s self_node now_ns [] = []
  releases_of s self_node now_ns ((jid, j) ∷ m) =
      let rest = releases_of s self_node now_ns m in
      if must_release s self_node now_ns jid j then jid ∷ rest else rest

  unfoldable pub jobs_to_release : ClusterState F K → K → ℕ → List K
  unfolding releases_of
  jobs_to_release s self_node now_ns = releases_of s self_node now_ns s.jobs

  unfoldable pub live_nodes : ClusterState F K → ℕ → List K
  live_nodes s now_ns = keep (λ n. is_live s n now_ns) (keys s.nodes)

  unfoldable pub job_ids : ClusterState F K → List K
  job_ids s = keys s.jobs
