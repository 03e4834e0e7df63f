-- ===== src/Cluster/Tests.antt =====
-- crates/ndn-repo-cluster: three nodes, named 1, 2 and 3, and two jobs, named 7 and 8.
use ndn_repo.Base.{
  ℕ, ◌<◌, ◌≤◌, ◌≡◌, ◌↔◌, ◌+◌, max, min, refl, true, false, none, some, [], ◌∷◌, arith, length,
  get_elem?, All, keep,
}
use ndn_repo.Base.Order.{nat_ord, nat_beq}
use ndn_repo.Collections.Sort.{sort_by, insert_by}
use ndn_repo.Extern.Concrete.{short_tlv, octet_name, thousandths}
use ndn_repo.Collections.Distinct.{contains, Distinct}
use ndn_repo.Collections.HashMap.{get, keys, upsert}
use ndn_repo.Cluster.Coord.{
  ClusterConfig, ClusterState, Job, dead_after_ns, utilization, beat, set_replication, set_erasure,
  add_claim, new, observe_heartbeat, observe_job, observe_erasure_job, observe_claim,
  observe_release,
}
use ndn_repo.Cluster.Coord.Queries.{
  fresh_at, is_live, has_capacity, by_utilization, live_entries, live_of, utilization_of,
  must_release, releases_of, effective_replication, may_claim, live_claimants, is_under_replicated,
  designated_claimers, designated_keepers, ranked_live_nodes, shard_holders, shard_index_of,
  shard_plan, jobs_to_release,
}
use ndn_repo.Collections.Sort.{Ascending}
use ndn_repo.Cluster.Coord.Ranking.{rank_cmp, ranked_live_nodes-Ascending}
use ndn_repo.Cluster.Coord.View.{IsState, SameView}
use ndn_repo.Cluster.Coord.Folding.{
  new-IsState, observe_heartbeat-IsState, observe_job-IsState, observe_erasure_job-IsState,
  observe_claim-IsState,
}
use ndn_repo.Cluster.Coord.Convergence.{claims_comm, heartbeat_window, last_seen}
use ndn_repo.Cluster.Coord.Agreement.{
  designated_claimers-agree, designated_keepers-agree, shard_plan-agree,
}
use ndn_repo.Cluster.Coord.Claims.{claim_all, claims_fill, claims_cover}
use ndn_repo.Cluster.Coord.Releases.{release_all, releases_keep_cover, designated_keepers_fit}
use ndn_repo.Cluster.Coord.Duties.{jobs_to_release_excess, release_keeps_cover}
use ndn_repo.Cluster.Coord.Shards.{shard_index_of_iff, designated_claimers-shard_holders}

abbrev config : ClusterConfig ℕ
config = record {
  replication_factor = 2;
  heartbeat_interval_ns = 100;
  missed_heartbeats = 3;
  capacity_high_watermark = 750;
}

-- Node 1 is half full, node 2 a quarter, node 3 empty.
abbrev three_nodes : ClusterState ℕ ℕ
three_nodes =
    observe_heartbeat (observe_heartbeat (observe_heartbeat (new config) 1 50 100 10) 2 25 100 10) 3
      0 100 10

three_nodes-IsState : IsState three_nodes
three_nodes-IsState =
    observe_heartbeat-IsState _
      (observe_heartbeat-IsState _ (observe_heartbeat-IsState _ (new-IsState config) 1 50 100 10) 2
        25 100 10)
      3 0 100 10

abbrev coded : ClusterState ℕ ℕ
coded = observe_erasure_job (observe_job three_nodes 7 2) 8 2 1

coded-IsState : IsState coded
coded-IsState = observe_erasure_job-IsState _ (observe_job-IsState _ three_nodes-IsState 7 2) 8 2 1

-- Job 7 with one claimant more than it needs, claimed in two orders.
abbrev claimed_123 : ClusterState ℕ ℕ
claimed_123 = observe_claim (observe_claim (observe_claim coded 7 3 12) 7 1 10) 7 2 11

abbrev claimed_132 : ClusterState ℕ ℕ
claimed_132 = observe_claim (observe_claim (observe_claim coded 7 3 12) 7 2 11) 7 1 10

claimed_123-IsState : IsState claimed_123
claimed_123-IsState =
    observe_claim-IsState _
      (observe_claim-IsState _ (observe_claim-IsState _ coded-IsState 7 3 12) 7 1 10) 7 2 11

claimed_132-IsState : IsState claimed_132
claimed_132-IsState =
    observe_claim-IsState _
      (observe_claim-IsState _ (observe_claim-IsState _ coded-IsState 7 3 12) 7 2 11) 7 1 10

two_orders : SameView claimed_123 claimed_132
two_orders = claims_comm (observe_claim coded 7 3 12) 7 1 10 7 2 11

abbrev job_8 : Job ℕ
job_8 = record { replication_factor = 0; claimants = []; erasure = some (2, 3) }

abbrev job_7 : Job ℕ
job_7 = record { replication_factor = 2; claimants = []; erasure = none }

known_8 : get coded.jobs 8 ≡ some job_8
unfolding dead_after_ns utilization beat set_replication set_erasure add_claim new observe_heartbeat
    observe_job observe_erasure_job observe_claim fresh_at is_live has_capacity by_utilization
    live_entries ranked_live_nodes effective_replication live_of live_claimants may_claim
    utilization_of designated_keepers must_release releases_of jobs_to_release contains keep sort_by
    insert_by keys get upsert nat_ord nat_beq thousandths
known_8 = refl

abbrev job_7_claimed : Job ℕ
job_7_claimed = record {
  replication_factor = 2;
  claimants = (3, 12) ∷ ((1, 10) ∷ ((2, 11) ∷ []));
  erasure = none;
}

known_7 : get claimed_123.jobs 7 ≡ some job_7_claimed
unfolding dead_after_ns utilization beat set_replication set_erasure add_claim new observe_heartbeat
    observe_job observe_erasure_job observe_claim fresh_at is_live has_capacity by_utilization
    live_entries ranked_live_nodes effective_replication live_of live_claimants may_claim
    utilization_of designated_keepers must_release releases_of jobs_to_release contains keep sort_by
    insert_by keys get upsert nat_ord nat_beq thousandths
known_7 = refl

-- All claimants are live; node 1 is the fullest and must give way.
sheds_7 : contains (jobs_to_release claimed_123 1 20) 7 ≡ true
unfolding dead_after_ns utilization beat set_replication set_erasure add_claim new observe_heartbeat
    observe_job observe_erasure_job observe_claim fresh_at is_live has_capacity by_utilization
    live_entries ranked_live_nodes effective_replication live_of live_claimants may_claim
    utilization_of designated_keepers must_release releases_of jobs_to_release contains keep sort_by
    insert_by keys get upsert nat_ord nat_beq thousandths
sheds_7 = refl

-- Three nodes may claim job 8, which wants three shards.
enough_8 :
    effective_replication coded job_8
    ≤ length (live_claimants coded 8 20)
      + length (keep (may_claim coded job_8) (ranked_live_nodes coded 20))
unfolding dead_after_ns utilization beat set_replication set_erasure add_claim new observe_heartbeat
    observe_job observe_erasure_job observe_claim fresh_at is_live has_capacity by_utilization
    live_entries ranked_live_nodes effective_replication live_of live_claimants may_claim
    utilization_of designated_keepers must_release releases_of jobs_to_release contains keep sort_by
    insert_by keys get upsert nat_ord nat_beq thousandths
enough_8 = omega arith

designated_claimers-agree_example :
    designated_claimers claimed_123 7 20 ≡ designated_claimers claimed_132 7 20
designated_claimers-agree_example =
    designated_claimers-agree two_orders claimed_123-IsState claimed_132-IsState 7 20

designated_keepers-agree_example :
    designated_keepers claimed_123 7 20 ≡ designated_keepers claimed_132 7 20
designated_keepers-agree_example =
    designated_keepers-agree two_orders claimed_123-IsState claimed_132-IsState 7 20

shard_plan-agree_example : shard_plan claimed_123 8 2 20 ≡ shard_plan claimed_132 8 2 20
shard_plan-agree_example =
    shard_plan-agree two_orders claimed_123-IsState claimed_132-IsState 8 2 20

claims_cover_example :
    is_under_replicated (claim_all coded 8 (designated_claimers coded 8 20) 20) 8 20 ≡ false
claims_cover_example = claims_cover coded 8 job_8 20 20 coded-IsState known_8 enough_8

release_keeps_cover_example : is_under_replicated (observe_release claimed_123 7 1) 7 20 ≡ false
release_keeps_cover_example = release_keeps_cover claimed_123 1 7 20 claimed_123-IsState sheds_7

claims_fill_example :
    length (live_claimants (claim_all coded 8 (designated_claimers coded 8 20) 20) 8 20)
    ≡ max (length (live_claimants coded 8 20)) (
        min (effective_replication coded job_8) (
          length (live_claimants coded 8 20)
          + length (keep (may_claim coded job_8) (ranked_live_nodes coded 20))))
claims_fill_example = claims_fill coded 8 job_8 20 20 coded-IsState known_8

jobs_to_release_excess_example :
    (j : Job ℕ) × (get claimed_123.jobs 7 ≡ some j)
    × (contains (live_claimants claimed_123 7 20) 1 ≡ true)
    × (contains (designated_keepers claimed_123 7 20) 1 ≡ false)
    × (effective_replication claimed_123 j < length (live_claimants claimed_123 7 20))
jobs_to_release_excess_example =
    jobs_to_release_excess claimed_123 1 7 20 claimed_123-IsState sheds_7

designated_keepers_fit_example :
    Distinct (designated_keepers claimed_123 7 20)
    × (length (designated_keepers claimed_123 7 20)
        ≡ min
            (effective_replication claimed_123 job_7_claimed)
            (length (live_claimants claimed_123 7 20)))
    × ((a : ℕ)
        → contains (designated_keepers claimed_123 7 20) a ≡ true
        → contains (live_claimants claimed_123 7 20) a ≡ true)
designated_keepers_fit_example =
    designated_keepers_fit claimed_123 7 job_7_claimed 20 claimed_123-IsState known_7

-- Node 1 is no keeper of job 7.
outside_7 : All (λ n. contains (designated_keepers claimed_123 7 20) n ≡ false) (1 ∷ [])
unfolding dead_after_ns utilization beat set_replication set_erasure add_claim new observe_heartbeat
    observe_job observe_erasure_job observe_claim fresh_at is_live has_capacity by_utilization
    live_entries ranked_live_nodes effective_replication live_of live_claimants may_claim
    utilization_of designated_keepers must_release releases_of jobs_to_release contains keep sort_by
    insert_by keys get upsert nat_ord nat_beq thousandths shard_holders
outside_7 = (refl, tt)

releases_keep_cover_example :
    min (effective_replication claimed_123 job_7_claimed) (length (live_claimants claimed_123 7 20))
    ≤ length (live_claimants (release_all claimed_123 7 (1 ∷ [])) 7 20)
releases_keep_cover_example =
    releases_keep_cover claimed_123 7 job_7_claimed 20 claimed_123-IsState known_7 (1 ∷ [])
      outside_7

shard_index_of_iff_example :
    (shard_index_of coded 2 3 20 ≡ some 1) ↔ (get_elem? (shard_holders coded 3 20) 1 ≡ some 2)
shard_index_of_iff_example = shard_index_of_iff coded 20 2 3 1 coded-IsState.nodes_map (omega arith)

holds_8 : contains (shard_holders coded 3 20) 2 ≡ true
unfolding dead_after_ns utilization beat set_replication set_erasure add_claim new observe_heartbeat
    observe_job observe_erasure_job observe_claim fresh_at is_live has_capacity by_utilization
    live_entries ranked_live_nodes effective_replication live_of live_claimants may_claim
    utilization_of designated_keepers must_release releases_of jobs_to_release contains keep sort_by
    insert_by keys get upsert nat_ord nat_beq thousandths shard_holders
holds_8 = refl

designated_claimers-shard_holders_example :
    designated_claimers coded 8 20 ≡ shard_holders coded 3 20
designated_claimers-shard_holders_example =
    designated_claimers-shard_holders coded 20 8 job_8 2 3 known_8 refl refl

ranked_live_nodes-Ascending_example : Ascending (rank_cmp coded) (ranked_live_nodes coded 20)
ranked_live_nodes-Ascending_example = ranked_live_nodes-Ascending coded 20 coded-IsState.nodes_map

heartbeat_window_example :
    (is_live (observe_heartbeat coded 2 30 100 40) 2 300 ≡ true)
    ↔ (300 ≤ max 40 (last_seen coded 2) + dead_after_ns config)
unfolding dead_after_ns utilization beat set_replication set_erasure add_claim new observe_heartbeat
    observe_job observe_erasure_job observe_claim fresh_at is_live has_capacity by_utilization
    live_entries ranked_live_nodes effective_replication live_of live_claimants may_claim
    utilization_of designated_keepers must_release releases_of jobs_to_release contains keep sort_by
    insert_by keys get upsert nat_ord nat_beq thousandths shard_holders
heartbeat_window_example = heartbeat_window coded 2 30 100 40 300

claims_comm_example :
    SameView
      (observe_claim (observe_claim coded 7 1 10) 7 2 11)
      (observe_claim (observe_claim coded 7 2 11) 7 1 10)
claims_comm_example = claims_comm coded 7 1 10 7 2 11
