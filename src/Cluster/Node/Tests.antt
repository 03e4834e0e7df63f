-- ===== src/Cluster/Node/Tests.antt =====
-- crates/ndn-repo-cluster/src/node.rs, msg.rs: a node named 1 that takes up job 7, and what it sends.
use ndn_repo.Base.{ℕ, ◌<◌, ◌≡◌, ◌^◌, refl, some, [], ◌∷◌, arith, All, keep}
use ndn_repo.Base.Order.{nat_ord, nat_beq}
use ndn_repo.Extern.Concrete.{short_tlv, octet_name, thousandths}
use ndn_repo.Extern.Tlv.{IsAddressable}
use ndn_repo.Collections.Distinct.{contains}
use ndn_repo.Collections.Sort.{sort_by, insert_by}
use ndn_repo.Collections.HashMap.{get, keys, upsert, modify}
use ndn_repo.Wire.Nni.{be_bytes, nni_bytes}
use ndn_repo.Cluster.Coord.{
  ClusterConfig, dead_after_ns, utilization, beat, set_replication, add_claim, new,
  observe_heartbeat, observe_job, observe_claim, observe_release,
}
use ndn_repo.Cluster.Coord.Queries.{
  fresh_at, is_live, has_capacity, by_utilization, live_entries, ranked_live_nodes,
  effective_replication, live_of, live_claimants, is_under_replicated, under_replicated_jobs,
  may_claim, designated_claimers, should_claim, jobs_to_claim, must_release, releases_of,
  jobs_to_release,
}
use ndn_repo.Cluster.Msg.{
  ClusterMsg, heartbeat, job, claim, nni, name_container, encode, encode_erasure, decode,
}
use ndn_repo.Cluster.Msg.RoundTrip.{decode-encode, normal}
use ndn_repo.Cluster.Node.{
  ClusterNode, new_node, announce_job, release_jobs, claim_jobs, actions, tick, run,
}
use ndn_repo.Cluster.Node.Replication.{deliver, run_replicates}

abbrev config : ClusterConfig ℕ
config = record {
  replication_factor = 2;
  heartbeat_interval_ns = 100;
  missed_heartbeats = 3;
  capacity_high_watermark = 750;
}

abbrev announced : ℕ → ClusterNode ℕ ℕ
announced self_id = announce_job (new_node self_id config 100) 7 1

-- Node 1 claims the job at its first tick.
claims_at_once : (tick (announced 1) 20).1.publish ≡ heartbeat 1 0 100 1 ∷ (claim 7 1 20 ∷ [])
unfolding dead_after_ns utilization beat set_replication add_claim new observe_heartbeat observe_job
    observe_claim observe_release fresh_at is_live has_capacity by_utilization live_entries
    ranked_live_nodes effective_replication live_of live_claimants is_under_replicated
    under_replicated_jobs may_claim designated_claimers should_claim jobs_to_claim must_release
    releases_of jobs_to_release contains keep sort_by insert_by keys get upsert modify nat_ord
    nat_beq thousandths new_node announce_job release_jobs claim_jobs tick
claims_at_once = refl

fits_at_once : All (λ msg. IsAddressable (encode msg)) (tick (announced 1) 20).1.publish
unfolding encode nni name_container nni_bytes be_bytes short_tlv octet_name
fits_at_once = rw claims_at_once (omega arith, (omega arith, tt))

same_state : (announced 2).state ≡ (announced 1).state
unfolding announce_job new_node
same_state = refl

run_replicates_example :
    (run
      (announced 2)
      (deliver (actions (tick (announced 1) 20).0 (tick (announced 1) 20).1 20) 20)).0.state
    ≡ (tick (announced 1) 20).0.state
run_replicates_example =
    run_replicates (announced 1) (announced 2) 20 same_state used total (omega arith) fits_at_once
  where
    used : (announced 1).capacity_used < 2 ^ 64
    used = unfold new_node announce_job in omega arith

    total : (announced 1).capacity_total < 2 ^ 64
    total = unfold new_node announce_job in omega arith

abbrev coded_job : ClusterMsg ℕ
coded_job = job 8 0 (some (4, 300))

coded_job-IsAddressable : IsAddressable (encode coded_job)
unfolding encode encode_erasure nni name_container nni_bytes be_bytes short_tlv octet_name
coded_job-IsAddressable = omega arith

decode-encode_example : decode (encode coded_job) ≡ some (normal coded_job)
decode-encode_example =
    decode-encode coded_job (omega arith, (omega arith, omega arith)) coded_job-IsAddressable
