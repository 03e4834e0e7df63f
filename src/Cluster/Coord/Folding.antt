-- ===== src/Cluster/Coord/Folding.antt =====
-- crates/ndn-repo-cluster/src/coord.rs: the invariant of the maps under the operations that fold gossip in.
use ndn_repo.Base.{ℕ, ◌≡◌, some, max, arith, inl, inr, Option-cases}
use ndn_repo.Base.Order.{Ord}
use ndn_repo.Collections.HashMap.{
  HashMap, get, keys, IsMap, upsert, modify, get-upsert, get-modify, upsert-IsMap, keys-modify,
  keys-remove,
}
use ndn_repo.Collections.Distinct.{keep-Distinct}
use ndn_repo.Cluster.Coord.{
  ClusterConfig, Job, ClusterState, new, observe_heartbeat, observe_job, observe_erasure_job,
  observe_claim, observe_release, add_claim, drop_claim, set_replication, set_erasure, beat,
  default_job,
}
use ndn_repo.Cluster.Coord.View.{IsState}

module _ {K : Type 0} ⦃o : Ord K⦄ where
  add_claim-IsMap :
      (n : K) (ts : ℕ) (j : Job K) → IsMap j.claimants → IsMap (add_claim n ts j).claimants
  unfolding add_claim
  add_claim-IsMap n ts j h = upsert-IsMap n 0 (λ e. max e ts) j.claimants h

  drop_claim-IsMap : (n : K) (j : Job K) → IsMap j.claimants → IsMap (drop_claim n j).claimants
  unfolding drop_claim
  drop_claim-IsMap n j h = rw keys-remove (keep-Distinct _ (keys j.claimants) h)

  -- A change to the entry of one job keeps the claims of each job a map.
  upsert_claims-IsMap :
      (jobs : HashMap K (Job K)) (job : K) (change : Job K → Job K)
      → ((j : Job K) → IsMap j.claimants → IsMap (change j).claimants)
      → ((k : K) (j : Job K) → get jobs k ≡ some j → IsMap j.claimants)
      → (k : K) (j : Job K) → get (upsert job default_job change jobs) k ≡ some j
      → IsMap j.claimants
  unfolding keys
  upsert_claims-IsMap jobs job change ok old k j e = elim (Option-cases (get jobs job)) [
    | inl p ↦ ground (arith, get-upsert job default_job change jobs k, ok default_job, old k j)
    | inr (i, p) ↦
        ground (arith, get-upsert job default_job change jobs k, ok i, old job i, old k j)
  ]

  modify_claims-IsMap :
      (jobs : HashMap K (Job K)) (job : K) (change : Job K → Job K)
      → ((j : Job K) → IsMap j.claimants → IsMap (change j).claimants)
      → ((k : K) (j : Job K) → get jobs k ≡ some j → IsMap j.claimants)
      → (k : K) (j : Job K) → get (modify job change jobs) k ≡ some j
      → IsMap j.claimants
  modify_claims-IsMap jobs job change ok old k j e = elim (Option-cases (get jobs job)) [
    | inl p ↦ ground (arith, get-modify job change jobs k, old k j)
    | inr (i, p) ↦ ground (arith, get-modify job change jobs k, ok i, old job i, old k j)
  ]

module _ {F K : Type 0} ⦃o : Ord K⦄ where
  pub new-IsState : (c : ClusterConfig F) → IsState {K = K} (new c)
  unfolding new get keys
  new-IsState c = record { nodes_map = tt; jobs_map = tt; claims_map = λ k j e. cc }

  module _ (s : ClusterState F K) (h : IsState s) where
    pub observe_heartbeat-IsState :
        (node : K) (used total now_ns : ℕ) → IsState (observe_heartbeat s node used total now_ns)
    unfolding observe_heartbeat
    observe_heartbeat-IsState node used total now_ns = record {
      nodes_map = upsert-IsMap node _ (beat used total now_ns) s.nodes h.nodes_map;
      jobs_map = h.jobs_map;
      claims_map = h.claims_map;
    }

    upsert_job-IsState :
        (job : K) (change : Job K → Job K)
        → ((j : Job K) → IsMap j.claimants → IsMap (change j).claimants)
        → IsState (record s { jobs = upsert job default_job change s.jobs })
    upsert_job-IsState job change ok = record {
      nodes_map = h.nodes_map;
      jobs_map = upsert-IsMap job default_job change s.jobs h.jobs_map;
      claims_map = upsert_claims-IsMap s.jobs job change ok h.claims_map;
    }

    pub observe_job-IsState : (job : K) (r : ℕ) → IsState (observe_job s job r)
    unfolding observe_job set_replication
    observe_job-IsState job r = upsert_job-IsState job (set_replication r) (λ j d. ground arith)

    pub observe_erasure_job-IsState : (job : K) (k r : ℕ) → IsState (observe_erasure_job s job k r)
    unfolding observe_erasure_job set_erasure
    observe_erasure_job-IsState job k r = upsert_job-IsState job (set_erasure k r) (λ j d. d)

    pub observe_claim-IsState : (job node : K) (ts : ℕ) → IsState (observe_claim s job node ts)
    unfolding observe_claim
    observe_claim-IsState job node ts =
        upsert_job-IsState job (add_claim node ts) (add_claim-IsMap node ts)

    pub observe_release-IsState : (job node : K) → IsState (observe_release s job node)
    unfolding observe_release
    observe_release-IsState job node = record {
      nodes_map = h.nodes_map;
      jobs_map = rw keys-modify h.jobs_map;
      claims_map =
          modify_claims-IsMap s.jobs job (drop_claim node) (drop_claim-IsMap node) h.claims_map;
    }
