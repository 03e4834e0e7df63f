-- ===== src/Cluster/Coord/Agreement.antt =====
-- crates/ndn-repo-cluster/src/coord.rs: the decisions of two replicas that hold one content.
use mathlib.Core.Path.{fun_ext}
use ndn_repo.Base.{ℕ, ◌≡◌, sym, ap, ◌∙◌, keep, take, length, Option-cases, arith, inl, inr}
use ndn_repo.Base.Order.{Ord}
use ndn_repo.Collections.HashMap.{IsMap}
use ndn_repo.Collections.Sort.{sort_by, sort_by-eq, length-SameContent}
use ndn_repo.Extern.Float.{Float}
use ndn_repo.Cluster.Coord.{Job, ClusterState}
use ndn_repo.Cluster.Coord.Queries.{
  live_of, live_nodes, ranked_live_nodes, shard_holders, shard_index_of, shard_plan,
  designated_claimers, may_claim, designated_keepers,
}
use ndn_repo.Cluster.Coord.Ranking.{ranked_live_nodes_lem, rank_cmp-IsLawful, live_nodes-Distinct}
use ndn_repo.Cluster.Coord.Known.{
  designated_claimers-none, designated_claimers_known, designated_keepers-none,
  designated_keepers_known,
}
use ndn_repo.Cluster.Coord.View.{
  IsState, SameView, SameJob, SameJobs-cases, has_capacity-agree, rank_cmp-agree,
  effective_replication-agree, live_nodes-agree, live_of-agree, live_of-Distinct,
}

module _ {F K : Type 0} ⦃f : Float F⦄ ⦃o : Ord K⦄ where
  module _ {s t : ClusterState F K} (v : SameView s t) (hs : IsState s) (ht : IsState t) where
    pub ranked_live_nodes-agree :
        (now_ns : ℕ) → ranked_live_nodes s now_ns ≡ ranked_live_nodes t now_ns
    ranked_live_nodes-agree now_ns =
        ranked_live_nodes_lem s now_ns hs.nodes_map
        ∙ sort_by-eq (rank_cmp-IsLawful s) _ _ (live_nodes-Distinct s now_ns hs.nodes_map)
            (live_nodes-Distinct t now_ns ht.nodes_map) (live_nodes-agree v now_ns)
        ∙ ap (λ c. sort_by c (live_nodes t now_ns)) (rank_cmp-agree v)
        ∙ sym (ranked_live_nodes_lem t now_ns ht.nodes_map)

    shard_holders-agree :
        (count now_ns : ℕ) → shard_holders s count now_ns ≡ shard_holders t count now_ns
    unfolding shard_holders
    shard_holders-agree count now_ns = rw (ranked_live_nodes-agree now_ns) (
        ap (λ p. take count (keep p (ranked_live_nodes t now_ns))) (fun_ext (has_capacity-agree v)))

    pub shard_index_of-agree :
        (self_id : K) (n now_ns : ℕ)
        → shard_index_of s self_id n now_ns ≡ shard_index_of t self_id n now_ns
    unfolding shard_index_of
    shard_index_of-agree self_id n now_ns = ground (arith, shard_holders-agree n now_ns)

    -- Two replicas of one content compute one shard plan for each job and node: the same shard
    -- index with the same k and n, or none.
    pub shard_plan-agree :
        (job self_id : K) (now_ns : ℕ)
        → shard_plan s job self_id now_ns ≡ shard_plan t job self_id now_ns
    unfolding shard_plan
    shard_plan-agree job self_id now_ns = elim (SameJobs-cases _ _ (v.same_jobs job)) [
      | inl (es, et) ↦ ground arith
      | inr (i, j, es, et, h) ↦ elim (Option-cases j.erasure) [
        | inl e ↦ ground (arith, es, et, h.same_erasure)
        | inr (p, e) ↦
            ground (arith, es, et, h.same_erasure, shard_index_of-agree self_id p.1 now_ns)
      ]
    ]

    length-live_of-agree :
        (now_ns : ℕ) {i j : Job K}
        → SameJob i j
        → IsMap i.claimants
        → IsMap j.claimants
        → length (live_of s now_ns i) ≡ length (live_of t now_ns j)
    length-live_of-agree now_ns {i} {j} h di dj =
        length-SameContent _ _ (live_of-Distinct s now_ns i di) (live_of-Distinct t now_ns j dj)
          (live_of-agree v now_ns h)

    may_claim-agree : {i j : Job K} → SameJob i j → may_claim s i ≡ may_claim t j
    unfolding may_claim
    may_claim-agree {i} {j} h = fun_ext λ n. ground (arith, has_capacity-agree v n, h.same_claims n)

    -- Two replicas of one content designate the same nodes, in the same order, to claim a job.
    pub designated_claimers-agree :
        (job : K) (now_ns : ℕ) → designated_claimers s job now_ns ≡ designated_claimers t job now_ns
    designated_claimers-agree job now_ns = elim (SameJobs-cases _ _ (v.same_jobs job)) [
      | inl (es, et) ↦
          designated_claimers-none s job now_ns es ∙ sym (designated_claimers-none t job now_ns et)
      | inr (i, j, es, et, h) ↦ rw (
        designated_claimers_known s job now_ns es,
        designated_claimers_known t job now_ns et,
        effective_replication-agree v h,
        length-live_of-agree now_ns h (hs.claims_map job i es) (ht.claims_map job j et),
        may_claim-agree h,
        ranked_live_nodes-agree now_ns,
      )
    ]

    -- Two replicas of one content name the same keepers of a job, in the same order.
    pub designated_keepers-agree :
        (job : K) (now_ns : ℕ) → designated_keepers s job now_ns ≡ designated_keepers t job now_ns
    designated_keepers-agree job now_ns = elim (SameJobs-cases _ _ (v.same_jobs job)) [
      | inl (es, et) ↦
          designated_keepers-none s job now_ns es ∙ sym (designated_keepers-none t job now_ns et)
      | inr (i, j, es, et, h) ↦ rw (
        designated_keepers_known s job now_ns es,
        designated_keepers_known t job now_ns et,
        effective_replication-agree v h,
        sort_by-eq (rank_cmp-IsLawful s) _ _ (live_of-Distinct s now_ns i (hs.claims_map job i es))
            (live_of-Distinct t now_ns j (ht.claims_map job j et)) (live_of-agree v now_ns h),
        rank_cmp-agree v,
      )
    ]
