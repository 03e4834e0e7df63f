-- ===== src/Cluster/Coord/View.antt =====
-- crates/ndn-repo-cluster/src/coord.rs: what two replicas of the coordination state have in
-- common when they hold one content, whatever the order in which their maps iterate.
use mathlib.Core.Path.{fun_ext}
use ndn_repo.Base.{
  ℕ, ◌≡◌, refl, sym, ◌∙◌, false, Option, none, some, arith, ◌⊎◌, inl, inr, if◌then◌else◌,
}
use ndn_repo.Base.Order.{Ord}
use ndn_repo.Collections.HashMap.{get, keys, IsMap, SameEntries, contains-keys, contains_key}
use ndn_repo.Collections.Distinct.{contains, Distinct, SameContent, contains-keep, keep-Distinct}
use ndn_repo.Extern.Float.{Float}
use ndn_repo.Cluster.Coord.{Job, ClusterState}
use ndn_repo.Cluster.Coord.Queries.{
  is_live, has_capacity, utilization_of, live_of, live_nodes, effective_replication,
}
use ndn_repo.Cluster.Coord.Ranking.{contains-live_nodes, rank_cmp}

module _ {K : Type 0} ⦃o : Ord K⦄ where
  pub record SameJob (i j : Job K) : Type 0 where
    pub same_factor : i.replication_factor ≡ j.replication_factor
    pub same_erasure : i.erasure ≡ j.erasure
    pub same_claims : SameEntries i.claimants j.claimants

  abbrev pub SameJobs : Option (Job K) → Option (Job K) → Type 0
  SameJobs none none = Unit
  SameJobs none (some j) = ⊥
  SameJobs (some i) none = ⊥
  SameJobs (some i) (some j) = SameJob i j

  pub SameJobs-cases :
      (a b : Option (Job K))
      → SameJobs a b
      → ((a ≡ none) × (b ≡ none))
        ⊎ ((i : Job K) × (j : Job K) × (a ≡ some i) × (b ≡ some j) × SameJob i j)
  SameJobs-cases none none h = inl (refl, refl)
  SameJobs-cases none (some j) h = absurd h
  SameJobs-cases (some i) none h = absurd h
  SameJobs-cases (some i) (some j) h = inr (i, j, refl, refl, h)

module _ {F K : Type 0} ⦃o : Ord K⦄ where
  -- The invariant: each map has one entry for a key.
  pub record IsState (s : ClusterState F K) : Type 0 where
    pub nodes_map : IsMap s.nodes
    pub jobs_map : IsMap s.jobs
    pub claims_map : (k : K) (j : Job K) → get s.jobs k ≡ some j → IsMap j.claimants

  pub record SameView (s t : ClusterState F K) : Type 0 where
    pub same_config : s.config ≡ t.config
    pub same_nodes : SameEntries s.nodes t.nodes
    pub same_jobs : (k : K) → SameJobs (get s.jobs k) (get t.jobs k)

module _ {F K : Type 0} ⦃f : Float F⦄ ⦃o : Ord K⦄ where
  pub contains-live_of :
      (s : ClusterState F K) (now_ns : ℕ) (j : Job K) (n : K)
      → contains (live_of s now_ns j) n
        ≡ (if is_live s n now_ns then contains_key j.claimants n else false)
  unfolding live_of
  contains-live_of s now_ns j n = ground (
    arith,
    contains-keep (λ a. is_live s a now_ns) (keys j.claimants) n,
    contains-keys j.claimants n,
  )

  pub live_of-Distinct :
      (s : ClusterState F K) (now_ns : ℕ) (j : Job K)
      → IsMap j.claimants
      → Distinct (live_of s now_ns j)
  unfolding live_of
  live_of-Distinct s now_ns j h = keep-Distinct _ (keys j.claimants) h

  module _ {s t : ClusterState F K} (v : SameView s t) where
    pub is_live-agree : (n : K) (now_ns : ℕ) → is_live s n now_ns ≡ is_live t n now_ns
    unfolding is_live
    is_live-agree n now_ns = ground (arith, v.same_nodes n, v.same_config)

    pub has_capacity-agree : (n : K) → has_capacity s n ≡ has_capacity t n
    unfolding has_capacity
    has_capacity-agree n = ground (arith, v.same_nodes n, v.same_config)

    utilization_of-agree : (n : K) → utilization_of s n ≡ utilization_of t n
    unfolding utilization_of
    utilization_of-agree n = ground (arith, v.same_nodes n)

    pub rank_cmp-agree : rank_cmp s ≡ rank_cmp t
    rank_cmp-agree = fun_ext λ a. fun_ext λ b. rw (utilization_of-agree a, utilization_of-agree b)

    pub effective_replication-agree :
        {i j : Job K} → SameJob i j → effective_replication s i ≡ effective_replication t j
    unfolding effective_replication
    effective_replication-agree h = ground (arith, v.same_config)

    pub live_nodes-agree : (now_ns : ℕ) → SameContent (live_nodes s now_ns) (live_nodes t now_ns)
    live_nodes-agree now_ns n =
        contains-live_nodes s now_ns n
        ∙ is_live-agree n now_ns
        ∙ sym (contains-live_nodes t now_ns n)

    pub live_of-agree :
        (now_ns : ℕ) {i j : Job K}
        → SameJob i j
        → SameContent (live_of s now_ns i) (live_of t now_ns j)
    live_of-agree now_ns {i} {j} h n = ground (
      arith,
      contains-live_of s now_ns i n,
      contains-live_of t now_ns j n,
      is_live-agree n now_ns,
      h.same_claims n,
    )
