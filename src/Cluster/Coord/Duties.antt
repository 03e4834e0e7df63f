-- ===== src/Cluster/Coord/Duties.antt =====
-- crates/ndn-repo-cluster/src/coord.rs: the jobs that a node is to claim and to release.
use ndn_repo.Base.{
  ℕ, ◌<◌, ◌≡◌, refl, ap, ◌∙◌, Bool, true, false, ◌&&◌, none, some, Option-cases, inl, inr, [], ◌∷◌,
  keep, length, All, arith, le→ltb,
}
use ndn_repo.Base.Order.{Ord}
use ndn_repo.Collections.HashMap.{HashMap, get, keys, IsMap, contains-keys, entries-get}
use ndn_repo.Collections.Distinct.{contains, contains-keep, length-le_of_subset}
use ndn_repo.Extern.Float.{Float}
use ndn_repo.Cluster.Coord.{Job, ClusterState, observe_release}
use ndn_repo.Cluster.Coord.Queries.{
  designated_keepers, live_of, live_claimants, effective_replication, is_under_replicated,
  jobs_to_release, releases_of, must_release, jobs_to_claim, under_replicated_jobs, should_claim,
}
use ndn_repo.Cluster.Coord.Known.{live_claimants_known, is_under_replicated_known}
use ndn_repo.Cluster.Coord.Claims.{effective_replication_same}
use ndn_repo.Cluster.Coord.Releases.{
  release_all, release_all_view, drop_each, drop_each_same, releases_keep_cover,
  designated_keepers_fit,
}
use ndn_repo.Cluster.Coord.View.{IsState, contains-live_of}

module _ {F K : Type 0} ⦃f : Float F⦄ ⦃o : Ord K⦄ where
  -- The test of `jobs_to_release` on a job, by its entry.
  abbrev release_test : ClusterState F K → K → ℕ → K → Bool
  release_test s self_node now_ns job = elim (get s.jobs job) [
    | none ↦ false
    | some j ↦ must_release s self_node now_ns job j
  ]

  releases_of-eq :
      (s : ClusterState F K) (self_node : K) (now_ns : ℕ) (m : HashMap K (Job K))
      → All (λ (e : K × Job K). get s.jobs e.0 ≡ some e.1) m
      → releases_of s self_node now_ns m ≡ keep (release_test s self_node now_ns) (keys m)
  unfolding releases_of keys keep
  releases_of-eq s self_node now_ns [] h = refl
  releases_of-eq s self_node now_ns ((jid, j) ∷ m) h =
      ground (arith, releases_of-eq s self_node now_ns m h.1)

  pub jobs_to_release_lem :
      (s : ClusterState F K) (self_node : K) (now_ns : ℕ)
      → IsMap s.jobs
      → jobs_to_release s self_node now_ns ≡ keep (release_test s self_node now_ns) (keys s.jobs)
  unfolding jobs_to_release
  jobs_to_release_lem s self_node now_ns h =
      releases_of-eq s self_node now_ns s.jobs (entries-get s.jobs h)

  pub contains-jobs_to_release :
      (s : ClusterState F K) (self_node : K) (now_ns : ℕ) (job : K)
      → IsMap s.jobs
      → contains (jobs_to_release s self_node now_ns) job ≡ release_test s self_node now_ns job
  contains-jobs_to_release s self_node now_ns job h =
      rw (jobs_to_release_lem s self_node now_ns h) (
        ground (
          arith,
          contains-keep (release_test s self_node now_ns) (keys s.jobs) job,
          contains-keys s.jobs job,
        ))

  pub contains-jobs_to_claim :
      (s : ClusterState F K) (self_node : K) (now_ns : ℕ) (job : K)
      → contains (jobs_to_claim s self_node now_ns) job
        ≡ (should_claim s job self_node now_ns && is_under_replicated s job now_ns)
  unfolding jobs_to_claim under_replicated_jobs is_under_replicated
  contains-jobs_to_claim s self_node now_ns job = ground (
    arith,
    contains-keep (λ j. should_claim s j self_node now_ns) (under_replicated_jobs s now_ns) job,
    contains-keep (λ j. is_under_replicated s j now_ns) (keys s.jobs) job,
    contains-keys s.jobs job,
  )

  must_release_facts :
      (s : ClusterState F K) (self_node : K) (now_ns : ℕ) (job : K) (j : Job K)
      → must_release s self_node now_ns job j ≡ true
      → (contains (live_of s now_ns j) self_node ≡ true)
        × (contains (designated_keepers s job now_ns) self_node ≡ false)
  unfolding must_release
  must_release_facts s self_node now_ns job j h =
      ground (arith, contains-live_of s now_ns j self_node)

  -- A live claimant that is no keeper is one more than the factor asks for.
  outsider_excess :
      (s : ClusterState F K) (job self_node : K) (j : Job K) (now_ns : ℕ)
      → IsState s
      → get s.jobs job ≡ some j
      → contains (live_claimants s job now_ns) self_node ≡ true
      → contains (designated_keepers s job now_ns) self_node ≡ false
      → effective_replication s j < length (live_claimants s job now_ns)
  unfolding contains
  outsider_excess s job self_node j now_ns h e claims outside =
      let fit = designated_keepers_fit s job j now_ns h e in
      omega (
        arith,
        fit.1,
        length-le_of_subset (self_node ∷ designated_keepers s job now_ns)
            (live_claimants s job now_ns) (outside, fit.0)
            (λ a m. ground (arith, fit.2 a, o.eq_of_beq self_node a)),
      )

  -- A job that a node is to release is known, the node is a live claimant of it and no keeper, and
  -- the job has more live claimants than its replication factor.
  pub jobs_to_release_excess :
      (s : ClusterState F K) (self_node job : K) (now_ns : ℕ)
      → IsState s
      → contains (jobs_to_release s self_node now_ns) job ≡ true
      → (j : Job K) × (get s.jobs job ≡ some j)
        × (contains (live_claimants s job now_ns) self_node ≡ true)
        × (contains (designated_keepers s job now_ns) self_node ≡ false)
        × (effective_replication s j < length (live_claimants s job now_ns))
  jobs_to_release_excess s self_node job now_ns h m = elim (Option-cases (get s.jobs job)) [
    | inl e ↦ ground (arith, contains-jobs_to_release s self_node now_ns job h.jobs_map)
    | inr (j, e) ↦
        let facts =
          must_release_facts s self_node now_ns job j
            (ground (arith, contains-jobs_to_release s self_node now_ns job h.jobs_map)) in
        let claims = rw (← live_claimants_known s job now_ns e) at facts.0 in
        (j, e, claims, facts.1, outsider_excess s job self_node j now_ns h e claims facts.1)
  ]

  -- After a release that a node decides on the job is not under-replicated.
  pub release_keeps_cover :
      (s : ClusterState F K) (self_node job : K) (now_ns : ℕ)
      → IsState s
      → contains (jobs_to_release s self_node now_ns) job ≡ true
      → is_under_replicated (observe_release s job self_node) job now_ns ≡ false
  unfolding release_all
  release_keeps_cover s self_node job now_ns h m =
      let (j, e, claims, outside, excess) = jobs_to_release_excess s self_node job now_ns h m in
      let view = release_all_view s job (self_node ∷ []) j e in
      let released : ClusterState F K = observe_release s job self_node in
      let same = drop_each_same (self_node ∷ []) j in
      is_under_replicated_known released job now_ns view.0
      ∙ le→ltb _ _ (
          omega (
            arith,
            excess,
            releases_keep_cover s job j now_ns h e (self_node ∷ []) (outside, tt),
            ap length (live_claimants_known released job now_ns view.0),
            effective_replication_same released s (drop_each (self_node ∷ []) j) j view.2 same.0
                same.1,
          ))
