-- ===== src/Cluster/Coord/Claims.antt =====
-- crates/ndn-repo-cluster/src/coord.rs: what the claims of the designated nodes make of a job.
use mathlib.Core.Path.{fun_ext}
use ndn_repo.Base.{
  ℕ, ◌≤◌, ◌+◌, ◌-◌, ◌≡◌, refl, ap, ◌∙◌, true, false, ◌||◌, some, Bool-cases, inl, inr, List, [],
  ◌∷◌, ◌++◌, keep, length, length-take, length-append, min, max, All, All-take, All-imp, arith,
  le→ltb, if◌then◌else◌,
}
use ndn_repo.Base.Order.{Ord}
use ndn_repo.Collections.HashMap.{get, keys, IsMap, contains_key, get-upsert, upsert-IsMap}
use ndn_repo.Collections.Distinct.{
  contains, Distinct, contains-keep, keep-Distinct, take-Distinct, contains-append, append-Distinct,
  All-contains, All-of_contains,
}
use ndn_repo.Collections.Sort.{length-SameContent}
use ndn_repo.Extern.Float.{Float}
use ndn_repo.Cluster.Coord.{Job, ClusterState, observe_claim, add_claim, default_job}
use ndn_repo.Cluster.Coord.Queries.{
  is_live, ranked_live_nodes, designated_claimers, may_claim, live_of, live_claimants,
  effective_replication, is_under_replicated,
}
use ndn_repo.Cluster.Coord.Known.{
  designated_claimers_known, live_claimants_known, is_under_replicated_known,
}
use ndn_repo.Cluster.Coord.Ranking.{ranked_live_nodes-Distinct, contains-ranked_live_nodes}
use ndn_repo.Cluster.Coord.View.{IsState, contains-live_of, live_of-Distinct}

module _ {F K : Type 0} ⦃o : Ord K⦄ where
  -- The claims of several nodes on one job, as they reach a replica.
  pub claim_all : ClusterState F K → K → List K → ℕ → ClusterState F K
  claim_all s job [] ts_ns = s
  claim_all s job (n ∷ ns) ts_ns = claim_all (observe_claim s job n ts_ns) job ns ts_ns

module _ {K : Type 0} ⦃o : Ord K⦄ where
  claim_each : List K → ℕ → Job K → Job K
  claim_each [] ts_ns j = j
  claim_each (n ∷ ns) ts_ns j = claim_each ns ts_ns (add_claim n ts_ns j)

  contains_key-add_claim :
      (n : K) (ts_ns : ℕ) (j : Job K) (a : K)
      → contains_key (add_claim n ts_ns j).claimants a ≡ (o.beq n a || contains_key j.claimants a)
  unfolding add_claim
  contains_key-add_claim n ts_ns j a =
      ground (arith, get-upsert n 0 (λ e. max e ts_ns) j.claimants a)

  contains_key-claim_each :
      (ns : List K) (ts_ns : ℕ) (j : Job K) (a : K)
      → contains_key (claim_each ns ts_ns j).claimants a
        ≡ (contains ns a || contains_key j.claimants a)
  unfolding claim_each contains
  contains_key-claim_each [] ts_ns j a = refl
  contains_key-claim_each (n ∷ ns) ts_ns j a = ground (
    arith,
    contains_key-claim_each ns ts_ns (add_claim n ts_ns j) a,
    contains_key-add_claim n ts_ns j a,
  )

  claim_each-IsMap :
      (ns : List K) (ts_ns : ℕ) (j : Job K)
      → IsMap j.claimants
      → IsMap (claim_each ns ts_ns j).claimants
  unfolding claim_each add_claim
  claim_each-IsMap [] ts_ns j h = h
  claim_each-IsMap (n ∷ ns) ts_ns j h =
      claim_each-IsMap ns ts_ns (add_claim n ts_ns j)
        (upsert-IsMap n 0 (λ e. max e ts_ns) j.claimants h)

  claim_each_same :
      (ns : List K) (ts_ns : ℕ) (j : Job K)
      → ((claim_each ns ts_ns j).replication_factor ≡ j.replication_factor)
        × ((claim_each ns ts_ns j).erasure ≡ j.erasure)
  unfolding claim_each add_claim
  claim_each_same [] ts_ns j = (refl, refl)
  claim_each_same (n ∷ ns) ts_ns j = claim_each_same ns ts_ns (add_claim n ts_ns j)

module _ {F K : Type 0} ⦃f : Float F⦄ ⦃o : Ord K⦄ where
  claim_all_view :
      (s : ClusterState F K) (job : K) (ns : List K) (ts_ns : ℕ) (j : Job K)
      → get s.jobs job ≡ some j
      → (get (claim_all s job ns ts_ns).jobs job ≡ some (claim_each ns ts_ns j))
        × ((claim_all s job ns ts_ns).nodes ≡ s.nodes)
        × ((claim_all s job ns ts_ns).config ≡ s.config)
  unfolding claim_all claim_each observe_claim
  claim_all_view s job [] ts_ns j e = (e, refl, refl)
  claim_all_view s job (n ∷ ns) ts_ns j e =
      claim_all_view (observe_claim s job n ts_ns) job ns ts_ns (add_claim n ts_ns j)
        (ground (arith, get-upsert job default_job (add_claim n ts_ns) s.jobs job, o.beq_refl job))

  is_live_same :
      (s t : ClusterState F K) (n : K) (now_ns : ℕ)
      → s.nodes ≡ t.nodes
      → s.config ≡ t.config
      → is_live s n now_ns ≡ is_live t n now_ns
  unfolding is_live
  is_live_same s t n now_ns en ec = ground arith

  -- The live claimants of a job, by its entry and the nodes alone.
  pub live_of_same :
      (s t : ClusterState F K) (now_ns : ℕ) (j : Job K)
      → s.nodes ≡ t.nodes
      → s.config ≡ t.config
      → live_of s now_ns j ≡ live_of t now_ns j
  unfolding live_of
  live_of_same s t now_ns j en ec =
      ap (λ p. keep p (keys j.claimants)) (fun_ext λ n. is_live_same s t n now_ns en ec)

  pub effective_replication_same :
      (s t : ClusterState F K) (i j : Job K)
      → s.config ≡ t.config
      → i.replication_factor ≡ j.replication_factor
      → i.erasure ≡ j.erasure
      → effective_replication s i ≡ effective_replication t j
  unfolding effective_replication
  effective_replication_same s t i j ec er ee = ground arith

  -- New live claimants are counted once each.
  length-live_of-claim_each :
      (s : ClusterState F K) (now_ns : ℕ) (ns : List K) (ts_ns : ℕ) (j : Job K)
      → IsMap j.claimants
      → Distinct ns
      → All (λ n. (is_live s n now_ns ≡ true) × (contains_key j.claimants n ≡ false)) ns
      → length (live_of s now_ns (claim_each ns ts_ns j)) ≡ length ns + length (live_of s now_ns j)
  length-live_of-claim_each s now_ns ns ts_ns j hj d h =
      length-SameContent (live_of s now_ns (claim_each ns ts_ns j)) (ns ++ live_of s now_ns j)
        (live_of-Distinct s now_ns _ (claim_each-IsMap ns ts_ns j hj))
        (append-Distinct ns _ d (live_of-Distinct s now_ns j hj)
          (All-imp (λ n p. ground (arith, contains-live_of s now_ns j n, p.1)) ns h))
        (λ n. elim (Bool-cases (contains ns n)) [
          | inl e ↦
              let (live, unclaimed) = All-contains _ ns n h e in
              ground (arith, content n, contains-append ns (live_of s now_ns j) n, live)
          | inr e ↦ ground (
            arith,
            content n,
            contains-append ns (live_of s now_ns j) n,
            contains-live_of s now_ns j n,
          )
        ])
      ∙ length-append ns (live_of s now_ns j)
    where
      content :
          (n : K)
          → contains (live_of s now_ns (claim_each ns ts_ns j)) n
            ≡ (if is_live s n now_ns then contains ns n || contains_key j.claimants n else false)
      content n = ground (
        arith,
        contains-live_of s now_ns (claim_each ns ts_ns j) n,
        contains_key-claim_each ns ts_ns j n,
      )

  pub designated_claimers_fit :
      (s : ClusterState F K) (job : K) (j : Job K) (now_ns : ℕ)
      → IsMap s.nodes
      → get s.jobs job ≡ some j
      → Distinct (designated_claimers s job now_ns)
        × All
            (λ n. (is_live s n now_ns ≡ true) × (contains_key j.claimants n ≡ false))
            (designated_claimers s job now_ns)
  unfolding may_claim
  designated_claimers_fit s job j now_ns h e = rw (designated_claimers_known s job now_ns e) (
    take-Distinct need _
        (keep-Distinct (may_claim s j) ranked (ranked_live_nodes-Distinct s now_ns h)),
    All-take _ need _ (
        All-of_contains _ (keep (may_claim s j) ranked) λ n m.
          ground (
            arith,
            contains-keep (may_claim s j) ranked n,
            contains-ranked_live_nodes s now_ns n h,
          )),
  )
    where
      need : ℕ
      need = effective_replication s j - length (live_of s now_ns j)

      ranked : List K
      ranked = ranked_live_nodes s now_ns

  -- When every designated node claims the job, its live claimants are the old ones and as many
  -- nodes that may claim as are missing: the replication factor is reached if there are enough
  -- of these, and it is never passed.
  pub claims_fill :
      (s : ClusterState F K) (job : K) (j : Job K) (now_ns ts_ns : ℕ)
      → IsState s
      → get s.jobs job ≡ some j
      → let claimed = claim_all s job (designated_claimers s job now_ns) ts_ns in
        let live = length (live_claimants s job now_ns) in
        length (live_claimants claimed job now_ns)
        ≡ max live (
            min
              (effective_replication s j)
              (live + length (keep (may_claim s j) (ranked_live_nodes s now_ns))))
  claims_fill s job j now_ns ts_ns h e =
      rw
        (
          live_claimants_known s job now_ns e,
          live_claimants_known (claim_all s job claimers ts_ns) job now_ns
              (claim_all_view s job claimers ts_ns j e).0,
          live_of_same (claim_all s job claimers ts_ns) s now_ns (claim_each claimers ts_ns j)
              (claim_all_view s job claimers ts_ns j e).1
              (claim_all_view s job claimers ts_ns j e).2,
        )
        (omega (
          arith,
          length-live_of-claim_each s now_ns claimers ts_ns j (h.claims_map job j e)
              (designated_claimers_fit s job j now_ns h.nodes_map e).0
              (designated_claimers_fit s job j now_ns h.nodes_map e).1,
          ap length (designated_claimers_known s job now_ns e),
          length-take (effective_replication s j - length (live_of s now_ns j))
              (keep (may_claim s j) (ranked_live_nodes s now_ns)),
        ))
    where
      claimers : List K
      claimers = designated_claimers s job now_ns

  -- When every designated node claims the job, and the nodes that may claim are at least as many
  -- as the replication factor lacks, the job is no longer under-replicated.
  pub claims_cover :
      (s : ClusterState F K) (job : K) (j : Job K) (now_ns ts_ns : ℕ)
      → IsState s
      → get s.jobs job ≡ some j
      → effective_replication s j
        ≤ length (live_claimants s job now_ns)
          + length (keep (may_claim s j) (ranked_live_nodes s now_ns))
      → is_under_replicated (claim_all s job (designated_claimers s job now_ns) ts_ns) job now_ns
        ≡ false
  claims_cover s job j now_ns ts_ns h e enough =
      is_under_replicated_known claimed job now_ns view.0
      ∙ le→ltb _ _ (
          omega (
            arith,
            ap length (live_claimants_known claimed job now_ns view.0),
            claims_fill s job j now_ns ts_ns h e,
            effective_replication_same claimed s (claim_each claimers ts_ns j) j view.2
                (claim_each_same claimers ts_ns j).0 (claim_each_same claimers ts_ns j).1,
          ))
    where
      claimers : List K
      claimers = designated_claimers s job now_ns

      claimed : ClusterState F K
      claimed = claim_all s job claimers ts_ns

      view :
          (get claimed.jobs job ≡ some (claim_each claimers ts_ns j))
          × (claimed.nodes ≡ s.nodes)
          × (claimed.config ≡ s.config)
      view = claim_all_view s job claimers ts_ns j e
