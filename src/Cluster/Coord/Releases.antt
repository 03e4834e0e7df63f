-- ===== src/Cluster/Coord/Releases.antt =====
-- crates/ndn-repo-cluster/src/coord.rs: what releases make of a job.
use ndn_repo.Base.{
  ℕ, ◌≤◌, ◌≡◌, refl, sym, ap, ◌∙◌, true, false, not, ◌&&◌, some, Bool-cases, inl, inr, List, [],
  ◌∷◌, length, length-take, min, All, arith,
}
use ndn_repo.Base.Order.{Ord, IsLawful}
use ndn_repo.Collections.HashMap.{
  get, keys, IsMap, contains_key, get-modify, get-remove, keys-remove,
}
use ndn_repo.Collections.Distinct.{
  contains, Distinct, keep-Distinct, contains-take, take-Distinct, length-le_of_subset,
  All-contains,
}
use ndn_repo.Collections.Sort.{
  sort_by, length-sort_by, contains-sort_by, sort_by-Ascending, Ascending-Distinct,
}
use ndn_repo.Extern.Float.{Float}
use ndn_repo.Cluster.Coord.{Job, ClusterState, observe_release, drop_claim}
use ndn_repo.Cluster.Coord.Queries.{
  designated_keepers, live_of, live_claimants, effective_replication,
}
use ndn_repo.Cluster.Coord.Known.{designated_keepers_known, live_claimants_known}
use ndn_repo.Cluster.Coord.Ranking.{rank_cmp, rank_cmp-IsLawful}
use ndn_repo.Cluster.Coord.Claims.{live_of_same}
use ndn_repo.Cluster.Coord.View.{IsState, contains-live_of, live_of-Distinct}

module _ {F K : Type 0} ⦃o : Ord K⦄ where
  -- The releases of several nodes on one job, as they reach a replica.
  unfoldable pub release_all : ClusterState F K → K → List K → ClusterState F K
  release_all s job [] = s
  release_all s job (n ∷ ns) = release_all (observe_release s job n) job ns

module _ {K : Type 0} ⦃o : Ord K⦄ where
  unfoldable pub drop_each : List K → Job K → Job K
  drop_each [] j = j
  drop_each (n ∷ ns) j = drop_each ns (drop_claim n j)

  contains_key-drop_each :
      (ns : List K) (j : Job K) (a : K)
      → contains_key (drop_each ns j).claimants a
        ≡ (not (contains ns a) && contains_key j.claimants a)
  unfolding drop_each drop_claim contains
  contains_key-drop_each [] j a = refl
  contains_key-drop_each (n ∷ ns) j a =
      ground (arith, contains_key-drop_each ns (drop_claim n j) a, get-remove n j.claimants a)

  drop_each-IsMap : (ns : List K) (j : Job K) → IsMap j.claimants → IsMap (drop_each ns j).claimants
  unfolding drop_each drop_claim
  drop_each-IsMap [] j h = h
  drop_each-IsMap (n ∷ ns) j h =
      drop_each-IsMap ns (drop_claim n j) (rw keys-remove (keep-Distinct _ (keys j.claimants) h))

  pub drop_each_same :
      (ns : List K) (j : Job K)
      → ((drop_each ns j).replication_factor ≡ j.replication_factor)
        × ((drop_each ns j).erasure ≡ j.erasure)
  unfolding drop_each drop_claim
  drop_each_same [] j = (refl, refl)
  drop_each_same (n ∷ ns) j = drop_each_same ns (drop_claim n j)

module _ {F K : Type 0} ⦃f : Float F⦄ ⦃o : Ord K⦄ where
  pub release_all_view :
      (s : ClusterState F K) (job : K) (ns : List K) (j : Job K)
      → get s.jobs job ≡ some j
      → (get (release_all s job ns).jobs job ≡ some (drop_each ns j))
        × ((release_all s job ns).nodes ≡ s.nodes)
        × ((release_all s job ns).config ≡ s.config)
  unfolding release_all drop_each observe_release
  release_all_view s job [] j e = (e, refl, refl)
  release_all_view s job (n ∷ ns) j e =
      release_all_view (observe_release s job n) job ns (drop_claim n j)
        (ground (arith, get-modify job (drop_claim n) s.jobs job, o.beq_refl job))

  module _ (s : ClusterState F K) (job : K) (j : Job K) (now_ns : ℕ) (h : IsState s)
      (e : get s.jobs job ≡ some j) where
    -- The keepers are live claimants, each named once, as many as the replication factor asks
    -- for, or all where there are fewer.
    pub designated_keepers_fit :
        Distinct (designated_keepers s job now_ns)
        × (length (designated_keepers s job now_ns)
            ≡ min (effective_replication s j) (length (live_claimants s job now_ns)))
        × ((a : K)
            → contains (designated_keepers s job now_ns) a ≡ true
            → contains (live_claimants s job now_ns) a ≡ true)
    designated_keepers_fit =
        rw (designated_keepers_known s job now_ns e, live_claimants_known s job now_ns e)
          (
            take-Distinct r _ (Ascending-Distinct law _ (sort_by-Ascending law live distinct)),
            omega (
              arith,
              length-take r (sort_by (rank_cmp s) live),
              length-sort_by (rank_cmp s) live,
            ),
            λ a m. sym (contains-sort_by (rank_cmp s) live a) ∙ contains-take r _ a m,
          )
      where
        r : ℕ
        r = effective_replication s j

        live : List K
        live = live_of s now_ns j

        law : IsLawful (rank_cmp s)
        law = rank_cmp-IsLawful s

        distinct : Distinct live
        distinct = live_of-Distinct s now_ns j (h.claims_map job j e)

    -- Whichever nodes that are not keepers release the job, at once or one after the other, its
    -- live claimants stay as many as the replication factor, or as they were where they were fewer.
    pub releases_keep_cover :
        (ns : List K)
        → All (λ n. contains (designated_keepers s job now_ns) n ≡ false) ns
        → min (effective_replication s j) (length (live_claimants s job now_ns))
          ≤ length (live_claimants (release_all s job ns) job now_ns)
    releases_keep_cover ns hn = omega (
      arith,
      designated_keepers_fit.1,
      length-le_of_subset (designated_keepers s job now_ns)
          (live_claimants (release_all s job ns) job now_ns) designated_keepers_fit.0 kept,
    )
      where
        kept :
            (a : K)
            → contains (designated_keepers s job now_ns) a ≡ true
            → contains (live_claimants (release_all s job ns) job now_ns) a ≡ true
        kept a m =
            rw
              (
                live_claimants_known (release_all s job ns) job now_ns
                    (release_all_view s job ns j e).0,
                live_of_same (release_all s job ns) s now_ns (drop_each ns j)
                    (release_all_view s job ns j e).1 (release_all_view s job ns j e).2,
              )
              (ground (
                arith,
                contains-live_of s now_ns (drop_each ns j) a,
                contains_key-drop_each ns j a,
                contains-live_of s now_ns j a,
                designated_keepers_fit.2 a m,
                ap (λ xs. contains xs a) (live_claimants_known s job now_ns e),
                not_released a m,
              ))
          where
            not_released :
                (a : K)
                → contains (designated_keepers s job now_ns) a ≡ true
                → contains ns a ≡ false
            not_released a m = elim (Bool-cases (contains ns a)) [
              | inl c ↦ ground (arith, All-contains _ ns a hn c)
              | inr c ↦ c
            ]
