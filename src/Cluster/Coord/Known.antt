-- ===== src/Cluster/Coord/Known.antt =====
-- crates/ndn-repo-cluster/src/coord.rs: the queries on a job that the state knows, each in one
-- equation over the job's entry.
use ndn_repo.Base.{
  ℕ, zero, suc, ◌-◌, ◌≡◌, refl, ap, none, some, List, [], ◌∷◌, map, keep, take, length, arith, ltb,
  ◌==◌, if◌then◌else◌,
}
use ndn_repo.Base.Order.{Ord}
use ndn_repo.Collections.HashMap.{get}
use ndn_repo.Collections.Sort.{sort_by}
use ndn_repo.Extern.Float.{Float}
use ndn_repo.Cluster.Coord.{Job, ClusterState}
use ndn_repo.Cluster.Coord.Queries.{
  live_of, live_claimants, effective_replication, ranked_live_nodes, designated_claimers, may_claim,
  designated_keepers, is_under_replicated,
}
use ndn_repo.Cluster.Coord.Ranking.{rank_cmp, sort_by-with_utilization, map-with_utilization}

map-take {ℓ κ} :
    {A : Type ℓ} {B : Type κ} (g : A → B) (n : ℕ) (xs : List A)
    → take n (map g xs) ≡ map g (take n xs)
map-take g zero xs = refl
map-take g (suc n) [] = refl
map-take g (suc n) (x ∷ xs) = ap (λ t. g x ∷ t) (map-take g n xs)

take_early {ℓ} : {A : Type ℓ} (n : ℕ) (xs : List A) → (if n == 0 then [] else take n xs) ≡ take n xs
take_early zero xs = refl
take_early (suc n) xs = ground arith

module _ {F K : Type 0} ⦃f : Float F⦄ ⦃o : Ord K⦄ (s : ClusterState F K) (job : K)
    (now_ns : ℕ) where
  pub designated_claimers-none : get s.jobs job ≡ none → designated_claimers s job now_ns ≡ []
  unfolding designated_claimers
  designated_claimers-none e = ground arith

  pub designated_keepers-none : get s.jobs job ≡ none → designated_keepers s job now_ns ≡ []
  unfolding designated_keepers
  designated_keepers-none e = ground arith

  module _ {j : Job K} (e : get s.jobs job ≡ some j) where
    pub live_claimants_known : live_claimants s job now_ns ≡ live_of s now_ns j
    unfolding live_claimants
    live_claimants_known = ground arith

    pub is_under_replicated_known :
        is_under_replicated s job now_ns
        ≡ ltb (length (live_of s now_ns j)) (effective_replication s j)
    unfolding is_under_replicated
    is_under_replicated_known = ground (arith, live_claimants_known)

    -- The claimers are the first nodes of the ranking that may claim, as many as are missing.
    pub designated_claimers_known :
        designated_claimers s job now_ns
        ≡ take
            (effective_replication s j - length (live_of s now_ns j))
            (keep (may_claim s j) (ranked_live_nodes s now_ns))
    unfolding designated_claimers
    designated_claimers_known = rw (e, designated_claimers, live_claimants_known) (take_early _ _)

    -- The keepers are the first of the live claimants in the ranking.
    pub designated_keepers_known :
        designated_keepers s job now_ns
        ≡ take (effective_replication s j) (sort_by (rank_cmp s) (live_of s now_ns j))
    unfolding designated_keepers
    designated_keepers_known = rw (
      e,
      designated_keepers,
      live_claimants_known,
      sort_by-with_utilization s (live_of s now_ns j),
      map-take,
      map-with_utilization,
    )
