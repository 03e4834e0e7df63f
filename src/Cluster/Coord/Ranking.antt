-- ===== src/Cluster/Coord/Ranking.antt =====
-- crates/ndn-repo-cluster/src/coord.rs: the ranking of the live nodes, as a sort of them.
use mathlib.Core.Path.{fun_ext}
use ndn_repo.Base.{
  ℕ, ◌≡◌, refl, sym, ap, ◌∙◌, false, some, List, [], ◌∷◌, map, keep, All, arith, compare, Ordering,
  Option-cases, inl, inr,
}
use ndn_repo.Base.Order.{Ord, IsLawful, then_with}
use ndn_repo.Collections.HashMap.{HashMap, get, keys, IsMap, contains-keys, entries-get}
use ndn_repo.Collections.Distinct.{contains, Distinct, contains-keep, keep-Distinct}
use ndn_repo.Collections.Sort.{
  sort_by, map-sort_by, Ascending-Distinct, contains-sort_by, sort_by-Ascending, Ascending,
}
use ndn_repo.Extern.Float.{Float}
use ndn_repo.Cluster.Coord.{NodeStatus, ClusterState, utilization}
use ndn_repo.Cluster.Coord.Queries.{
  is_live, by_utilization, live_entries, ranked_live_nodes, utilization_of, live_nodes,
}

utilization_num :
    {F : Type 0} (f : Float F) (st : NodeStatus) → f.is_nan (utilization ⦃f = f⦄ st) ≡ false
unfolding utilization
utilization_num f st = ground (arith, f.zero_num, f.div_num st.capacity_used st.capacity_total)

module _ {F K : Type 0} ⦃f : Float F⦄ ⦃o : Ord K⦄ where
  pub utilization_of_num : (s : ClusterState F K) (n : K) → f.is_nan (utilization_of s n) ≡ false
  unfolding utilization_of
  utilization_of_num s n = elim (Option-cases (get s.nodes n)) [
    | inl e ↦ rw (e, utilization_of) f.zero_num
    | inr (st, e) ↦ rw (e, utilization_of) (utilization_num f st)
  ]

  -- The comparison of two nodes: by the key of their utilisation, then by name.
  abbrev pub rank_cmp : ClusterState F K → K → K → Ordering
  rank_cmp s a b =
      then_with (compare (f.key (utilization_of s a)) (f.key (utilization_of s b))) (o.cmp a b)

  pub rank_cmp-IsLawful : (s : ClusterState F K) → IsLawful (rank_cmp s)
  rank_cmp-IsLawful s = record {
    eq_self = λ a. ground (arith, o.eq_self a);
    same_of_eq = λ a b. ground (arith, o.same_of_eq a b);
    mirror_gt = λ a b. ground (arith, o.mirror_gt a b);
    mirror_lt = λ a b. ground (arith, o.mirror_lt a b);
    below_trans = λ a b c. ground (arith, o.below_trans a b c);
  }

  by_utilization-rank_cmp :
      (s : ClusterState F K) (a b : K)
      → by_utilization (a, utilization_of s a) (b, utilization_of s b) ≡ rank_cmp s a b
  unfolding by_utilization
  by_utilization-rank_cmp s a b =
      rw (f.cmp_key _ _ (utilization_of_num s a) (utilization_of_num s b))

  abbrev pub with_utilization : ClusterState F K → K → K × F
  with_utilization s n = (n, utilization_of s n)

  pub sort_by-with_utilization :
      (s : ClusterState F K) (xs : List K)
      → sort_by by_utilization (map (with_utilization s) xs)
        ≡ map (with_utilization s) (sort_by (rank_cmp s) xs)
  sort_by-with_utilization s xs =
      sym (map-sort_by by_utilization (with_utilization s) xs)
      ∙ ap (λ c. map (with_utilization s) (sort_by c xs))
          (fun_ext λ a. fun_ext λ b. by_utilization-rank_cmp s a b)

  pub map-with_utilization :
      (s : ClusterState F K) (xs : List K)
      → map (λ (e : K × F). e.0) (map (with_utilization s) xs) ≡ xs
  map-with_utilization s [] = refl
  map-with_utilization s (x ∷ xs) = ap (λ t. x ∷ t) (map-with_utilization s xs)

  live_entries-eq :
      (s : ClusterState F K) (now_ns : ℕ) (m : HashMap K NodeStatus)
      → All (λ (e : K × NodeStatus). get s.nodes e.0 ≡ some e.1) m
      → live_entries s now_ns m ≡ map (with_utilization s) (keep (λ n. is_live s n now_ns) (keys m))
  unfolding live_entries utilization_of keys keep
  live_entries-eq s now_ns [] h = refl
  live_entries-eq s now_ns ((n, st) ∷ m) h = ground (arith, live_entries-eq s now_ns m h.1)

  -- The ranking is a sort of the live nodes.
  pub ranked_live_nodes_lem :
      (s : ClusterState F K) (now_ns : ℕ)
      → IsMap s.nodes
      → ranked_live_nodes s now_ns ≡ sort_by (rank_cmp s) (live_nodes s now_ns)
  unfolding ranked_live_nodes live_nodes
  ranked_live_nodes_lem s now_ns h =
      rw (live_entries-eq s now_ns s.nodes (entries-get s.nodes h), sort_by-with_utilization)
        (map-with_utilization s _)

  pub contains-live_nodes :
      (s : ClusterState F K) (now_ns : ℕ) (n : K)
      → contains (live_nodes s now_ns) n ≡ is_live s n now_ns
  unfolding live_nodes is_live
  contains-live_nodes s now_ns n =
      ground
        (arith, contains-keep (λ a. is_live s a now_ns) (keys s.nodes) n, contains-keys s.nodes n)

  pub live_nodes-Distinct :
      (s : ClusterState F K) (now_ns : ℕ) → IsMap s.nodes → Distinct (live_nodes s now_ns)
  unfolding live_nodes
  live_nodes-Distinct s now_ns h = keep-Distinct _ (keys s.nodes) h

  pub contains-ranked_live_nodes :
      (s : ClusterState F K) (now_ns : ℕ) (n : K)
      → IsMap s.nodes
      → contains (ranked_live_nodes s now_ns) n ≡ is_live s n now_ns
  contains-ranked_live_nodes s now_ns n h =
      rw (ranked_live_nodes_lem s now_ns h)
        (contains-sort_by _ (live_nodes s now_ns) n ∙ contains-live_nodes s now_ns n)

  pub ranked_live_nodes-Ascending :
      (s : ClusterState F K) (now_ns : ℕ)
      → IsMap s.nodes
      → Ascending (rank_cmp s) (ranked_live_nodes s now_ns)
  ranked_live_nodes-Ascending s now_ns h =
      rw (ranked_live_nodes_lem s now_ns h)
        (sort_by-Ascending (rank_cmp-IsLawful s) _ (live_nodes-Distinct s now_ns h))

  pub ranked_live_nodes-Distinct :
      (s : ClusterState F K) (now_ns : ℕ) → IsMap s.nodes → Distinct (ranked_live_nodes s now_ns)
  ranked_live_nodes-Distinct s now_ns h =
      Ascending-Distinct (rank_cmp-IsLawful s) _ (ranked_live_nodes-Ascending s now_ns h)
