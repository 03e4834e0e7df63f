-- ===== src/Cluster/Coord/Shards.antt =====
-- crates/ndn-repo-cluster/src/coord.rs: which node holds which shard of an erasure-coded job.
use mathlib.Core.Path.{fun_ext}
use ndn_repo.Base.{
  ℕ, zero, suc, ◌<◌, ◌-◌, ◌≡◌, ◌↔◌, true, some, List, [], ◌∷◌, keep, length, length-take, get_elem?,
  arith, Option-cases, inl, inr,
}
use ndn_repo.Base.Order.{Ord}
use ndn_repo.Collections.HashMap.{get, IsMap, keys}
use ndn_repo.Collections.Distinct.{
  contains, Distinct, contains-keep, keep-Distinct, contains-take, take-Distinct,
}
use ndn_repo.Extern.Float.{Float}
use ndn_repo.Cluster.Coord.{Job, ClusterState}
use ndn_repo.Cluster.Coord.Queries.{
  position, is_live, has_capacity, shard_holders, shard_index_of, ranked_live_nodes,
  designated_claimers, may_claim, live_of, effective_replication,
}
use ndn_repo.Cluster.Coord.Known.{designated_claimers_known}
use ndn_repo.Cluster.Coord.Ranking.{ranked_live_nodes-Distinct, contains-ranked_live_nodes}

sub_zero : (n : ℕ) → n - zero ≡ n
sub_zero n = omega arith

module _ {K : Type 0} ⦃o : Ord K⦄ where
  position-get_elem? :
      (xs : List K) (a : K) (i : ℕ) → position xs a ≡ some i → get_elem? xs i ≡ some a
  unfolding position
  position-get_elem? [] a i h = cc
  position-get_elem? (x ∷ xs) a zero h = ground (arith, o.eq_of_beq x a)
  position-get_elem? (x ∷ xs) a (suc i) h = ground (arith, position-get_elem? xs a i)

  get_elem?-contains :
      (xs : List K) (a : K) (i : ℕ) → get_elem? xs i ≡ some a → contains xs a ≡ true
  unfolding contains
  get_elem?-contains [] a i h = cc
  get_elem?-contains (x ∷ xs) a zero h = ground (arith, o.beq_refl a)
  get_elem?-contains (x ∷ xs) a (suc i) h = ground (arith, get_elem?-contains xs a i h)

  get_elem?-position :
      (xs : List K) (a : K) (i : ℕ) → Distinct xs → get_elem? xs i ≡ some a → position xs a ≡ some i
  unfolding position
  get_elem?-position [] a i d h = cc
  get_elem?-position (x ∷ xs) a zero d h = ground (arith, o.beq_refl a)
  get_elem?-position (x ∷ xs) a (suc i) d h =
      ground (arith, get_elem?-position xs a i, get_elem?-contains xs a i, o.eq_of_beq x a)

  get_elem?-lt : (xs : List K) (a : K) (i : ℕ) → get_elem? xs i ≡ some a → i < length xs
  get_elem?-lt [] a i h = cc
  get_elem?-lt (x ∷ xs) a zero h = omega arith
  get_elem?-lt (x ∷ xs) a (suc i) h = omega (arith, get_elem?-lt xs a i h)

module _ {F K : Type 0} ⦃f : Float F⦄ ⦃o : Ord K⦄ (s : ClusterState F K) (now_ns : ℕ) where
  shard_holders-lt :
      (n : ℕ) (a : K) (i : ℕ) → get_elem? (shard_holders s n now_ns) i ≡ some a → i < n
  unfolding shard_holders
  shard_holders-lt n a i h = omega (
    arith,
    get_elem?-lt _ a i h,
    length-take n (keep (has_capacity s) (ranked_live_nodes s now_ns)),
  )

  pub shard_holders-Distinct : (n : ℕ) → IsMap s.nodes → Distinct (shard_holders s n now_ns)
  unfolding shard_holders
  shard_holders-Distinct n h =
      take-Distinct n _ (keep-Distinct (has_capacity s) _ (ranked_live_nodes-Distinct s now_ns h))

  -- A node has shard index `i` of `n` shards, `n` a u16, exactly when it is the holder at
  -- position `i`: the cast of the position to u16 loses nothing, and no index is given twice.
  pub shard_index_of_iff :
      (self_id : K) (n i : ℕ)
      → IsMap s.nodes
      → n < 65536
      → (shard_index_of s self_id n now_ns ≡ some i)
        ↔ (get_elem? (shard_holders s n now_ns) i ≡ some self_id)
  unfolding shard_index_of
  shard_index_of_iff self_id n i h hn = (to, from)
    where
      holders : List K
      holders = shard_holders s n now_ns

      small : (k : ℕ) → position holders self_id ≡ some k → k < 65536
      small k e =
          omega (arith, shard_holders-lt n self_id k (position-get_elem? holders self_id k e))

      to : shard_index_of s self_id n now_ns ≡ some i → get_elem? holders i ≡ some self_id
      to e = elim (Option-cases (position holders self_id)) [
        | inl p ↦ ground arith
        | inr (k, p) ↦ ground (arith, small k p, position-get_elem? holders self_id k p)
      ]

      from : get_elem? holders i ≡ some self_id → shard_index_of s self_id n now_ns ≡ some i
      from e = ground (
        arith,
        get_elem?-position holders self_id i (shard_holders-Distinct n h) e,
        shard_holders-lt n self_id i e,
      )

  -- A holder is a live node with capacity.
  pub shard_holders_live :
      (n : ℕ) (a : K)
      → IsMap s.nodes
      → contains (shard_holders s n now_ns) a ≡ true
      → (is_live s a now_ns ≡ true) × (has_capacity s a ≡ true)
  unfolding shard_holders
  shard_holders_live n a h m = ground (
    arith,
    contains-take n (keep (has_capacity s) (ranked_live_nodes s now_ns)) a m,
    contains-keep (has_capacity s) (ranked_live_nodes s now_ns) a,
    contains-ranked_live_nodes s now_ns a h,
  )

  may_claim_unclaimed : (j : Job K) (n : K) → j.claimants ≡ [] → may_claim s j n ≡ has_capacity s n
  unfolding may_claim get
  may_claim_unclaimed j n e = ground arith

  live_of_unclaimed : (j : Job K) → j.claimants ≡ [] → live_of s now_ns j ≡ []
  unfolding live_of keys keep
  live_of_unclaimed j e = rw (e, live_of)

  -- For an erasure job that nobody has claimed yet, the nodes asked to claim it are the shard
  -- holders, in the order of the shards: each claimer has an index, each index a claimer.
  pub designated_claimers-shard_holders :
      (job : K) (j : Job K) (k n : ℕ)
      → get s.jobs job ≡ some j
      → j.erasure ≡ some (k, n)
      → j.claimants ≡ []
      → designated_claimers s job now_ns ≡ shard_holders s n now_ns
  unfolding shard_holders effective_replication
  designated_claimers-shard_holders job j k n known coded unclaimed = rw (
    designated_claimers_known s job now_ns known,
    fun_ext (λ m. may_claim_unclaimed j m unclaimed),
    live_of_unclaimed j unclaimed,
    coded,
    effective_replication,
    shard_holders,
    sub_zero n,
  )
