-- ===== src/Cluster/Node/Ticks.antt =====
-- crates/ndn-repo-cluster/src/node.rs: what a tick publishes, and what it does.
use mathlib.Core.List.{append-nil, append_assoc}
use ndn_repo.Base.{ℕ, ◌+◌, ◌%◌, ◌^◌, ◌≡◌, refl, ◌∙◌, List, [], ◌∷◌, ◌++◌, map}
use ndn_repo.Base.Order.{Ord}
use ndn_repo.Extern.Float.{Float}
use ndn_repo.Cluster.Coord.{ClusterState, observe_heartbeat, observe_claim, observe_release}
use ndn_repo.Cluster.Coord.Queries.{jobs_to_claim, jobs_to_release}
use ndn_repo.Cluster.Msg.{ClusterMsg, heartbeat, claim, release}
use ndn_repo.Cluster.Node.{
  TickOutcome, ClusterNode, fold_msg, observe, release_jobs, claim_jobs, tick,
}

module _ {K : Type 0} where
  abbrev pub releases : K → List K → List (ClusterMsg K)
  releases self_id jobs = map (λ j. release j self_id) jobs

  abbrev pub claims : K → ℕ → List K → List (ClusterMsg K)
  claims self_id now_ns jobs = map (λ j. claim j self_id now_ns) jobs

module _ {F K : Type 0} ⦃o : Ord K⦄ where
  -- Several messages, folded in their order at one time.
  unfoldable pub fold_all : ClusterState F K → List (ClusterMsg K) → ℕ → ClusterState F K
  fold_all s [] now_ns = s
  fold_all s (m ∷ msgs) now_ns = fold_all (fold_msg s m now_ns) msgs now_ns

  unfoldable pub observe_all : ClusterNode F K → List (ClusterMsg K) → ℕ → ClusterNode F K
  observe_all n [] now_ns = n
  observe_all n (m ∷ msgs) now_ns = observe_all (observe n m now_ns) msgs now_ns

  pub observe_all-fold_all :
      (n : ClusterNode F K) (msgs : List (ClusterMsg K)) (now_ns : ℕ)
      → (observe_all n msgs now_ns).state ≡ fold_all n.state msgs now_ns
  unfolding observe_all fold_all observe
  observe_all-fold_all n [] now_ns = refl
  observe_all-fold_all n (m ∷ msgs) now_ns = observe_all-fold_all (observe n m now_ns) msgs now_ns

  fold_all-append :
      (s : ClusterState F K) (xs ys : List (ClusterMsg K)) (now_ns : ℕ)
      → fold_all s (xs ++ ys) now_ns ≡ fold_all (fold_all s xs now_ns) ys now_ns
  unfolding fold_all
  fold_all-append s [] ys now_ns = refl
  fold_all-append s (x ∷ xs) ys now_ns = fold_all-append (fold_msg s x now_ns) xs ys now_ns

  release_jobs_lem :
      (self_id : K) (jobs : List K) (s : ClusterState F K) (out : TickOutcome K) (now_ns : ℕ)
      → release_jobs self_id jobs (s, out) ≡ (
        fold_all s (releases self_id jobs) now_ns,
        record {
          publish = out.publish ++ releases self_id jobs;
          ingest = out.ingest;
          drop = out.drop ++ jobs;
        },
      )
  unfolding release_jobs fold_all fold_msg
  release_jobs_lem self_id [] s out now_ns = simp append-nil
  release_jobs_lem self_id (j ∷ jobs) s out now_ns =
      release_jobs_lem self_id jobs (observe_release s j self_id) _ now_ns ∙ simp append_assoc

  claim_jobs_lem :
      (self_id : K) (now_ns : ℕ) (jobs : List K) (s : ClusterState F K) (out : TickOutcome K)
      → claim_jobs self_id now_ns jobs (s, out) ≡ (
        fold_all s (claims self_id now_ns jobs) now_ns,
        record {
          publish = out.publish ++ claims self_id now_ns jobs;
          ingest = out.ingest ++ jobs;
          drop = out.drop;
        },
      )
  unfolding claim_jobs fold_all fold_msg
  claim_jobs_lem self_id now_ns [] s out = simp append-nil
  claim_jobs_lem self_id now_ns (j ∷ jobs) s out =
      claim_jobs_lem self_id now_ns jobs (observe_claim s j self_id now_ns) _ ∙ simp append_assoc

module _ {F K : Type 0} ⦃f : Float F⦄ ⦃o : Ord K⦄ (n : ClusterNode F K) (now_ns : ℕ) where
  -- The state after the node's own heartbeat, after its releases, and what it decides in each.
  unfoldable pub beaten : ClusterState F K
  beaten = observe_heartbeat n.state n.self_id n.capacity_used n.capacity_total now_ns

  unfoldable pub dropped : List K
  dropped = jobs_to_release beaten n.self_id now_ns

  unfoldable pub shed : ClusterState F K
  shed = fold_all beaten (releases n.self_id dropped) now_ns

  unfoldable pub claimed : List K
  claimed = jobs_to_claim shed n.self_id now_ns

  pub tick_lem : tick n now_ns ≡ (
    record n {
      state = fold_all shed (claims n.self_id now_ns claimed) now_ns;
      epoch = (n.epoch + 1) % 2 ^ 64;
    },
    record {
      publish =
          heartbeat n.self_id n.capacity_used n.capacity_total ((n.epoch + 1) % 2 ^ 64)
          ∷ (releases n.self_id dropped ++ claims n.self_id now_ns claimed);
      ingest = claimed;
      drop = dropped;
    },
  )
  unfolding tick beaten dropped shed claimed
  tick_lem = rw (
    release_jobs_lem n.self_id (jobs_to_release beaten n.self_id now_ns) beaten _ now_ns,
    claim_jobs_lem n.self_id now_ns,
  )

  -- A replica that held the node's state before a tick, and folds what the tick published in its
  -- order at the same time, holds the node's state after it.
  pub tick_replicated :
      (m : ClusterNode F K)
      → m.state ≡ n.state
      → (observe_all m (tick n now_ns).1.publish now_ns).state ≡ (tick n now_ns).0.state
  unfolding beaten shed fold_all fold_msg
  tick_replicated m e =
      observe_all-fold_all m _ now_ns
      ∙ rw (tick_lem, e) (fold_all-append _ (releases n.self_id dropped) _ now_ns)
