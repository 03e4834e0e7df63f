-- ===== src/Cluster/Coord/Convergence.antt =====
-- crates/ndn-repo-cluster/src/coord.rs: messages in two orders, and the window of a heartbeat.
use mathlib.Core.Path.{subst}
use ndn_repo.Collections.Distinct.{beq_sym}
use ndn_repo.Base.{
  ℕ, ◌≤◌, ◌+◌, ◌≡◌, ◌↔◌, ◌≢◌, refl, true, Option, none, some, max, arith, if◌then◌else◌, Bool-cases,
  inl, inr,
}
use ndn_repo.Base.Order.{Ord}
use ndn_repo.Collections.HashMap.{get, SameEntries, get-upsert, unwrap_or}
use ndn_repo.Extern.Float.{Float}
use ndn_repo.Cluster.Coord.{
  Job, ClusterState, observe_heartbeat, observe_claim, add_claim, beat, default_job, dead_after_ns,
}
use ndn_repo.Cluster.Coord.Queries.{is_live, fresh_at}
use ndn_repo.Cluster.Coord.View.{SameView, SameJobs, SameJob}

module _ {F K : Type 0} ⦃o : Ord K⦄ where
  -- The newest heartbeat that the state has of a node, 0 for an unknown one.
  abbrev pub last_seen : ClusterState F K → K → ℕ
  last_seen s n = elim (get s.nodes n) [ none ↦ 0 | some st ↦ st.last_heartbeat_ns ]

  get-observe_heartbeat :
      (s : ClusterState F K) (n : K) (u c t : ℕ) (k : K)
      → get (observe_heartbeat s n u c t).nodes k ≡ (
          if o.beq n k
          then some (
              beat u c t (
                unwrap_or
                  (get s.nodes n)
                  (record { last_heartbeat_ns = 0; capacity_used = u; capacity_total = c })))
          else get s.nodes k)
  unfolding observe_heartbeat
  get-observe_heartbeat s n u c t k = get-upsert n _ (beat u c t) s.nodes k

  heartbeats_comm_self :
      (s : ClusterState F K) (m : K) (u c t u' c' t' : ℕ)
      → t ≢ t'
      → SameEntries
          (observe_heartbeat (observe_heartbeat s m u c t) m u' c' t').nodes
          (observe_heartbeat (observe_heartbeat s m u' c' t') m u c t).nodes
  unfolding beat
  heartbeats_comm_self s m u c t u' c' t' apart k = ground (
    arith,
    get-observe_heartbeat (observe_heartbeat s m u c t) m u' c' t' k,
    get-observe_heartbeat (observe_heartbeat s m u' c' t') m u c t k,
    get-observe_heartbeat s m u c t k,
    get-observe_heartbeat s m u' c' t' k,
    get-observe_heartbeat s m u c t m,
    get-observe_heartbeat s m u' c' t' m,
    o.beq_refl m,
  )

  -- Two heartbeats fold to one state in either order, unless one node sent both with one
  -- timestamp.
  pub heartbeats_comm :
      (s : ClusterState F K) (m n : K) (u c t u' c' t' : ℕ)
      → (m ≡ n → t ≢ t')
      → SameEntries
          (observe_heartbeat (observe_heartbeat s m u c t) n u' c' t').nodes
          (observe_heartbeat (observe_heartbeat s n u' c' t') m u c t).nodes
  heartbeats_comm s m n u c t u' c' t' apart k = elim (Bool-cases (o.beq m n)) [
    | inl e ↦
        subst
          (λ x.
            SameEntries (observe_heartbeat (observe_heartbeat s m u c t) x u' c' t').nodes
              (observe_heartbeat (observe_heartbeat s x u' c' t') m u c t).nodes)
          (o.eq_of_beq m n e) (heartbeats_comm_self s m u c t u' c' t' (apart (o.eq_of_beq m n e)))
          k
    | inr e ↦ ground (
      arith,
      get-observe_heartbeat (observe_heartbeat s m u c t) n u' c' t' k,
      get-observe_heartbeat (observe_heartbeat s n u' c' t') m u c t k,
      get-observe_heartbeat s m u c t k,
      get-observe_heartbeat s n u' c' t' k,
      get-observe_heartbeat s m u c t n,
      get-observe_heartbeat s n u' c' t' m,
      o.eq_of_beq m k,
      o.eq_of_beq n k,
      beq_sym m n,
    )
  ]

module _ {K : Type 0} ⦃o : Ord K⦄ where
  SameJob-refl : (j : Job K) → SameJob j j
  SameJob-refl j = record { same_factor = refl; same_erasure = refl; same_claims = λ k. refl }

  SameJobs-of_eq : (a b : Option (Job K)) → a ≡ b → SameJobs a b
  SameJobs-of_eq a b e = subst (SameJobs a) e (own a)
    where
      own : (x : Option (Job K)) → SameJobs x x
      own none = tt
      own (some j) = SameJob-refl j

  add_claims_comm :
      (m n : K) (t t' : ℕ) (j : Job K)
      → SameJob (add_claim n t' (add_claim m t j)) (add_claim m t (add_claim n t' j))
  unfolding add_claim
  add_claims_comm m n t t' j = record {
    same_factor = refl;
    same_erasure = refl;
    same_claims = λ k. ground (
      arith,
      get-upsert n 0 (λ e. max e t') (add_claim m t j).claimants k,
      get-upsert m 0 (λ e. max e t) (add_claim n t' j).claimants k,
      get-upsert m 0 (λ e. max e t) j.claimants k,
      get-upsert n 0 (λ e. max e t') j.claimants k,
      get-upsert m 0 (λ e. max e t) j.claimants n,
      get-upsert n 0 (λ e. max e t') j.claimants m,
      o.eq_of_beq m k,
      o.eq_of_beq n k,
      o.eq_of_beq m n,
      beq_sym m n,
    );
  }

module _ {F K : Type 0} ⦃o : Ord K⦄ where
  get-observe_claim :
      (s : ClusterState F K) (job n : K) (t : ℕ) (k : K)
      → get (observe_claim s job n t).jobs k ≡ (
          if o.beq job k
          then some (add_claim n t (unwrap_or (get s.jobs job) default_job))
          else get s.jobs k)
  unfolding observe_claim
  get-observe_claim s job n t k = get-upsert job default_job (add_claim n t) s.jobs k

  claims_comm_job :
      (s : ClusterState F K) (job m n : K) (t t' : ℕ) (k : K)
      → SameJobs
          (get (observe_claim (observe_claim s job m t) job n t').jobs k)
          (get (observe_claim (observe_claim s job n t') job m t).jobs k)
  claims_comm_job s job m n t t' k = elim (Bool-cases (o.beq job k)) [
    | inl e ↦
        rw
          (
            get-observe_claim (observe_claim s job m t) job n t' k,
            get-observe_claim (observe_claim s job n t') job m t k,
            e,
            get-observe_claim s job m t job,
            get-observe_claim s job n t' job,
            o.beq_refl job,
          )
          (add_claims_comm m n t t' _)
    | inr e ↦ SameJobs-of_eq _ _ (
        ground (
          arith,
          get-observe_claim (observe_claim s job m t) job n t' k,
          get-observe_claim (observe_claim s job n t') job m t k,
          get-observe_claim s job m t k,
          get-observe_claim s job n t' k,
        ))
  ]

  -- Two claims fold to states of one content in either order, whatever their jobs, nodes and
  -- timestamps.
  pub claims_comm :
      (s : ClusterState F K) (job m : K) (t : ℕ) (job' n : K) (t' : ℕ)
      → SameView
          (observe_claim (observe_claim s job m t) job' n t')
          (observe_claim (observe_claim s job' n t') job m t)
  claims_comm s job m t job' n t' = record {
    same_config = unfold observe_claim in refl;
    same_nodes = λ k. unfold observe_claim in refl;
    same_jobs = λ k. elim (Bool-cases (o.beq job job')) [
      | inl e ↦
          subst
            (λ x.
              SameJobs (get (observe_claim (observe_claim s job m t) x n t').jobs k)
                (get (observe_claim (observe_claim s x n t') job m t).jobs k))
            (o.eq_of_beq job job' e) (claims_comm_job s job m n t t' k)
      | inr e ↦ SameJobs-of_eq _ _ (
          ground (
            arith,
            get-observe_claim (observe_claim s job m t) job' n t' k,
            get-observe_claim (observe_claim s job' n t') job m t k,
            get-observe_claim s job m t k,
            get-observe_claim s job' n t' k,
            get-observe_claim s job m t job',
            get-observe_claim s job' n t' job,
            o.eq_of_beq job k,
            o.eq_of_beq job' k,
            beq_sym job job',
          ))
    ];
  }

module _ {F K : Type 0} ⦃f : Float F⦄ ⦃o : Ord K⦄ where
  -- After a heartbeat of time `t` a node is live at `now_ns` exactly while `now_ns` is within the
  -- configured silence of the newest heartbeat known.
  pub heartbeat_window :
      (s : ClusterState F K) (n : K) (u c t now_ns : ℕ)
      → (is_live (observe_heartbeat s n u c t) n now_ns ≡ true)
        ↔ (now_ns ≤ max t (last_seen s n) + dead_after_ns s.config)
  unfolding is_live fresh_at beat
  heartbeat_window s n u c t now_ns =
      ground (arith, get-observe_heartbeat s n u c t n, o.beq_refl n, config_same)
    where
      config_same : (observe_heartbeat s n u c t).config ≡ s.config
      config_same = unfold observe_heartbeat in refl
