-- ===== src/Cluster/Node/Replication.antt =====
-- crates/ndn-repo-cluster/src/node.rs: two nodes, one running on what the other publishes.
use ndn_repo.Base.{
  ℕ, ◌<◌, ◌^◌, ◌≡◌, refl, ◌∙◌, some, List, [], ◌∷◌, ◌++◌, map, arith, All, All-append,
}
use ndn_repo.Base.Order.{Ord}
use ndn_repo.Extern.Float.{Float}
use ndn_repo.Extern.Tlv.{Tlv, NameCodec, IsAddressable}
use ndn_repo.Cluster.Msg.{ClusterMsg, encode}
use ndn_repo.Cluster.Msg.RoundTrip.{IsMsg, normal}
use ndn_repo.Cluster.Node.{
  IngestTarget, Event, incoming, Action, publish_msg, send_ingest, send_drop, ClusterNode,
  shard_plan, actions, tick, run,
}
use ndn_repo.Cluster.Node.Ticks.{tick_lem, tick_replicated, releases, claims, dropped}
use ndn_repo.Cluster.Node.Gossip.{arrivals, Sent, run-arrivals}

-- The published messages of a node's actions, as they come in at another node.
unfoldable pub deliver : {K : Type 0} → List (Action K) → ℕ → List Event
deliver [] now_ns = []
deliver (publish_msg raw ∷ acts) now_ns = incoming (some raw) now_ns ∷ deliver acts now_ns
deliver (send_ingest target ∷ acts) now_ns = deliver acts now_ns
deliver (send_drop target ∷ acts) now_ns = deliver acts now_ns

module _ {K : Type 0} where
  deliver-drops : (drops : List K) (now_ns : ℕ) → deliver (map (λ j. send_drop j) drops) now_ns ≡ []
  unfolding deliver
  deliver-drops [] now_ns = refl
  deliver-drops (j ∷ drops) now_ns = deliver-drops drops now_ns

  deliver-ingests :
      (target_of : K → IngestTarget K) (ingests : List K) (acts : List (Action K)) (now_ns : ℕ)
      → deliver (map (λ j. send_ingest (target_of j)) ingests ++ acts) now_ns ≡ deliver acts now_ns
  unfolding deliver
  deliver-ingests target_of [] acts now_ns = refl
  deliver-ingests target_of (j ∷ ingests) acts now_ns =
      deliver-ingests target_of ingests acts now_ns

module _ {K : Type 0} ⦃w : Tlv⦄ ⦃c : NameCodec K⦄ where
  deliver-publish :
      (msgs : List (ClusterMsg K)) (acts : List (Action K)) (now_ns : ℕ)
      → deliver acts now_ns ≡ []
      → deliver (map (λ m. publish_msg (encode m)) msgs ++ acts) now_ns ≡ arrivals msgs now_ns
  unfolding deliver arrivals
  deliver-publish [] acts now_ns none_left = none_left
  deliver-publish (m ∷ msgs) acts now_ns none_left =
      rw (deliver-publish msgs acts now_ns none_left) refl

  All-Sent :
      (msgs : List (ClusterMsg K))
      → All (λ m. IsMsg m × (normal m ≡ m)) msgs
      → All (λ m. IsAddressable (encode m)) msgs
      → All Sent msgs
  All-Sent [] ok fits = tt
  All-Sent (m ∷ msgs) ((ok, same), oks) (fit, fits) = ((ok, fit, same), All-Sent msgs oks fits)

  releases-IsMsg :
      (self_id : K) (jobs : List K) → All (λ m. IsMsg m × (normal m ≡ m)) (releases self_id jobs)
  unfolding normal
  releases-IsMsg self_id [] = tt
  releases-IsMsg self_id (j ∷ jobs) = ((tt, refl), releases-IsMsg self_id jobs)

  claims-IsMsg :
      (self_id : K) (now_ns : ℕ) (jobs : List K)
      → now_ns < 2 ^ 64
      → All (λ m. IsMsg m × (normal m ≡ m)) (claims self_id now_ns jobs)
  unfolding normal
  claims-IsMsg self_id now_ns [] h = tt
  claims-IsMsg self_id now_ns (j ∷ jobs) h = ((h, refl), claims-IsMsg self_id now_ns jobs h)

module _ {F K : Type 0} ⦃f : Float F⦄ ⦃o : Ord K⦄ ⦃w : Tlv⦄ ⦃c : NameCodec K⦄ where
  tick-IsMsg :
      (n : ClusterNode F K) (now_ns : ℕ)
      → n.capacity_used < 2 ^ 64
      → n.capacity_total < 2 ^ 64
      → now_ns < 2 ^ 64
      → All (λ m. IsMsg m × (normal m ≡ m)) (tick n now_ns).1.publish
  unfolding normal
  tick-IsMsg n now_ns used total now = rw (tick_lem n now_ns) (
    ((used, total, omega arith), refl),
    All-append _ (releases n.self_id (dropped n now_ns)) _ (releases-IsMsg n.self_id _)
        (claims-IsMsg n.self_id now_ns _ now),
  )

  -- A replica that held a node's state before a tick, and runs on the bytes that the node's actions
  -- of that tick publish, in their order and at the same time, ends with the node's state after the
  -- tick, if the capacities and the time are u64 and each published message fits the address space.
  pub run_replicates :
      (n m : ClusterNode F K) (now_ns : ℕ)
      → m.state ≡ n.state
      → n.capacity_used < 2 ^ 64
      → n.capacity_total < 2 ^ 64
      → now_ns < 2 ^ 64
      → All (λ msg. IsAddressable (encode msg)) (tick n now_ns).1.publish
      → (run m (deliver (actions (tick n now_ns).0 (tick n now_ns).1 now_ns) now_ns)).0.state
        ≡ (tick n now_ns).0.state
  unfolding actions
  run_replicates n m now_ns same used total now fits =
      rw
        (
          deliver-publish (tick n now_ns).1.publish _ now_ns (
              deliver-ingests
                (λ j. record { job_id = j; shard = shard_plan (tick n now_ns).0 j now_ns })
                (tick n now_ns).1.ingest _ now_ns
              ∙ deliver-drops (tick n now_ns).1.drop now_ns),
          run-arrivals m _ now_ns (All-Sent _ (tick-IsMsg n now_ns used total now) fits),
        )
        (tick_replicated n now_ns m same)
