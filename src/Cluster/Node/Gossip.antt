-- ===== src/Cluster/Node/Gossip.antt =====
-- crates/ndn-repo-cluster/src/node.rs: the loop of `run`, from the bytes of the messages on.
use ndn_repo.Base.{ℕ, ◌≡◌, refl, some, List, [], ◌∷◌, All}
use ndn_repo.Base.Order.{Ord}
use ndn_repo.Extern.Float.{Float}
use ndn_repo.Extern.Tlv.{Tlv, NameCodec, IsAddressable}
use ndn_repo.Cluster.Msg.{ClusterMsg, encode}
use ndn_repo.Cluster.Msg.RoundTrip.{IsMsg, normal, decode-encode}
use ndn_repo.Cluster.Node.{Event, incoming, ClusterNode, observe, turn, run}
use ndn_repo.Cluster.Node.Ticks.{observe_all}

module _ {K : Type 0} ⦃w : Tlv⦄ ⦃c : NameCodec K⦄ where
  -- The messages that come in at one time, as events.
  unfoldable pub arrivals : List (ClusterMsg K) → ℕ → List Event
  arrivals [] now_ns = []
  arrivals (m ∷ msgs) now_ns = incoming (some (encode m)) now_ns ∷ arrivals msgs now_ns

  -- Messages that are sent as they are received: no erasure spec with a 0.
  abbrev pub Sent : ClusterMsg K → Type 0
  Sent m = IsMsg m × IsAddressable (encode m) × (normal m ≡ m)

module _ {F K : Type 0} ⦃f : Float F⦄ ⦃o : Ord K⦄ ⦃w : Tlv⦄ ⦃c : NameCodec K⦄ where
  pub run-arrivals :
      (n : ClusterNode F K) (msgs : List (ClusterMsg K)) (now_ns : ℕ)
      → All Sent msgs
      → (run n (arrivals msgs now_ns)).0 ≡ observe_all n msgs now_ns
  unfolding run turn arrivals observe_all
  run-arrivals n [] now_ns h = refl
  run-arrivals n (m ∷ msgs) now_ns ((ok, fits, same), h) =
      rw (decode-encode m ok fits, same, run, turn)
        (run-arrivals (observe n m now_ns) msgs now_ns h)
