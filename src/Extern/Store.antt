-- ===== src/Extern/Store.antt =====
-- `ndn_sync::DataStore` as a state that its operations pass on, and of `ndn_packet` and
-- `ndn_security` what the engine uses of a Data packet.
use ndn_repo.Base.{ℕ, ◌≡◌, Bool, Option, none, some, List, if◌then◌else◌}
use ndn_repo.Base.Order.{Ord}
use ndn_repo.Collections.HashMap.{is_some}

pub record DataStore (N S : Type 0) ⦃o : Ord N⦄ : Type 0 where
  pub insert : S → N → List ℕ → S
  pub get : S → N → Option (List ℕ)
  pub get_insert :
      (s : S) (n : N) (wire : List ℕ) (m : N)
      → get (insert s n wire) m ≡ (if o.beq n m then some wire else get s m)
  pub contains : S → N → Bool
  pub contains_get : (s : S) (n : N) → contains s n ≡ is_some (get s n)
  pub remove : S → N → S
  -- A packet whose name has the prefix.
  pub find_under : S → N → Option (List ℕ)
  -- The packets whose names have the prefix, in the order of their names, so many at most; 0 for all.
  pub scan_under : S → N → ℕ → List (N × List ℕ)
  -- Whether the writes are durable.
  pub sync : S → Bool
  pub get_remove : (s : S) (n m : N) → get (remove s n) m ≡ (if o.beq n m then none else get s m)

-- `Data` with `Data::decode`, the name and the content of a packet, and its verification by a
-- `Validator`; `DataBuilder::new(name, content).sign_digest_sha256()`.
pub record DataPacket (N : Type 0) : Type 1 where
  pub Data : Type 0
  pub Validator : Type 0
  pub decode_data : List ℕ → Option Data
  pub name : Data → N
  pub content : Data → Option (List ℕ)
  pub verify : Validator → Data → Bool
  pub build : N → List ℕ → List ℕ
  -- With a freshness period before the signature.
  pub build_fresh : ℕ → N → List ℕ → List ℕ
  pub built :
      (n : N) (body : List ℕ)
      → (d : Data) × (decode_data (build n body) ≡ some d) × (name d ≡ n) × (content d ≡ some body)

-- `Interest` with `Interest::decode`, its name, its parameters and its selector.
pub record InterestPacket (N : Type 0) : Type 1 where
  pub Interest : Type 0
  pub decode_interest : List ℕ → Option Interest
  pub interest_name : Interest → N
  pub app_parameters : Interest → Option (List ℕ)
  pub can_be_prefix : Interest → Bool
