-- ===== src/Repo/Service.antt =====
-- crates/ndn-repo/src/service.rs: the service around the engine. The channels and the tasks are not
-- modelled: what a call sends, spawns or cancels is a list of actions in their order. The order of the
-- list of groups stands for the order of iteration.
pub mod Answers
pub mod Demux
pub mod Groups
pub mod Settling
pub mod Tasks
mod Tests
use ndn_repo.Base.{
  ℕ, zero, suc, ◌+◌, Bool, true, false, ◌&&◌, ◌||◌, Option, none, some, List, [], ◌∷◌, ◌++◌, ◌==◌,
  if◌then◌else◌,
}
use ndn_repo.Base.Order.{Ord}
use ndn_repo.Collections.HashMap.{
  HashMap, keys, get as map_get, upsert, remove as map_remove, contains_key, is_some,
}
use ndn_repo.Extern.Names.{NameTree}
use ndn_repo.Extern.Store.{DataStore, DataPacket, InterestPacket}
use ndn_repo.Extern.Sync.{SvSyncConfig}
use ndn_repo.Extern.Tlv.{Tlv, NameCodec}
use ndn_repo.Repo.Cmd.{RepoCmd, RepoCmdRes, sync_join, sync_leave, blob_fetch, decode, encode_res}
use ndn_repo.Repo.Engine.{Repo, handle_command, take_pending_fetches}

pub record RepoServiceConfig (N : Type 0) : Type 0 where
  pub node_id : List ℕ
  -- In milliseconds.
  pub response_freshness : ℕ
  pub initial_groups : List N
  pub svs : SvSyncConfig
  pub two_phase_ingest : Bool

-- With "repo" for the node, and the default of the library.
unfoldable pub default_service_config : {N : Type 0} → SvSyncConfig → RepoServiceConfig N
default_service_config svs = record {
  node_id = 0x72 ∷ 0x65 ∷ 0x70 ∷ 0x6f ∷ [];
  response_freshness = 1000;
  initial_groups = [];
  svs = svs;
  two_phase_ingest = false;
}

pub data RepoControl (N : Type 0) : Type 0 where
  join : N → RepoControl N
  leave : N → RepoControl N

-- The inbound channel, the sync handle and the cancellation token of one task, by a number.
pub record GroupHandle : Type 0 where
  pub id : ℕ

-- Whether the registrations and the controls have a channel stands for the channel.
pub record RepoService (N S V : Type 0) : Type 0 where
  pub repo : Repo N S V
  pub repo_prefix : N
  pub config : RepoServiceConfig N
  pub groups : HashMap N GroupHandle
  pub register : Bool
  pub control : Bool
  pub next_id : ℕ

pub data Action (N : Type 0) : Type 0 where
  -- `register_tx.send`.
  register_prefix : N → Action N
  -- `SvSync::join` as a node, with a configuration, and with an ingest validator or without.
  join_svs : ℕ → N → N → SvSyncConfig → Bool → Action N
  -- `tokio::spawn(ingest_group(..))`.
  spawn_ingest : ℕ → N → Bool → Action N
  cancel : ℕ → Action N
  send : List ℕ → Action N
  -- `net_in.send`.
  route : ℕ → List ℕ → Action N
  -- `tokio::spawn` of `ingest_name`.
  spawn_fetch : ℕ → N → Action N

pub data Event (N : Type 0) : Type 0 where
  inbound : List ℕ → Event N
  inbound_closed : Event N
  control_message : RepoControl N → Event N
  control_closed : Event N
  cancelled : Event N

module _ {N S V : Type 0} where
  unfoldable pub new_service : Repo N S V → N → RepoServiceConfig N → RepoService N S V
  new_service repo repo_prefix config = record {
    repo = repo;
    repo_prefix = repo_prefix;
    config = config;
    groups = [];
    register = false;
    control = false;
    next_id = 0;
  }

  unfoldable pub with_control : RepoService N S V → RepoService N S V
  with_control s = record s { control = true }

  unfoldable pub with_registration : RepoService N S V → RepoService N S V
  with_registration s = record s { register = true }

  unfoldable pub registered_prefixes : RepoService N S V → List N
  registered_prefixes s = s.repo_prefix ∷ keys s.groups

  unfoldable pub emit_register : RepoService N S V → N → List (Action N)
  emit_register s prefix = if s.register then register_prefix prefix ∷ [] else []

-- The posture of a group's `SvSync`.
unfoldable pub svs_config : {N : Type 0} → RepoServiceConfig N → SvSyncConfig
svs_config config =
    if config.two_phase_ingest
    then (record config.svs { auto_ack = false; serve_all_stored = true })
    else config.svs

module _ {N S V : Type 0} ⦃o : Ord N⦄ where
  unfoldable pub stop_group : RepoService N S V → N → RepoService N S V × List (Action N)
  stop_group s group = elim (map_get s.groups group) [
    | none ↦ (s, [])
    | some g ↦ (record s { groups = map_remove group s.groups }, cancel g.id ∷ [])
  ]

  module _ ⦃t : NameTree N⦄ where
    unfoldable pub start_group : RepoService N S V → N → RepoService N S V × List (Action N)
    start_group s group = if contains_key s.groups group then (s, []) else (
      record s {
        groups = upsert group (record { id = s.next_id }) (λ g. g) s.groups;
        next_id = suc s.next_id;
      },
      emit_register s group
          ++ join_svs s.next_id group (t.append group s.config.node_id) (svs_config s.config)
              (is_some s.repo.validator)
            ∷ spawn_ingest s.next_id group s.config.two_phase_ingest
            ∷ [],
    )

module _ {N : Type 0} ⦃t : NameTree N⦄ where
  -- `iter().find`: the first group whose name is a prefix.
  unfoldable pub owning_group : HashMap N GroupHandle → N → Option GroupHandle
  owning_group [] name = none
  owning_group ((group, g) ∷ groups) name =
      if t.has_prefix name group then some g else owning_group groups name

  unfoldable pub any_prefix : List N → N → Bool
  any_prefix [] name = false
  any_prefix (group ∷ groups) name = t.has_prefix name group || any_prefix groups name

  unfoldable pub fetch_each : HashMap N GroupHandle → List N → List (Action N)
  fetch_each groups [] = []
  fetch_each groups (name ∷ names) =
      let rest = fetch_each groups names in
      elim (owning_group groups name) [ none ↦ rest | some g ↦ spawn_fetch g.id name ∷ rest ]

  module _ {S V : Type 0} where
    unfoldable pub in_any_group : RepoService N S V → N → Bool
    in_any_group s name = any_prefix (keys s.groups) name

    unfoldable pub drive_pending_fetches : RepoService N S V → RepoService N S V × List (Action N)
    drive_pending_fetches s =
        let (repo, names) = take_pending_fetches s.repo in
        (record s { repo = repo }, fetch_each s.groups names)

    unfoldable pub route_to_group : RepoService N S V → N → List ℕ → List (Action N)
    route_to_group s name raw = elim (owning_group s.groups name) [
      | none ↦ []
      | some g ↦ route g.id raw ∷ []
    ]

module _ {N S V : Type 0} ⦃o : Ord N⦄ ⦃d : DataStore N S⦄ ⦃i : InterestPacket N⦄ where
  unfoldable pub serve_from_store : RepoService N S V → i.Interest → Option (List ℕ)
  serve_from_store s interest =
      if i.can_be_prefix interest
      then d.find_under s.repo.store (i.interest_name interest)
      else d.get s.repo.store (i.interest_name interest)
