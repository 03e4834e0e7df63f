-- ===== src/Repo/Engine.antt =====
-- crates/ndn-repo/src/repo.rs: the engine of the repository. The mutexes guard one field each and
-- are taken for one operation at a time, so a call is a step from a state to a state.
pub mod Text
pub mod Steps
pub mod View
mod Tests
use ndn_repo.Base.{
  ℕ, Bool, true, false, not, ◌&&◌, Option, none, some, List, [], ◌∷◌, ◌++◌, ltb, if◌then◌else◌,
}
use ndn_repo.Base.Order.{Ord}
use ndn_repo.Collections.Distinct.{contains}
use ndn_repo.Collections.SortedSet.{BTreeSet, insert, delete}
use ndn_repo.Extern.Tlv.{Tlv, NameCodec}
use ndn_repo.Extern.Store.{DataStore, DataPacket}
use ndn_repo.Repo.Cmd.{
  SyncJoin, SyncLeave, BlobFetch, RepoCmd, sync_join, sync_leave, blob_fetch, RepoCmdRes, ok, err,
  decode,
}
use ndn_repo.Repo.Engine.Text

abbrev pub min_history_threshold : ℕ
min_history_threshold = 10

pub record Repo (N S V : Type 0) : Type 0 where
  pub store : S
  pub groups : BTreeSet N
  pub pending_fetches : List N
  pub validator : Option V

module _ {N S V : Type 0} where
  unfoldable pub with_optional_validator : S → Option V → Repo N S V
  with_optional_validator store validator = record {
    store = store;
    groups = [];
    pending_fetches = [];
    validator = validator;
  }

  unfoldable pub new : S → Repo N S V
  new store = with_optional_validator store none

  unfoldable pub with_validator : S → V → Repo N S V
  with_validator store validator = with_optional_validator store (some validator)

  -- `std::mem::take` of the pending names.
  unfoldable pub take_pending_fetches : Repo N S V → Repo N S V × List N
  take_pending_fetches r = (record r { pending_fetches = [] }, r.pending_fetches)

  -- The iteration of a `BTreeSet` is ascending.
  unfoldable pub joined_groups : Repo N S V → List N
  joined_groups r = r.groups

module _ {N S : Type 0} ⦃p : DataPacket N⦄ where
  unfoldable pub ingest_validator : Repo N S p.Validator → Option (List ℕ → Bool)
  ingest_validator r = elim r.validator [
    | none ↦ none
    | some v ↦ some (λ wire. elim (p.decode_data wire) [ none ↦ false | some d ↦ p.verify v d ])
  ]

module _ {N S V : Type 0} ⦃o : Ord N⦄ ⦃t : DataStore N S⦄ ⦃p : DataPacket N⦄ where
  -- The name, or `none` for the one error `MalformedData`.
  unfoldable pub store_data : Repo N S V → List ℕ → Repo N S V × Option N
  store_data r wire = elim (p.decode_data wire) [
    | none ↦ (r, none)
    | some d ↦ (record r { store = t.insert r.store (p.name d) wire }, some (p.name d))
  ]

  -- The loop over the inline packets.
  unfoldable pub store_all : Repo N S V → List (List ℕ) → Repo N S V
  store_all r [] = r
  store_all r (wire ∷ wires) = store_all (store_data r wire).0 wires

  unfoldable pub handle_blob_fetch : Repo N S V → BlobFetch N → Repo N S V × RepoCmdRes
  handle_blob_fetch r b =
      let stored = store_all r b.packets in
      (
        elim b.name [
          | none ↦ stored
          | some name ↦ record stored { pending_fetches = stored.pending_fetches ++ name ∷ [] }
        ],
        ok,
      )

module _ {N S V : Type 0} ⦃o : Ord N⦄ ⦃t : DataStore N S⦄ where
  unfoldable pub get : Repo N S V → N → Option (List ℕ)
  get r name = t.get r.store name

unfoldable pub deep_enough : Option ℕ → Bool
deep_enough none = true
deep_enough (some n) = not (ltb n min_history_threshold)

-- `svs_v3` stands for the name that `sync_protocol_svs_v3` builds.
module _ {N : Type 0} ⦃o : Ord N⦄ (svs_v3 : N) where
  unfoldable pub known_protocol : Option N → Bool
  known_protocol none = true
  known_protocol (some q) = o.beq q svs_v3

module _ {N S V : Type 0} ⦃o : Ord N⦄ (svs_v3 : N) where
  unfoldable pub handle_sync_join : Repo N S V → SyncJoin N → Repo N S V × RepoCmdRes
  handle_sync_join r j =
      if known_protocol svs_v3 j.protocol
      then elim j.group [
        | none ↦ (r, err 400 Text.missing_group)
        | some group ↦
            if deep_enough j.history_threshold
            then (record r { groups = insert group r.groups }, ok)
            else (r, err 400 Text.invalid_threshold)
      ]
      else (r, err 400 Text.unknown_protocol)

module _ {N S V : Type 0} ⦃o : Ord N⦄ where
  unfoldable pub handle_sync_leave : Repo N S V → SyncLeave N → Repo N S V × RepoCmdRes
  handle_sync_leave r l = elim l.group [
    | none ↦ (r, err 400 Text.missing_group)
    | some group ↦
        if contains r.groups group
        then (record r { groups = delete group r.groups }, ok)
        else (r, err 500 Text.not_joined)
  ]

module _ {N S V : Type 0} ⦃o : Ord N⦄ ⦃t : DataStore N S⦄ ⦃p : DataPacket N⦄ (svs_v3 : N) where
  unfoldable pub handle : Repo N S V → RepoCmd N → Repo N S V × RepoCmdRes
  handle r (sync_join j) = handle_sync_join svs_v3 r j
  handle r (sync_leave l) = handle_sync_leave r l
  handle r (blob_fetch b) = handle_blob_fetch r b

  module _ ⦃w : Tlv⦄ ⦃c : NameCodec N⦄ where
    unfoldable pub handle_command : Repo N S V → List ℕ → Repo N S V × RepoCmdRes
    handle_command r value = elim (decode value) [
      | none ↦ (r, err 400 Text.malformed)
      | some cmd ↦ handle r cmd
    ]
