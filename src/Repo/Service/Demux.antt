-- ===== src/Repo/Service/Demux.antt =====
-- crates/ndn-repo/src/service.rs: the loop of the service and what it does with a packet. A call gives
-- the service after it and its actions; `svs_v3` is the protocol name of the engine.
use ndn_repo.Base.{ℕ, Option, none, some, List, [], ◌∷◌, ◌++◌, ◌==◌, if◌then◌else◌}
use ndn_repo.Base.Order.{Ord}
use ndn_repo.Collections.HashMap.{HashMap, is_some}
use ndn_repo.Extern.Names.{NameTree}
use ndn_repo.Extern.Store.{DataStore, DataPacket, InterestPacket}
use ndn_repo.Extern.Tlv.{Tlv, NameCodec}
use ndn_repo.Wire.Fields.{◌>>=◌}
use ndn_repo.Repo.Cmd.{RepoCmd, sync_join, sync_leave, blob_fetch, decode, encode_res}
use ndn_repo.Repo.Engine.{handle_command}
use ndn_repo.Repo.Service.{
  RepoService, RepoControl, join, leave, GroupHandle, Action, cancel, send, Event, inbound,
  inbound_closed, control_message, control_closed, cancelled, emit_register, stop_group,
  start_group, in_any_group, drive_pending_fetches, route_to_group, serve_from_store,
}

-- One call after another.
abbrev pub then_do : {A B : Type 0} → A × List B → (A → A × List B) → A × List B
then_do (a, acts) next = let (b, more) = next a in (b, acts ++ more)

module _ {N S V : Type 0} ⦃o : Ord N⦄ ⦃t : NameTree N⦄ where
  -- What the service does for a command that the engine accepted.
  unfoldable pub follow :
      RepoService N S V → Option (RepoCmd N) → RepoService N S V × List (Action N)
  follow s none = (s, [])
  follow s (some (sync_join j)) = elim j.group [ none ↦ (s, []) | some group ↦ start_group s group ]
  follow s (some (sync_leave l)) = elim l.group [ none ↦ (s, []) | some group ↦ stop_group s group ]
  follow s (some (blob_fetch b)) = drive_pending_fetches s

  unfoldable pub obey : RepoService N S V → RepoControl N → RepoService N S V × List (Action N)
  obey s (join group) = start_group s group
  obey s (leave group) = stop_group s group

  -- The groups that the operator configured.
  unfoldable pub start_all : List N → RepoService N S V → RepoService N S V × List (Action N)
  start_all [] s = (s, [])
  start_all (group ∷ groups) s = then_do (start_group s group) (start_all groups)

-- `drain`, with the cancellation of each handle.
unfoldable pub cancel_all : {N : Type 0} → HashMap N GroupHandle → List (Action N)
cancel_all [] = []
cancel_all ((group, g) ∷ groups) = cancel g.id ∷ cancel_all groups

module _ {N S V : Type 0} ⦃t : NameTree N⦄ ⦃i : InterestPacket N⦄ ⦃w : Tlv⦄ ⦃c : NameCodec N⦄ where
  -- The parameters of a command Interest under the prefix of the repository.
  unfoldable pub command_of : RepoService N S V → i.Interest → Option (List ℕ)
  command_of s interest =
      if t.has_prefix (i.interest_name interest) s.repo_prefix
      then (i.app_parameters interest >>= λ ap.
          let parsed : Option (RepoCmd N) = decode ap in if is_some parsed then some ap else none)
      else none

module _ {N S V : Type 0} ⦃o : Ord N⦄ ⦃t : NameTree N⦄ ⦃d : DataStore N S⦄
    ⦃i : InterestPacket N⦄ where
  -- An Interest that is no command.
  unfoldable pub serve : RepoService N S V → i.Interest → List ℕ → List (Action N)
  serve s interest raw =
      if in_any_group s (i.interest_name interest)
      then elim (serve_from_store s interest) [
        | none ↦ route_to_group s (i.interest_name interest) raw
        | some wire ↦ send wire ∷ []
      ]
      else []

module _ {N S V : Type 0} ⦃t : NameTree N⦄ ⦃p : DataPacket N⦄ where
  unfoldable pub dispatch_data : RepoService N S V → List ℕ → List (Action N)
  dispatch_data s raw = elim (p.decode_data raw) [
    | none ↦ []
    | some packet ↦ route_to_group s (p.name packet) raw
  ]

module _ {N S V : Type 0} ⦃o : Ord N⦄ ⦃t : NameTree N⦄ ⦃d : DataStore N S⦄ ⦃p : DataPacket N⦄
    ⦃i : InterestPacket N⦄ ⦃w : Tlv⦄ ⦃c : NameCodec N⦄ (svs_v3 : N) where
  unfoldable pub handle_command_interest :
      RepoService N S V → i.Interest → List ℕ → RepoService N S V × List (Action N)
  handle_command_interest s interest ap =
      let (repo, res) = handle_command svs_v3 s.repo ap in
      let handled = record s { repo = repo } in
      let (after, acts) = if res.status == 200 then follow handled (decode ap) else (handled, []) in
      (
        after,
        acts
            ++ send (
                p.build_fresh s.config.response_freshness (i.interest_name interest)
                  (encode_res res))
              ∷ [],
      )

  unfoldable pub dispatch_interest :
      RepoService N S V → List ℕ → RepoService N S V × List (Action N)
  dispatch_interest s raw = elim (i.decode_interest raw) [
    | none ↦ (s, [])
    | some interest ↦ elim (command_of s interest) [
      | none ↦ (s, serve s interest raw)
      | some ap ↦ handle_command_interest s interest ap
    ]
  ]

  unfoldable pub dispatch : RepoService N S V → List ℕ → RepoService N S V × List (Action N)
  dispatch s [] = (s, [])
  dispatch s (typ ∷ bytes) =
      if typ == 0x05
      then dispatch_interest s (typ ∷ bytes)
      else if typ == 0x06
      then (s, dispatch_data s (typ ∷ bytes))
      else (s, [])

  -- The loop, on the events in the order in which `select!` takes them. Controls come only if there is a
  -- channel for them.
  unfoldable pub run_loop : List (Event N) → RepoService N S V → RepoService N S V × List (Action N)
  run_loop [] s = (s, [])
  run_loop (cancelled ∷ events) s = (s, [])
  run_loop (inbound_closed ∷ events) s = (s, [])
  run_loop (inbound raw ∷ events) s = then_do (dispatch s raw) (run_loop events)
  run_loop (control_message m ∷ events) s =
      then_do (if s.control then obey s m else (s, [])) (run_loop events)
  run_loop (control_closed ∷ events) s = run_loop events s

  unfoldable pub run : RepoService N S V → List (Event N) → List (Action N)
  run s events =
      let (stopped, acts) = then_do (start_all s.config.initial_groups s) (run_loop events) in
      emit_register s s.repo_prefix ++ (acts ++ cancel_all stopped.groups)
