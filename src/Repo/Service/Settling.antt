-- ===== src/Repo/Service/Settling.antt =====
-- crates/ndn-repo/src/service.rs: no ingest task outlives the service.
use ndn_repo.Base.{
  ℕ, ◌≡◌, refl, ap, Bool, true, false, Option, none, some, List, [], ◌∷◌, ◌++◌, ◌==◌, if◌then◌else◌,
  arith, inl, inr, Option-cases, Bool-cases,
}
use ndn_repo.Base.Order.{Ord}
use ndn_repo.Collections.HashMap.{HashMap, keys, get as map_get}
use ndn_repo.Extern.Names.{NameTree}
use ndn_repo.Extern.Store.{DataStore, DataPacket, InterestPacket}
use ndn_repo.Extern.Tlv.{Tlv, NameCodec}
use ndn_repo.Repo.Cmd.{RepoCmd, sync_join, sync_leave, blob_fetch, decode}
use ndn_repo.Repo.Engine.{handle_command, take_pending_fetches}
use ndn_repo.Repo.Service.{
  RepoService, RepoControl, join, leave, GroupHandle, Action, send, Event, inbound, inbound_closed,
  control_message, control_closed, cancelled, emit_register, stop_group, start_group,
  drive_pending_fetches, route_to_group,
}
use ndn_repo.Repo.Service.Demux.{
  then_do, follow, obey, start_all, cancel_all, handle_command_interest, command_of, serve,
  dispatch_interest, dispatch_data, dispatch, run_loop, run,
}
use ndn_repo.Repo.Service.Tasks.{
  occ, spawned, stopped, ids, Quiet, Accounted, Quiet-Accounted, then-Accounted, Nothing-Accounted,
  spawn-Accounted, cancel-Accounted, fetch_each-Quiet,
}

module _ {N S V : Type 0} ⦃o : Ord N⦄ where
  -- A call of the service, by what it does to the groups and by its actions.
  abbrev pub Settles : RepoService N S V → RepoService N S V × List (Action N) → Type 0
  Settles s (after, acts) = Accounted s.groups after.groups acts

  reply-Settles :
      (s : RepoService N S V) (done : RepoService N S V × List (Action N)) (wire : List ℕ)
      → Settles s done
      → Settles s (done.0, done.1 ++ send wire ∷ [])
  unfolding spawned stopped
  reply-Settles s (after, acts) wire first =
      then-Accounted s.groups after.groups after.groups acts (send wire ∷ []) first
        (Quiet-Accounted after.groups (send wire ∷ []) (refl, refl))

  then_do-Settles :
      (s : RepoService N S V) (done : RepoService N S V × List (Action N))
      (next : RepoService N S V → RepoService N S V × List (Action N))
      → Settles s done
      → ((s : RepoService N S V) → Settles s (next s))
      → Settles s (then_do done next)
  then_do-Settles s (after, acts) next first rest =
      then-Accounted s.groups after.groups (next after).0.groups acts (next after).1 first
        (rest after)

  emit_register-Quiet : (s : RepoService N S V) (prefix : N) → Quiet (emit_register s prefix)
  unfolding emit_register spawned stopped
  emit_register-Quiet s prefix = ground arith

  stop_group-Settles : (s : RepoService N S V) (group : N) → Settles s (stop_group s group)
  unfolding stop_group
  stop_group-Settles s group = elim (Option-cases (map_get s.groups group)) [
    | inl absent ↦ rw (stop_group, absent) (Nothing-Accounted s.groups)
    | inr (g, found) ↦ rw (stop_group, found) (cancel-Accounted s.groups group g found)
  ]

  module _ ⦃t : NameTree N⦄ where
    start_group-Settles : (s : RepoService N S V) (group : N) → Settles s (start_group s group)
    unfolding start_group
    start_group-Settles s group = elim (Option-cases (map_get s.groups group)) [
      | inr (g, found) ↦ rw (start_group, found) (Nothing-Accounted s.groups)
      | inl absent ↦
          rw (start_group, absent)
            (then-Accounted s.groups s.groups _ (emit_register s group) _
              (Quiet-Accounted s.groups (emit_register s group) (emit_register-Quiet s group))
              (spawn-Accounted s.groups group _ _ _ _ _ absent))
    ]

    follow-Settles : (s : RepoService N S V) (cmd : Option (RepoCmd N)) → Settles s (follow s cmd)
    unfolding follow drive_pending_fetches take_pending_fetches
    follow-Settles s none = Nothing-Accounted s.groups
    follow-Settles s (some (sync_join j)) = elim (Option-cases j.group) [
      | inl absent ↦ rw (follow, absent) (Nothing-Accounted s.groups)
      | inr (group, found) ↦ rw (follow, found) (start_group-Settles s group)
    ]
    follow-Settles s (some (sync_leave l)) = elim (Option-cases l.group) [
      | inl absent ↦ rw (follow, absent) (Nothing-Accounted s.groups)
      | inr (group, found) ↦ rw (follow, found) (stop_group-Settles s group)
    ]
    follow-Settles s (some (blob_fetch b)) =
        Quiet-Accounted s.groups _ (fetch_each-Quiet s.groups s.repo.pending_fetches)

    obey-Settles : (s : RepoService N S V) (m : RepoControl N) → Settles s (obey s m)
    unfolding obey
    obey-Settles s (join group) = start_group-Settles s group
    obey-Settles s (leave group) = stop_group-Settles s group

    heed-Settles :
        (listening : Bool) (s : RepoService N S V) (m : RepoControl N)
        → Settles s (if listening then obey s m else (s, []))
    heed-Settles true s m = obey-Settles s m
    heed-Settles false s m = Nothing-Accounted s.groups

    start_all-Settles : (groups : List N) (s : RepoService N S V) → Settles s (start_all groups s)
    unfolding start_all
    start_all-Settles [] s = Nothing-Accounted s.groups
    start_all-Settles (group ∷ groups) s =
        then_do-Settles s (start_group s group) (start_all groups) (start_group-Settles s group)
          (start_all-Settles groups)

cancel_all-ids :
    {N : Type 0}
    → (groups : HashMap N GroupHandle)
    → (stopped (cancel_all groups) ≡ ids groups) × (spawned (cancel_all groups) ≡ [])
unfolding cancel_all stopped spawned ids
cancel_all-ids [] = (refl, refl)
cancel_all-ids ((group, g) ∷ groups) = ground (arith, cancel_all-ids groups)

-- The handles that are drained at the end.
cancel_all-Accounted :
    {N : Type 0}
    → ⦃o : Ord N⦄ → (groups : HashMap N GroupHandle) → Accounted groups [] (cancel_all groups)
unfolding keys ids occ
cancel_all-Accounted groups map =
    let (stops, spawns) = cancel_all-ids groups in (tt, λ id. rw (stops, spawns) (omega arith))

module _ {N S V : Type 0} ⦃o : Ord N⦄ ⦃t : NameTree N⦄ ⦃d : DataStore N S⦄
    ⦃i : InterestPacket N⦄ where
  serve-Quiet :
      (s : RepoService N S V) (interest : i.Interest) (raw : List ℕ) → Quiet (serve s interest raw)
  unfolding serve route_to_group spawned stopped
  serve-Quiet s interest raw = ground arith

module _ {N S V : Type 0} ⦃t : NameTree N⦄ ⦃p : DataPacket N⦄ where
  dispatch_data-Quiet : (s : RepoService N S V) (raw : List ℕ) → Quiet (dispatch_data s raw)
  unfolding dispatch_data route_to_group spawned stopped
  dispatch_data-Quiet s raw = ground arith

module _ {N S V : Type 0} ⦃o : Ord N⦄ ⦃t : NameTree N⦄ ⦃d : DataStore N S⦄ ⦃p : DataPacket N⦄
    ⦃i : InterestPacket N⦄ ⦃w : Tlv⦄ ⦃c : NameCodec N⦄ (svs_v3 : N) where
  handle_command_interest-Settles :
      (s : RepoService N S V) (interest : i.Interest) (ap : List ℕ)
      → Settles s (handle_command_interest svs_v3 s interest ap)
  unfolding handle_command_interest
  handle_command_interest-Settles s interest ap =
      let (repo, res) = handle_command svs_v3 s.repo ap in
      let handled : RepoService N S V = record s { repo = repo } in
      elim (Bool-cases (res.status == 200)) [
        | inl good ↦
            rw good
              (reply-Settles s (follow handled (decode ap)) _ (follow-Settles handled (decode ap)))
        | inr bad ↦ rw bad (reply-Settles s (handled, []) _ (Nothing-Accounted s.groups))
      ]

  dispatch_interest-Settles :
      (s : RepoService N S V) (raw : List ℕ) → Settles s (dispatch_interest svs_v3 s raw)
  unfolding dispatch_interest
  dispatch_interest-Settles s raw = elim (Option-cases (i.decode_interest raw)) [
    | inl bad ↦ rw (dispatch_interest, bad) (Nothing-Accounted s.groups)
    | inr (interest, read) ↦ elim (Option-cases (command_of s interest)) [
      | inl plain ↦
          rw (dispatch_interest, read, plain)
            (Quiet-Accounted s.groups _ (serve-Quiet s interest raw))
      | inr (ap, command) ↦
          rw (dispatch_interest, read, command) (handle_command_interest-Settles s interest ap)
    ]
  ]

  dispatch-Settles : (s : RepoService N S V) (raw : List ℕ) → Settles s (dispatch svs_v3 s raw)
  unfolding dispatch
  dispatch-Settles s [] = Nothing-Accounted s.groups
  dispatch-Settles s (typ ∷ bytes) = elim (Bool-cases (typ == 0x05)) [
    | inl interest ↦ rw interest (dispatch_interest-Settles s (typ ∷ bytes))
    | inr other ↦ elim (Bool-cases (typ == 0x06)) [
      | inl packet ↦
          rw (other, packet) (Quiet-Accounted s.groups _ (dispatch_data-Quiet s (typ ∷ bytes)))
      | inr unknown ↦ rw (other, unknown) (Nothing-Accounted s.groups)
    ]
  ]

  run_loop-Settles :
      (events : List (Event N)) (s : RepoService N S V) → Settles s (run_loop svs_v3 events s)
  unfolding run_loop
  run_loop-Settles [] s = Nothing-Accounted s.groups
  run_loop-Settles (cancelled ∷ events) s = Nothing-Accounted s.groups
  run_loop-Settles (inbound_closed ∷ events) s = Nothing-Accounted s.groups
  run_loop-Settles (control_closed ∷ events) s = run_loop-Settles events s
  run_loop-Settles (inbound raw ∷ events) s =
      then_do-Settles s (dispatch svs_v3 s raw) (run_loop svs_v3 events) (dispatch-Settles s raw)
        (run_loop-Settles events)
  run_loop-Settles (control_message m ∷ events) s =
      then_do-Settles s (if s.control then obey s m else (s, [])) (run_loop svs_v3 events)
        (heed-Settles s.control s m) (run_loop-Settles events)

  run-Accounted :
      (s : RepoService N S V) (events : List (Event N))
      → Accounted s.groups [] (run svs_v3 s events)
  unfolding run
  run-Accounted s events =
      let done = then_do (start_all s.config.initial_groups s) (run_loop svs_v3 events) in
      then-Accounted s.groups s.groups [] (emit_register s s.repo_prefix) _
        (Quiet-Accounted s.groups _ (emit_register-Quiet s s.repo_prefix))
        (then-Accounted s.groups done.0.groups [] done.1 (cancel_all done.0.groups)
          (then_do-Settles s (start_all s.config.initial_groups s) (run_loop svs_v3 events)
            (start_all-Settles s.config.initial_groups s) (run_loop-Settles events))
          (cancel_all-Accounted done.0.groups))

  -- A service that has no groups yet cancels each ingest task as often as it spawns it, whatever comes in
  -- until it stops.
  pub occ-run :
      (s : RepoService N S V) (events : List (Event N)) (id : ℕ)
      → s.groups ≡ []
      → occ id (spawned (run svs_v3 s events)) ≡ occ id (stopped (run svs_v3 s events))
  unfolding keys ids occ
  occ-run s events id none_yet =
      let (map, even) = run-Accounted s events (rw none_yet tt) in
      let empty : occ id (ids s.groups) ≡ 0 = rw none_yet refl in omega (arith, even id, empty)
