-- ===== src/Repo/Service/Groups.antt =====
-- crates/ndn-repo/src/service.rs: the groups that run and those that the engine has joined.
use ndn_repo.Base.{
  ℕ, ◌≡◌, refl, ap, ◌∙◌, sym, not, ◌&&◌, ◌||◌, Bool, true, false, Option, none, some, List, [], ◌∷◌,
  All, ◌==◌, if◌then◌else◌, arith, inl, inr, Option-cases, Bool-cases,
}
use ndn_repo.Base.Order.{Ord}
use ndn_repo.Collections.Distinct.{contains}
use ndn_repo.Collections.HashMap.{HashMap, contains_key, get-upsert, get-remove}
use ndn_repo.Collections.Sort.{Ascending}
use ndn_repo.Collections.SortedSet.{
  BTreeSet, insert, delete, contains-insert, contains-delete, insert-Ascending, delete-Ascending,
}
use ndn_repo.Extern.Names.{NameTree}
use ndn_repo.Extern.Store.{DataStore, DataPacket, InterestPacket}
use ndn_repo.Extern.Tlv.{Tlv, NameCodec}
use ndn_repo.Repo.Cmd.{
  RepoCmd, RepoCmdRes, SyncJoin, SyncLeave, BlobFetch, sync_join, sync_leave, blob_fetch, decode,
  ok, err,
}
use ndn_repo.Repo.Engine.{
  Repo, handle, handle_command, handle_sync_join, handle_sync_leave, handle_blob_fetch,
  known_protocol, take_pending_fetches,
}
use ndn_repo.Repo.Engine.View.{store_all_lem, let_in}
use ndn_repo.Repo.Engine.Text
use mathlib.Core.Path.{subst}
use ndn_repo.Repo.Service.{
  RepoService, join, leave, GroupHandle, Event, inbound, inbound_closed, control_message,
  control_closed, cancelled, start_group, stop_group, drive_pending_fetches,
}
use ndn_repo.Repo.Service.Demux.{
  follow, handle_command_interest, command_of, dispatch_interest, dispatch, obey, run_loop,
}

-- An event that is no leave over the control channel.
abbrev pub NoLeave : {N : Type 0} → Event N → Type 0
NoLeave (control_message (leave group)) = ⊥
NoLeave (control_message (join group)) = Unit
NoLeave (inbound raw) = Unit
NoLeave inbound_closed = Unit
NoLeave control_closed = Unit
NoLeave cancelled = Unit

module _ {N : Type 0} ⦃o : Ord N⦄ where
  -- Each group that the engine has joined runs.
  pub record IsDriven (joined : BTreeSet N) (groups : HashMap N GroupHandle) : Type 0 where
    pub ascending : Ascending o.cmp joined
    pub running : (g : N) → contains joined g ≡ true → contains_key groups g ≡ true

module _ {N S V : Type 0} ⦃o : Ord N⦄ where
  abbrev pub Driven : RepoService N S V → Type 0
  Driven s = IsDriven s.repo.groups s.groups

  stop_group-keys :
      (s : RepoService N S V) (group a : N)
      → contains_key (stop_group s group).0.groups a
        ≡ (not (o.beq group a) && contains_key s.groups a)
  unfolding stop_group
  stop_group-keys s group a = ground (arith, get-remove group s.groups a, o.eq_of_beq group a)

  stop_group_repo : (s : RepoService N S V) (group : N) → (stop_group s group).0.repo ≡ s.repo
  unfolding stop_group
  stop_group_repo s group = ground arith

  module _ ⦃t : NameTree N⦄ where
    start_group-keys :
        (s : RepoService N S V) (group a : N)
        → contains_key (start_group s group).0.groups a ≡ (o.beq group a || contains_key s.groups a)
    unfolding start_group
    start_group-keys s group a = ground (
      arith,
      get-upsert group (record { id = s.next_id }) (λ g. g) s.groups a,
      o.eq_of_beq group a,
    )

    start_group_repo : (s : RepoService N S V) (group : N) → (start_group s group).0.repo ≡ s.repo
    unfolding start_group
    start_group_repo s group = ground arith

    start_group-Driven :
        (s : RepoService N S V) (group : N) (joined : BTreeSet N)
        → Ascending o.cmp joined
        → ((g : N) → contains joined g ≡ true → contains_key s.groups g ≡ true)
        → s.repo.groups ≡ insert group joined
        → Driven (start_group s group).0
    start_group-Driven s group joined asc runs same =
        let kept = ap (λ r. r.groups) (start_group_repo s group) ∙ same in
        record {
          ascending = rw kept (insert-Ascending group joined asc);
          running = λ g there. ground (
            arith,
            start_group-keys s group g,
            runs g,
            ap (λ gs. contains gs g) kept,
            contains-insert group joined g,
          );
        }

    start_group_keeps :
        (s : RepoService N S V) (group : N) → Driven s → Driven (start_group s group).0
    start_group_keeps s group h =
        let kept = ap (λ r. r.groups) (start_group_repo s group) in
        record {
          ascending = rw kept h.ascending;
          running = λ g there.
              ground
                (arith, start_group-keys s group g, h.running g, ap (λ gs. contains gs g) kept);
        }

    stop_group-Driven :
        (s : RepoService N S V) (group : N) (joined : BTreeSet N)
        → Ascending o.cmp joined
        → ((g : N) → contains joined g ≡ true → contains_key s.groups g ≡ true)
        → s.repo.groups ≡ delete group joined
        → Driven (stop_group s group).0
    stop_group-Driven s group joined asc runs same =
        let kept = ap (λ r. r.groups) (stop_group_repo s group) ∙ same in
        record {
          ascending = rw kept (delete-Ascending group joined asc);
          running = λ g there. ground (
            arith,
            stop_group-keys s group g,
            runs g,
            ap (λ gs. contains gs g) kept,
            contains-delete group joined g asc,
          );
        }

  refused_join :
      (svs_v3 : N) (r : Repo N S V) (j : SyncJoin N)
      → let_in svs_v3 j ≡ none
      → (text : List ℕ) × (handle_sync_join svs_v3 r j ≡ (r, err 400 text))
  unfolding handle_sync_join
  refused_join svs_v3 r j refused = elim (Bool-cases (known_protocol svs_v3 j.protocol)) [
    | inr unknown ↦ (Text.unknown_protocol, ground (arith, unknown))
    | inl known ↦ elim (Option-cases j.group) [
      | inl none_named ↦ (Text.missing_group, ground (arith, known, none_named))
      | inr (group, named) ↦ (Text.invalid_threshold, ground (arith, known, named, refused))
    ]
  ]

  module _ ⦃t : NameTree N⦄ where
    -- The service after the engine gave a result for a command.
    abbrev after :
        RepoService N S V → Option (RepoCmd N) → Repo N S V × RepoCmdRes → RepoService N S V
    after s cmd (repo, res) =
        let handled = record s { repo = repo } in
        (if res.status == 200 then follow handled cmd else (handled, [])).0

    join-Driven :
        (svs_v3 : N) (s : RepoService N S V) (j : SyncJoin N)
        → Driven s
        → Driven (after s (some (sync_join j)) (handle_sync_join svs_v3 s.repo j))
    unfolding handle_sync_join follow ok err
    join-Driven svs_v3 s j h = elim (Option-cases (let_in svs_v3 j)) [
      | inl refused ↦
          let (code, e) = refused_join svs_v3 s.repo j refused in
          subst (λ r. Driven (after s (some (sync_join j)) r)) (sym e) h
      | inr (group, joined) ↦
          let named : j.group ≡ some group = ground (arith, joined) in
          let e : handle_sync_join svs_v3 s.repo j
              ≡ (record s.repo { groups = insert group s.repo.groups }, ok) =
            ground (arith, joined) in
          subst (λ r. Driven (after s (some (sync_join j)) r)) (sym e)
            (rw (follow, named)
              (start_group-Driven _ group s.repo.groups h.ascending h.running refl))
    ]

    leave-Driven :
        (s : RepoService N S V) (l : SyncLeave N)
        → Driven s
        → Driven (after s (some (sync_leave l)) (handle_sync_leave s.repo l))
    unfolding handle_sync_leave follow ok err
    leave-Driven s l h = elim (Option-cases l.group) [
      | inl none_named ↦
          let e : handle_sync_leave s.repo l ≡ (s.repo, err 400 Text.missing_group) =
            ground (arith, none_named) in
          subst (λ r. Driven (after s (some (sync_leave l)) r)) (sym e) h
      | inr (group, named) ↦ elim (Bool-cases (contains s.repo.groups group)) [
        | inr absent ↦
            let e : handle_sync_leave s.repo l ≡ (s.repo, err 500 Text.not_joined) =
              ground (arith, named, absent) in
            subst (λ r. Driven (after s (some (sync_leave l)) r)) (sym e) h
        | inl there ↦
            let e : handle_sync_leave s.repo l
                ≡ (record s.repo { groups = delete group s.repo.groups }, ok) =
              ground (arith, named, there) in
            subst (λ r. Driven (after s (some (sync_leave l)) r)) (sym e)
              (rw (follow, named)
                (stop_group-Driven _ group s.repo.groups h.ascending h.running refl))
      ]
    ]

    -- A fetch changes neither the joined groups nor those that run.
    fetch-Driven :
        (s : RepoService N S V) (repo : Repo N S V) (b : BlobFetch N) (res : RepoCmdRes)
        → repo.groups ≡ s.repo.groups
        → Driven s
        → Driven (after s (some (blob_fetch b)) (repo, res))
    unfolding follow drive_pending_fetches take_pending_fetches
    fetch-Driven s repo b res same h =
        let moved : IsDriven repo.groups s.groups = rw same h in
        elim (Bool-cases (res.status == 200)) [
          | inl good ↦ rw (after, good) moved
          | inr bad ↦ rw (after, bad) moved
        ]

module _ {N S V : Type 0} ⦃o : Ord N⦄ ⦃t : NameTree N⦄ ⦃d : DataStore N S⦄ ⦃p : DataPacket N⦄
    (svs_v3 : N) where
  handle-Driven :
      (s : RepoService N S V) (cmd : RepoCmd N)
      → Driven s
      → Driven (after s (some cmd) (handle svs_v3 s.repo cmd))
  unfolding handle handle_blob_fetch
  handle-Driven s (sync_join j) h = join-Driven svs_v3 s j h
  handle-Driven s (sync_leave l) h = leave-Driven s l h
  handle-Driven s (blob_fetch b) h =
      fetch-Driven s _ b ok (ground (arith, (store_all_lem s.repo b.packets).0)) h

  module _ ⦃i : InterestPacket N⦄ ⦃w : Tlv⦄ ⦃c : NameCodec N⦄ where
    handle_command_interest-Driven :
        (s : RepoService N S V) (interest : i.Interest) (ap : List ℕ)
        → Driven s
        → Driven (handle_command_interest svs_v3 s interest ap).0
    unfolding handle_command_interest handle_command follow err
    handle_command_interest-Driven s interest ap h =
        elim (Option-cases {A = RepoCmd N} (decode ap)) [
          | inl malformed ↦ rw (handle_command_interest, handle_command, malformed) h
          | inr (cmd, parsed) ↦
              rw (handle_command_interest, handle_command, parsed) (handle-Driven s cmd h)
        ]

    dispatch_interest-Driven :
        (s : RepoService N S V) (raw : List ℕ)
        → Driven s
        → Driven (dispatch_interest svs_v3 s raw).0
    unfolding dispatch_interest
    dispatch_interest-Driven s raw h = elim (Option-cases (i.decode_interest raw)) [
      | inl bad ↦ rw (dispatch_interest, bad) h
      | inr (interest, read) ↦ elim (Option-cases (command_of s interest)) [
        | inl plain ↦ rw (dispatch_interest, read, plain) h
        | inr (ap, command) ↦
            rw (dispatch_interest, read, command) (handle_command_interest-Driven s interest ap h)
      ]
    ]

    dispatch-Driven :
        (s : RepoService N S V) (raw : List ℕ) → Driven s → Driven (dispatch svs_v3 s raw).0
    unfolding dispatch
    dispatch-Driven s [] h = h
    dispatch-Driven s (typ ∷ bytes) h = elim (Bool-cases (typ == 0x05)) [
      | inl interest ↦ rw (dispatch, interest) (dispatch_interest-Driven s (typ ∷ bytes) h)
      | inr other ↦ elim (Bool-cases (typ == 0x06)) [
        | inl packet ↦ rw (dispatch, other, packet) h
        | inr unknown ↦ rw (dispatch, other, unknown) h
      ]
    ]

    heed-Driven :
        (listening : Bool) (s : RepoService N S V) (group : N)
        → Driven s
        → Driven (if listening then obey s (join group) else (s, [])).0
    unfolding obey
    heed-Driven true s group h = start_group_keeps s group h
    heed-Driven false s group h = h

    -- After any packets from the network and any joins over the control channel, each group that the engine
    -- has joined runs, if it was so at first.
    pub run_loop-Driven :
        (events : List (Event N)) (s : RepoService N S V)
        → All NoLeave events
        → Driven s
        → Driven (run_loop svs_v3 events s).0
    unfolding run_loop
    run_loop-Driven [] s stays h = h
    run_loop-Driven (cancelled ∷ events) s stays h = h
    run_loop-Driven (inbound_closed ∷ events) s stays h = h
    run_loop-Driven (control_closed ∷ events) s (stay, stays) h = run_loop-Driven events s stays h
    run_loop-Driven (inbound raw ∷ events) s (stay, stays) h =
        run_loop-Driven events (dispatch svs_v3 s raw).0 stays (dispatch-Driven s raw h)
    run_loop-Driven (control_message (leave group) ∷ events) s (stay, stays) h = absurd stay
    run_loop-Driven (control_message (join group) ∷ events) s (stay, stays) h =
        run_loop-Driven events (if s.control then obey s (join group) else (s, [])).0 stays
          (heed-Driven s.control s group h)
