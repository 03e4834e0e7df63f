-- ===== src/Repo/Service/Answers.antt =====
-- crates/ndn-repo/src/service.rs: the answer to a command, from the packet that brings it to the reply.
use ndn_repo.Base.{
  ℕ, ◌^◌, ◌<◌, ◌≡◌, refl, ap, ◌∙◌, sym, true, some, List, [], ◌∷◌, ◌++◌, ◌==◌, if◌then◌else◌, arith,
  inl, inr, Option-cases, Bool-cases,
}
use mathlib.Core.Path.{subst}
use ndn_repo.Base.Order.{Ord}
use ndn_repo.Collections.Distinct.{contains}
use ndn_repo.Extern.Names.{NameTree}
use ndn_repo.Extern.Store.{DataStore, DataPacket, InterestPacket}
use ndn_repo.Extern.Tlv.{Tlv, NameCodec, IsAddressable}
use ndn_repo.Wire.Utf8.{is_utf8}
use ndn_repo.Repo.Cmd.{
  RepoCmd, RepoCmdRes, sync_join, sync_leave, blob_fetch, ok, err, encode, decode, encode_res,
  decode_res,
}
use ndn_repo.Repo.Cmd.RoundTrip.{IsCmd, decode-encode_cmd, decode_res-encode_res}
use ndn_repo.Repo.Engine.{
  Repo, get, known_protocol, deep_enough, handle, handle_command, handle_sync_join,
  handle_sync_leave, handle_blob_fetch, take_pending_fetches,
}
use ndn_repo.Repo.Engine.View.{
  RepoView, Implements, promised, promised_status, handle-Implements, handle_status,
}
use ndn_repo.Repo.Engine.Text
use ndn_repo.Repo.Service.{
  RepoService, Action, send, start_group, stop_group, drive_pending_fetches,
}
use ndn_repo.Repo.Service.Demux.{
  follow, handle_command_interest, command_of, dispatch_interest, dispatch,
}

-- A reply that a decoder takes.
abbrev IsReadable : RepoCmdRes → Type 0
IsReadable res = (res.status < 2 ^ 64) × (is_utf8 res.message ≡ true)

err-IsReadable :
    (status : ℕ) (message : List ℕ)
    → status < 2 ^ 64
    → is_utf8 message ≡ true
    → IsReadable (err status message)
unfolding err
err-IsReadable status message small text = (small, text)

ok-IsReadable : IsReadable ok
unfolding ok is_utf8
ok-IsReadable = (omega arith, refl)

module _ {N S V : Type 0} ⦃o : Ord N⦄ ⦃d : DataStore N S⦄ ⦃p : DataPacket N⦄ (svs_v3 : N) where
  handle-IsReadable : (r : Repo N S V) (cmd : RepoCmd N) → IsReadable (handle svs_v3 r cmd).1
  unfolding handle handle_sync_join handle_sync_leave handle_blob_fetch is_utf8
  handle-IsReadable r (sync_join j) = elim (Bool-cases (known_protocol svs_v3 j.protocol)) [
    | inr strange ↦
        rw (handle_sync_join, strange) (err-IsReadable 400 Text.unknown_protocol (omega arith) refl)
    | inl known ↦ elim (Option-cases j.group) [
      | inl e ↦
          rw (handle_sync_join, known, e) (err-IsReadable 400 Text.missing_group (omega arith) refl)
      | inr (g, e) ↦ elim (Bool-cases (deep_enough j.history_threshold)) [
        | inl deep ↦ rw (handle_sync_join, known, e, deep) ok-IsReadable
        | inr shallow ↦
            rw (handle_sync_join, known, e, shallow)
              (err-IsReadable 400 Text.invalid_threshold (omega arith) refl)
      ]
    ]
  ]
  handle-IsReadable r (sync_leave l) = elim (Option-cases l.group) [
    | inl e ↦ rw (handle_sync_leave, e) (err-IsReadable 400 Text.missing_group (omega arith) refl)
    | inr (g, e) ↦ elim (Bool-cases (contains r.groups g)) [
      | inl there ↦ rw (handle_sync_leave, e, there) ok-IsReadable
      | inr absent ↦
          rw (handle_sync_leave, e, absent) (err-IsReadable 500 Text.not_joined (omega arith) refl)
    ]
  ]
  handle-IsReadable r (blob_fetch b) = ok-IsReadable

module _ {N S V : Type 0} ⦃o : Ord N⦄ ⦃t : NameTree N⦄ where
  start_group-repo : (s : RepoService N S V) (group : N) → (start_group s group).0.repo ≡ s.repo
  unfolding start_group
  start_group-repo s group = ground arith

  stop_group-repo : (s : RepoService N S V) (group : N) → (stop_group s group).0.repo ≡ s.repo
  unfolding stop_group
  stop_group-repo s group = ground arith

  -- What following a command leaves of the repository: no pending names after a fetch.
  abbrev left_of : RepoCmd N → Repo N S V → Repo N S V
  left_of (sync_join j) r = r
  left_of (sync_leave l) r = r
  left_of (blob_fetch b) r = record r { pending_fetches = [] }

  follow-repo :
      (s : RepoService N S V) (cmd : RepoCmd N) → (follow s (some cmd)).0.repo ≡ left_of cmd s.repo
  unfolding follow drive_pending_fetches take_pending_fetches
  follow-repo s (sync_join j) = elim (Option-cases j.group) [
    | inl e ↦ rw e refl
    | inr (g, e) ↦ rw e (start_group-repo s g)
  ]
  follow-repo s (sync_leave l) = elim (Option-cases l.group) [
    | inl e ↦ rw e refl
    | inr (g, e) ↦ rw e (stop_group-repo s g)
  ]
  follow-repo s (blob_fetch b) = refl

module _ {N : Type 0} ⦃o : Ord N⦄ ⦃p : DataPacket N⦄ (svs_v3 : N) where
  -- What a repository promises after a command and what the service does for it: a fetch takes the
  -- pending names out.
  abbrev pub followed : RepoView N → RepoCmd N → RepoView N
  followed v (sync_join j) = promised svs_v3 v (sync_join j)
  followed v (sync_leave l) = promised svs_v3 v (sync_leave l)
  followed v (blob_fetch b) = record (promised svs_v3 v (blob_fetch b)) { pending = [] }

module _ {N S V : Type 0} ⦃o : Ord N⦄ ⦃t : NameTree N⦄ ⦃d : DataStore N S⦄ ⦃p : DataPacket N⦄
    (svs_v3 : N) where
  -- The service after a command that the engine has handled.
  abbrev gone_on :
      RepoService N S V → RepoCmd N → Repo N S V × RepoCmdRes → RepoService N S V × List (Action N)
  gone_on s cmd (repo, res) =
      if res.status == 200
      then follow (record s { repo = repo }) (some cmd)
      else (record s { repo = repo }, [])

  gone_on-repo :
      (s : RepoService N S V) (cmd : RepoCmd N) (after : Repo N S V × RepoCmdRes)
      → (gone_on s cmd after).0.repo
        ≡ (if after.1.status == 200 then left_of cmd after.0 else after.0)
  gone_on-repo s cmd after = ground (arith, follow-repo (record s { repo = after.0 }) cmd)

  gone_on-Implements :
      (s : RepoService N S V) (v : RepoView N) (cmd : RepoCmd N)
      → Implements s.repo v
      → Implements (gone_on s cmd (handle svs_v3 s.repo cmd)).0.repo (followed svs_v3 v cmd)
  unfolding handle handle_blob_fetch ok get
  gone_on-Implements s v (sync_join j) h =
      let same = gone_on-repo s (sync_join j) (handle svs_v3 s.repo (sync_join j)) in
      subst (λ r. Implements r (promised svs_v3 v (sync_join j))) (sym (same ∙ ground arith))
        (handle-Implements svs_v3 s.repo v (sync_join j) h)
  gone_on-Implements s v (sync_leave l) h =
      let same = gone_on-repo s (sync_leave l) (handle svs_v3 s.repo (sync_leave l)) in
      subst (λ r. Implements r (promised svs_v3 v (sync_leave l))) (sym (same ∙ ground arith))
        (handle-Implements svs_v3 s.repo v (sync_leave l) h)
  gone_on-Implements s v (blob_fetch b) h =
      let same = gone_on-repo s (blob_fetch b) (handle svs_v3 s.repo (blob_fetch b)) in
      let done = handle-Implements svs_v3 s.repo v (blob_fetch b) h in
      subst (λ r. Implements r (followed svs_v3 v (blob_fetch b))) (sym same)
        (record {
          ascending = done.ascending;
          same_joined = done.same_joined;
          same_stored = done.same_stored;
          same_pending = refl;
        })

  module _ ⦃i : InterestPacket N⦄ ⦃w : Tlv⦄ ⦃c : NameCodec N⦄ where
    dispatch-gone_on :
        (s : RepoService N S V) (bytes : List ℕ) (interest : i.Interest) (cmd : RepoCmd N)
        → i.decode_interest (0x05 ∷ bytes) ≡ some interest
        → t.has_prefix (i.interest_name interest) s.repo_prefix ≡ true
        → i.app_parameters interest ≡ some (encode cmd)
        → decode (encode cmd) ≡ some cmd
        → dispatch svs_v3 s (0x05 ∷ bytes) ≡ (
          (gone_on s cmd (handle svs_v3 s.repo cmd)).0,
          (gone_on s cmd (handle svs_v3 s.repo cmd)).1
              ++ send (
                  p.build_fresh s.config.response_freshness
                    (i.interest_name interest)
                    (encode_res (handle svs_v3 s.repo cmd).1))
                ∷ [],
        )
    unfolding dispatch dispatch_interest command_of handle_command_interest handle_command
    dispatch-gone_on s bytes interest cmd read ours given round =
        let command : command_of s interest ≡ some (encode cmd) =
          rw (command_of, ours, given, round) refl in
        rw (dispatch_interest, read, command, handle_command_interest, handle_command, round) refl

    -- An Interest under the prefix of the repository that brings a command has the command done: the
    -- repository then is what the view promises, but that a fetch leaves no name pending. The last that
    -- is sent is a packet of the Interest's name, whose content is read as a reply of the promised
    -- status. The threshold of the command is a u64, and the encodings of the command and of the reply
    -- fit the address space.
    pub dispatch-answered :
        (s : RepoService N S V) (v : RepoView N) (bytes : List ℕ) (interest : i.Interest)
        (cmd : RepoCmd N)
        → Implements s.repo v
        → i.decode_interest (0x05 ∷ bytes) ≡ some interest
        → t.has_prefix (i.interest_name interest) s.repo_prefix ≡ true
        → i.app_parameters interest ≡ some (encode cmd)
        → IsCmd cmd
        → IsAddressable (encode cmd)
        → IsAddressable (encode_res (handle svs_v3 s.repo cmd).1)
        → Implements (dispatch svs_v3 s (0x05 ∷ bytes)).0.repo (followed svs_v3 v cmd)
          × ((acts : List (Action N)) × (body : List ℕ) × (res : RepoCmdRes) × ((dispatch svs_v3 s
                  (0x05 ∷ bytes)).1
                ≡ acts
                  ++ send
                      (p.build_fresh s.config.response_freshness (i.interest_name interest) body)
                    ∷ [])
              × (decode_res body ≡ some res)
              × (res.status ≡ promised_status svs_v3 v cmd))
    dispatch-answered s v bytes interest cmd h read ours given fine fits reply_fits =
        let after = handle svs_v3 s.repo cmd in
        let whole =
          dispatch-gone_on s bytes interest cmd read ours given (decode-encode_cmd cmd fine fits) in
        let (small, text) = handle-IsReadable svs_v3 s.repo cmd in
        (
          subst (λ x. Implements x.0.repo (followed svs_v3 v cmd)) (sym whole)
              (gone_on-Implements s v cmd h),
          (
            (gone_on s cmd after).1,
            encode_res after.1,
            after.1,
            ap (λ x. x.1) whole,
            decode_res-encode_res after.1 small text reply_fits,
            handle_status svs_v3 s.repo v cmd h,
          ),
        )
