-- ===== src/Repo/Engine/View.antt =====
-- crates/ndn-repo/src/repo.rs: what a repository promises, without its data structures: which groups
-- it has joined, what it serves, what it has still to fetch. Each command is a change of that.

use ndn_repo.Base.{
  ℕ, ◌≡◌, ◌≢◌, refl, sym, ap, ◌∙◌, Bool, false, not, ◌&&◌, ◌||◌, Option, none, some, List, [], ◌∷◌,
  ◌++◌, arith, if◌then◌else◌, Option-cases, Bool-cases, inl, inr,
}
use mathlib.Core.List.{append-nil}
use ndn_repo.Base.Order.{Ord}
use ndn_repo.Collections.Distinct.{contains}
use ndn_repo.Collections.Sort.{Ascending}
use ndn_repo.Collections.SortedSet.{
  insert, delete, contains-insert, contains-delete, insert-Ascending, delete-Ascending,
}
use ndn_repo.Extern.Store.{DataStore, DataPacket}
use ndn_repo.Repo.Cmd.{
  SyncJoin, SyncLeave, BlobFetch, RepoCmd, sync_join, sync_leave, blob_fetch, ok, err,
}
use ndn_repo.Repo.Engine.{
  Repo, store_data, store_all, handle_blob_fetch, get, known_protocol, deep_enough,
  handle_sync_join, handle_sync_leave, handle,
}

pub record RepoView (N : Type 0) : Type 0 where
  pub joined : N → Bool
  pub stored : N → Option (List ℕ)
  pub pending : List N

module _ {N : Type 0} ⦃o : Ord N⦄ where
  abbrev pub is_named : Option N → N → Bool
  is_named none a = false
  is_named (some n) a = o.beq n a

module _ {N : Type 0} ⦃o : Ord N⦄ ⦃p : DataPacket N⦄ where
  -- The last of some packets under a name.
  unfoldable pub last_named : List (List ℕ) → N → Option (List ℕ)
  last_named [] a = none
  last_named (wire ∷ wires) a = elim (last_named wires a) [
    | some later ↦ some later
    | none ↦ elim (p.decode_data wire) [
      | none ↦ none
      | some d ↦ if o.beq (p.name d) a then some wire else none
    ]
  ]

abbrev pub or_else {ℓ} : {A : Type ℓ} → Option A → Option A → Option A
or_else none second = second
or_else (some a) second = some a

abbrev pub listed {ℓ} : {A : Type ℓ} → Option A → List A
listed none = []
listed (some a) = a ∷ []

module _ {N : Type 0} ⦃o : Ord N⦄ (svs_v3 : N) where
  -- The group that a join is let in for.
  abbrev pub let_in : SyncJoin N → Option N
  let_in j =
      if known_protocol svs_v3 j.protocol && deep_enough j.history_threshold then j.group else none

module _ {N : Type 0} ⦃o : Ord N⦄ ⦃p : DataPacket N⦄ (svs_v3 : N) where
  unfoldable pub promised : RepoView N → RepoCmd N → RepoView N
  promised v (sync_join j) = record v { joined = λ a. is_named (let_in svs_v3 j) a || v.joined a }
  promised v (sync_leave l) = record v { joined = λ a. not (is_named l.group a) && v.joined a }
  promised v (blob_fetch b) = record v {
    stored = λ a. or_else (last_named b.packets a) (v.stored a);
    pending = v.pending ++ listed b.name;
  }

module _ {N : Type 0} ⦃o : Ord N⦄ (svs_v3 : N) where
  unfoldable pub promised_status : RepoView N → RepoCmd N → ℕ
  promised_status v (sync_join j) = elim (let_in svs_v3 j) [ none ↦ 400 | some g ↦ 200 ]
  promised_status v (sync_leave l) = elim l.group [
    | none ↦ 400
    | some g ↦ (if v.joined g then 200 else 500)
  ]
  promised_status v (blob_fetch b) = 200

module _ {N S V : Type 0} ⦃o : Ord N⦄ ⦃t : DataStore N S⦄ where
  pub record Implements (r : Repo N S V) (v : RepoView N) : Type 0 where
    pub ascending : Ascending o.cmp r.groups
    pub same_joined : (a : N) → contains r.groups a ≡ v.joined a
    pub same_stored : (a : N) → get r a ≡ v.stored a
    pub same_pending : r.pending_fetches ≡ v.pending

module _ {N S V : Type 0} ⦃o : Ord N⦄ ⦃t : DataStore N S⦄ ⦃p : DataPacket N⦄ where
  pub store_all_lem :
      (r : Repo N S V) (wires : List (List ℕ))
      → ((store_all r wires).groups ≡ r.groups)
        × ((store_all r wires).pending_fetches ≡ r.pending_fetches)
        × ((store_all r wires).validator ≡ r.validator)
  unfolding store_all store_data
  store_all_lem r [] = (refl, refl, refl)
  store_all_lem r (wire ∷ wires) = elim (Option-cases (p.decode_data wire)) [
    | inl e ↦ rw (store_all, store_data, e) (store_all_lem r wires)
    | inr (d, e) ↦
        rw (store_all, store_data, e)
          (store_all_lem (record r { store = t.insert r.store (p.name d) wire }) wires)
  ]

  get-store_all :
      (r : Repo N S V) (wires : List (List ℕ)) (a : N)
      → get (store_all r wires) a ≡ or_else (last_named wires a) (get r a)
  unfolding store_all store_data last_named get
  get-store_all r [] a = refl
  get-store_all r (wire ∷ wires) a = elim (Option-cases (p.decode_data wire)) [
    | inl e ↦ ground (arith, e, get-store_all r wires a)
    | inr (d, e) ↦ ground (
      arith,
      e,
      get-store_all (record r { store = t.insert r.store (p.name d) wire }) wires a,
      t.get_insert r.store (p.name d) wire a,
    )
  ]

module _ {N S V : Type 0} ⦃o : Ord N⦄ where
  handle_sync_join_lem :
      (svs_v3 : N) (r : Repo N S V) (j : SyncJoin N)
      → (handle_sync_join svs_v3 r j).0
        ≡ elim (let_in svs_v3 j) [ none ↦ r | some g ↦ record r { groups = insert g r.groups } ]
  unfolding handle_sync_join
  handle_sync_join_lem svs_v3 r j = ground arith

  handle_sync_leave_lem :
      (r : Repo N S V) (l : SyncLeave N)
      → (handle_sync_leave r l).0 ≡ elim l.group [
        | none ↦ r
        | some g ↦ (if contains r.groups g then record r { groups = delete g r.groups } else r)
      ]
  unfolding handle_sync_leave
  handle_sync_leave_lem r l = ground arith

module _ {N S V : Type 0} ⦃o : Ord N⦄ ⦃t : DataStore N S⦄ ⦃p : DataPacket N⦄ where
  join-Implements :
      (svs_v3 : N) (r : Repo N S V) (v : RepoView N) (j : SyncJoin N)
      → Implements r v
      → Implements (handle_sync_join svs_v3 r j).0 (promised svs_v3 v (sync_join j))
  unfolding promised get
  join-Implements svs_v3 r v j h = elim (Option-cases (let_in svs_v3 j)) [
    | inl e ↦ rw (handle_sync_join_lem, e, promised) h
    | inr (g, e) ↦
        rw (handle_sync_join_lem, e, promised)
          (record {
            ascending = insert-Ascending g r.groups h.ascending;
            same_joined = λ a. contains-insert g r.groups a ∙ rw (h.same_joined a) refl;
            same_stored = h.same_stored;
            same_pending = h.same_pending;
          })
  ]

  leave-Implements :
      (svs_v3 : N) (r : Repo N S V) (v : RepoView N) (l : SyncLeave N)
      → Implements r v
      → Implements (handle_sync_leave r l).0 (promised svs_v3 v (sync_leave l))
  unfolding promised get
  leave-Implements svs_v3 r v l h = elim (Option-cases l.group) [
    | inl e ↦ rw (handle_sync_leave_lem, e, promised) h
    | inr (g, e) ↦ elim (Bool-cases (contains r.groups g)) [
      | inl m ↦
          rw (handle_sync_leave_lem, e, m, promised)
            (record {
              ascending = delete-Ascending g r.groups h.ascending;
              same_joined =
                  λ a. contains-delete g r.groups a h.ascending ∙ rw (h.same_joined a) refl;
              same_stored = h.same_stored;
              same_pending = h.same_pending;
            })
      | inr m ↦
          rw (handle_sync_leave_lem, e, m, promised)
            (record {
              ascending = h.ascending;
              same_joined = λ a. ground (arith, h.same_joined a, o.eq_of_beq g a, m);
              same_stored = h.same_stored;
              same_pending = h.same_pending;
            })
    ]
  ]

  fetch-Implements :
      (svs_v3 : N) (r : Repo N S V) (v : RepoView N) (b : BlobFetch N)
      → Implements r v
      → Implements (handle_blob_fetch r b).0 (promised svs_v3 v (blob_fetch b))
  unfolding promised handle_blob_fetch get
  fetch-Implements svs_v3 r v b h =
      let (same_groups, same_names, _) = store_all_lem r b.packets in
      elim (Option-cases b.name) [
        | inl e ↦
            rw (e, promised)
              (record {
                ascending = rw same_groups h.ascending;
                same_joined = λ a. rw same_groups (h.same_joined a);
                same_stored = λ a. get-store_all r b.packets a ∙ rw (h.same_stored a) refl;
                same_pending = same_names ∙ h.same_pending ∙ sym (append-nil v.pending);
              })
        | inr (n, e) ↦
            rw (e, promised)
              (record {
                ascending = rw same_groups h.ascending;
                same_joined = λ a. rw same_groups (h.same_joined a);
                same_stored = λ a. get-store_all r b.packets a ∙ rw (h.same_stored a) refl;
                same_pending = ap (λ ns. ns ++ n ∷ []) (same_names ∙ h.same_pending);
              })
      ]

  -- A repository that does what a view promises does so after any command: it has joined the same
  -- groups, serves the same packets and has the same names to fetch.
  pub handle-Implements :
      (svs_v3 : N) (r : Repo N S V) (v : RepoView N) (cmd : RepoCmd N)
      → Implements r v
      → Implements (handle svs_v3 r cmd).0 (promised svs_v3 v cmd)
  unfolding handle promised
  handle-Implements svs_v3 r v (sync_join j) h = join-Implements svs_v3 r v j h
  handle-Implements svs_v3 r v (sync_leave l) h = leave-Implements svs_v3 r v l h
  handle-Implements svs_v3 r v (blob_fetch b) h = fetch-Implements svs_v3 r v b h

  -- The status of the reply to a command is 200 for what the view has done, 400 for what it does
  -- not take, and 500 for leaving a group that is not joined.
  pub handle_status :
      (svs_v3 : N) (r : Repo N S V) (v : RepoView N) (cmd : RepoCmd N)
      → Implements r v
      → (handle svs_v3 r cmd).1.status ≡ promised_status svs_v3 v cmd
  unfolding handle promised_status handle_sync_join handle_sync_leave handle_blob_fetch ok err
  handle_status svs_v3 r v (sync_join j) h = ground arith
  handle_status svs_v3 r v (sync_leave l) h = elim (Option-cases l.group) [
    | inl e ↦ rw e
    | inr (g, e) ↦ ground (arith, e, h.same_joined g)
  ]
  handle_status svs_v3 r v (blob_fetch b) h = refl

  -- A command that is not answered 200 changes nothing.
  pub handle_unchanged :
      (svs_v3 : N) (r : Repo N S V) (cmd : RepoCmd N)
      → ((handle svs_v3 r cmd).1.status ≢ 200)
      → (handle svs_v3 r cmd).0 ≡ r
  unfolding handle handle_sync_join handle_sync_leave handle_blob_fetch ok err
  handle_unchanged svs_v3 r (sync_join j) refused = ground arith
  handle_unchanged svs_v3 r (sync_leave l) refused = ground arith
  handle_unchanged svs_v3 r (blob_fetch b) refused = absurd (refused refl)
