-- ===== src/Repo/Engine/Steps.antt =====
-- crates/ndn-repo/src/repo.rs: commands one after the other, as they come over the wire.
use ndn_repo.Base.{
  ℕ, ◌≡◌, refl, true, false, not, ◌&&◌, none, some, List, [], ◌∷◌, arith, Option-cases, inl, inr,
}
use ndn_repo.Base.Order.{Ord}
use ndn_repo.Collections.Distinct.{contains}
use ndn_repo.Collections.SortedSet.{insert, contains-insert, contains-delete, insert-Ascending}
use ndn_repo.Collections.Sort.{Ascending}
use ndn_repo.Extern.Tlv.{Tlv, NameCodec}
use ndn_repo.Extern.Store.{DataStore, DataPacket}
use ndn_repo.Repo.Cmd.{SyncJoin, SyncLeave, RepoCmd, ok, err, decode}
use ndn_repo.Repo.Engine.{
  Repo, new, with_optional_validator, get, handle_sync_join, handle_sync_leave, handle,
  handle_command,
}
use ndn_repo.Repo.Engine.View.{RepoView, Implements, promised, handle-Implements}

module _ {N S V : Type 0} ⦃o : Ord N⦄ ⦃t : DataStore N S⦄ ⦃p : DataPacket N⦄ (svs_v3 : N) where
  unfoldable pub handle_all : Repo N S V → List (RepoCmd N) → Repo N S V
  handle_all r [] = r
  handle_all r (cmd ∷ cmds) = handle_all (handle svs_v3 r cmd).0 cmds

  module _ ⦃w : Tlv⦄ ⦃c : NameCodec N⦄ where
    unfoldable pub receive_all : Repo N S V → List (List ℕ) → Repo N S V
    receive_all r [] = r
    receive_all r (value ∷ values) = receive_all (handle_command svs_v3 r value).0 values

module _ {N : Type 0} ⦃o : Ord N⦄ ⦃p : DataPacket N⦄ (svs_v3 : N) where
  unfoldable pub promised_all : RepoView N → List (RepoCmd N) → RepoView N
  promised_all v [] = v
  promised_all v (cmd ∷ cmds) = promised_all (promised svs_v3 v cmd) cmds

-- The commands among some values.
unfoldable pub commands :
    {N : Type 0} ⦃w : Tlv⦄ ⦃c : NameCodec N⦄ → List (List ℕ) → List (RepoCmd N)
commands [] = []
commands (value ∷ values) =
    let rest = commands values in elim (decode value) [ none ↦ rest | some cmd ↦ cmd ∷ rest ]

-- A repository that has joined nothing, over a store.
abbrev pub opened : {N S : Type 0} ⦃o : Ord N⦄ ⦃t : DataStore N S⦄ → S → RepoView N
opened ⦃o⦄ ⦃t⦄ store = record { joined = λ a. false; stored = λ a. t.get store a; pending = [] }

module _ {N S V : Type 0} ⦃o : Ord N⦄ ⦃t : DataStore N S⦄ ⦃p : DataPacket N⦄ (svs_v3 : N) where
  handle_all-Implements :
      (r : Repo N S V) (v : RepoView N) (cmds : List (RepoCmd N))
      → Implements r v
      → Implements (handle_all svs_v3 r cmds) (promised_all svs_v3 v cmds)
  unfolding handle_all promised_all
  handle_all-Implements r v [] h = h
  handle_all-Implements r v (cmd ∷ cmds) h =
      handle_all-Implements (handle svs_v3 r cmd).0 (promised svs_v3 v cmd) cmds
        (handle-Implements svs_v3 r v cmd h)

  pub opened-Implements : (store : S) → Implements {N = N} {V = V} (new store) (opened store)
  unfolding new with_optional_validator contains get
  opened-Implements store = record {
    ascending = tt;
    same_joined = λ a. refl;
    same_stored = λ a. refl;
    same_pending = refl;
  }

  module _ ⦃w : Tlv⦄ ⦃c : NameCodec N⦄ where
    receive_all_lem :
        (r : Repo N S V) (values : List (List ℕ))
        → receive_all svs_v3 r values ≡ handle_all svs_v3 r (commands values)
    unfolding receive_all handle_all commands handle_command
    receive_all_lem r [] = refl
    receive_all_lem r (value ∷ values) = elim (Option-cases (decode {N = N} value)) [
      | inl e ↦ rw (receive_all, handle_command, commands, e) (receive_all_lem r values)
      | inr (cmd, e) ↦
          rw (receive_all, handle_command, commands, e)
            (receive_all_lem (handle svs_v3 r cmd).0 values)
    ]

    -- A new repository that has received any values, commands or not, does what the commands among
    -- them promise in their order: it has joined those groups and lists them in ascending order, it
    -- serves those packets, and it has those names to fetch.
    pub receive_all-Implements :
        (store : S) (values : List (List ℕ))
        → Implements {V = V}
            (receive_all svs_v3 (new store) values)
            (promised_all svs_v3 (opened store) (commands values))
    receive_all-Implements store values = rw (receive_all_lem (new store) values) (
        handle_all-Implements (new store) (opened store) (commands values)
          (opened-Implements store))

  -- A group that was let in can be left: the leave is answered 200, and afterwards the groups are
  -- those from before the join, less that group.
  pub leave-join :
      (r : Repo N S V) (j : SyncJoin N) (l : SyncLeave N) (g : N)
      → Ascending o.cmp r.groups
      → (handle_sync_join svs_v3 r j).1 ≡ ok
      → j.group ≡ some g
      → l.group ≡ some g
      → ((handle_sync_leave (handle_sync_join svs_v3 r j).0 l).1 ≡ ok)
        × ((a : N)
            → contains (handle_sync_leave (handle_sync_join svs_v3 r j).0 l).0.groups a
              ≡ (not (o.beq g a) && contains r.groups a))
  leave-join r j l g h joined ej el = rw (groups_after) (
    unfold handle_sync_leave in ground (arith, el, here),
    λ a.
        unfold handle_sync_leave in
        ground (
          arith,
          el,
          here,
          contains-delete g (insert g r.groups) a (insert-Ascending g r.groups h),
          contains-insert g r.groups a,
        ),
  )
    where
      groups_after : (handle_sync_join svs_v3 r j).0 ≡ record r { groups = insert g r.groups }
      groups_after = unfold handle_sync_join ok err in ground arith

      here : contains (insert g r.groups) g ≡ true
      here = ground (arith, contains-insert g r.groups g, o.beq_refl g)
