-- ===== src/Repo/Service/Tasks.antt =====
-- crates/ndn-repo/src/service.rs: the tasks that the service spawns and cancels.
use ndn_repo.Base.{
  ℕ, suc, ◌+◌, ◌≡◌, refl, ap, ◌∙◌, not, Bool, false, none, some, List, [], ◌∷◌, ◌++◌, ◌==◌,
  if◌then◌else◌, arith, inl, inr, Bool-cases,
}
use mathlib.Core.Path.{subst}
use ndn_repo.Base.Order.{Ord}
use ndn_repo.Collections.Distinct.{contains, keep-Distinct}
use ndn_repo.Collections.HashMap.{
  HashMap, keys, get as map_get, upsert, remove as map_remove, IsMap, upsert-IsMap, keys-remove,
}
use ndn_repo.Extern.Names.{NameTree}
use ndn_repo.Extern.Sync.{SvSyncConfig}
use ndn_repo.Repo.Service.{
  GroupHandle, Action, register_prefix, join_svs, spawn_ingest, cancel, send, route, spawn_fetch,
  fetch_each,
}

-- How often a number stands in a list.
unfoldable pub occ : ℕ → List ℕ → ℕ
occ id [] = 0
occ id (x ∷ xs) = let rest = occ id xs in if x == id then suc rest else rest

pub occ-append : (id : ℕ) (xs ys : List ℕ) → occ id (xs ++ ys) ≡ occ id xs + occ id ys
unfolding occ
occ-append id [] ys = omega arith
occ-append id (x ∷ xs) ys = ground (arith, occ-append id xs ys)

module _ {N : Type 0} where
  -- The ingest tasks that some actions spawn.
  unfoldable pub spawned : List (Action N) → List ℕ
  spawned [] = []
  spawned (spawn_ingest id group two_phase ∷ acts) = id ∷ spawned acts
  spawned (act ∷ acts) = spawned acts

  -- The tasks that they cancel.
  unfoldable pub stopped : List (Action N) → List ℕ
  stopped [] = []
  stopped (cancel id ∷ acts) = id ∷ stopped acts
  stopped (act ∷ acts) = stopped acts

  -- The tasks of the groups.
  unfoldable pub ids : HashMap N GroupHandle → List ℕ
  ids [] = []
  ids ((group, g) ∷ groups) = g.id ∷ ids groups

  pub spawned-append : (xs ys : List (Action N)) → spawned (xs ++ ys) ≡ spawned xs ++ spawned ys
  unfolding spawned
  spawned-append [] ys = refl
  spawned-append (spawn_ingest id group two_phase ∷ xs) ys = ap (λ l. id ∷ l) (spawned-append xs ys)
  spawned-append (register_prefix n ∷ xs) ys = spawned-append xs ys
  spawned-append (join_svs id a b x v ∷ xs) ys = spawned-append xs ys
  spawned-append (cancel id ∷ xs) ys = spawned-append xs ys
  spawned-append (send bytes ∷ xs) ys = spawned-append xs ys
  spawned-append (route id raw ∷ xs) ys = spawned-append xs ys
  spawned-append (spawn_fetch id n ∷ xs) ys = spawned-append xs ys

  pub stopped-append : (xs ys : List (Action N)) → stopped (xs ++ ys) ≡ stopped xs ++ stopped ys
  unfolding stopped
  stopped-append [] ys = refl
  stopped-append (cancel id ∷ xs) ys = ap (λ l. id ∷ l) (stopped-append xs ys)
  stopped-append (register_prefix n ∷ xs) ys = stopped-append xs ys
  stopped-append (join_svs id a b x v ∷ xs) ys = stopped-append xs ys
  stopped-append (spawn_ingest id group two_phase ∷ xs) ys = stopped-append xs ys
  stopped-append (send bytes ∷ xs) ys = stopped-append xs ys
  stopped-append (route id raw ∷ xs) ys = stopped-append xs ys
  stopped-append (spawn_fetch id n ∷ xs) ys = stopped-append xs ys

  -- Actions that neither spawn nor cancel a task.
  abbrev pub Quiet : List (Action N) → Type 0
  Quiet acts = (spawned acts ≡ []) × (stopped acts ≡ [])

  module _ ⦃o : Ord N⦄ where
    -- The tasks that were there or are spawned are those that are there or are cancelled.
    abbrev pub Accounted : HashMap N GroupHandle → HashMap N GroupHandle → List (Action N) → Type 0
    Accounted groups groups' acts =
        IsMap groups
        → IsMap groups'
          × ((id : ℕ)
              → occ id (ids groups) + occ id (spawned acts)
                ≡ occ id (ids groups') + occ id (stopped acts))

    pub Quiet-Accounted :
        (groups : HashMap N GroupHandle) (acts : List (Action N))
        → Quiet acts
        → Accounted groups groups acts
    unfolding occ
    Quiet-Accounted groups acts (s, t) map = (map, λ id. rw (s, t) refl)

    pub then-Accounted :
        (a b c : HashMap N GroupHandle) (xs ys : List (Action N))
        → Accounted a b xs
        → Accounted b c ys
        → Accounted a c (xs ++ ys)
    then-Accounted a b c xs ys first next map =
        let (map_b, left) = first map in
        let (map_c, right) = next map_b in
        (
          map_c,
          λ id. omega (
            arith,
            left id,
            right id,
            ap (occ id) (spawned-append xs ys),
            ap (occ id) (stopped-append xs ys),
            occ-append id (spawned xs) (spawned ys),
            occ-append id (stopped xs) (stopped ys),
          ),
        )

    ids-upsert :
        (group : N) (g : GroupHandle) (groups : HashMap N GroupHandle) (id : ℕ)
        → map_get groups group ≡ none
        → occ id (ids (upsert group g (λ h. h) groups)) ≡ occ id (ids groups) + occ id (g.id ∷ [])
    unfolding ids upsert map_get occ
    ids-upsert group g [] id absent = omega arith
    ids-upsert group g ((j, h) ∷ groups) id absent = ground (arith, ids-upsert group g groups id)

    remove_absent :
        (group : N) (groups : HashMap N GroupHandle)
        → contains (keys groups) group ≡ false
        → map_remove group groups ≡ groups
    unfolding map_remove keys contains
    remove_absent group [] absent = refl
    remove_absent group ((j, h) ∷ groups) absent = ground (arith, remove_absent group groups)

    ids-remove :
        (group : N) (g : GroupHandle) (groups : HashMap N GroupHandle) (id : ℕ)
        → IsMap groups
        → map_get groups group ≡ some g
        → occ id (ids groups) ≡ occ id (ids (map_remove group groups)) + occ id (g.id ∷ [])
    unfolding ids map_remove map_get occ keys
    ids-remove group g [] id map found = cc
    ids-remove group g ((j, h) ∷ groups) id map found = elim (Bool-cases (o.beq j group)) [
      | inl here ↦
          let same : j ≡ group = o.eq_of_beq j group here in
          let absent : contains (keys groups) group ≡ false =
            subst (λ k. contains (keys groups) k ≡ false) same map.0 in
          let entry : h ≡ g = ground (arith, here, found) in
          rw (here, remove_absent group groups absent)
            (ap (λ x. occ id (x.id ∷ ids groups)) entry ∙ ground arith)
      | inr other ↦
          rw other
            (ground (arith, ids-remove group g groups id map.1 (ground (arith, other, found))))
    ]

    pub Nothing-Accounted : (groups : HashMap N GroupHandle) → Accounted groups groups []
    unfolding spawned stopped
    Nothing-Accounted groups = Quiet-Accounted groups [] (refl, refl)

    -- The task of a group that has none.
    pub spawn-Accounted :
        (groups : HashMap N GroupHandle) (group node : N) (g : GroupHandle) (config : SvSyncConfig)
        (validated two_phase : Bool)
        → map_get groups group ≡ none
        → Accounted groups
            (upsert group g (λ h. h) groups)
            (join_svs g.id group node config validated ∷ spawn_ingest g.id group two_phase ∷ [])
    unfolding spawned stopped
    spawn-Accounted groups group node g config validated two_phase absent map = (
      upsert-IsMap group g (λ h. h) groups map,
      λ id. rw (ids-upsert group g groups id absent) (unfold occ in omega arith),
    )

    -- The tasks of a removed group.
    pub cancel-Accounted :
        (groups : HashMap N GroupHandle) (group : N) (g : GroupHandle)
        → map_get groups group ≡ some g
        → Accounted groups (map_remove group groups) (cancel g.id ∷ [])
    unfolding spawned stopped
    cancel-Accounted groups group g found map = (
      rw (keys-remove group groups) (keep-Distinct (λ j. not (o.beq j group)) (keys groups) map),
      λ id. rw (ids-remove group g groups id map found) (unfold occ in omega arith),
    )

pub fetch_each-Quiet :
    {N : Type 0}
    → ⦃t : NameTree N⦄ → (groups : HashMap N GroupHandle) (names : List N)
    → Quiet (fetch_each groups names)
unfolding fetch_each spawned stopped
fetch_each-Quiet groups [] = (refl, refl)
fetch_each-Quiet groups (name ∷ names) = ground (arith, fetch_each-Quiet groups names)
