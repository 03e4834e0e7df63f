-- ===== src/Held/Holder.antt =====
-- crates/ndn-repo/src/held.rs: `HolderStore`, the device's own names in one store and what it holds for
-- others in an `ErasureStore`. The order of names stands for that of their keys.
pub mod Calls
pub mod Halves
use ndn_repo.Base.{
  ℕ, zero, suc, ◌+◌, Bool, true, false, not, ◌&&◌, ◌||◌, Option, none, some, List, [], ◌∷◌, ◌++◌,
  length, ltb, leb, ◌==◌, if◌then◌else◌,
}
use Prim.Native.Nat.Ordering.{lt, eq, gt}
use ndn_repo.Base.Order.{Ord}
use ndn_repo.Wire.Fields.{◌>>=◌}
use ndn_repo.Extern.Coding.{Codec, Sha256}
use ndn_repo.Extern.Names.{NameTree}
use ndn_repo.Extern.Store.{DataStore}
use ndn_repo.Held.Stripes.{
  ErasureStore, Refusal, insert as held_insert, get as held_get, contains as held_contains,
  remove as held_remove, rebuild,
}
use ndn_repo.Held.Scan.{scan_under as held_scan_under, sync as held_sync}

module _ {N : Type 0} ⦃o : Ord N⦄ where
  -- The row that the merge takes next, and what is left of both scans.
  unfoldable pub next_row :
      List (N × List ℕ)
      → List (N × List ℕ)
      → Option ((N × List ℕ) × List (N × List ℕ) × List (N × List ℕ))
  next_row [] [] = none
  next_row (a ∷ own) [] = some (a, own, [])
  next_row [] (b ∷ held) = some (b, [], held)
  next_row ((a, x) ∷ own) ((b, y) ∷ held) = elim (o.cmp a b) [
    | lt ↦ some ((a, x), own, (b, y) ∷ held)
    | eq ↦ some ((a, x), own, (b, y) ∷ held)
    | gt ↦ some ((b, y), (a, x) ∷ own, held)
  ]

  -- The loop of the merge, on as much fuel as there are rows; `out` counts what it has taken.
  unfoldable pub merge_loop : ℕ → ℕ → ℕ → List (N × List ℕ) → List (N × List ℕ) → List (N × List ℕ)
  merge_loop zero limit out own held = []
  merge_loop (suc fuel) limit out own held =
      if limit == 0 || ltb out limit
      then elim (next_row own held) [
        | none ↦ []
        | some next ↦ next.0 ∷ merge_loop fuel limit (suc out) next.1 next.2
      ]
      else []

  unfoldable pub merge : ℕ → List (N × List ℕ) → List (N × List ℕ) → List (N × List ℕ)
  merge limit own held = merge_loop (length own + length held) limit 0 own held

pub record HolderStore (N S : Type 0) : Type 0 where
  pub device : N
  pub localhost : N
  pub own : S
  pub held : ErasureStore N S

module _ {N S : Type 0} ⦃n : NameTree N⦄ where
  unfoldable pub is_own : HolderStore N S → N → Bool
  is_own s name = n.has_prefix name s.device || n.has_prefix name s.localhost

module _ {N S : Type 0} ⦃n : NameTree N⦄ ⦃o : Ord N⦄ ⦃t : DataStore N S⦄ where
  unfoldable pub contains : HolderStore N S → N → Bool
  contains s name = if is_own s name then t.contains s.own name else held_contains s.held name

  unfoldable pub remove : HolderStore N S → N → HolderStore N S
  remove s name =
      if is_own s name
      then record s { own = t.remove s.own name }
      else record s { held = held_remove s.held name }

  -- Both halves are synced.
  unfoldable pub sync : HolderStore N S → Bool
  sync s = t.sync s.own && held_sync s.held

  module _ ⦃c : Codec⦄ ⦃h : Sha256⦄ where
    unfoldable pub insert : HolderStore N S → N → List ℕ → HolderStore N S
    insert s name wire =
        if is_own s name
        then record s { own = t.insert s.own name wire }
        else record s { held = held_insert s.held name wire }

    -- A read of a held packet may repair its stripes.
    unfoldable pub get : HolderStore N S → N → HolderStore N S × Option (List ℕ)
    get s name =
        let (held, wire) = held_get s.held name in
        if is_own s name then (s, t.get s.own name) else (record s { held = held }, wire)

    unfoldable pub scan_under : HolderStore N S → N → ℕ → HolderStore N S × List (N × List ℕ)
    scan_under s prefix limit =
        let (held, found) = held_scan_under s.held prefix limit in
        if is_own s prefix
        then (s, t.scan_under s.own prefix limit)
        else if not (n.has_prefix s.device prefix) && not (n.has_prefix s.localhost prefix)
        then (record s { held = held }, found)
        else (record s { held = held }, merge limit (t.scan_under s.own prefix limit) found)

    unfoldable pub find_under : HolderStore N S → N → HolderStore N S × Option (List ℕ)
    find_under s prefix =
        let (after, found) = scan_under s prefix 1 in
        (after, elim found [ [] ↦ none | row ∷ rows ↦ some row.1 ])
