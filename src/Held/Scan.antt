-- ===== src/Held/Scan.antt =====
-- crates/ndn-repo/src/held.rs: the scans of an `ErasureStore`, and its `sync`. The order of names stands for
-- that of their keys.
use ndn_repo.Base.{
  ℕ, zero, suc, Bool, true, false, ◌&&◌, Option, none, some, List, [], ◌∷◌, length, ltb, leb,
  if◌then◌else◌,
}
use Prim.Native.Nat.Ordering.{lt, eq, gt}
use ndn_repo.Base.Order.{Ord}
use ndn_repo.Wire.Fields.{◌>>=◌}
use ndn_repo.Extern.Coding.{Codec, Sha256}
use ndn_repo.Extern.Store.{DataStore}
use ndn_repo.Held.Stripes.{ErasureStore, rebuild}

-- A name with the records that the stripes have for it.
abbrev pub Row : Type 0 → Type 0
Row N = N × List (Option (List ℕ))

unfoldable pub set_nth : ℕ → Option (List ℕ) → List (Option (List ℕ)) → List (Option (List ℕ))
set_nth i r [] = []
set_nth zero r (x ∷ xs) = r ∷ xs
set_nth (suc i) r (x ∷ xs) = x ∷ set_nth i r xs

unfoldable pub no_records : ℕ → List (Option (List ℕ))
no_records zero = []
no_records (suc n) = none ∷ no_records n

-- The last name of a list.
unfoldable pub last_name : {N : Type 0} → List (N × List ℕ) → Option N
last_name [] = none
last_name ((name, wire) ∷ []) = some name
last_name ((name, wire) ∷ (row ∷ rows)) = last_name (row ∷ rows)

module _ {N : Type 0} ⦃o : Ord N⦄ where
  -- The record of stripe `i` goes into the row of its name, a new one if there is none: an entry of a
  -- `BTreeMap`.
  unfoldable pub add_record : ℕ → ℕ → N → List ℕ → List (Row N) → List (Row N)
  add_record n i name bytes [] = (name, set_nth i (some bytes) (no_records n)) ∷ []
  add_record n i name bytes ((m, rs) ∷ rows) =
      let rest = add_record n i name bytes rows in
      elim (o.cmp name m) [
        | lt ↦ (name, set_nth i (some bytes) (no_records n)) ∷ (m, rs) ∷ rows
        | eq ↦ (m, set_nth i (some bytes) rs) ∷ rows
        | gt ↦ (m, rs) ∷ rest
      ]

  unfoldable pub add_records : ℕ → ℕ → List (N × List ℕ) → List (Row N) → List (Row N)
  add_records n i [] rows = rows
  add_records n i ((name, bytes) ∷ got) rows = add_records n i got (add_record n i name bytes rows)

  -- The smallest of the names up to which the stripes are seen whole.
  unfoldable pub lower : Option N → N → Option N
  lower none last = some last
  lower (some c) last = elim (o.cmp last c) [ lt ↦ some last | eq ↦ some c | gt ↦ some c ]

  unfoldable pub cut_short : ℕ → List (N × List ℕ) → Option N → Option N
  cut_short stripe_limit got complete_to =
      if ltb 0 stripe_limit && leb stripe_limit (length got)
      then elim (last_name got) [ none ↦ complete_to | some last ↦ lower complete_to last ]
      else complete_to

  unfoldable pub beyond : Option N → N → Bool
  beyond none name = false
  beyond (some c) name = elim (o.cmp name c) [ lt ↦ false | eq ↦ false | gt ↦ true ]

module _ {N S : Type 0} ⦃o : Ord N⦄ ⦃t : DataStore N S⦄ where
  -- The loop of `scan` over the stripes, from stripe `i` on.
  unfoldable pub scan_stripes :
      N → ℕ → ℕ → ℕ → List S → List (Row N) → Option N → List (Row N) × Option N
  scan_stripes prefix stripe_limit n i [] rows complete_to = (rows, complete_to)
  scan_stripes prefix stripe_limit n i (stripe ∷ stripes) rows complete_to =
      let got = t.scan_under stripe prefix stripe_limit in
      scan_stripes prefix stripe_limit n (suc i) stripes (add_records n i got rows)
        (cut_short stripe_limit got complete_to)

module _ {N S : Type 0} ⦃o : Ord N⦄ ⦃t : DataStore N S⦄ ⦃c : Codec⦄ ⦃h : Sha256⦄ where
  -- The loop of `scan` over the rows; `out` counts the packets that it has rebuilt.
  unfoldable pub scan_rows :
      ℕ
      → Option N
      → ℕ
      → List (Row N)
      → ErasureStore N S
      → ErasureStore N S × Option (List (N × List ℕ))
  scan_rows limit complete_to out [] s = (s, some [])
  scan_rows limit complete_to out ((name, rs) ∷ rows) s =
      let (s', wire) = rebuild s name rs in
      let (lost_end, lost_rest) = scan_rows limit complete_to out rows s' in
      let (found_end, found_rest) = scan_rows limit complete_to (suc out) rows s' in
      if ltb 0 limit && leb limit out
      then (s, some [])
      else if beyond complete_to name
      then (s, none)
      else elim wire [
        | none ↦ (lost_end, lost_rest)
        | some w ↦ (found_end, found_rest >>= λ more. some ((name, w) ∷ more))
      ]

  unfoldable pub scan : ErasureStore N S → N → ℕ → ℕ → ErasureStore N S × Option (List (N × List ℕ))
  scan s prefix stripe_limit limit =
      let (rows, complete_to) =
        scan_stripes prefix stripe_limit (length s.stripes) 0 s.stripes [] none in
      scan_rows limit complete_to 0 rows s

  unfoldable pub scan_under : ErasureStore N S → N → ℕ → ErasureStore N S × List (N × List ℕ)
  scan_under s prefix limit =
      let (once, got) = scan s prefix limit limit in
      let (twice, all) = scan once prefix 0 limit in
      elim got [
        | some found ↦ (once, found)
        | none ↦ (twice, elim all [ none ↦ [] | some found ↦ found ])
      ]

  unfoldable pub find_under : ErasureStore N S → N → ErasureStore N S × Option (List ℕ)
  find_under s prefix =
      let (after, found) = scan_under s prefix 1 in
      (after, elim found [ [] ↦ none | row ∷ rows ↦ some row.1 ])

-- `sync`: whether no insert was refused and every stripe is durable.
unfoldable pub all_synced : {S : Type 0} → (S → Bool) → List S → Bool
all_synced durable [] = true
all_synced durable (stripe ∷ stripes) =
    let rest = all_synced durable stripes in durable stripe && rest

module _ {N S : Type 0} ⦃o : Ord N⦄ ⦃t : DataStore N S⦄ where
  unfoldable pub sync : ErasureStore N S → Bool
  sync s = elim s.refused [ none ↦ all_synced t.sync s.stripes | some why ↦ false ]
