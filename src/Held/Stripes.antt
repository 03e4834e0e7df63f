-- ===== src/Held/Stripes.antt =====
-- crates/ndn-repo/src/held.rs: `ErasureStore`: encoding a packet across the stripes, rebuilding it
-- from what they hold, and repairing the stripes that lack a good shard. The write lock makes each
-- operation one step.
use ndn_repo.Base.{
  ℕ, zero, suc, ◌-◌, ◌%◌, ◌^◌, Bool, false, ◌&&◌, ◌||◌, Option, none, some, List, [], ◌∷◌, ◌++◌,
  map, length, take, keep, ltb, leb, ◌==◌, if◌then◌else◌,
}
use mathlib.Core.List.{flatten}
use ndn_repo.Base.Order.{Ord, nat_ord}
use ndn_repo.Collections.Distinct.{contains as nat_contains}
use ndn_repo.Wire.Fields.{◌>>=◌}
use ndn_repo.Extern.Coding.{Codec, Sha256}
use ndn_repo.Extern.Store.{DataStore}
use ndn_repo.Wire.Slices.{bytes_eq}
use ndn_repo.Held.Shards.{
  Erasure, Shard, Assembled, shard_size, source_segment, shard_record, read_shard,
}

-- Shards of one wire: an entry of `groups` in `assemble`.
pub record Group : Type 0 where
  pub len : ℕ
  pub digest : List ℕ
  pub members : List Shard

module _ ⦃c : Codec⦄ ⦃h : Sha256⦄ where
  -- The loop of `encode` over the source shards, from the index `i` on.
  unfoldable pub feed_sources : List ℕ → ℕ → ℕ → ℕ → c.Encoder → Option (c.Encoder × List (List ℕ))
  feed_sources wire size i zero enc = some (enc, [])
  feed_sources wire size i (suc count) enc = do
    fed ← c.feed enc (source_segment wire size i)
    (last, records) ← feed_sources wire size (suc i) count fed
    some (last, shard_record wire i (source_segment wire size i) ∷ records)

  -- Its loop over the parity shards; the index is cast to u16.
  unfoldable pub parity_records : List ℕ → ℕ → ℕ → c.Encoder → Option (List (List ℕ))
  parity_records wire i zero enc = some []
  parity_records wire i (suc count) enc = do
    shard ← c.parity enc (i % 65536)
    records ← parity_records wire (suc i) count enc
    some (shard_record wire i shard ∷ records)

  unfoldable pub encode : Erasure → List ℕ → Option (List (List ℕ))
  encode e wire = do
    enc ← c.enc_new e.k e.n
    (fed, sources) ← feed_sources wire (shard_size e (length wire)) 0 e.k enc
    parities ← parity_records wire e.k (e.n - e.k) fed
    some (sources ++ parities)

-- The shard joins the first group of its wire, or opens one.
unfoldable pub add_shard : Shard → List Group → List Group
add_shard s [] = record { len = s.len; digest = s.digest; members = s ∷ [] } ∷ []
add_shard s (g ∷ gs) =
    let rest = add_shard s gs in
    if g.len == s.len && bytes_eq g.digest s.digest
    then record g { members = g.members ++ s ∷ [] } ∷ gs
    else g ∷ rest

-- `max_by_key` of the groups with enough members: the last of those with most.
unfoldable pub largest : ℕ → List Group → Option Group
largest k [] = none
largest k (g ∷ gs) =
    let rest = largest k gs in
    if leb k (length g.members)
    then elim rest [
      | none ↦ some g
      | some best ↦ if ltb (length best.members) (length g.members) then some g else some best
    ]
    else rest

unfoldable pub has_index : List Shard → ℕ → Bool
has_index [] i = false
has_index (s ∷ members) i = s.index == i || has_index members i

-- The stripes from `i` on that have no member.
unfoldable pub stale_from : List Shard → ℕ → ℕ → List ℕ
stale_from members i zero = []
stale_from members i (suc count) =
    let rest = stale_from members (suc i) count in if has_index members i then rest else i ∷ rest

module _ ⦃h : Sha256⦄ where
  -- The loop of `assemble` over the records, from stripe `i` on.
  unfoldable pub collect : Erasure → ℕ → List (Option (List ℕ)) → List Group → List Group
  collect e i [] groups = groups
  collect e i (r ∷ rs) groups =
      collect e (suc i) rs
        (elim (r >>= λ bytes. read_shard e i bytes) [ none ↦ groups | some s ↦ add_shard s groups ])

module _ ⦃c : Codec⦄ where
  -- The decoder absorbs the members in their order until it is complete; an error is passed over.
  unfoldable pub absorb_all : c.Decoder → List Shard → c.Decoder
  absorb_all d [] = d
  absorb_all d (s ∷ members) =
      let (d', fine) = c.absorb d s.index s.body in
      let rest = absorb_all d' members in if fine && c.is_complete d' then d' else rest

module _ ⦃c : Codec⦄ ⦃h : Sha256⦄ where
  unfoldable pub assemble : Erasure → List (Option (List ℕ)) → Option Assembled
  assemble e records = do
    g ← largest e.k (collect e 0 records [])
    d ← c.dec_new e.k e.n
    segments ← c.recover (absorb_all d g.members)
    if bytes_eq (h.sha256 (take g.len (flatten segments))) g.digest
        then some (record {
          wire = take g.len (flatten segments);
          stale = stale_from g.members 0 (length records);
        })
        else none

-- Why an insert was refused: over 4 GiB, or an error of the codec.
pub data Refusal (N : Type 0) : Type 0 where
  too_long : N → ℕ → Refusal N
  not_coded : N → Refusal N

pub record ErasureStore (N S : Type 0) : Type 0 where
  pub erasure : Erasure
  pub stripes : List S
  pub refused : Option (Refusal N)

module _ {N S : Type 0} where
  -- `OnceLock::set`: the first refusal stays.
  unfoldable pub refuse : ErasureStore N S → Refusal N → ErasureStore N S
  refuse s why = elim s.refused [ none ↦ record s { refused = some why } | some first ↦ s ]

module _ {N S : Type 0} ⦃o : Ord N⦄ ⦃t : DataStore N S⦄ where
  unfoldable pub records : ErasureStore N S → N → List (Option (List ℕ))
  records s name = map (λ stripe. t.get stripe name) s.stripes

  -- The loop of `insert` over the stripes and the records.
  unfoldable pub insert_each : List S → N → List (List ℕ) → List S
  insert_each [] name rs = []
  insert_each (stripe ∷ stripes) name [] = stripe ∷ stripes
  insert_each (stripe ∷ stripes) name (r ∷ rs) =
      t.insert stripe name r ∷ insert_each stripes name rs

  -- The loop of `repair`, told stripe by stripe from stripe `i` on.
  unfoldable pub rewrite_stale : List ℕ → ℕ → List S → N → List (List ℕ) → List S
  rewrite_stale stale i [] name rs = []
  rewrite_stale stale i (stripe ∷ stripes) name [] = stripe ∷ stripes
  rewrite_stale stale i (stripe ∷ stripes) name (r ∷ rs) =
      (if nat_contains stale i then t.insert stripe name r else stripe)
      ∷ rewrite_stale stale (suc i) stripes name rs

  unfoldable pub contains : ErasureStore N S → N → Bool
  contains s name = leb s.erasure.k (length (keep (λ stripe. t.contains stripe name) s.stripes))

  unfoldable pub remove : ErasureStore N S → N → ErasureStore N S
  remove s name = record s { stripes = map (λ stripe. t.remove stripe name) s.stripes }

module _ {N S : Type 0} ⦃o : Ord N⦄ ⦃t : DataStore N S⦄ ⦃c : Codec⦄ ⦃h : Sha256⦄ where
  unfoldable pub insert : ErasureStore N S → N → List ℕ → ErasureStore N S
  insert s name wire =
      if ltb (2 ^ 32 - 1) (length wire)
      then refuse s (too_long name (length wire))
      else elim (encode s.erasure wire) [
        | none ↦ refuse s (not_coded name)
        | some rs ↦ record s { stripes = insert_each s.stripes name rs }
      ]

  unfoldable pub repair : ErasureStore N S → N → ErasureStore N S
  repair s name = elim (assemble s.erasure (records s name)) [
    | none ↦ s
    | some now ↦ elim now.stale [
      | [] ↦ s
      | (i ∷ stale) ↦ elim (encode s.erasure now.wire) [
        | none ↦ s
        | some rs ↦ record s { stripes = rewrite_stale (i ∷ stale) 0 s.stripes name rs }
      ]
    ]
  ]

  unfoldable pub rebuild :
      ErasureStore N S → N → List (Option (List ℕ)) → ErasureStore N S × Option (List ℕ)
  rebuild s name rs = elim (assemble s.erasure rs) [
    | none ↦ (s, none)
    | some got ↦ (elim got.stale [ [] ↦ s | (i ∷ stale) ↦ repair s name ], some got.wire)
  ]

  unfoldable pub get : ErasureStore N S → N → ErasureStore N S × Option (List ℕ)
  get s name = rebuild s name (records s name)
