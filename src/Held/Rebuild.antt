-- ===== src/Held/Rebuild.antt =====
-- crates/ndn-repo/src/held.rs: the records that survive, put together again.
use ndn_repo.Base.{
  ℕ, zero, suc, ◌+◌, ◌-◌, ◌*◌, ◌/◌, ◌^◌, ◌≡◌, ◌≤◌, ◌<◌, ◌⊎◌, inl, inr, refl, ap, ◌∙◌, sym, true,
  false, Option, none, some, List, [], ◌∷◌, ◌++◌, length, All, All-imp, arith, leb, min, max,
  Option-cases, le_or_lt, le→leb,
}
use mathlib.Core.Path.{ap₂, subst}
use native.Mathlib.Nat.{add-mul, mul-le-mul_left, div-add-mod, mod-lt}
use ndn_repo.Collections.HashMap.{unwrap_or}
use mathlib.Core.List.{append_assoc, append-nil}
use ndn_repo.Base.Order.{nat_ord}
use ndn_repo.Collections.Distinct.{contains_below}
use ndn_repo.Wire.Fields.{◌>>=◌}
use ndn_repo.Extern.Coding.{Codec, IsCodec, Sha256}
use ndn_repo.Wire.Slices.{skip, bytes_eq_refl}
use ndn_repo.Held.Shards.{Erasure, Shard, shard_size, read_shard, read_shard-shard_record}
use ndn_repo.Held.Segments.{sources, length-sources, sources_sized, take-flatten-sources}
use ndn_repo.Held.Encoding.{IsErasure, records_of, coded_from, encode_lem}
use ndn_repo.Held.Stripes.{
  Group, add_shard, largest, stale_from, collect, absorb_all, assemble, encode,
}

unfoldable add_all : List Shard → List Group → List Group
add_all [] groups = groups
add_all (s ∷ shards) groups = add_all shards (add_shard s groups)

module _ ⦃h : Sha256⦄ where
  -- The good shards of some records, from stripe `i` on.
  unfoldable pub good : Erasure → ℕ → List (Option (List ℕ)) → List Shard
  good e i [] = []
  good e i (r ∷ rs) =
      let rest = good e (suc i) rs in
      elim (r >>= λ bytes. read_shard e i bytes) [ none ↦ rest | some s ↦ s ∷ rest ]

  -- Each stripe holds what was written to it, or nothing that passes for a shard.
  abbrev pub Survive : Erasure → ℕ → List (Option (List ℕ)) → List (List ℕ) → Type 0
  Survive e i [] [] = Unit
  Survive e i [] (x ∷ xs) = ⊥
  Survive e i (r ∷ rs) [] = ⊥
  Survive e i (r ∷ rs) (x ∷ xs) =
      (((r >>= λ bytes. read_shard e i bytes) ≡ none) ⊎ (r ≡ some x)) × Survive e (suc i) rs xs

  collect_lem :
      (e : Erasure) (i : ℕ) (rs : List (Option (List ℕ))) (groups : List Group)
      → collect e i rs groups ≡ add_all (good e i rs) groups
  unfolding collect good add_all
  collect_lem e i [] groups = refl
  collect_lem e i (r ∷ rs) groups = elim (Option-cases (r >>= λ bytes. read_shard e i bytes)) [
    | inl x ↦ rw (collect, good, x) (collect_lem e (suc i) rs groups)
    | inr (s, x) ↦ rw (collect, good, x) (collect_lem e (suc i) rs (add_shard s groups))
  ]

-- Shards of one wire.
abbrev OneWire : ℕ → List ℕ → List Shard → Type 0
OneWire len digest shards = All (λ s. (s.len ≡ len) × (s.digest ≡ digest)) shards

group_of : ℕ → List ℕ → List Shard → Group
group_of len digest members = record { len = len; digest = digest; members = members }

add_shard_same :
    (len : ℕ) (digest : List ℕ) (s : Shard) (members : List Shard)
    → s.len ≡ len
    → s.digest ≡ digest
    → add_shard s (group_of len digest members ∷ []) ≡ group_of len digest (members ++ s ∷ []) ∷ []
unfolding add_shard group_of
add_shard_same len digest s members el ed = rw (el, ed, bytes_eq_refl digest) (ground arith)

-- They join one group.
add_all_same :
    (len : ℕ) (digest : List ℕ) (shards members : List Shard)
    → OneWire len digest shards
    → add_all shards (group_of len digest members ∷ [])
      ≡ group_of len digest (members ++ shards) ∷ []
unfolding add_all
add_all_same len digest [] members one = rw append-nil
add_all_same len digest (s ∷ shards) members ((el, ed), one) =
    ap (add_all shards) (add_shard_same len digest s members el ed)
    ∙ add_all_same len digest shards (members ++ s ∷ []) one
    ∙ rw append_assoc

add_all_one :
    (len : ℕ) (digest : List ℕ) (shards : List Shard)
    → 1 ≤ length shards
    → OneWire len digest shards
    → add_all shards [] ≡ group_of len digest shards ∷ []
unfolding add_all add_shard group_of
add_all_one len digest [] some_shard one = absurd (omega arith)
add_all_one len digest (s ∷ shards) some_shard ((el, ed), one) =
    ap (λ g. add_all shards (g ∷ [])) (ap₂ (λ a b. group_of a b (s ∷ [])) el ed)
    ∙ add_all_same len digest shards (s ∷ []) one

largest_one :
    (k len : ℕ) (digest : List ℕ) (shards : List Shard)
    → k ≤ length shards
    → largest k (group_of len digest shards ∷ []) ≡ some (group_of len digest shards)
unfolding largest group_of
largest_one k len digest shards enough = rw (le→leb k (length shards) enough)

module _ ⦃c : Codec⦄ (e : Erasure) (law : IsCodec c e.k e.n) (segs : List (List ℕ)) where
  -- Coded shards of the segments, their indices ascending from `lo` on.
  abbrev Coded : ℕ → List Shard → Type 0
  Coded lo [] = Unit
  Coded lo (s ∷ shards) =
      (lo ≤ s.index)
      × (s.index < e.n)
      × (s.body ≡ law.coded segs s.index)
      × Coded (suc s.index) shards

  Coded-lower :
      (lo lower : ℕ) (shards : List Shard) → lower ≤ lo → Coded lo shards → Coded lower shards
  Coded-lower lo lower [] le h = tt
  Coded-lower lo lower (s ∷ shards) le (from, few, same, h) = (omega arith, few, same, h)

  -- A decoder that absorbs enough coded shards recovers the segments.
  recover-absorb_all :
      (shards : List Shard) (d : c.Decoder) (held : List ℕ) (lo : ℕ)
      → law.Holds d segs held
      → All (λ j. j < lo) held
      → Coded lo shards
      → length held < e.k
      → e.k ≤ length held + length shards
      → c.recover (absorb_all d shards) ≡ some segs
  unfolding absorb_all
  recover-absorb_all [] d held lo holds below coded short enough = absurd (omega arith)
  recover-absorb_all (s ∷ shards) d held lo holds below (from, few, same, coded) short enough =
      let (fine, more) =
        subst
          (λ b.
            ((c.absorb d s.index b).1 ≡ true)
            × law.Holds (c.absorb d s.index b).0 segs (s.index ∷ held))
          (sym same)
          (law.absorb_lem d segs held s.index holds short
            (contains_below held lo s.index below from) few) in
      let complete = law.complete_lem (c.absorb d s.index s.body).0 segs (s.index ∷ held) more in
      elim (le_or_lt e.k (suc (length held))) [
        | inl last ↦
            rw (fine, complete, le→leb e.k (suc (length held)) last)
              (law.recover_lem _ segs (s.index ∷ held) more last)
        | inr early ↦
            let partial : leb e.k (suc (length held)) ≡ false = ground arith in
            rw (fine, complete, partial)
              (recover-absorb_all shards (c.absorb d s.index s.body).0 (s.index ∷ held)
                (suc s.index) more (omega arith, All-imp (λ j lt. omega arith) held below) coded
                early (omega arith))
      ]

module _ ⦃c : Codec⦄ ⦃h : Sha256⦄ (e : Erasure) (law : IsCodec c e.k e.n) (ok : IsErasure e)
    (wire : List ℕ) (small : length wire < 2 ^ 32) where
  abbrev segments : List (List ℕ)
  segments = sources wire (shard_size e (length wire)) 0 e.k

  -- What survives of the records is shards of the wire, each at the index of its stripe.
  good-Coded :
      (i count : ℕ) (rs : List (Option (List ℕ)))
      → i + count ≤ e.n
      → Survive e i rs (records_of wire i (coded_from e law segments i count))
      → Coded e law segments i (good e i rs) × OneWire (length wire) (h.sha256 wire) (good e i rs)
  unfolding records_of coded_from good
  good-Coded i zero [] fit s = (tt, tt)
  good-Coded i zero (r ∷ rs) fit s = absurd s
  good-Coded i (suc count) [] fit s = absurd s
  good-Coded i (suc count) (r ∷ rs) fit (inl bad, s) =
      let (coded, one) = good-Coded (suc i) count rs (omega arith) s in
      rw (bad, good) (Coded-lower e law segments (suc i) i _ (omega arith) coded, one)
  good-Coded i (suc count) (r ∷ rs) fit (inr kept, s) =
      let (coded, one) = good-Coded (suc i) count rs (omega arith) s in
      let shard = law.coded segments i in
      let read = read_shard-shard_record e wire i shard small (omega (arith, ok.few_shards)) (
        law.coded_length (shard_size e (length wire)) segments i (length-sources wire _ 0 e.k)
          (sources_sized wire _ 0 e.k) (omega arith)) in
      rw (kept, good, read) ((omega arith, omega arith, refl, coded), ((refl, refl), one))

  -- The shards are as long together as the wire, at least.
  large_enough : length wire ≤ (0 + e.k) * shard_size e (length wire)
  unfolding shard_size
  large_enough =
      let padded = length wire + (e.k - 1) in
      let q = padded / e.k in
      let wide : q ≤ max q 1 = omega arith in
      omega (
        arith,
        ok.some_sources,
        add-mul 0 e.k (max q 1),
        mul-le-mul_left e.k wide,
        div-add-mod padded e.k,
        mod-lt padded ok.some_sources,
      )

  -- `assemble` rebuilds the wire of a packet from what survives of the records that `encode` wrote,
  -- if good shards of at least k stripes survive, whichever they are: the others may be lost,
  -- or damaged so that their digest shows it. The wire has at most u32::MAX octets.
  pub assemble-encode :
      (written : List (List ℕ)) (rs : List (Option (List ℕ)))
      → encode e wire ≡ some written
      → Survive e 0 rs written
      → e.k ≤ length (good e 0 rs)
      → assemble e rs
        ≡ some (record { wire = wire; stale = stale_from (good e 0 rs) 0 (length rs) })
  unfolding assemble group_of
  assemble-encode written rs encoded s enough =
      let as_coded = ap (λ w. unwrap_or w written) (sym encoded ∙ encode_lem e law wire ok) in
      let (coded, one) = good-Coded 0 e.n rs (omega arith) (subst (Survive e 0 rs) as_coded s) in
      let (d, made, holds) = law.dec_new_lem segments (length-sources wire _ 0 e.k) in
      let start : min (0 * shard_size e (length wire)) (length wire) ≡ 0 = omega arith in
      let laid_out =
        take-flatten-sources wire (shard_size e (length wire)) 0 e.k (length wire) (omega arith)
          large_enough
        ∙ ap (λ n. skip n wire) start in
      rw (
        assemble,
        collect_lem e 0 rs [],
        add_all_one (length wire) (h.sha256 wire) (good e 0 rs) (omega (arith, ok.some_sources))
            one,
        largest_one e.k (length wire) (h.sha256 wire) (good e 0 rs) enough,
        group_of,
        made,
        recover-absorb_all e law segments (good e 0 rs) d [] 0 holds tt coded
            (omega (arith, ok.some_sources)) (omega (arith, enough)),
        laid_out,
        bytes_eq_refl (h.sha256 wire),
      )
