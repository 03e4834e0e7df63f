-- ===== src/Held/Contract.antt =====
-- crates/ndn-repo/src/held.rs: `ErasureStore` as the `DataStore` that it stands for.
use ndn_repo.Base.{
  ℕ, zero, suc, ◌+◌, ◌-◌, ◌≡◌, ◌≤◌, ◌<◌, ◌^◌, inl, inr, refl, ap, ◌∙◌, sym, false, Option, none,
  some, List, [], ◌∷◌, map, length, length-map, arith, Option-cases, Bool-cases, if◌then◌else◌, ltb,
}
use mathlib.Core.Path.{subst, ap₂}
use ndn_repo.Base.Order.{Ord}
use ndn_repo.Extern.Coding.{Codec, IsCodec, Sha256}
use ndn_repo.Extern.Store.{DataStore}
use ndn_repo.Held.Shards.{Erasure, Assembled, shard_size, read_shard-shard_record}
use ndn_repo.Held.Segments.{sources, length-sources, sources_sized}
use ndn_repo.Held.Encoding.{IsErasure, records_of, coded_from}
use ndn_repo.Held.Rebuild.{good}
use ndn_repo.Held.Losses.{Outlast, records-insert, get-insert}
use ndn_repo.Held.Stripes.{
  ErasureStore, Refusal, too_long, not_coded, refuse, collect, largest, assemble, encode, records,
  insert_each, insert, remove, rebuild, get,
}

-- The wire of what was put together.
abbrev wire_of : Option Assembled → Option (List ℕ)
wire_of none = none
wire_of (some got) = some got.wire

module _ {N S : Type 0} ⦃o : Ord N⦄ ⦃t : DataStore N S⦄ where
  -- What other packets the stripes hold is as before.
  records-insert_each_other :
      (stripes : List S) (name other : N) (rs : List (List ℕ))
      → o.beq name other ≡ false
      → map (λ stripe. t.get stripe other) (insert_each stripes name rs)
        ≡ map (λ stripe. t.get stripe other) stripes
  unfolding insert_each
  records-insert_each_other [] name other rs apart = refl
  records-insert_each_other (stripe ∷ stripes) name other [] apart = refl
  records-insert_each_other (stripe ∷ stripes) name other (r ∷ rs) apart =
      rw
        (
          t.get_insert stripe name r other,
          apart,
          records-insert_each_other stripes name other rs apart,
        )
        refl

  length-insert_each :
      (stripes : List S) (name : N) (rs : List (List ℕ))
      → length (insert_each stripes name rs) ≡ length stripes
  unfolding insert_each
  length-insert_each [] name rs = refl
  length-insert_each (stripe ∷ stripes) name [] = refl
  length-insert_each (stripe ∷ stripes) name (r ∷ rs) =
      omega (arith, length-insert_each stripes name rs)

  records-remove_other :
      (stripes : List S) (name other : N)
      → o.beq name other ≡ false
      → map (λ stripe. t.get stripe other) (map (λ stripe. t.remove stripe name) stripes)
        ≡ map (λ stripe. t.get stripe other) stripes
  records-remove_other [] name other apart = refl
  records-remove_other (stripe ∷ stripes) name other apart =
      rw (t.get_remove stripe name other, apart, records-remove_other stripes name other apart) refl

  module _ ⦃h : Sha256⦄ where
    -- A removed packet leaves no shard.
    collect-remove :
        (e : Erasure) (i : ℕ) (stripes : List S) (name : N)
        → collect e i
            (map (λ stripe. t.get stripe name) (map (λ stripe. t.remove stripe name) stripes))
            []
          ≡ []
    unfolding collect
    collect-remove e i [] name = refl
    collect-remove e i (stripe ∷ stripes) name =
        rw (t.get_remove stripe name name, o.beq_refl name) (collect-remove e (suc i) stripes name)

module _ {N S : Type 0} ⦃o : Ord N⦄ ⦃t : DataStore N S⦄ ⦃c : Codec⦄ ⦃h : Sha256⦄ where
  get_lem :
      (s : ErasureStore N S) (name : N)
      → (get s name).1 ≡ wire_of (assemble s.erasure (records s name))
  unfolding get rebuild
  get_lem s name = elim (Option-cases (assemble s.erasure (records s name))) [
    | inl lost ↦ rw (get, rebuild, lost) refl
    | inr (got, found) ↦ rw (get, rebuild, found) refl
  ]

  pub insert_erasure :
      (s : ErasureStore N S) (name : N) (wire : List ℕ) → (insert s name wire).erasure ≡ s.erasure
  unfolding insert refuse
  insert_erasure s name wire = ground arith

  pub length-insert :
      (s : ErasureStore N S) (name : N) (wire : List ℕ)
      → length (insert s name wire).stripes ≡ length s.stripes
  unfolding insert refuse
  length-insert s name wire = elim (Bool-cases (ltb (2 ^ 32 - 1) (length wire))) [
    | inl long ↦ rw (insert, long) (ground arith)
    | inr short ↦ elim (Option-cases (encode s.erasure wire)) [
      | inl bad ↦ rw (insert, short, bad) (ground arith)
      | inr (rs, coded) ↦ rw (insert, short, coded) (length-insert_each s.stripes name rs)
    ]
  ]

  records-refuse :
      (s : ErasureStore N S) (why : Refusal N) (other : N)
      → records (refuse s why) other ≡ records s other
  unfolding refuse records
  records-refuse s why other = elim (Option-cases s.refused) [
    | inl first ↦ rw (refuse, first) refl
    | inr (earlier, later) ↦ rw (refuse, later) refl
  ]

  records-insert_other :
      (s : ErasureStore N S) (name other : N) (wire : List ℕ)
      → o.beq name other ≡ false
      → records (insert s name wire) other ≡ records s other
  unfolding insert
  records-insert_other s name other wire apart =
      elim (Bool-cases (ltb (2 ^ 32 - 1) (length wire))) [
        | inl long ↦ rw (insert, long) (records-refuse s (too_long name (length wire)) other)
        | inr short ↦ elim (Option-cases (encode s.erasure wire)) [
          | inl bad ↦ rw (insert, short, bad) (records-refuse s (not_coded name) other)
          | inr (rs, coded) ↦
              rw (insert, short, coded)
                (unfold records in records-insert_each_other s.stripes name other rs apart)
        ]
      ]

  get-insert_other :
      (s : ErasureStore N S) (name other : N) (wire : List ℕ)
      → o.beq name other ≡ false
      → (get (insert s name wire) other).1 ≡ (get s other).1
  get-insert_other s name other wire apart =
      get_lem (insert s name wire) other
      ∙ ap₂ (λ e rs. wire_of (assemble e rs)) (insert_erasure s name wire)
          (records-insert_other s name other wire apart)
      ∙ sym (get_lem s other)

  pub length-remove :
      (s : ErasureStore N S) (name : N)
      → ((remove s name).erasure ≡ s.erasure) × (length (remove s name).stripes ≡ length s.stripes)
  unfolding remove
  length-remove s name = (refl, length-map (λ stripe. t.remove stripe name) s.stripes)

  -- A removed packet is gone, and the others stay.
  pub get-remove :
      (s : ErasureStore N S) (name other : N)
      → (get (remove s name) other).1 ≡ (if o.beq name other then none else (get s other).1)
  unfolding remove
  get-remove s name other = elim (Bool-cases (o.beq name other)) [
    | inr apart ↦
        let kept : records (remove s name) other ≡ records s other =
          unfold records in records-remove_other s.stripes name other apart in
        rw apart (
          get_lem (remove s name) other
          ∙ ap (λ rs. wire_of (assemble s.erasure rs)) kept
          ∙ sym (get_lem s other))
    | inl same ↦
        let lost : assemble s.erasure (records (remove s name) name) ≡ none =
          unfold assemble records largest in
          rw (assemble, collect-remove s.erasure 0 s.stripes name) refl in
        rw same (
          subst (λ m. (get (remove s name) m).1 ≡ none) (o.eq_of_beq name other same)
            (get_lem (remove s name) name ∙ ap wire_of lost))
  ]

  module _ (s : ErasureStore N S) (law : IsCodec c s.erasure.k s.erasure.n)
      (ok : IsErasure s.erasure) where
    -- All that was written is good.
    good_written :
        (wire : List ℕ) (i count : ℕ)
        → length wire < 2 ^ 32
        → i + count ≤ s.erasure.n
        → length (
            good s.erasure i (
              map
                (λ x. some x)
                (records_of wire i (
                  coded_from s.erasure law
                    (sources wire (shard_size s.erasure (length wire)) 0 s.erasure.k)
                    i
                    count))))
          ≡ count
    unfolding good records_of coded_from
    good_written wire i zero small fit = refl
    good_written wire i (suc count) small fit =
        let size = shard_size s.erasure (length wire) in
        let segs = sources wire size 0 s.erasure.k in
        let read =
          read_shard-shard_record s.erasure wire i (law.coded segs i) small
            (omega (arith, ok.few_shards))
            (law.coded_length size segs i (length-sources wire size 0 s.erasure.k)
              (sources_sized wire size 0 s.erasure.k) (omega arith)) in
        rw (good, read) (omega (arith, good_written wire (suc i) count small (omega arith)))

    Outlast-refl : (i : ℕ) (rs : List (Option (List ℕ))) → Outlast s.erasure i rs rs
    Outlast-refl i [] = tt
    Outlast-refl i (r ∷ rs) = (inr refl, Outlast-refl (suc i) rs)

    -- A store of n stripes keeps what a data store promises: a packet of at most u32::MAX octets is there
    -- after its insert, and the others are as before.
    pub get-insert_any :
        (name other : N) (wire : List ℕ)
        → length wire < 2 ^ 32
        → length s.stripes ≡ s.erasure.n
        → (get (insert s name wire) other).1
          ≡ (if o.beq name other then some wire else (get s other).1)
    get-insert_any name other wire small whole = elim (Bool-cases (o.beq name other)) [
      | inr apart ↦ rw apart (get-insert_other s name other wire apart)
      | inl same ↦
          let stored = records-insert s law ok name wire small whole in
          let enough =
            ap (λ rs. length (good s.erasure 0 rs)) stored
            ∙ good_written wire 0 s.erasure.n small (omega arith) in
          rw same (
            subst (λ m. (get (insert s name wire) m).1 ≡ some wire) (o.eq_of_beq name other same)
              (get-insert s law ok (insert s name wire) name wire small whole
                (insert_erasure s name wire) (Outlast-refl 0 (records (insert s name wire) name))
                (omega (arith, enough, ok.enough_shards))))
    ]
