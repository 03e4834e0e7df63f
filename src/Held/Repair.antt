-- ===== src/Held/Repair.antt =====
-- crates/ndn-repo/src/held.rs: the stripes after a packet was read, when some had lost their shard of it.
use ndn_repo.Base.{
  ℕ, zero, suc, ◌+◌, ◌%◌, ◌≡◌, ◌≤◌, ◌<◌, ◌^◌, ◌⊎◌, inl, inr, refl, ap, ◌∙◌, sym, true, false,
  Option, none, some, List, [], ◌∷◌, map, take, ltb, ◌&&◌, length, arith, Option-cases, Bool-cases,
  ◌==◌,
}
use ndn_repo.Base.Order.{Ord, nat_ord}
use ndn_repo.Collections.Distinct.{contains as nat_contains}
use ndn_repo.Collections.HashMap.{unwrap_or}
use ndn_repo.Wire.Fields.{◌>>=◌}
use ndn_repo.Extern.Coding.{Codec, IsCodec, Sha256}
use ndn_repo.Extern.Store.{DataStore}
use ndn_repo.Wire.Slices.{skip, bytes_eq}
use ndn_repo.Held.Shards.{header, u32_of, Erasure, Shard, shard_size, read_shard}
use ndn_repo.Held.Encoding.{IsErasure, encode_lem}
use ndn_repo.Held.Rebuild.{good, Survive}
use ndn_repo.Held.Losses.{
  Outlast, written_of, length-written_of, records-insert, assemble-records, survived,
}
use ndn_repo.Held.Stripes.{
  ErasureStore, has_index, stale_from, assemble, records, encode, rewrite_stale, insert, repair,
  rebuild, get,
}

-- Each stripe has its record, or is one of those to be rewritten.
abbrev Mended : List ℕ → ℕ → List (Option (List ℕ)) → List (List ℕ) → Type 0
Mended stale i [] [] = Unit
Mended stale i [] (x ∷ xs) = ⊥
Mended stale i (r ∷ rs) [] = ⊥
Mended stale i (r ∷ rs) (x ∷ xs) =
    ((nat_contains stale i ≡ true) ⊎ (r ≡ some x)) × Mended stale (suc i) rs xs

Mended-none :
    (i : ℕ) (rs : List (Option (List ℕ))) (written : List (List ℕ))
    → Mended [] i rs written
    → rs ≡ map (λ x. some x) written
unfolding nat_contains
Mended-none i [] [] m = refl
Mended-none i [] (x ∷ xs) m = absurd m
Mended-none i (r ∷ rs) [] m = absurd m
Mended-none i (r ∷ rs) (x ∷ xs) (inl there, m) = cc
Mended-none i (r ∷ rs) (x ∷ xs) (inr kept, m) = rw (kept, Mended-none (suc i) rs xs m) refl

contains-stale_from :
    (members : List Shard) (lo count i : ℕ)
    → lo ≤ i
    → i < lo + count
    → has_index members i ≡ false
    → nat_contains (stale_from members lo count) i ≡ true
unfolding nat_contains stale_from nat_ord
contains-stale_from members lo zero i from below bare = absurd (omega arith)
contains-stale_from members lo (suc count) i from below bare = elim (Bool-cases (lo == i)) [
  | inl here ↦
      let same : lo ≡ i = ground (arith, here) in
      let mine : nat_ord.beq lo i ≡ true = ground (arith, here) in
      rw (stale_from, ap (has_index members) same ∙ bare) (ground (arith, mine))
  | inr other ↦
      let rest =
        contains-stale_from members (suc lo) count i (ground (arith, other)) (omega arith) bare in
      elim (Bool-cases (has_index members lo)) [
        | inl there ↦ rw (stale_from, there) rest
        | inr absent ↦ rw (stale_from, absent) (ground (arith, rest))
      ]
]

no_shard : {s : Shard} (r : Option Shard) → r ≡ none → r ≡ some s → ⊥
no_shard r bad read = cc

module _ ⦃h : Sha256⦄ where
  read_shard_index :
      (e : Erasure) (i : ℕ) (bytes : List ℕ) (s : Shard)
      → i < 65536
      → read_shard e i bytes ≡ some s
      → s.index ≡ i
  unfolding read_shard
  read_shard_index e i [] s few read = cc
  read_shard_index e i (index ∷ bytes) s few read =
      let whole = read_shard e i (index ∷ bytes) in
      elim (Bool-cases (ltb (length (index ∷ bytes)) header)) [
        | inl short ↦ absurd (no_shard whole (rw (read_shard, short) refl) read)
        | inr long ↦ elim (Bool-cases (index == i)) [
          | inr other ↦ absurd (no_shard whole (rw (read_shard, long, other) refl) read)
          | inl mine ↦ elim (Option-cases (u32_of (take 4 bytes))) [
            | inl bad ↦ absurd (no_shard whole (rw (read_shard, long, mine, bad) refl) read)
            | inr (len, size) ↦
                let body = skip 68 bytes in
                elim (Bool-cases (
                  length body == shard_size e len
                  && bytes_eq (h.sha256 body) (take 32 (skip 36 bytes)))) [
                    | inr bad ↦
                        absurd (no_shard whole (rw (read_shard, long, mine, size, bad) refl) read)
                    | inl good ↦
                        let found : whole
                            ≡ some (record {
                              index = i % 65536;
                              len = len;
                              digest = take 32 (skip 4 bytes);
                              body = body;
                            }) =
                          rw (read_shard, long, mine, size, good) refl in
                        let same = ap (λ r. (unwrap_or r s).index) (sym read ∙ found) in
                        omega (arith, same)
                  ]
          ]
        ]
      ]

  good_index :
      (e : Erasure) (i : ℕ) (r : Option (List ℕ)) (s : Shard)
      → i < 65536
      → (r >>= λ bytes. read_shard e i bytes) ≡ some s
      → s.index ≡ i
  good_index e i none s few read = cc
  good_index e i (some bytes) s few read = read_shard_index e i bytes s few read

  -- A good shard stands at the index of its stripe.
  good_above :
      (e : Erasure) (i j : ℕ) (rs : List (Option (List ℕ)))
      → j < i
      → i + length rs ≤ 65536
      → has_index (good e i rs) j ≡ false
  unfolding good has_index
  good_above e i j [] lt fit = refl
  good_above e i j (r ∷ rs) lt fit =
      let rest = good_above e (suc i) j rs (omega arith) (omega arith) in
      elim (Option-cases (r >>= λ bytes. read_shard e i bytes)) [
        | inl bad ↦ rw (good, bad) rest
        | inr (s, read) ↦
            let at = good_index e i r s (omega arith) read in
            let apart : (s.index == j) ≡ false = ground (arith, at) in rw (good, read, apart) rest
      ]

  good_later :
      (e : Erasure) (i j : ℕ) (r : Option (List ℕ)) (rs : List (Option (List ℕ)))
      → suc i ≤ j
      → i < 65536
      → has_index (good e i (r ∷ rs)) j ≡ has_index (good e (suc i) rs) j
  unfolding good has_index
  good_later e i j r rs later few = elim (Option-cases (r >>= λ bytes. read_shard e i bytes)) [
    | inl bad ↦ rw (good, bad) refl
    | inr (s, read) ↦
        let at = good_index e i r s few read in
        let apart : (s.index == j) ≡ false = ground (arith, at) in rw (good, read, apart) refl
  ]

  -- What survives is left, and the rest is to be rewritten.
  Survive-Mended :
      (e : Erasure) (members : List Shard) (i total : ℕ) (rs : List (Option (List ℕ)))
      (written : List (List ℕ))
      → ((j : ℕ) → i ≤ j → has_index members j ≡ has_index (good e i rs) j)
      → i + length rs ≡ total
      → total ≤ 65536
      → Survive e i rs written
      → Mended (stale_from members 0 total) i rs written
  unfolding good has_index
  Survive-Mended e members i total [] [] same at fit s = tt
  Survive-Mended e members i total [] (x ∷ xs) same at fit s = absurd s
  Survive-Mended e members i total (r ∷ rs) [] same at fit s = absurd s
  Survive-Mended e members i total (r ∷ rs) (x ∷ xs) same at fit (inl bad, s) =
      let here : has_index members i ≡ false =
        same i (omega arith)
        ∙ rw (good, bad) (good_above e (suc i) i rs (omega arith) (omega arith)) in
      (
        inl (contains-stale_from members 0 total i (omega arith) (omega arith) here),
        Survive-Mended e members (suc i) total rs xs
            (λ j le. same j (omega arith) ∙ rw (good, bad) refl) (omega arith) fit s,
      )
  Survive-Mended e members i total (r ∷ rs) (x ∷ xs) same at fit (inr kept, s) = (
    inr kept,
    Survive-Mended e members (suc i) total rs xs
        (λ j le. same j (omega arith) ∙ good_later e i j r rs le (omega arith)) (omega arith) fit s,
  )

module _ {N S : Type 0} ⦃o : Ord N⦄ ⦃t : DataStore N S⦄ where
  -- The stripes that are rewritten hold what was written.
  records-rewrite_stale :
      (stale : List ℕ) (i : ℕ) (stripes : List S) (name : N) (written : List (List ℕ))
      → Mended stale i (map (λ stripe. t.get stripe name) stripes) written
      → map (λ stripe. t.get stripe name) (rewrite_stale stale i stripes name written)
        ≡ map (λ x. some x) written
  unfolding rewrite_stale
  records-rewrite_stale stale i [] name [] m = refl
  records-rewrite_stale stale i [] name (x ∷ xs) m = absurd m
  records-rewrite_stale stale i (stripe ∷ stripes) name [] m = absurd m
  records-rewrite_stale stale i (stripe ∷ stripes) name (x ∷ xs) (here, m) =
      let rest = records-rewrite_stale stale (suc i) stripes name xs m in
      let stored = t.get_insert stripe name x name in
      elim (Bool-cases (nat_contains stale i)) [
        | inl there ↦ rw (there, stored, o.beq_refl name, rest) refl
        | inr absent ↦ elim here [ inl there ↦ cc | inr kept ↦ rw (absent, kept, rest) refl ]
      ]

module _ {N S : Type 0} ⦃o : Ord N⦄ ⦃t : DataStore N S⦄ ⦃c : Codec⦄ ⦃h : Sha256⦄ where
  records_repaired :
      (s : ErasureStore N S) (name : N) (wire : List ℕ) (stale : List ℕ) (written : List (List ℕ))
      → assemble s.erasure (records s name) ≡ some (record { wire = wire; stale = stale })
      → encode s.erasure wire ≡ some written
      → Mended stale 0 (records s name) written
      → records (get s name).0 name ≡ map (λ x. some x) written
  unfolding get rebuild
  records_repaired s name wire [] written rebuilt encoded m =
      rw (get, rebuild, rebuilt) (Mended-none 0 (records s name) written m)
  records_repaired s name wire (i ∷ stale) written rebuilt encoded m =
      let mended : repair s name
          ≡ record s { stripes = rewrite_stale (i ∷ stale) 0 s.stripes name written } =
        unfold repair in rw (repair, rebuilt, encoded) refl in
      rw (get, rebuild, rebuilt, mended)
        (unfold records in records-rewrite_stale (i ∷ stale) 0 s.stripes name written m)

length-Survive :
    ⦃h : Sha256⦄
    → (e : Erasure) (i : ℕ) (rs : List (Option (List ℕ))) (written : List (List ℕ))
    → Survive e i rs written
    → length rs ≡ length written
length-Survive e i [] [] s = refl
length-Survive e i [] (x ∷ xs) s = absurd s
length-Survive e i (r ∷ rs) [] s = absurd s
length-Survive e i (r ∷ rs) (x ∷ xs) (here, s) = omega (arith, length-Survive e (suc i) rs xs s)

module _ {N S : Type 0} ⦃o : Ord N⦄ ⦃t : DataStore N S⦄ ⦃c : Codec⦄ ⦃h : Sha256⦄
    (s : ErasureStore N S) (law : IsCodec c s.erasure.k s.erasure.n)
    (ok : IsErasure s.erasure) where
  -- After the insert of a packet of at most u32::MAX octets, and after any loss of stripes or damage to
  -- them that leaves good shards in k of them, reading the packet leaves each stripe with the record that
  -- the insert wrote.
  pub records-get :
      (after : ErasureStore N S) (name : N) (wire : List ℕ)
      → length wire < 2 ^ 32
      → length s.stripes ≡ s.erasure.n
      → after.erasure ≡ s.erasure
      → Outlast s.erasure 0 (records after name) (records (insert s name wire) name)
      → s.erasure.k ≤ length (good s.erasure 0 (records after name))
      → records (get after name).0 name ≡ records (insert s name wire) name
  records-get after name wire small whole same lost enough =
      let survive = survived s law ok after name wire small whole lost in
      let rebuilt = assemble-records s law ok after name wire small same survive enough in
      let written = written_of s law ok wire in
      let total =
        length-Survive s.erasure 0 (records after name) written survive
        ∙ length-written_of s law ok wire in
      let mended =
        Survive-Mended s.erasure (good s.erasure 0 (records after name)) 0
          (length (records after name)) (records after name) written (λ j le. refl) (omega arith)
          (omega (arith, total, ok.few_shards)) survive in
      let encoded : encode after.erasure wire ≡ some written =
        ap (λ e. encode e wire) same ∙ encode_lem s.erasure law wire ok in
      records_repaired after name wire
        (stale_from (good s.erasure 0 (records after name)) 0 (length (records after name))) written
        rebuilt encoded mended
      ∙ sym (records-insert s law ok name wire small whole)
