-- ===== src/Held/Losses.antt =====
-- crates/ndn-repo/src/held.rs: an `ErasureStore` after stripes were lost or damaged.
use ndn_repo.Base.{
  ℕ, suc, ◌-◌, ◌≡◌, ◌≤◌, ◌<◌, ◌^◌, ◌⊎◌, refl, ap, ◌∙◌, Option, none, some, List, [], ◌∷◌, map,
  length, arith, le→ltb,
}
use mathlib.Core.Path.{subst}
use ndn_repo.Base.Order.{Ord}
use ndn_repo.Wire.Fields.{◌>>=◌}
use ndn_repo.Extern.Coding.{Codec, IsCodec, Sha256}
use ndn_repo.Extern.Store.{DataStore}
use ndn_repo.Held.Shards.{Erasure, shard_size, read_shard}
use ndn_repo.Held.Segments.{sources}
use ndn_repo.Held.Encoding.{
  IsErasure, records_of, coded_from, length-coded_from, length-records_of, encode_lem,
}
use ndn_repo.Held.Rebuild.{good, Survive, assemble-encode}
use ndn_repo.Held.Stripes.{
  ErasureStore, stale_from, assemble, records, insert_each, insert, rebuild, get,
}

module _ ⦃h : Sha256⦄ where
  -- Each stripe still gives the record that it gave before, or nothing that passes for a shard.
  abbrev pub Outlast : Erasure → ℕ → List (Option (List ℕ)) → List (Option (List ℕ)) → Type 0
  Outlast e i [] [] = Unit
  Outlast e i [] (w ∷ ws) = ⊥
  Outlast e i (r ∷ rs) [] = ⊥
  Outlast e i (r ∷ rs) (w ∷ ws) =
      (((r >>= λ bytes. read_shard e i bytes) ≡ none) ⊎ (r ≡ w)) × Outlast e (suc i) rs ws

  pub Outlast-Survive :
      (e : Erasure) (i : ℕ) (rs : List (Option (List ℕ))) (written : List (List ℕ))
      → Outlast e i rs (map (λ x. some x) written)
      → Survive e i rs written
  Outlast-Survive e i [] [] s = tt
  Outlast-Survive e i [] (x ∷ xs) s = absurd s
  Outlast-Survive e i (r ∷ rs) [] s = absurd s
  Outlast-Survive e i (r ∷ rs) (x ∷ xs) (here, s) = (here, Outlast-Survive e (suc i) rs xs s)

module _ {N S : Type 0} ⦃o : Ord N⦄ ⦃t : DataStore N S⦄ where
  pub records-insert_each :
      (stripes : List S) (name : N) (written : List (List ℕ))
      → length stripes ≡ length written
      → map (λ stripe. t.get stripe name) (insert_each stripes name written)
        ≡ map (λ x. some x) written
  unfolding insert_each
  records-insert_each [] name [] same = refl
  records-insert_each [] name (x ∷ xs) same = absurd (omega arith)
  records-insert_each (stripe ∷ stripes) name [] same = absurd (omega arith)
  records-insert_each (stripe ∷ stripes) name (x ∷ xs) same = rw (
    t.get_insert stripe name x name,
    o.beq_refl name,
    records-insert_each stripes name xs (omega arith),
  )

module _ {N S : Type 0} ⦃o : Ord N⦄ ⦃t : DataStore N S⦄ ⦃c : Codec⦄ ⦃h : Sha256⦄ where
  module _ (s : ErasureStore N S) (law : IsCodec c s.erasure.k s.erasure.n)
      (ok : IsErasure s.erasure) where
    -- The records that the insert of a wire writes.
    abbrev pub written_of : List ℕ → List (List ℕ)
    written_of wire = records_of wire 0 (
        coded_from s.erasure law (sources wire (shard_size s.erasure (length wire)) 0 s.erasure.k) 0
          s.erasure.n)

    pub length-written_of : (wire : List ℕ) → length (written_of wire) ≡ s.erasure.n
    length-written_of wire =
        length-records_of wire 0 _ ∙ length-coded_from s.erasure law _ 0 s.erasure.n

    pub records-insert :
        (name : N) (wire : List ℕ)
        → length wire < 2 ^ 32
        → length s.stripes ≡ s.erasure.n
        → records (insert s name wire) name ≡ map (λ x. some x) (written_of wire)
    unfolding records insert
    records-insert name wire small whole =
        rw (le→ltb (2 ^ 32 - 1) (length wire) (omega arith), encode_lem s.erasure law wire ok)
          (records-insert_each s.stripes name (written_of wire)
            (omega (arith, whole, length-written_of wire)))

    -- What the stripes give after the losses is put together to the wire.
    pub assemble-records :
        (after : ErasureStore N S) (name : N) (wire : List ℕ)
        → length wire < 2 ^ 32
        → after.erasure ≡ s.erasure
        → Survive s.erasure 0 (records after name) (written_of wire)
        → s.erasure.k ≤ length (good s.erasure 0 (records after name))
        → assemble after.erasure (records after name)
          ≡ some (record {
            wire = wire;
            stale =
                stale_from (good s.erasure 0 (records after name)) 0 (length (records after name));
          })
    assemble-records after name wire small same lost enough =
        ap (λ x. assemble x (records after name)) same
        ∙ assemble-encode s.erasure law ok wire small (written_of wire) (records after name)
            (encode_lem s.erasure law wire ok) lost enough

    pub survived :
        (after : ErasureStore N S) (name : N) (wire : List ℕ)
        → length wire < 2 ^ 32
        → length s.stripes ≡ s.erasure.n
        → Outlast s.erasure 0 (records after name) (records (insert s name wire) name)
        → Survive s.erasure 0 (records after name) (written_of wire)
    survived after name wire small whole lost =
        Outlast-Survive s.erasure 0 (records after name) (written_of wire) (
          subst (Outlast s.erasure 0 (records after name)) (records-insert name wire small whole)
            lost)

    -- After the insert of a packet of at most u32::MAX octets, and after any loss of stripes or
    -- damage to them that leaves good shards in k of them, the store still gives the packet.
    pub get-insert :
        (after : ErasureStore N S) (name : N) (wire : List ℕ)
        → length wire < 2 ^ 32
        → length s.stripes ≡ s.erasure.n
        → after.erasure ≡ s.erasure
        → Outlast s.erasure 0 (records after name) (records (insert s name wire) name)
        → s.erasure.k ≤ length (good s.erasure 0 (records after name))
        → (get after name).1 ≡ some wire
    unfolding get rebuild
    get-insert after name wire small whole same lost enough =
        let rebuilt =
          assemble-records after name wire small same (survived after name wire small whole lost)
            enough in
        rw (get, rebuild, rebuilt)
