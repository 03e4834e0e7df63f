-- ===== src/Repo/Ingest/Acks.antt =====
-- crates/ndn-repo/src/ingest.rs: what the loop acknowledges.
use ndn_repo.Base.{
  ℕ, zero, suc, ◌+◌, ◌-◌, ◌≡◌, ◌≤◌, ◌⊎◌, refl, ap, Bool, true, false, List, [], ◌∷◌, All,
  All-append, All-imp, arith, inl, inr, Bool-cases,
}
use mathlib.Core.Path.{subst}
use ndn_repo.Extern.Sync.{SvSync, SyncUpdate}
use ndn_repo.Repo.Ingest.{
  Event, update, closed, cancelled, Ack, ack_of, present, ingest_from, ingest_update, ingest_group,
}

-- The acknowledgements of some sequence numbers in a row.
unfoldable pub in_row : {N : Type 0} → SyncUpdate N → ℕ → ℕ → List (Ack N)
in_row u seq zero = []
in_row u seq (suc count) = ack_of u seq ∷ in_row u (suc seq) count

module _ {N W : Type 0} ⦃v : SvSync N W⦄ where
  -- The store holds the acknowledged publication.
  abbrev pub Stored : N → W → Ack N → Type 0
  Stored group w a = v.found_under w (v.svs_data_name a.name group a.seq) ≡ true

  -- Of an update, the numbers from `seq` up to the first publication that the store does not hold.
  abbrev pub UpToHole : N → SyncUpdate N → ℕ → ℕ → W → List (Ack N) → Type 0
  UpToHole group u seq total w acks =
      (a : ℕ) × (acks ≡ in_row u seq a)
      × (a ≤ total)
      × ((a ≡ total) ⊎ (present group u w (seq + a) ≡ false))

  ingest_from-UpToHole :
      (group : N) (u : SyncUpdate N) (seq count : ℕ) (w : W)
      → UpToHole group u seq count
          (ingest_from true group u seq count w).0
          (ingest_from true group u seq count w).1
  unfolding ingest_from in_row
  ingest_from-UpToHole group u seq zero w = (0, refl, omega arith, inl refl)
  ingest_from-UpToHole group u seq (suc count) w =
      let w' = (v.ingest_publication w u.name seq).0 in
      elim (Bool-cases (present group u w' seq)) [
        | inl here ↦
            let (a, row, few, ended) =
              ingest_from-UpToHole group u (suc seq) count (v.ack w' u.publisher seq) in
            rw here (
              suc a,
              ap (λ xs. ack_of u seq ∷ xs) row,
              omega arith,
              elim ended [
                | inl all ↦ inl (omega arith)
                | inr hole ↦
                    let same : suc seq + a ≡ seq + suc a = omega arith in
                    inr (
                      subst
                        (λ i.
                          present group u
                            (ingest_from true group u (suc seq) count (v.ack w' u.publisher seq)).0
                            i
                          ≡ false)
                        same hole)
              ],
            )
        | inr hole ↦
            rw hole
              (0, refl, omega arith, inr (let same : seq + 0 ≡ seq = omega arith in rw (same) hole))
      ]

  -- In the two-phase mode an update's publications are acknowledged in a row from its first, and the row
  -- ends with the update or before a publication that the store does not hold.
  pub ingest_update-UpToHole :
      (group : N) (u : SyncUpdate N) (w : W)
      → let (after, acks) = ingest_update true group u w in
        UpToHole group u u.low_seq (suc u.high_seq - u.low_seq) after acks
  unfolding ingest_update
  ingest_update-UpToHole group u w = ingest_from-UpToHole group u u.low_seq _ w

  ingest_from-found :
      (two_phase : Bool) (group : N) (u : SyncUpdate N) (seq count : ℕ) (w : W) (other : N)
      → v.found_under w other ≡ true
      → v.found_under (ingest_from two_phase group u seq count w).0 other ≡ true
  unfolding ingest_from
  ingest_from-found two_phase group u seq zero w other h = h
  ingest_from-found two_phase group u seq (suc count) w other h =
      let w' = (v.ingest_publication w u.name seq).0 in
      let kept = v.ingest_keeps w u.name seq other h in
      ground (
        arith,
        kept,
        ingest_from-found two_phase group u (suc seq) count w' other kept,
        ingest_from-found two_phase group u (suc seq) count (v.ack w' u.publisher seq) other
            (v.ack_keeps w' u.publisher seq other kept),
      )

  ingest_from-Stored :
      (two_phase : Bool) (group : N) (u : SyncUpdate N) (seq count : ℕ) (w : W)
      → All
          (Stored group (ingest_from two_phase group u seq count w).0)
          (ingest_from two_phase group u seq count w).1
  unfolding ingest_from present ack_of
  ingest_from-Stored two_phase group u seq zero w = tt
  ingest_from-Stored false group u seq (suc count) w =
      ingest_from-Stored false group u (suc seq) count (v.ingest_publication w u.name seq).0
  ingest_from-Stored true group u seq (suc count) w =
      let w' = (v.ingest_publication w u.name seq).0 in
      elim (Bool-cases (v.found_under w' (v.svs_data_name u.name group seq))) [
        | inl here ↦ rw here (
          ingest_from-found true group u (suc seq) count (v.ack w' u.publisher seq) _
              (v.ack_keeps w' u.publisher seq _ here),
          ingest_from-Stored true group u (suc seq) count (v.ack w' u.publisher seq),
        )
        | inr hole ↦ rw hole tt
      ]

  ingest_group-found :
      (two_phase : Bool) (group : N) (events : List (Event N)) (w : W) (other : N)
      → v.found_under w other ≡ true
      → v.found_under (ingest_group two_phase group events w).0 other ≡ true
  unfolding ingest_group ingest_update
  ingest_group-found two_phase group [] w other h = h
  ingest_group-found two_phase group (closed ∷ events) w other h = h
  ingest_group-found two_phase group (cancelled ∷ events) w other h = h
  ingest_group-found two_phase group (update u ∷ events) w other h =
      ingest_group-found two_phase group events _ other
        (ingest_from-found two_phase group u u.low_seq _ w other h)

  -- Whatever the updates and the replies, each publication that a run of the loop acknowledged is in the
  -- store at its end; the calls of the library take nothing from the store.
  pub ingest_group-Stored :
      (two_phase : Bool) (group : N) (events : List (Event N)) (w : W)
      → let (after, acks) = ingest_group two_phase group events w in All (Stored group after) acks
  unfolding ingest_group ingest_update
  ingest_group-Stored two_phase group [] w = tt
  ingest_group-Stored two_phase group (closed ∷ events) w = tt
  ingest_group-Stored two_phase group (cancelled ∷ events) w = tt
  ingest_group-Stored two_phase group (update u ∷ events) w =
      let (after, acks) = ingest_from two_phase group u u.low_seq (suc u.high_seq - u.low_seq) w in
      All-append _ acks (ingest_group two_phase group events after).1
        (All-imp (λ a h. ingest_group-found two_phase group events after _ h) acks
          (ingest_from-Stored two_phase group u u.low_seq (suc u.high_seq - u.low_seq) w))
        (ingest_group-Stored two_phase group events after)
