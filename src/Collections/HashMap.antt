-- ===== src/Collections/HashMap.antt =====
-- `HashMap` as an association list. The order of the list stands for the order of iteration,
-- which the standard library does not specify.
use ndn_repo.Base.{
  ◌≡◌, refl, Bool, true, false, not, ◌||◌, List, [], ◌∷◌, arith, Option, none, some, keep, All,
  if◌then◌else◌,
}
use ndn_repo.Base.Order.{Ord}
use ndn_repo.Collections.Distinct.{contains, Distinct}

abbrev pub is_some {ℓ} : {A : Type ℓ} → Option A → Bool
is_some none = false
is_some (some _) = true

abbrev pub unwrap_or {ℓ} : {A : Type ℓ} → Option A → A → A
unwrap_or none d = d
unwrap_or (some a) d = a

abbrev pub HashMap {ℓ κ} : Type ℓ → Type κ → Type (ℓ ⊔ κ)
HashMap K V = List (K × V)

module _ {ℓ κ} {K : Type ℓ} {V : Type κ} where
  unfoldable pub keys : HashMap K V → List K
  keys [] = []
  keys ((j, v) ∷ m) = j ∷ keys m

module _ {ℓ κ} {K : Type ℓ} {V : Type κ} ⦃o : Ord K⦄ where
  unfoldable pub get : HashMap K V → K → Option V
  get [] k = none
  get ((j, v) ∷ m) k = if o.beq j k then some v else get m k

  -- `entry(k).or_insert(d)`, with the change then made to the entry.
  unfoldable pub upsert : K → V → (V → V) → HashMap K V → HashMap K V
  upsert k d f [] = (k, f d) ∷ []
  upsert k d f ((j, v) ∷ m) =
      let rest = upsert k d f m in if o.beq j k then (j, f v) ∷ m else (j, v) ∷ rest

  -- The change is made through `get_mut`, if the key is there.
  unfoldable pub modify : K → (V → V) → HashMap K V → HashMap K V
  modify k f [] = []
  modify k f ((j, v) ∷ m) =
      let rest = modify k f m in if o.beq j k then (j, f v) ∷ m else (j, v) ∷ rest

  unfoldable pub remove : K → HashMap K V → HashMap K V
  remove k [] = []
  remove k ((j, v) ∷ m) = let rest = remove k m in if o.beq j k then rest else (j, v) ∷ rest

  abbrev pub contains_key : HashMap K V → K → Bool
  contains_key m k = is_some (get m k)

  -- The invariant of the type: one entry for a key.
  abbrev pub IsMap : HashMap K V → Type 0
  IsMap m = Distinct (keys m)

  -- One content, whatever the order of iteration.
  abbrev pub SameEntries : HashMap K V → HashMap K V → Type (ℓ ⊔ κ)
  SameEntries m n = (k : K) → get m k ≡ get n k

  pub contains-keys : (m : HashMap K V) (k : K) → contains (keys m) k ≡ contains_key m k
  unfolding contains keys get
  contains-keys [] k = refl
  contains-keys ((j, v) ∷ m) k = ground (arith, contains-keys m k)

  pub get-upsert :
      (k : K) (d : V) (f : V → V) (m : HashMap K V) (j : K)
      → get (upsert k d f m) j ≡ (if o.beq k j then some (f (unwrap_or (get m k) d)) else get m j)
  unfolding get upsert
  get-upsert k d f [] j = refl
  get-upsert k d f ((i, w) ∷ m) j =
      ground (
        arith,
        get-upsert k d f m j,
        o.eq_of_beq i k,
        o.eq_of_beq i j,
        o.eq_of_beq k j,
        o.beq_refl k,
      )

  pub get-modify :
      (k : K) (f : V → V) (m : HashMap K V) (j : K)
      → get (modify k f m) j
        ≡ (if o.beq k j then elim (get m k) [ none ↦ none | some v ↦ some (f v) ] else get m j)
  unfolding get modify
  get-modify k f [] j = ground arith
  get-modify k f ((i, w) ∷ m) j =
      ground
        (arith, get-modify k f m j, o.eq_of_beq i k, o.eq_of_beq i j, o.eq_of_beq k j, o.beq_refl k)

  pub get-remove :
      (k : K) (m : HashMap K V) (j : K) → get (remove k m) j ≡ (if o.beq k j then none else get m j)
  unfolding get remove
  get-remove k [] j = ground arith
  get-remove k ((i, w) ∷ m) j =
      ground (arith, get-remove k m j, o.eq_of_beq i k, o.eq_of_beq i j, o.eq_of_beq k j)

  contains-keys-upsert :
      (k : K) (d : V) (f : V → V) (m : HashMap K V) (j : K)
      → contains (keys (upsert k d f m)) j ≡ (o.beq k j || contains (keys m) j)
  unfolding contains keys upsert
  contains-keys-upsert k d f [] j = refl
  contains-keys-upsert k d f ((i, w) ∷ m) j =
      ground (arith, contains-keys-upsert k d f m j, o.eq_of_beq i k)

  pub upsert-IsMap :
      (k : K) (d : V) (f : V → V) (m : HashMap K V) → IsMap m → IsMap (upsert k d f m)
  unfolding keys upsert contains
  upsert-IsMap k d f [] h = (refl, tt)
  upsert-IsMap k d f ((i, w) ∷ m) h = ground (
    arith,
    upsert-IsMap k d f m h.1,
    contains-keys-upsert k d f m i,
    o.eq_of_beq k i,
    o.beq_refl i,
  )

  pub keys-modify : (k : K) (f : V → V) (m : HashMap K V) → keys (modify k f m) ≡ keys m
  unfolding keys modify
  keys-modify k f [] = refl
  keys-modify k f ((i, w) ∷ m) = ground (arith, keys-modify k f m)

  pub keys-remove :
      (k : K) (m : HashMap K V) → keys (remove k m) ≡ keep (λ j. not (o.beq j k)) (keys m)
  unfolding keys remove keep
  keys-remove k [] = refl
  keys-remove k ((i, w) ∷ m) = ground (arith, keys-remove k m)

  -- Every entry of a map is what `get` finds.
  entries_under :
      (full : K → Option V) (m : HashMap K V)
      → ((k : K) (v : V) → get m k ≡ some v → full k ≡ some v)
      → IsMap m
      → All (λ (e : K × V). full e.0 ≡ some e.1) m
  unfolding get keys
  entries_under full [] h d = tt
  entries_under full ((j, w) ∷ m) h d = (
    h j w (ground (arith, o.beq_refl j)),
    entries_under full m (λ k v e. h k v (ground (arith, o.eq_of_beq j k, contains-keys m j))) d.1,
  )

  pub entries-get : (m : HashMap K V) → IsMap m → All (λ (e : K × V). get m e.0 ≡ some e.1) m
  entries-get m d = entries_under (get m) m (λ k v e. e) d
