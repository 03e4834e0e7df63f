-- ===== src/Wire/Fields.antt =====
-- crates/ndn-repo/src/tlv.rs and crates/ndn-repo-cluster/src/msg.rs: the loops that read the
-- fields of a value one TLV after the other.
use mathlib.Core.List.{append-nil}
use ndn_repo.Base.{
  ℕ, zero, suc, ◌≤◌, ◌<◌, ◌≡◌, refl, sym, ap, ◌∙◌, List, [], ◌∷◌, ◌++◌, length, length-append,
  Option, none, some, arith, inl, inr, Option-cases,
}
use ndn_repo.Extern.Tlv.{Tlv, IsAddressable}

infixl 5 ◌>>=◌
abbrev pub ◌>>=◌ {ℓ κ} : {A : Type ℓ} {B : Type κ} → Option A → (A → Option B) → Option B
none >>= k = none
some a >>= k = k a

module _ ⦃w : Tlv⦄ {S : Type 0} where
  -- `while !r.is_empty() { let (typ, val) = r.read_tlv().ok()?; .. }`, where the body may also
  -- return `None`. The fuel is the length of the value: each TLV takes an octet at least.
  unfoldable pub fields_loop : (ℕ → List ℕ → S → Option S) → ℕ → List ℕ → S → Option S
  fields_loop step fuel [] s = some s
  fields_loop step zero (b ∷ bytes) s = none
  fields_loop step (suc fuel) (b ∷ bytes) s = do
    (typ, value, rest) ← w.read_tlv (b ∷ bytes)
    s' ← step typ value s
    fields_loop step fuel rest s'

  unfoldable pub read_fields : (ℕ → List ℕ → S → Option S) → List ℕ → S → Option S
  read_fields step bytes s = fields_loop step (length bytes) bytes s

  -- `while let Ok((typ, val)) = r.read_tlv() { ..; if r.is_empty() { break; } }`, with that fuel.
  unfoldable pub lenient_loop : (ℕ → List ℕ → S → S) → ℕ → List ℕ → S → S
  lenient_loop step zero bytes s = s
  lenient_loop step (suc fuel) bytes s = elim (w.read_tlv bytes) [
    | none ↦ s
    | some (typ, value, rest) ↦ elim rest [
      | [] ↦ step typ value s
      | b ∷ more ↦ lenient_loop step fuel (b ∷ more) (step typ value s)
    ]
  ]

  unfoldable pub read_lenient : (ℕ → List ℕ → S → S) → List ℕ → S → S
  read_lenient step bytes s = lenient_loop step (length bytes) bytes s

  -- More fuel than the value is long changes nothing.
  fields_loop_fuel :
      (step : ℕ → List ℕ → S → Option S) (fuel more : ℕ) (bytes : List ℕ) (s : S)
      → length bytes ≤ fuel
      → length bytes ≤ more
      → fields_loop step fuel bytes s ≡ fields_loop step more bytes s
  unfolding fields_loop
  fields_loop_fuel step fuel more [] s h k = refl
  fields_loop_fuel step zero more (b ∷ bytes) s h k = absurd (omega arith)
  fields_loop_fuel step (suc fuel) zero (b ∷ bytes) s h k = absurd (omega arith)
  fields_loop_fuel step (suc fuel) (suc more) (b ∷ bytes) s h k =
      elim (Option-cases (w.read_tlv (b ∷ bytes))) [
        | inl e ↦ rw e
        | inr ((typ, value, rest), e) ↦
            let shorter = w.read_shorter (b ∷ bytes) typ value rest e in
            elim (Option-cases (step typ value s)) [
              | inl p ↦ rw (e, p)
              | inr (s', p) ↦
                  rw (e, p) (fields_loop_fuel step fuel more rest s' (omega arith) (omega arith))
            ]
      ]

  one_field :
      (step : ℕ → List ℕ → S → Option S) (fuel : ℕ) (bytes : List ℕ) (s : S) (typ : ℕ)
      (value rest : List ℕ)
      → w.read_tlv bytes ≡ some (typ, value, rest)
      → length bytes ≤ fuel
      → fields_loop step fuel bytes s ≡ (step typ value s >>= read_fields step rest)
  unfolding fields_loop read_fields
  one_field step fuel [] s typ value rest e h = cc (w.read_empty)
  one_field step zero (b ∷ bytes) s typ value rest e h = absurd (omega arith)
  one_field step (suc fuel) (b ∷ bytes) s typ value rest e h =
      let shorter = w.read_shorter (b ∷ bytes) typ value rest e in
      elim (Option-cases (step typ value s)) [
        | inl p ↦ rw (e, p)
        | inr (s', p) ↦
            rw (e, p) (fields_loop_fuel step fuel (length rest) rest s' (omega arith) (omega arith))
      ]

  -- A TLV that was written first is read first, and the loop goes on with what follows.
  pub read_fields-write :
      (step : ℕ → List ℕ → S → Option S) (typ : ℕ) (value rest : List ℕ) (s : S)
      → 1 ≤ typ
      → typ < 65536
      → IsAddressable value
      → read_fields step (w.write_tlv typ value ++ rest) s
        ≡ (step typ value s >>= read_fields step rest)
  unfolding read_fields
  read_fields-write step typ value rest s lo hi fits =
      one_field step _ (w.write_tlv typ value ++ rest) s typ value rest
        (w.read_write typ value rest lo hi fits) (omega arith)

  pub read_fields-nil : (step : ℕ → List ℕ → S → Option S) (s : S) → read_fields step [] s ≡ some s
  unfolding read_fields fields_loop
  read_fields-nil step s = refl

  pub read_lenient-nil : (step : ℕ → List ℕ → S → S) (s : S) → read_lenient step [] s ≡ s
  unfolding read_lenient lenient_loop
  read_lenient-nil step s = refl

  lenient_loop_fuel :
      (step : ℕ → List ℕ → S → S) (fuel more : ℕ) (bytes : List ℕ) (s : S)
      → length bytes ≤ fuel
      → length bytes ≤ more
      → lenient_loop step fuel bytes s ≡ lenient_loop step more bytes s
  unfolding lenient_loop
  lenient_loop_fuel step zero zero bytes s h k = refl
  lenient_loop_fuel step zero (suc more) [] s h k = rw (w.read_empty, lenient_loop)
  lenient_loop_fuel step zero (suc more) (b ∷ bytes) s h k = absurd (omega arith)
  lenient_loop_fuel step (suc fuel) zero [] s h k = rw (w.read_empty, lenient_loop)
  lenient_loop_fuel step (suc fuel) zero (b ∷ bytes) s h k = absurd (omega arith)
  lenient_loop_fuel step (suc fuel) (suc more) bytes s h k =
      elim (Option-cases (w.read_tlv bytes)) [
        | inl e ↦ rw (e, lenient_loop)
        | inr ((typ, value, []), e) ↦ rw (e, lenient_loop)
        | inr ((typ, value, b ∷ rest), e) ↦
            let shorter = w.read_shorter bytes typ value (b ∷ rest) e in
            rw (e, lenient_loop)
              (lenient_loop_fuel step fuel more (b ∷ rest) (step typ value s) (omega arith)
                (omega arith))
      ]

  one_lenient :
      (step : ℕ → List ℕ → S → S) (fuel : ℕ) (bytes : List ℕ) (s : S) (typ : ℕ)
      (value rest : List ℕ)
      → w.read_tlv bytes ≡ some (typ, value, rest)
      → length bytes ≤ fuel
      → lenient_loop step fuel bytes s ≡ read_lenient step rest (step typ value s)
  unfolding lenient_loop read_lenient
  one_lenient step fuel [] s typ value rest e h = cc (w.read_empty)
  one_lenient step zero (b ∷ bytes) s typ value rest e h = absurd (omega arith)
  one_lenient step (suc fuel) (b ∷ bytes) s typ value [] e h = rw (e, lenient_loop)
  one_lenient step (suc fuel) (b ∷ bytes) s typ value (c ∷ rest) e h =
      let shorter = w.read_shorter (b ∷ bytes) typ value (c ∷ rest) e in
      rw (e, lenient_loop)
        (lenient_loop_fuel step fuel (length (c ∷ rest)) (c ∷ rest) (step typ value s) (omega arith)
          (omega arith))

  pub read_lenient-write :
      (step : ℕ → List ℕ → S → S) (typ : ℕ) (value rest : List ℕ) (s : S)
      → 1 ≤ typ
      → typ < 65536
      → IsAddressable value
      → read_lenient step (w.write_tlv typ value ++ rest) s
        ≡ read_lenient step rest (step typ value s)
  unfolding read_lenient
  read_lenient-write step typ value rest s lo hi fits =
      one_lenient step _ (w.write_tlv typ value ++ rest) s typ value rest
        (w.read_write typ value rest lo hi fits) (omega arith)

pub IsAddressable-left : (xs ys : List ℕ) → IsAddressable (xs ++ ys) → IsAddressable xs
IsAddressable-left xs ys h = omega (arith, length-append xs ys)

pub IsAddressable-right : (xs ys : List ℕ) → IsAddressable (xs ++ ys) → IsAddressable ys
IsAddressable-right xs ys h = omega (arith, length-append xs ys)

pub IsAddressable-value :
    ⦃w : Tlv⦄ (typ : ℕ) (value : List ℕ)
    → IsAddressable (w.write_tlv typ value)
    → IsAddressable value
IsAddressable-value ⦃w⦄ typ value h = omega (arith, w.write_longer typ value)

module _ ⦃w : Tlv⦄ where
  pub IsAddressable-body :
      (typ : ℕ) (body : List ℕ) → IsAddressable (w.write_nested typ body) → IsAddressable body
  IsAddressable-body typ body h = IsAddressable-value typ body (rw w.nested_lem at h)

  pub read_nested :
      (typ : ℕ) (body : List ℕ)
      → 1 ≤ typ
      → typ < 65536
      → IsAddressable (w.write_nested typ body)
      → w.read_tlv (w.write_nested typ body) ≡ some (typ, body, [])
  read_nested typ body lo hi fits =
      ap (λ xs. w.read_tlv xs) (w.nested_lem typ body ∙ sym (append-nil (w.write_tlv typ body)))
      ∙ w.read_write typ body [] lo hi (IsAddressable-body typ body fits)
