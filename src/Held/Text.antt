-- ===== src/Held/Text.antt =====
-- crates/ndn-repo/src/held.rs: the text of an `Erasure`, and the erasure record that `HolderStore::open`
-- checks. A string is the list of its characters' codes. Errors of the file system are not modelled.
pub mod Reopen
use ndn_repo.Base.{
  ℕ, zero, suc, ◌+◌, ◌-◌, ◌*◌, ◌/◌, ◌%◌, ◌^◌, ◌≡◌, ◌≤◌, ◌<◌, ◌⊎◌, inl, inr, refl, ap, ◌∙◌, sym,
  Bool, true, false, not, ◌&&◌, ◌||◌, Option, none, some, List, [], ◌∷◌, ◌++◌, ltb, leb, ◌==◌,
  if◌then◌else◌, All, All-append, arith, length, Bool-cases,
}
use mathlib.Core.List.{append-nil, append_assoc}
use native.Mathlib.Nat.{pow-suc}
use ndn_repo.Cluster.Object.{digits, decimal}
use ndn_repo.Held.Shards.{Erasure, new_erasure}
use ndn_repo.Held.Encoding.{IsErasure}

pub data HeldError : Type 0 where
  parameters : ℕ → ℕ → HeldError
  syntax : List ℕ → HeldError
  -- The parameters that the record holds, and those asked for.
  mismatch : Erasure → Erasure → HeldError
  bad_record : List ℕ → HeldError

-- `Display`.
unfoldable pub erasure_text : Erasure → List ℕ
erasure_text e = decimal e.k ++ 0x2f ∷ decimal e.n

-- `char::is_whitespace`.
unfoldable pub is_whitespace : ℕ → Bool
is_whitespace ch =
    (leb 9 ch && leb ch 13)
    || (ch == 0x20
        || (ch == 0x85
            || (ch == 0xa0
                || (ch == 0x1680
                    || ((leb 0x2000 ch && leb ch 0x200a)
                        || (ch == 0x2028
                            || (ch == 0x2029
                                || (ch == 0x202f || (ch == 0x205f || ch == 0x3000)))))))))

unfoldable pub trim_start : List ℕ → List ℕ
trim_start [] = []
trim_start (ch ∷ text) = let rest = trim_start text in if is_whitespace ch then rest else ch ∷ text

abbrev pub is_empty : List ℕ → Bool
is_empty [] = true
is_empty (ch ∷ text) = false

unfoldable pub trim_end : List ℕ → List ℕ
trim_end [] = []
trim_end (ch ∷ text) =
    let rest = trim_end text in if is_whitespace ch && is_empty rest then [] else ch ∷ rest

unfoldable pub trim : List ℕ → List ℕ
trim text = trim_end (trim_start text)

-- What stands before and after the first '/'.
unfoldable pub split_once : List ℕ → Option (List ℕ × List ℕ)
split_once [] = none
split_once (ch ∷ text) =
    let rest = split_once text in
    if ch == 0x2f
    then some ([], text)
    else elim rest [ none ↦ none | some parts ↦ some (ch ∷ parts.0, parts.1) ]

-- The digits of an unsigned number of at most `most`, after those that make `v`.
unfoldable pub parse_digits : ℕ → ℕ → List ℕ → Option ℕ
parse_digits most v [] = some v
parse_digits most v (ch ∷ text) =
    let rest = parse_digits most (v * 10 + (ch - 48)) text in
    if leb 48 ch && (leb ch 57 && leb (v * 10 + (ch - 48)) most) then rest else none

-- `from_str` of an unsigned number, which takes a leading '+'.
unfoldable pub parse_unsigned : ℕ → List ℕ → Option ℕ
parse_unsigned most [] = none
parse_unsigned most (ch ∷ []) = if ch == 0x2b then none else parse_digits most 0 (ch ∷ [])
parse_unsigned most (ch ∷ (next ∷ text)) =
    if ch == 0x2b
    then parse_digits most 0 (next ∷ text)
    else parse_digits most 0 (ch ∷ (next ∷ text))

abbrev pub parse_u16 : List ℕ → Option ℕ
parse_u16 text = parse_unsigned 65535 text

-- `new`, with its error.
unfoldable pub checked_new : ℕ → ℕ → HeldError ⊎ Erasure
checked_new k n = elim (new_erasure k n) [ none ↦ inl (parameters k n) | some e ↦ inr e ]

unfoldable pub from_str : List ℕ → HeldError ⊎ Erasure
from_str text = elim (split_once (trim text)) [
  | none ↦ inl (syntax text)
  | some parts ↦ elim (parse_u16 (trim parts.0)) [
    | none ↦ inl (syntax text)
    | some k ↦ elim (parse_u16 (trim parts.1)) [
      | none ↦ inl (syntax text)
      | some n ↦ checked_new k n
    ]
  ]
]

abbrev pub same_parameters : Erasure → Erasure → Bool
same_parameters a b = a.k == b.k && a.n == b.n

-- The record after `open` with some parameters, if it goes on to the stores: `none` for no record yet.
unfoldable pub open_record : Option (List ℕ) → Erasure → HeldError ⊎ List ℕ
open_record none asked = inr (erasure_text asked ++ 0x0a ∷ [])
open_record (some text) asked = elim (from_str text) [
  | inl e ↦ inl (bad_record text)
  | inr stored ↦ if same_parameters stored asked then inr text else inl (mismatch stored asked)
]
