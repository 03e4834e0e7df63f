-- ===== src/Held/Text/Reopen.antt =====
-- crates/ndn-repo/src/held.rs: the erasure record is read back when a store is opened again.
use ndn_repo.Base.{
  ℕ, zero, suc, ◌+◌, ◌-◌, ◌*◌, ◌/◌, ◌%◌, ◌^◌, ◌≡◌, ◌≤◌, ◌<◌, inl, inr, refl, ap, ◌∙◌, sym, true,
  false, ◌&&◌, Option, none, some, List, [], ◌∷◌, ◌++◌, ltb, leb, ◌==◌, if◌then◌else◌, All, All-imp,
  All-append, length-append, arith, length, Bool-cases,
}
use mathlib.Core.List.{append-nil}
use native.Mathlib.Nat.{pow-suc}
use ndn_repo.Cluster.Object.{digits, decimal}
use ndn_repo.Held.Shards.{Erasure, new_erasure}
use ndn_repo.Held.Encoding.{IsErasure}
use ndn_repo.Held.Text.{
  mismatch, erasure_text, is_whitespace, trim_start, trim_end, trim, split_once, parse_digits,
  parse_unsigned, parse_u16, checked_new, from_str, same_parameters, open_record,
}

-- The codes of digits.
abbrev IsDigits : List ℕ → Type 0
IsDigits text = All (λ ch. (48 ≤ ch) × (ch < 58)) text

digits-IsDigits : (fuel v : ℕ) → IsDigits (digits fuel v)
unfolding digits
digits-IsDigits zero v = tt
digits-IsDigits (suc fuel) v = elim (Bool-cases (ltb v 10)) [
  | inl low ↦ rw (digits, low) ((omega arith, ground (arith, low)), tt)
  | inr high ↦
      rw (digits, high)
        (All-append _ (digits fuel (v / 10)) ((48 + v % 10) ∷ []) (digits-IsDigits fuel (v / 10))
          ((omega arith, omega arith), tt))
]

no_number : {w : ℕ} (r : Option ℕ) → r ≡ none → r ≡ some w → ⊥
no_number r bad read = cc

one_digit :
    (most v d w : ℕ)
    → d < 10
    → w ≡ v * 10 + d
    → w ≤ most
    → parse_digits most v ((48 + d) ∷ []) ≡ some w
unfolding parse_digits
one_digit most v d w low e small = ground arith

parse_digits-append :
    (most v : ℕ) (xs ys : List ℕ) (w : ℕ)
    → parse_digits most v xs ≡ some w
    → parse_digits most v (xs ++ ys) ≡ parse_digits most w ys
unfolding parse_digits
parse_digits-append most v [] ys w e = ground (arith, e)
parse_digits-append most v (x ∷ xs) ys w e =
    let fits = leb 48 x && (leb x 57 && leb (v * 10 + (x - 48)) most) in
    elim (Bool-cases fits) [
      | inl good ↦
          rw (parse_digits, good)
            (parse_digits-append most (v * 10 + (x - 48)) xs ys w
              (sym (rw (parse_digits, good) refl) ∙ e))
      | inr bad ↦ absurd (no_number (parse_digits most v (x ∷ xs)) (rw (parse_digits, bad) refl) e)
    ]

ltb-true : (a b : ℕ) → a < b → ltb a b ≡ true
ltb-true a b h = ground arith

parse_digits-digits :
    (most fuel v : ℕ)
    → v < 10 ^ fuel
    → v ≤ most
    → 1 ≤ fuel
    → parse_digits most 0 (digits fuel v) ≡ some v
unfolding digits parse_digits
parse_digits-digits most zero v lt small pos = absurd (omega arith)
parse_digits-digits most (suc zero) v lt small pos =
    rw (digits, ltb-true v 10 lt) (one_digit most 0 v v lt (omega arith) small)
parse_digits-digits most (suc (suc fuel)) v lt small pos = elim (Bool-cases (ltb v 10)) [
  | inl low ↦ rw (digits, low) (one_digit most 0 v v (ground (arith, low)) (omega arith) small)
  | inr high ↦
      rw (digits, high)
        (parse_digits-append most 0 (digits (suc fuel) (v / 10)) ((48 + v % 10) ∷ []) (v / 10) (
            parse_digits-digits most (suc fuel) (v / 10) (omega (arith, pow-suc 10 (suc fuel)))
              (omega arith) (omega arith))
          ∙ one_digit most (v / 10) (v % 10) v (omega arith) (omega arith) small)
]

digits_some : (fuel v : ℕ) → 1 ≤ length (digits (suc fuel) v)
unfolding digits
digits_some fuel v = elim (Bool-cases (ltb v 10)) [
  | inl low ↦ rw (digits, low) (omega arith)
  | inr high ↦
      rw (digits, high) (omega (arith, length-append (digits fuel (v / 10)) ((48 + v % 10) ∷ [])))
]

parse_unsigned-IsDigits :
    (most : ℕ) (text : List ℕ)
    → 1 ≤ length text
    → IsDigits text
    → parse_unsigned most text ≡ parse_digits most 0 text
unfolding parse_unsigned
parse_unsigned-IsDigits most [] long plain = absurd (omega arith)
parse_unsigned-IsDigits most (ch ∷ []) long ((lo, hi), plain) =
    let no_sign : (ch == 0x2b) ≡ false = ground arith in rw no_sign refl
parse_unsigned-IsDigits most (ch ∷ (next ∷ text)) long ((lo, hi), plain) =
    let no_sign : (ch == 0x2b) ≡ false = ground arith in rw no_sign refl

-- The digits of a number are read back.
pub parse_unsigned-digits :
    (most fuel v : ℕ)
    → v < 10 ^ suc fuel
    → v ≤ most
    → parse_unsigned most (digits (suc fuel) v) ≡ some v
parse_unsigned-digits most fuel v lt small =
    parse_unsigned-IsDigits most (digits (suc fuel) v) (digits_some fuel v)
      (digits-IsDigits (suc fuel) v)
    ∙ parse_digits-digits most (suc fuel) v lt small (omega arith)

parse_u16-decimal : (v : ℕ) → v ≤ 65535 → parse_u16 (decimal v) ≡ some v
unfolding decimal
parse_u16-decimal v small = parse_unsigned-digits 65535 4 v (omega arith) small

-- Text without white space, before a tail that is all white space.
abbrev IsPlain : List ℕ → Type 0
IsPlain text = All (λ ch. is_whitespace ch ≡ false) text

digit_plain : (ch : ℕ) → 48 ≤ ch → ch < 58 → is_whitespace ch ≡ false
unfolding is_whitespace
digit_plain ch lo hi = ground arith

IsDigits-IsPlain : (text : List ℕ) → IsDigits text → IsPlain text
IsDigits-IsPlain text plain = All-imp (λ ch h. digit_plain ch h.0 h.1) text plain

trim_end-IsPlain :
    (text tail : List ℕ) → IsPlain text → trim_end tail ≡ [] → trim_end (text ++ tail) ≡ text
unfolding trim_end
trim_end-IsPlain [] tail plain blank = blank
trim_end-IsPlain (ch ∷ text) tail (here, plain) blank =
    rw (here, trim_end-IsPlain text tail plain blank) refl

trim-IsPlain :
    (text tail : List ℕ)
    → IsPlain text
    → trim_start tail ≡ []
    → trim_end tail ≡ []
    → trim (text ++ tail) ≡ text
unfolding trim trim_start
trim-IsPlain [] tail plain start blank = rw start (unfold trim_end in refl)
trim-IsPlain (ch ∷ text) tail (here, plain) start blank =
    rw here (trim_end-IsPlain (ch ∷ text) tail (here, plain) blank)

split_once-IsDigits :
    (text rest : List ℕ) → IsDigits text → split_once (text ++ 0x2f ∷ rest) ≡ some (text, rest)
unfolding split_once
split_once-IsDigits [] rest plain = refl
split_once-IsDigits (ch ∷ text) rest ((lo, hi), plain) =
    let other : (ch == 0x2f) ≡ false = ground arith in
    rw (other, split_once-IsDigits text rest plain) refl

trim_whole : (text : List ℕ) → IsPlain text → trim text ≡ text
unfolding trim_start trim_end
trim_whole text plain = ap trim (sym (append-nil text)) ∙ trim-IsPlain text [] plain refl refl

decimal-IsDigits : (v : ℕ) → IsDigits (decimal v)
unfolding decimal
decimal-IsDigits v = digits-IsDigits 5 v

erasure_text-IsPlain : (e : Erasure) → IsPlain (erasure_text e)
unfolding erasure_text is_whitespace
erasure_text-IsPlain e =
    All-append _ (decimal e.k) (0x2f ∷ decimal e.n)
      (IsDigits-IsPlain (decimal e.k) (decimal-IsDigits e.k))
      (refl, IsDigits-IsPlain (decimal e.n) (decimal-IsDigits e.n))

new_erasure-again : (e : Erasure) → IsErasure e → new_erasure e.k e.n ≡ some e
unfolding new_erasure
new_erasure-again e ok = ground (arith, ok.some_sources, ok.enough_shards, ok.few_shards)

-- The text of an erasure is read back, before the end of a line as well.
pub from_str-erasure_text :
    (e : Erasure) (tail : List ℕ)
    → IsErasure e
    → trim_start tail ≡ []
    → trim_end tail ≡ []
    → from_str (erasure_text e ++ tail) ≡ inr e
unfolding from_str checked_new
from_str-erasure_text e tail ok start blank =
    let split : split_once (erasure_text e) ≡ some (decimal e.k, decimal e.n) =
      unfold erasure_text in
      split_once-IsDigits (decimal e.k) (decimal e.n) (decimal-IsDigits e.k) in
    rw
      (
        from_str,
        trim-IsPlain (erasure_text e) tail (erasure_text-IsPlain e) start blank,
        split,
        trim_whole (decimal e.k) (IsDigits-IsPlain (decimal e.k) (decimal-IsDigits e.k)),
        parse_u16-decimal e.k (omega (arith, ok.enough_shards, ok.few_shards)),
        trim_whole (decimal e.n) (IsDigits-IsPlain (decimal e.n) (decimal-IsDigits e.n)),
        parse_u16-decimal e.n (omega (arith, ok.few_shards)),
        checked_new,
        new_erasure-again e ok,
      )
      refl

-- A store that was opened for the first time, with parameters that `new` lets through, opens again with
-- the same parameters and leaves its record, and is refused with others, by an error that tells both.
pub open_record-again :
    (e asked : Erasure) (text : List ℕ)
    → IsErasure e
    → open_record none e ≡ inr text
    → open_record (some text) asked
      ≡ (if same_parameters e asked then inr text else inl (mismatch e asked))
unfolding open_record trim_start trim_end is_whitespace
open_record-again e asked text ok first =
    let written : text ≡ erasure_text e ++ 0x0a ∷ [] = cc in
    let read : from_str text ≡ inr e =
      ap from_str written ∙ from_str-erasure_text e (0x0a ∷ []) ok refl refl in
    rw (open_record, read) refl
