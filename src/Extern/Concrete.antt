-- ===== src/Extern/Concrete.antt =====
-- Concrete instances of the parameters, for the tests: a TLV of one octet each for the type and the
-- length, names and quotients as numbers.
use ndn_repo.Base.{
  ℕ, zero, suc, ◌+◌, ◌*◌, ◌/◌, ◌≡◌, ◌≤◌, ◌<◌, refl, ap, false, Option, none, some, List, [], ◌∷◌,
  ◌++◌, length, length-append, take, ltb, le→ltb, if◌then◌else◌, compare, arith, true, leb, ◌==◌,
}
use ndn_repo.Base.Order.{nat_ord}
use ndn_repo.Collections.HashMap.{
  HashMap, upsert, get as map_get, get-upsert, is_some, remove as map_remove, get-remove,
}
use ndn_repo.Extern.Names.{NameTree, NameText}
use ndn_repo.Wire.Words.{number_from}
use ndn_repo.Extern.Store.{DataStore, DataPacket, InterestPacket}
use ndn_repo.Extern.Float.{Float}
use ndn_repo.Extern.Tlv.{Tlv, NameCodec}

module _ {ℓ} {A : Type ℓ} where
  abbrev pub skip : ℕ → List A → List A
  skip zero xs = xs
  skip (suc n) [] = []
  skip (suc n) (x ∷ xs) = skip n xs

  pub length-skip : (n : ℕ) (xs : List A) → length (skip n xs) ≤ length xs
  length-skip zero xs = omega arith
  length-skip (suc n) [] = omega arith
  length-skip (suc n) (x ∷ xs) = omega (arith, length-skip n xs)

  skip-append : (xs ys : List A) → skip (length xs) (xs ++ ys) ≡ ys
  skip-append [] ys = refl
  skip-append (x ∷ xs) ys = skip-append xs ys

  take-append : (xs ys : List A) → take (length xs) (xs ++ ys) ≡ xs
  take-append [] ys = refl
  take-append (x ∷ xs) ys = ap (λ zs. x ∷ zs) (take-append xs ys)

abbrev pub write_short : ℕ → List ℕ → List ℕ
write_short typ value = typ ∷ (length value ∷ value)

abbrev pub read_short : List ℕ → Option (ℕ × List ℕ × List ℕ)
read_short [] = none
read_short (typ ∷ []) = none
read_short (typ ∷ (size ∷ bytes)) =
    if ltb (length bytes) size then none else some (typ, take size bytes, skip size bytes)

pub read_short-write :
    (typ : ℕ) (value rest : List ℕ)
    → read_short (write_short typ value ++ rest) ≡ some (typ, value, rest)
read_short-write typ value rest = rw (
  le→ltb (length (value ++ rest)) (length value) (omega (arith, length-append value rest)),
  take-append value rest,
  skip-append value rest,
)

pub read_short-shorter :
    (bytes : List ℕ) (typ : ℕ) (value rest : List ℕ)
    → read_short bytes ≡ some (typ, value, rest)
    → length rest < length bytes
read_short-shorter [] typ value rest e = cc
read_short-shorter (t ∷ []) typ value rest e = cc
read_short-shorter (t ∷ (size ∷ bytes)) typ value rest e = ground (arith, length-skip size bytes)

instance unfoldable pub short_tlv : Tlv
short_tlv = record {
  write_tlv = write_short;
  write_nested = write_short;
  read_tlv = read_short;
  nested_lem = λ typ body. refl;
  write_longer = λ typ value. omega arith;
  read_empty = refl;
  read_shorter = read_short-shorter;
  read_write = λ typ value rest lo hi fits. read_short-write typ value rest;
}

-- The name `n` is written as the one octet `n`.
abbrev pub read_octet : List ℕ → Option ℕ
read_octet [] = none
read_octet (n ∷ bytes) = some n

instance unfoldable pub octet_name : NameCodec ℕ
octet_name = record {
  encode_to_tlv = λ n. n ∷ [];
  decode_from_tlv = read_octet;
  decode_encode = λ n. refl;
}

instance unfoldable pub octet_text : NameText ℕ
octet_text = record {
  read_name = read_octet;
  write_name = λ n. n ∷ [];
  is_root = λ n. n == 0;
  read_write_name = λ n. refl;
}

-- Quotients in thousandths.
instance unfoldable pub thousandths : Float ℕ
thousandths = record {
  of_u64 = λ n. n * 1000;
  zero_f = 0;
  div = λ a b. a * 1000 / b;
  lt_f = ltb;
  partial_cmp = λ a b. some (compare a b);
  is_nan = λ a. false;
  key = λ a. a;
  cmp_key = λ a b ha hb. refl;
  zero_num = refl;
  div_num = λ a b h. refl;
}

-- A store as a list of names with their wires.
pub get_upsert_wire :
    (s : HashMap ℕ (List ℕ)) (n : ℕ) (wire : List ℕ) (m : ℕ)
    → map_get (upsert n wire (λ old. wire) s) m
      ≡ (if nat_ord.beq n m then some wire else map_get s m)
get_upsert_wire s n wire m = get-upsert n wire (λ old. wire) s m

abbrev pub first_under : HashMap ℕ (List ℕ) → ℕ → Option (List ℕ)
first_under [] prefix = none
first_under ((n, wire) ∷ s) prefix = if leb prefix n then some wire else first_under s prefix

abbrev pub add_row : ℕ → List ℕ → List (ℕ × List ℕ) → List (ℕ × List ℕ)
add_row n wire [] = (n, wire) ∷ []
add_row n wire ((m, other) ∷ rows) =
    let rest = add_row n wire rows in
    if ltb n m then (n, wire) ∷ (m, other) ∷ rows else (m, other) ∷ rest

abbrev pub rows_under : HashMap ℕ (List ℕ) → ℕ → List (ℕ × List ℕ)
rows_under [] prefix = []
rows_under ((n, wire) ∷ s) prefix =
    let rest = rows_under s prefix in if leb prefix n then add_row n wire rest else rest

abbrev pub scan_listed : HashMap ℕ (List ℕ) → ℕ → ℕ → List (ℕ × List ℕ)
scan_listed s prefix zero = rows_under s prefix
scan_listed s prefix (suc limit) = take (suc limit) (rows_under s prefix)

instance unfoldable pub listed_store : DataStore ℕ (HashMap ℕ (List ℕ))
listed_store = record {
  insert = λ s n wire. upsert n wire (λ old. wire) s;
  get = λ s n. map_get s n;
  get_insert = get_upsert_wire;
  contains = λ s n. is_some (map_get s n);
  contains_get = λ s n. refl;
  remove = λ s n. map_remove n s;
  find_under = first_under;
  scan_under = scan_listed;
  sync = λ s. true;
  get_remove = λ s n m. get-remove n s m;
}

abbrev pub read_packet : List ℕ → Option (ℕ × List ℕ)
read_packet [] = none
read_packet (n ∷ bytes) = some (n, bytes)

-- A packet is its wire, named by the first octet; a wire without octets is none.
instance unfoldable pub octet_packet : DataPacket ℕ
octet_packet = record {
  Data = ℕ × List ℕ;
  Validator = ℕ;
  decode_data = read_packet;
  name = λ d. d.0;
  content = λ d. some d.1;
  build = λ n body. n ∷ body;
  build_fresh = λ period n body. n ∷ body;
  built = λ n body. ((n, body), refl, refl, refl);
  verify = λ v d. true;
}

-- A name is a number, and its components its digits to the base 256.
above : (n : ℕ) (component : List ℕ) → n ≤ number_from n component
unfolding number_from
above n [] = omega arith
above n (b ∷ bytes) = omega (arith, above (n * 256 + b) bytes)

pub numbered_refl : (n : ℕ) → leb n n ≡ true
numbered_refl n = ground arith

pub numbered_append :
    (n p : ℕ) (component : List ℕ) → leb p n ≡ true → leb p (number_from n component) ≡ true
numbered_append n p component h = ground (arith, above n component)

instance unfoldable pub numbered_names : NameTree ℕ
numbered_names = record {
  append = λ n component. number_from n component;
  has_prefix = λ n p. leb p n;
  prefix_refl = numbered_refl;
  prefix_append = numbered_append;
}

abbrev pub read_interest : List ℕ → Option (ℕ × List ℕ)
read_interest (typ ∷ (n ∷ bytes)) = some (n, bytes)
read_interest bytes = none

-- An Interest is its type, its name and its parameters.
instance unfoldable pub octet_interest : InterestPacket ℕ
octet_interest = record {
  Interest = ℕ × List ℕ;
  decode_interest = read_interest;
  interest_name = λ i. i.0;
  app_parameters = λ i. some i.1;
  can_be_prefix = λ i. false;
}
