-- ===== src/Extern/Copies.antt =====
-- A codec and a digest for the tests: of one source shard every shard is a copy, and the digest of some
-- bytes is their length.
use ndn_repo.Base.{
  ℕ, zero, suc, ◌%◌, ◌≡◌, ◌≤◌, ◌<◌, refl, ap, ◌∙◌, true, Option, none, some, List, [], ◌∷◌, ◌++◌,
  length, arith, All, get_elem?, leb,
}
use ndn_repo.Extern.Coding.{Codec, IsCodec, Sha256}
use ndn_repo.Wire.Slices.{repeat, length-repeat}

abbrev first : List (List ℕ) → List ℕ
first [] = []
first (seg ∷ segs) = seg

abbrev first_of : List (List ℕ) → Option (List ℕ)
first_of [] = none
first_of (seg ∷ segs) = some seg

abbrev alone : List (List ℕ) → Option (List (List ℕ))
alone [] = none
alone (seg ∷ segs) = some (seg ∷ [])

-- Of one source shard, every shard is a copy.
instance abbrev pub copies : Codec
copies = record {
  Encoder = List (List ℕ);
  Decoder = List (List ℕ);
  enc_new = λ k n. some [];
  feed = λ enc seg. some (enc ++ seg ∷ []);
  parity = λ enc i. first_of enc;
  dec_new = λ k n. some [];
  absorb = λ d i body. (body ∷ d, true);
  is_complete = λ d. leb 1 (length d);
  recover = alone;
}

abbrev HoldsCopies : List (List ℕ) → List (List ℕ) → List ℕ → Type 0
HoldsCopies d segs held =
    (length segs ≡ 1) × (length d ≡ length held) × All (λ body. body ≡ first segs) d

one_segment : (segs : List (List ℕ)) → length segs ≡ 1 → first segs ∷ [] ≡ segs
one_segment [] h = absurd (omega arith)
one_segment (seg ∷ []) h = refl
one_segment (seg ∷ (other ∷ segs)) h = absurd (omega arith)

pub copies-IsCodec : IsCodec copies 1 3
copies-IsCodec = record {
  coded = λ segs i. first segs;
  Fed = λ enc segs. enc ≡ segs;
  Holds = HoldsCopies;
  coded_source = source;
  coded_length = sized;
  enc_new_lem = ([], refl, refl);
  feed_lem = λ enc segs seg fed short same. (enc ++ seg ∷ [], refl, ap (λ xs. xs ++ seg ∷ []) fed);
  parity_lem = check;
  dec_new_lem = λ segs one. ([], refl, (one, refl, tt));
  absorb_lem = λ d segs held i holds short new few.
      (refl, (holds.0, omega (arith, holds.1), (refl, holds.2)));
  complete_lem = λ d segs held holds. ap (leb 1) holds.1;
  recover_lem = back;
}
  where
    source :
        (segs : List (List ℕ)) (i : ℕ) (seg : List ℕ)
        → get_elem? segs i ≡ some seg
        → i < 1
        → first segs ≡ seg
    source [] i seg e lt = cc
    source (x ∷ segs) zero seg e lt = cc
    source (x ∷ segs) (suc i) seg e lt = absurd (omega arith)

    sized :
        (size : ℕ) (segs : List (List ℕ)) (i : ℕ)
        → length segs ≡ 1
        → All (λ seg. length seg ≡ size) segs
        → i < 3
        → length (first segs) ≡ size
    sized size [] i one same lt = absurd (omega arith)
    sized size (seg ∷ segs) i one same lt = same.0

    check :
        (enc segs : List (List ℕ)) (i : ℕ)
        → enc ≡ segs
        → length segs ≡ 1
        → 1 ≤ i
        → i < 3
        → first_of enc ≡ some (first segs)
    check enc [] i fed one lo hi = absurd (omega arith)
    check enc (seg ∷ segs) i fed one lo hi = ap first_of fed

    back :
        (d segs : List (List ℕ)) (held : List ℕ)
        → HoldsCopies d segs held
        → 1 ≤ length held
        → alone d ≡ some segs
    back [] segs held (one, same, all) some_held = absurd (omega arith)
    back (body ∷ d) segs held (one, same, (e, all)) some_held =
        ap (λ b. some (b ∷ [])) e ∙ ap (λ xs. some xs) (one_segment segs one)

-- A digest that tells the length.
instance unfoldable pub length_digest : Sha256
length_digest = record {
  sha256 = λ bytes. (length bytes % 256) ∷ repeat 0 31;
  length_sha256 = λ bytes. omega (arith, length-repeat {A = ℕ} 0 31);
}
