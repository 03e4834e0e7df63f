-- ===== src/Held/Holder/Halves.antt =====
-- crates/ndn-repo/src/held.rs: `HolderStore` as the `DataStore` that it stands for.
use ndn_repo.Base.{
  ℕ, ◌≡◌, ◌<◌, ◌^◌, refl, true, false, none, some, List, length, arith, Bool-cases, if◌then◌else◌,
  inl, inr,
}
use ndn_repo.Base.Order.{Ord}
use ndn_repo.Extern.Coding.{Codec, IsCodec, Sha256}
use ndn_repo.Extern.Names.{NameTree}
use ndn_repo.Extern.Store.{DataStore}
use ndn_repo.Held.Encoding.{IsErasure}
use ndn_repo.Held.Contract.{get-insert_any, get-remove}
use ndn_repo.Held.Holder.{HolderStore, is_own, insert, get, remove}

module _ {N S : Type 0} ⦃n : NameTree N⦄ ⦃o : Ord N⦄ where
  -- An own name and a held one are two.
  apart :
      (s : HolderStore N S) (a b : N) → is_own s a ≡ true → is_own s b ≡ false → o.beq a b ≡ false
  apart s a b mine theirs = ground (arith, o.eq_of_beq a b, mine, theirs)

  apart_sym :
      (s : HolderStore N S) (a b : N) → is_own s a ≡ false → is_own s b ≡ true → o.beq a b ≡ false
  apart_sym s a b theirs mine = ground (arith, o.eq_of_beq a b, mine, theirs)

module _ {N S : Type 0} ⦃n : NameTree N⦄ ⦃o : Ord N⦄ ⦃t : DataStore N S⦄ ⦃c : Codec⦄
    ⦃h : Sha256⦄ where
  -- The device's store keeps what a data store promises, whether a name is its own or held for others: a
  -- packet of at most u32::MAX octets is there after its insert, and the others are as before.
  pub get-insert_split :
      (s : HolderStore N S) (law : IsCodec c s.held.erasure.k s.held.erasure.n)
      → IsErasure s.held.erasure
      → length s.held.stripes ≡ s.held.erasure.n
      → (name other : N) (wire : List ℕ) → length wire < 2 ^ 32
      → (get (insert s name wire) other).1
        ≡ (if o.beq name other then some wire else (get s other).1)
  unfolding get insert is_own
  get-insert_split s law ok whole name other wire small = elim (Bool-cases (is_own s name)) [
    | inl mine ↦ elim (Bool-cases (is_own s other)) [
      | inl also ↦ rw (get, insert, mine, also) (t.get_insert s.own name wire other)
      | inr theirs ↦ rw (get, insert, mine, theirs, apart s name other mine theirs) refl
    ]
    | inr held ↦ elim (Bool-cases (is_own s other)) [
      | inl also ↦ rw (get, insert, held, also, apart_sym s name other held also) refl
      | inr theirs ↦
          rw (get, insert, held, theirs) (get-insert_any s.held law ok name other wire small whole)
    ]
  ]

  -- A removed packet is gone, and the others stay.
  pub get-remove_split :
      (s : HolderStore N S) (name other : N)
      → (get (remove s name) other).1 ≡ (if o.beq name other then none else (get s other).1)
  unfolding get remove is_own
  get-remove_split s name other = elim (Bool-cases (is_own s name)) [
    | inl mine ↦ elim (Bool-cases (is_own s other)) [
      | inl also ↦ rw (get, remove, mine, also) (t.get_remove s.own name other)
      | inr theirs ↦ rw (get, remove, mine, theirs, apart s name other mine theirs) refl
    ]
    | inr held ↦ elim (Bool-cases (is_own s other)) [
      | inl also ↦ rw (get, remove, held, also, apart_sym s name other held also) refl
      | inr theirs ↦ rw (get, remove, held, theirs) (get-remove s.held name other)
    ]
  ]
