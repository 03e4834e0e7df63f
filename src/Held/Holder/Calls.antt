-- ===== src/Held/Holder/Calls.antt =====
-- crates/ndn-repo/src/held.rs: the calls that write to a `HolderStore`, in sequence.
use ndn_repo.Base.{
  ℕ, ◌≡◌, ◌<◌, ◌^◌, refl, ap, ◌∙◌, sym, Option, none, some, List, [], ◌∷◌, length, All, Bool-cases,
  if◌then◌else◌, inl, inr,
}
use mathlib.Core.Path.{subst}
use ndn_repo.Base.Order.{Ord}
use ndn_repo.Extern.Coding.{Codec, IsCodec, Sha256}
use ndn_repo.Extern.Names.{NameTree}
use ndn_repo.Extern.Store.{DataStore}
use ndn_repo.Held.Encoding.{IsErasure}
use ndn_repo.Held.Contract.{insert_erasure, length-insert, length-remove}
use ndn_repo.Held.Shards.{Erasure}
use ndn_repo.Held.Holder.{HolderStore, is_own, insert, get, remove}
use ndn_repo.Held.Holder.Halves.{get-insert_split, get-remove_split}

-- A call that writes.
pub data Call (N : Type 0) : Type 0 where
  insert_call : N → List ℕ → Call N
  remove_call : N → Call N

module _ {N : Type 0} ⦃o : Ord N⦄ where
  -- What a map of names to wires gives after some calls.
  unfoldable pub promised : List (Call N) → (N → Option (List ℕ)) → N → Option (List ℕ)
  promised [] m other = m other
  promised (insert_call name wire ∷ calls) m other =
      promised calls (λ a. if o.beq name a then some wire else m a) other
  promised (remove_call name ∷ calls) m other =
      promised calls (λ a. if o.beq name a then none else m a) other

-- The wires have at most u32::MAX octets.
abbrev pub IsCodable : {N : Type 0} → Call N → Type 0
IsCodable (insert_call name wire) = length wire < 2 ^ 32
IsCodable (remove_call name) = Unit

module _ {N S : Type 0} ⦃n : NameTree N⦄ ⦃o : Ord N⦄ ⦃t : DataStore N S⦄ ⦃c : Codec⦄
    ⦃h : Sha256⦄ where
  unfoldable pub receive : List (Call N) → HolderStore N S → HolderStore N S
  receive [] s = s
  receive (insert_call name wire ∷ calls) s = receive calls (insert s name wire)
  receive (remove_call name ∷ calls) s = receive calls (remove s name)

  -- The parameters of a store and the number of its stripes.
  pub record IsHolder (s : HolderStore N S) (e : Erasure) : Type 0 where
    pub same_erasure : s.held.erasure ≡ e
    pub all_stripes : length s.held.stripes ≡ e.n

  insert-IsHolder :
      (s : HolderStore N S) (e : Erasure) (name : N) (wire : List ℕ)
      → IsHolder s e
      → IsHolder (insert s name wire) e
  unfolding insert
  insert-IsHolder s e name wire ok = elim (Bool-cases (is_own s name)) [
    | inl mine ↦
        rw (insert, mine) (record { same_erasure = ok.same_erasure; all_stripes = ok.all_stripes })
    | inr held ↦
        rw (insert, held)
          (record {
            same_erasure = insert_erasure s.held name wire ∙ ok.same_erasure;
            all_stripes = length-insert s.held name wire ∙ ok.all_stripes;
          })
  ]

  remove-IsHolder :
      (s : HolderStore N S) (e : Erasure) (name : N) → IsHolder s e → IsHolder (remove s name) e
  unfolding remove
  remove-IsHolder s e name ok = elim (Bool-cases (is_own s name)) [
    | inl mine ↦
        rw (remove, mine) (record { same_erasure = ok.same_erasure; all_stripes = ok.all_stripes })
    | inr held ↦
        let (same, count) = length-remove s.held name in
        rw (remove, held)
          (record { same_erasure = same ∙ ok.same_erasure; all_stripes = count ∙ ok.all_stripes })
  ]

  -- Reading after calls.
  get-receive_from :
      (calls : List (Call N)) (s : HolderStore N S) (e : Erasure) (law : IsCodec c e.k e.n)
      (m : N → Option (List ℕ)) (other : N)
      → IsErasure e
      → IsHolder s e
      → All IsCodable calls
      → ((a : N) → (get s a).1 ≡ m a)
      → (get (receive calls s) other).1 ≡ promised calls m other
  unfolding receive promised
  get-receive_from [] s e law m other fine ok small same = same other
  get-receive_from (insert_call name wire ∷ calls) s e law m other fine ok (here, small) same =
      get-receive_from calls (insert s name wire) e law
        (λ a. if o.beq name a then some wire else m a) other fine (insert-IsHolder s e name wire ok)
        small
        (λ a.
          get-insert_split s (subst (λ x. IsCodec c x.k x.n) (sym ok.same_erasure) law)
            (subst IsErasure (sym ok.same_erasure) fine)
            (ok.all_stripes ∙ ap (λ x. x.n) (sym ok.same_erasure)) name a wire here
          ∙ ap (λ r. if o.beq name a then some wire else r) (same a))
  get-receive_from (remove_call name ∷ calls) s e law m other fine ok (here, small) same =
      get-receive_from calls (remove s name) e law (λ a. if o.beq name a then none else m a) other
        fine (remove-IsHolder s e name ok) small
        (λ a. get-remove_split s name a ∙ ap (λ r. if o.beq name a then none else r) (same a))

  -- After any inserts, of wires of at most u32::MAX octets, and any removes, a store of n stripes gives for
  -- each name, its own or held for others, what was last inserted under it and not removed since, or what
  -- it gave before.
  pub get-receive :
      (s : HolderStore N S) (e : Erasure) (law : IsCodec c e.k e.n) (calls : List (Call N))
      (name : N)
      → IsErasure e
      → IsHolder s e
      → All IsCodable calls
      → (get (receive calls s) name).1 ≡ promised calls (λ a. (get s a).1) name
  get-receive s e law calls name fine ok small =
      get-receive_from calls s e law (λ a. (get s a).1) name fine ok small (λ a. refl)
