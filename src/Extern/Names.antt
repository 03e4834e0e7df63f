-- ===== src/Extern/Names.antt =====
-- `ndn_packet::Name` as a sequence of components: `append` and `has_prefix`; a component is its octets.
use ndn_repo.Base.{ℕ, ◌≡◌, Bool, true, Option, some, List}

pub record NameTree (N : Type 0) : Type 0 where
  pub append : N → List ℕ → N
  pub has_prefix : N → N → Bool
  pub prefix_refl : (n : N) → has_prefix n n ≡ true
  pub prefix_append :
      (n p : N) (component : List ℕ)
      → has_prefix n p ≡ true
      → has_prefix (append n component) p ≡ true

-- `FromStr` and `Display` of a name, and the name without components. A name that was written is read.
pub record NameText (N : Type 0) : Type 0 where
  pub read_name : List ℕ → Option N
  pub write_name : N → List ℕ
  pub is_root : N → Bool
  pub read_write_name : (n : N) → read_name (write_name n) ≡ some n
