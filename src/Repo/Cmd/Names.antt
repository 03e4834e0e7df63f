-- ===== src/Repo/Cmd/Names.antt =====
-- crates/ndn-repo/src/tlv.rs: the reading of an optional name container.
use mathlib.Core.List.{append-nil}
use ndn_repo.Base.{ℕ, ◌≡◌, ◌≤◌, ◌<◌, sym, ap, ◌∙◌, Option, none, some, List, [], ◌++◌}
use ndn_repo.Extern.Tlv.{Tlv, NameCodec, IsAddressable}
use ndn_repo.Wire.Fields.{read_fields, read_fields-write, read_fields-nil, IsAddressable-value}
use ndn_repo.Repo.Cmd.{name_container_opt}

module _ {N : Type 0} ⦃w : Tlv⦄ ⦃c : NameCodec N⦄ {S : Type 0}
    (step : ℕ → List ℕ → S → Option S) where
  -- `step` takes a name container from `s` to `s'`, or nothing happens and they are one.
  abbrev pub Takes : ℕ → Option N → S → S → Type 0
  Takes typ none s s' = s ≡ s'
  Takes typ (some n) s s' = step typ (c.encode_to_tlv n) s ≡ some s'

  pub read_fields-name :
      (typ : ℕ) (n : Option N) (rest : List ℕ) (s s' : S)
      → 1 ≤ typ
      → typ < 65536
      → IsAddressable (name_container_opt typ n)
      → Takes typ n s s'
      → read_fields step (name_container_opt typ n ++ rest) s ≡ read_fields step rest s'
  unfolding name_container_opt
  read_fields-name typ none rest s s' lo hi fits h = ap (read_fields step rest) h
  read_fields-name typ (some n) rest s s' lo hi fits h =
      rw (w.nested_lem typ (c.encode_to_tlv n))
        (read_fields-write step typ (c.encode_to_tlv n) rest s lo hi (value fits) ∙ rw h)
    where
      value :
          IsAddressable (w.write_nested typ (c.encode_to_tlv n)) → IsAddressable (c.encode_to_tlv n)
      value f = IsAddressable-value typ (c.encode_to_tlv n) (rw w.nested_lem at f)

  pub read_fields-name_last :
      (typ : ℕ) (n : Option N) (s s' : S)
      → 1 ≤ typ
      → typ < 65536
      → IsAddressable (name_container_opt typ n)
      → Takes typ n s s'
      → read_fields step (name_container_opt typ n) s ≡ some s'
  read_fields-name_last typ n s s' lo hi fits h =
      ap (λ xs. read_fields step xs s) (sym (append-nil (name_container_opt typ n)))
      ∙ read_fields-name typ n [] s s' lo hi fits h
      ∙ read_fields-nil step s'
