-- ===== src/Daemon/Custody.antt =====
-- crates/ndn-repo/src/bin/ndn-repo.rs, `hold`: the arguments of a custody holder, and the refusal of the
-- device's own namespace. A path is its text, an interval its milliseconds.
pub mod Consent
pub mod Words
mod Tests
use ndn_repo.Base.{
  ℕ, ◌+◌, ◌-◌, ◌*◌, ◌^◌, ◌⊎◌, inl, inr, Bool, true, false, not, ◌&&◌, ◌||◌, Option, none, some,
  List, [], ◌∷◌, ◌++◌, ltb, leb, ◌==◌, if◌then◌else◌,
}
use ndn_repo.Base.Order.{Ord}
use ndn_repo.Collections.Distinct.{contains}
use ndn_repo.Extern.Names.{NameText}
use ndn_repo.Held.Shards.{Erasure, default_erasure}
use ndn_repo.Held.Text.{from_str, parse_unsigned}
use ndn_repo.Daemon.{
  ArgError, usage, bad_name, bad_erasure, bad_interval, unknown, missing, same_text, Demand, switch,
  stop, value, read_args,
}
use ndn_repo.Daemon.Flags

abbrev pub parse_u64 : List ℕ → Option ℕ
parse_u64 text = parse_unsigned (2 ^ 64 - 1) text

-- The variables of `parse`.
pub record Draft (N : Type 0) : Type 0 where
  pub device : Option N
  pub pib : Option (List ℕ)
  pub store : Option (List ℕ)
  pub socket : List ℕ
  pub hold_for : List N
  pub in_namespace : Bool
  pub erasure : Erasure
  pub sync_interval : Option ℕ

pub record HoldArgs (N : Type 0) : Type 0 where
  pub device : N
  pub pib : List ℕ
  pub socket : List ℕ
  pub store : List ℕ
  pub hold_for : List N
  pub in_namespace : Bool
  pub erasure : Erasure
  pub sync_interval : Option ℕ

pub data Choice : Type 0 where
  device_choice : Choice
  pib_choice : Choice
  socket_choice : Choice
  store_choice : Choice
  hold_for_choice : Choice
  erasure_choice : Choice
  interval_choice : Choice

unfoldable pub choice_of : List ℕ → Demand Choice
choice_of arg =
    if same_text arg Flags.device_flag
    then value device_choice
    else if same_text arg Flags.pib_flag
    then value pib_choice
    else if same_text arg Flags.socket_flag
    then value socket_choice
    else if same_text arg Flags.store_flag
    then value store_choice
    else if same_text arg Flags.hold_for_flag
    then value hold_for_choice
    else if same_text arg Flags.in_namespace_flag
    then switch
    else if same_text arg Flags.erasure_flag
    then value erasure_choice
    else if same_text arg Flags.sync_interval_flag
    then value interval_choice
    else if same_text arg Flags.short_help || same_text arg Flags.help
    then stop usage
    else stop (unknown arg)

module _ {N : Type 0} where
  unfoldable pub accept_own : Draft N → Draft N
  accept_own d = record d { in_namespace = true }

  unfoldable pub draft : List ℕ → Draft N
  draft default_socket = record {
    device = none;
    pib = none;
    store = none;
    socket = default_socket;
    hold_for = [];
    in_namespace = false;
    erasure = default_erasure;
    sync_interval = none;
  }

  -- The end of `parse`, with the order of its complaints.
  unfoldable pub complete : Draft N → ArgError ⊎ HoldArgs N
  complete d = elim d.hold_for [
    | [] ↦ inl (missing Flags.hold_for_flag)
    | n ∷ ns ↦ elim d.device [
      | none ↦ inl (missing Flags.device_flag)
      | some device ↦ elim d.pib [
        | none ↦ inl (missing Flags.pib_flag)
        | some pib ↦ elim d.store [
          | none ↦ inl (missing Flags.store_flag)
          | some store ↦ inr (record {
            device = device;
            pib = pib;
            socket = d.socket;
            store = store;
            hold_for = n ∷ ns;
            in_namespace = d.in_namespace;
            erasure = d.erasure;
            sync_interval = d.sync_interval;
          })
        ]
      ]
    ]
  ]

module _ {N : Type 0} ⦃t : NameText N⦄ where
  unfoldable pub choose : Choice → List ℕ → Draft N → ArgError ⊎ Draft N
  choose device_choice v d = elim (t.read_name v) [
    | none ↦ inl (bad_name v)
    | some n ↦ inr (record d { device = some n })
  ]
  choose pib_choice v d = inr (record d { pib = some v })
  choose socket_choice v d = inr (record d { socket = v })
  choose store_choice v d = inr (record d { store = some v })
  choose hold_for_choice v d = elim (t.read_name v) [
    | none ↦ inl (bad_name v)
    | some n ↦ inr (record d { hold_for = d.hold_for ++ n ∷ [] })
  ]
  choose erasure_choice v d = elim (from_str v) [
    | inl e ↦ inl (bad_erasure e)
    | inr e ↦ inr (record d { erasure = e })
  ]
  choose interval_choice v d = elim (parse_u64 v) [
    | none ↦ inl (bad_interval v)
    | some ms ↦ inr (record d { sync_interval = some ms })
  ]

  unfoldable pub parse : List ℕ → List (List ℕ) → ArgError ⊎ HoldArgs N
  parse default_socket args =
      elim (read_args choice_of accept_own choose (draft default_socket) args) [
        | inl e ↦ inl e
        | inr d ↦ complete d
      ]

module _ {N : Type 0} ⦃o : Ord N⦄ ⦃t : NameText N⦄ where
  -- Whether `run` stops here, before it opens the store.
  unfoldable pub refuse_own_namespace : N → List N → Bool → Bool
  refuse_own_namespace own hold_for in_namespace =
      not (in_namespace || (t.is_root own || not (contains hold_for own)))
