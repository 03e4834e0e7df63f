-- ===== src/Daemon.antt =====
-- crates/ndn-repo/src/bin/ndn-repo.rs: the arguments of the daemon and of its holder mode, and the guard
-- of a device's own namespace. A word is the list of its characters' codes. What `-h` prints, the start
-- of the services and the wait for a signal are not modelled.
pub mod Flags
pub mod Custody
pub mod Words
mod Tests
use ndn_repo.Base.{
  ℕ, ◌⊎◌, inl, inr, Bool, true, false, ◌&&◌, ◌||◌, none, some, List, [], ◌∷◌, ◌++◌, ◌==◌,
  if◌then◌else◌,
}
use ndn_repo.Extern.Names.{NameText}
use ndn_repo.Held.Text.{HeldError}
use ndn_repo.Daemon.Flags

-- The errors, and the end of the process after the usage.
pub data ArgError : Type 0 where
  usage : ArgError
  needs_value : List ℕ → ArgError
  bad_name : List ℕ → ArgError
  bad_erasure : HeldError → ArgError
  bad_interval : List ℕ → ArgError
  unknown : List ℕ → ArgError
  missing : List ℕ → ArgError

unfoldable pub same_text : List ℕ → List ℕ → Bool
same_text [] [] = true
same_text [] (ch ∷ text) = false
same_text (ch ∷ text) [] = false
same_text (ch ∷ text) (next ∷ rest) = ch == next && same_text text rest

-- What an argument asks for: nothing more, an end, or the next word as the value of `F`.
pub data Demand (F : Type 0) : Type 0 where
  switch : Demand F
  stop : ArgError → Demand F
  value : F → Demand F

-- The loop of both modes.
module _ {S F : Type 0} (demand : List ℕ → Demand F) (turn_on : S → S)
    (assign : F → List ℕ → S → ArgError ⊎ S) where
  unfoldable pub read_args : S → List (List ℕ) → ArgError ⊎ S
  read_args s [] = inr s
  read_args s (arg ∷ []) = elim (demand arg) [
    | switch ↦ inr (turn_on s)
    | stop e ↦ inl e
    | value f ↦ inl (needs_value arg)
  ]
  read_args s (arg ∷ (v ∷ args)) = elim (demand arg) [
    | switch ↦ read_args (turn_on s) (v ∷ args)
    | stop e ↦ inl e
    | value f ↦ elim (assign f v s) [ inl e ↦ inl e | inr next ↦ read_args next args ]
  ]

-- The arguments of the repository, `N` their prefix: its text until the end of the loop.
pub record Args (P N : Type 0) : Type 0 where
  pub socket : List ℕ
  pub prefix : P
  pub store_dir : List ℕ
  pub groups : List N

pub data Field : Type 0 where
  socket_field : Field
  prefix_field : Field
  store_field : Field
  group_field : Field

unfoldable pub field_of : List ℕ → Demand Field
field_of arg =
    if same_text arg Flags.socket_flag
    then value socket_field
    else if same_text arg Flags.prefix_flag
    then value prefix_field
    else if same_text arg Flags.store_flag
    then value store_field
    else if same_text arg Flags.group_flag
    then value group_field
    else if same_text arg Flags.short_help || same_text arg Flags.help
    then stop usage
    else stop (unknown arg)

module _ {N : Type 0} ⦃t : NameText N⦄ where
  unfoldable pub set_field : Field → List ℕ → Args (List ℕ) N → ArgError ⊎ Args (List ℕ) N
  set_field socket_field v a = inr (record a { socket = v })
  set_field prefix_field v a = inr (record a { prefix = v })
  set_field store_field v a = inr (record a { store_dir = v })
  set_field group_field v a = elim (t.read_name v) [
    | none ↦ inl (bad_name v)
    | some g ↦ inr (record a { groups = a.groups ++ g ∷ [] })
  ]

  unfoldable pub with_prefix : Args (List ℕ) N → ArgError ⊎ Args N N
  with_prefix a = elim (t.read_name a.prefix) [
    | none ↦ inl (bad_name a.prefix)
    | some p ↦
        inr (record { socket = a.socket; prefix = p; store_dir = a.store_dir; groups = a.groups })
  ]

  unfoldable pub parse_args : List ℕ → List (List ℕ) → ArgError ⊎ Args N N
  parse_args default_socket args =
      elim (read_args field_of (λ a. a) set_field
        (record {
          socket = default_socket;
          prefix = Flags.default_prefix;
          store_dir = Flags.default_store;
          groups = [];
        })
        args) [ inl e ↦ inl e | inr a ↦ with_prefix a ]
