-- ===== src/Daemon/Custody/Consent.antt =====
-- crates/ndn-repo/src/bin/ndn-repo.rs, `hold`: what a holder that starts holds for.
use ndn_repo.Base.{
  ℕ, ◌≡◌, ◌≤◌, ◌⊎◌, inl, inr, refl, sym, ap, ◌∙◌, Bool, true, false, not, ◌&&◌, ◌||◌, List, [], ◌∷◌,
  leb, arith, length,
}
use ndn_repo.Base.Order.{Ord}
use ndn_repo.Collections.Distinct.{contains}
use ndn_repo.Extern.Names.{NameText}
use ndn_repo.Daemon.{ArgError, needs_value, same_text, Demand, switch, stop, value, read_args}
use ndn_repo.Daemon.Flags
use ndn_repo.Daemon.Custody.{
  Choice, device_choice, pib_choice, socket_choice, store_choice, hold_for_choice, erasure_choice,
  interval_choice, Draft, HoldArgs, choice_of, accept_own, draft, complete, choose, parse,
  refuse_own_namespace,
}

-- Whether a word is among the arguments.
unfoldable pub given : List ℕ → List (List ℕ) → Bool
given flag [] = false
given flag (arg ∷ args) = same_text arg flag || given flag args

switch_is_flag :
    (arg : List ℕ) → choice_of arg ≡ switch → same_text arg Flags.in_namespace_flag ≡ true
unfolding choice_of
switch_is_flag arg e = ground (arith, e)

Demand-cases :
    {F : Type 0} (x : Demand F)
    → (x ≡ switch) ⊎ (((e : ArgError) × (x ≡ stop e)) ⊎ ((f : F) × (x ≡ value f)))
Demand-cases switch = inl refl
Demand-cases (stop e) = inr (inl (e, refl))
Demand-cases (value f) = inr (inr (f, refl))

Result-cases :
    {S : Type 0} (r : ArgError ⊎ S) → ((e : ArgError) × (r ≡ inl e)) ⊎ ((s : S) × (r ≡ inr s))
Result-cases (inl e) = inl (e, refl)
Result-cases (inr s) = inr (s, refl)

module _ {N : Type 0} where
  -- The consent that a reading ends with, or `b` when it fails.
  abbrev consent : Bool → ArgError ⊎ Draft N → Bool
  consent b (inl e) = b
  consent b (inr d) = d.in_namespace

module _ {N : Type 0} ⦃t : NameText N⦄ where
  choose-in_namespace :
      (c : Choice) (v : List ℕ) (d : Draft N)
      → consent d.in_namespace (choose c v d) ≡ d.in_namespace
  unfolding choose
  choose-in_namespace device_choice v d = ground arith
  choose-in_namespace pib_choice v d = refl
  choose-in_namespace socket_choice v d = refl
  choose-in_namespace store_choice v d = refl
  choose-in_namespace hold_for_choice v d = ground arith
  choose-in_namespace erasure_choice v d = ground arith
  choose-in_namespace interval_choice v d = ground arith

  no_consent : (r : ArgError ⊎ Draft N) (e : ArgError) → r ≡ inl e → consent false r ≡ true → ⊥
  no_consent r e failed agreed = ground (arith, ap (consent false) failed, agreed)

  read_args-consent :
      (d : Draft N) (args : List (List ℕ))
      → consent false (read_args choice_of accept_own choose d args) ≡ true
      → (d.in_namespace || given Flags.in_namespace_flag args) ≡ true
  unfolding read_args given accept_own
  read_args-consent d [] e = ground (arith, e)
  read_args-consent d (arg ∷ []) e = elim (Demand-cases (choice_of arg)) [
    | inl on ↦ ground (arith, switch_is_flag arg on)
    | inr (inl end) ↦ absurd (
        no_consent (read_args choice_of accept_own choose d (arg ∷ [])) end.0
          (rw (read_args, end.1) refl) e)
    | inr (inr more) ↦ absurd (
        no_consent (read_args choice_of accept_own choose d (arg ∷ [])) (needs_value arg)
          (rw (read_args, more.1) refl) e)
  ]
  read_args-consent d (arg ∷ (v ∷ args)) e = elim (Demand-cases (choice_of arg)) [
    | inl on ↦ ground (arith, switch_is_flag arg on)
    | inr (inl end) ↦ absurd (
        no_consent (read_args choice_of accept_own choose d (arg ∷ (v ∷ args))) end.0
          (rw (read_args, end.1) refl) e)
    | inr (inr more) ↦ elim (Result-cases (choose more.0 v d)) [
      | inl failed ↦ absurd (
          no_consent (read_args choice_of accept_own choose d (arg ∷ (v ∷ args))) failed.0
            (rw (read_args, more.1, failed.1) refl) e)
      | inr went ↦
          let next : read_args choice_of accept_own choose d (arg ∷ (v ∷ args))
              ≡ read_args choice_of accept_own choose went.0 args =
            rw (read_args, more.1, went.1) refl in
          let kept : went.0.in_namespace ≡ d.in_namespace =
            ap (consent d.in_namespace) (sym went.1) ∙ choose-in_namespace more.0 v d in
          ground (arith, kept, read_args-consent went.0 args (ap (consent false) (sym next) ∙ e))
    ]
  ]

abbrev same_bool : Bool → Bool → Bool
same_bool true b = b
same_bool false b = not b

module _ {N : Type 0} where
  unread : (e : ArgError) (cli : HoldArgs N) → ¬ (inl e ≡ inr cli)
  unread e cli x = cc

  abbrev fair : Draft N → ArgError ⊎ HoldArgs N → Bool
  fair d (inl e) = true
  fair d (inr a) = leb 1 (length a.hold_for) && same_bool a.in_namespace d.in_namespace

  complete-fair : (d : Draft N) → fair d (complete d) ≡ true
  unfolding complete
  complete-fair d = ground arith

  complete_facts :
      (d : Draft N) (cli : HoldArgs N)
      → complete d ≡ inr cli
      → (1 ≤ length cli.hold_for) × (cli.in_namespace ≡ d.in_namespace)
  unfolding complete
  complete_facts d cli e = ground (arith, ap (fair d) e, complete-fair d)

module _ {N : Type 0} ⦃o : Ord N⦄ ⦃t : NameText N⦄ where
  -- A holder whose arguments are read and that goes past the refusal holds for some namespace, and for
  -- its own, unless that is the name without components, only when `--in-namespace` was given.
  pub refuse_own_namespace-parse :
      (default_socket : List ℕ) (args : List (List ℕ)) (cli : HoldArgs N) (own : N)
      → parse default_socket args ≡ inr cli
      → refuse_own_namespace own cli.hold_for cli.in_namespace ≡ false
      → (1 ≤ length cli.hold_for)
        × ((not (contains cli.hold_for own)
              || (t.is_root own || given Flags.in_namespace_flag args))
            ≡ true)
  unfolding parse refuse_own_namespace draft
  refuse_own_namespace-parse default_socket args cli own read passed =
      elim (Result-cases
        (read_args choice_of accept_own (choose {N = N}) (draft default_socket) args)) [
          | inl failed ↦ absurd (unread failed.0 cli (sym (rw (parse, failed.1) refl) ∙ read))
          | inr went ↦
              let facts = complete_facts went.0 cli (sym (rw (parse, went.1) refl) ∙ read) in
              let asked : went.0.in_namespace ≡ true → given Flags.in_namespace_flag args ≡ true =
                λ on.
                  read_args-consent (draft {N = N} default_socket) args
                    (ap (consent false) went.1 ∙ on) in
              (facts.0, ground (arith, passed, facts.1, asked))
        ]
