-- ===== src/Daemon/Custody/Tests.antt =====
-- crates/ndn-repo/src/bin/ndn-repo.rs, `hold`: a holder that accepts to hold for its own namespace.
use ndn_repo.Base.{
  ℕ, ◌≡◌, ◌≤◌, inl, inr, refl, not, ◌||◌, true, false, some, [], ◌∷◌, length, arith,
}
use ndn_repo.Base.Order.{nat_ord, nat_beq}
use ndn_repo.Collections.Distinct.{contains}
use ndn_repo.Extern.Concrete.{octet_text}
use ndn_repo.Held.Encoding.{IsErasure}
use ndn_repo.Daemon.{missing, same_text, read_args}
use ndn_repo.Daemon.Flags
use ndn_repo.Daemon.Custody.{
  HoldArgs, choice_of, choose, draft, complete, parse, refuse_own_namespace,
}
use ndn_repo.Daemon.Custody.Consent.{given, refuse_own_namespace-parse}
use ndn_repo.Daemon.Custody.Words.{words, parse-words}

-- The device 5 holds for the namespaces 7 and 8, of which 7 is its own.
abbrev insider : HoldArgs ℕ
insider = record {
  device = 5;
  pib = 1 ∷ [];
  socket = 2 ∷ [];
  store = 3 ∷ [];
  hold_for = 7 ∷ (8 ∷ []);
  in_namespace = true;
  erasure = record { k = 2; n = 3 };
  sync_interval = some 1500;
}

erasure-IsErasure : IsErasure insider.erasure
erasure-IsErasure = record {
  some_sources = omega arith;
  enough_shards = omega arith;
  few_shards = omega arith;
}

insider_read : parse [] (words insider) ≡ inr insider
insider_read = parse-words [] insider (omega arith) erasure-IsErasure (omega arith)

parse-words_example : parse [] (words insider) ≡ inr insider
parse-words_example = parse-words [] insider (omega arith) erasure-IsErasure (omega arith)

accepted : refuse_own_namespace 7 insider.hold_for insider.in_namespace ≡ false
unfolding refuse_own_namespace
accepted = refl

unaccepted : refuse_own_namespace 7 insider.hold_for false ≡ true
unfolding refuse_own_namespace contains nat_ord nat_beq octet_text
unaccepted = refl

nothing_held :
    parse {N = ℕ} [] (Flags.device_flag ∷ ((5 ∷ []) ∷ [])) ≡ inl (missing Flags.hold_for_flag)
unfolding parse read_args choice_of same_text choose draft complete octet_text
nothing_held = refl

refuse_own_namespace-parse_example :
    (1 ≤ length insider.hold_for)
    × ((not (contains insider.hold_for 7)
          || (octet_text.is_root 7 || given Flags.in_namespace_flag (words insider)))
        ≡ true)
refuse_own_namespace-parse_example =
    refuse_own_namespace-parse [] (words insider) insider 7 insider_read accepted
