-- ===== src/Daemon/Custody/Words.antt =====
-- crates/ndn-repo/src/bin/ndn-repo.rs, `hold`: a command line that spells out some arguments is read as them.
use ndn_repo.Base.{
  ℕ, ◌-◌, ◌^◌, ◌≡◌, ◌≤◌, ◌<◌, inr, refl, sym, ap, ◌∙◌, Bool, true, false, Option, none, some, List,
  [], ◌∷◌, ◌++◌, arith, length,
}
use mathlib.Core.List.{append-nil, append_assoc}
use ndn_repo.Cluster.Object.{digits}
use ndn_repo.Extern.Names.{NameText}
use ndn_repo.Held.Shards.{Erasure}
use ndn_repo.Held.Encoding.{IsErasure}
use ndn_repo.Held.Text.{erasure_text, from_str, trim_start, trim_end}
use ndn_repo.Held.Text.Reopen.{from_str-erasure_text, parse_unsigned-digits}
use ndn_repo.Daemon.{same_text, read_args}
use ndn_repo.Daemon.Flags
use ndn_repo.Daemon.Words.{read_value}
use ndn_repo.Daemon.Custody.{
  parse_u64, device_choice, erasure_choice, hold_for_choice, interval_choice, Draft, HoldArgs,
  choice_of, accept_own, draft, complete, choose, parse,
}

from_str-alone : (e : Erasure) → IsErasure e → from_str (erasure_text e) ≡ inr e
unfolding trim_start trim_end
from_str-alone e ok =
    ap from_str (sym (append-nil (erasure_text e))) ∙ from_str-erasure_text e [] ok refl refl

-- The milliseconds of an interval fit in 64 bits.
abbrev pub IsInterval : Option ℕ → Type 0
IsInterval none = Unit
IsInterval (some ms) = ms < 2 ^ 64

unfoldable pub interval_words : Option ℕ → List (List ℕ)
interval_words none = []
interval_words (some ms) = Flags.sync_interval_flag ∷ (digits 20 ms ∷ [])

unfoldable pub consent_words : Bool → List (List ℕ)
consent_words false = []
consent_words true = Flags.in_namespace_flag ∷ []

module _ {N : Type 0} ⦃t : NameText N⦄ where
  unfoldable pub hold_for_words : List N → List (List ℕ)
  hold_for_words [] = []
  hold_for_words (n ∷ ns) = Flags.hold_for_flag ∷ (t.write_name n ∷ hold_for_words ns)

  -- The words that spell out the arguments.
  unfoldable pub words : HoldArgs N → List (List ℕ)
  words a =
      Flags.device_flag
      ∷ (t.write_name a.device
          ∷ (Flags.pib_flag
              ∷ (a.pib
                  ∷ (Flags.socket_flag
                      ∷ (a.socket
                          ∷ (Flags.store_flag
                              ∷ (a.store
                                  ∷ (Flags.erasure_flag
                                      ∷ (erasure_text a.erasure
                                          ∷ (interval_words a.sync_interval
                                              ++ (consent_words a.in_namespace
                                                  ++ hold_for_words a.hold_for)))))))))))

  read_hold_for :
      (d : Draft N) (ns : List N)
      → read_args choice_of accept_own choose d (hold_for_words ns)
        ≡ inr (record d { hold_for = d.hold_for ++ ns })
  unfolding hold_for_words read_args choice_of same_text choose
  read_hold_for d [] = rw (append-nil d.hold_for) refl
  read_hold_for d (n ∷ ns) =
      read_value choice_of accept_own choose d (record d { hold_for = d.hold_for ++ n ∷ [] })
        Flags.hold_for_flag (t.write_name n) (hold_for_words ns) hold_for_choice refl
        (rw (choose, t.read_write_name n) refl)
      ∙ (read_hold_for (record d { hold_for = d.hold_for ++ n ∷ [] }) ns
          ∙ ap (λ ms. inr (record d { hold_for = ms })) (append_assoc d.hold_for (n ∷ []) ns))

  read_consent :
      (d : Draft N) (accepted : Bool) (ns : List N)
      → read_args choice_of accept_own choose
          (record d { in_namespace = false; hold_for = [] })
          (consent_words accepted ++ hold_for_words ns)
        ≡ inr (record d { in_namespace = accepted; hold_for = ns })
  unfolding consent_words read_args choice_of same_text accept_own hold_for_words
  read_consent d false ns = read_hold_for (record d { in_namespace = false; hold_for = [] }) ns
  read_consent d true [] = refl
  read_consent d true (n ∷ ns) =
      read_hold_for (record d { in_namespace = true; hold_for = [] }) (n ∷ ns)

  read_interval :
      (d : Draft N) (interval : Option ℕ) (accepted : Bool) (ns : List N)
      → IsInterval interval
      → read_args choice_of accept_own choose
          (record d { in_namespace = false; hold_for = []; sync_interval = none })
          (interval_words interval ++ (consent_words accepted ++ hold_for_words ns))
        ≡ inr (record d { in_namespace = accepted; hold_for = ns; sync_interval = interval })
  unfolding interval_words read_args choice_of same_text choose
  read_interval d none accepted ns fits =
      read_consent (record d { sync_interval = none }) accepted ns
  read_interval d (some ms) accepted ns fits =
      let read : parse_u64 (digits 20 ms) ≡ some ms =
        parse_unsigned-digits (2 ^ 64 - 1) 19 ms (omega arith) (omega arith) in
      read_value choice_of accept_own choose
        (record d { in_namespace = false; hold_for = []; sync_interval = none })
        (record d { in_namespace = false; hold_for = []; sync_interval = some ms })
        Flags.sync_interval_flag (digits 20 ms) (consent_words accepted ++ hold_for_words ns)
        interval_choice refl (rw (choose, read) refl)
      ∙ read_consent (record d { sync_interval = some ms }) accepted ns

  -- The variables of `parse` for some arguments.
  abbrev drafted : HoldArgs N → Draft N
  drafted a = record {
    device = some a.device;
    pib = some a.pib;
    store = some a.store;
    socket = a.socket;
    hold_for = a.hold_for;
    in_namespace = a.in_namespace;
    erasure = a.erasure;
    sync_interval = a.sync_interval;
  }

  read_words :
      (default_socket : List ℕ) (a : HoldArgs N)
      → IsErasure a.erasure
      → IsInterval a.sync_interval
      → read_args choice_of accept_own choose (draft default_socket) (words a) ≡ inr (drafted a)
  unfolding words draft choice_of same_text choose read_args
  read_words default_socket a ok fits =
      let named : Draft N = record (draft default_socket) { device = some a.device } in
      let placed : Draft N = record named {
        pib = some a.pib;
        socket = a.socket;
        store = some a.store;
      } in
      let tail : List (List ℕ) =
        interval_words a.sync_interval
        ++ (consent_words a.in_namespace ++ hold_for_words a.hold_for) in
      let coded : List (List ℕ) = Flags.erasure_flag ∷ (erasure_text a.erasure ∷ tail) in
      read_value choice_of accept_own choose (draft default_socket) named Flags.device_flag
        (t.write_name a.device)
        (Flags.pib_flag
          ∷ (a.pib ∷ (Flags.socket_flag ∷ (a.socket ∷ (Flags.store_flag ∷ (a.store ∷ coded))))))
        device_choice refl (rw (choose, t.read_write_name a.device) refl)
      ∙ (read_value choice_of accept_own choose placed (record placed { erasure = a.erasure })
            Flags.erasure_flag (erasure_text a.erasure) tail erasure_choice refl
            (rw (choose, from_str-alone a.erasure ok) refl)
          ∙ read_interval (record placed { erasure = a.erasure }) a.sync_interval a.in_namespace
              a.hold_for fits)

  complete-drafted :
      (a : HoldArgs N) (ns : List N)
      → 1 ≤ length ns
      → complete (record (drafted a) { hold_for = ns }) ≡ inr (record a { hold_for = ns })
  unfolding complete
  complete-drafted a [] some_held = absurd (omega arith)
  complete-drafted a (n ∷ ns) some_held = refl

  -- A command line that spells out some arguments, with a namespace to hold for, is read as them.
  pub parse-words :
      (default_socket : List ℕ) (a : HoldArgs N)
      → 1 ≤ length a.hold_for
      → IsErasure a.erasure
      → IsInterval a.sync_interval
      → parse default_socket (words a) ≡ inr a
  unfolding parse
  parse-words default_socket a some_held ok fits =
      rw (parse, read_words default_socket a ok fits) (complete-drafted a a.hold_for some_held)
