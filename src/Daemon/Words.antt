-- ===== src/Daemon/Words.antt =====
-- crates/ndn-repo/src/bin/ndn-repo.rs: a command line that spells out some arguments is read as them.
use ndn_repo.Base.{ℕ, ◌≡◌, ◌⊎◌, inr, refl, ap, ◌∙◌, List, [], ◌∷◌, ◌++◌}
use mathlib.Core.List.{append-nil, append_assoc}
use ndn_repo.Extern.Names.{NameText}
use ndn_repo.Daemon.{
  ArgError, Demand, value, same_text, read_args, Args, group_field, field_of, set_field,
  with_prefix, parse_args,
}
use ndn_repo.Daemon.Flags

module _ {S F : Type 0} (demand : List ℕ → Demand F) (turn_on : S → S)
    (assign : F → List ℕ → S → ArgError ⊎ S) where
  -- One option with its value.
  pub read_value :
      (s next : S) (arg v : List ℕ) (args : List (List ℕ)) (f : F)
      → demand arg ≡ value f
      → assign f v s ≡ inr next
      → read_args demand turn_on assign s (arg ∷ (v ∷ args))
        ≡ read_args demand turn_on assign next args
  unfolding read_args
  read_value s next arg v args f flag took = rw (read_args, flag, took) refl

module _ {N : Type 0} ⦃t : NameText N⦄ where
  unfoldable pub group_words : List N → List (List ℕ)
  group_words [] = []
  group_words (g ∷ gs) = Flags.group_flag ∷ (t.write_name g ∷ group_words gs)

  -- The words that spell out the arguments.
  unfoldable pub args_words : Args N N → List (List ℕ)
  args_words a =
      Flags.socket_flag
      ∷ (a.socket
          ∷ (Flags.prefix_flag
              ∷ (t.write_name a.prefix
                  ∷ (Flags.store_flag ∷ (a.store_dir ∷ group_words a.groups)))))

  read_groups :
      (a : Args (List ℕ) N) (gs : List N)
      → read_args field_of (λ x. x) set_field a (group_words gs)
        ≡ inr (record a { groups = a.groups ++ gs })
  unfolding group_words read_args field_of same_text set_field
  read_groups a [] = rw (append-nil a.groups) refl
  read_groups a (g ∷ gs) =
      read_value field_of (λ x. x) set_field a (record a { groups = a.groups ++ g ∷ [] })
        Flags.group_flag (t.write_name g) (group_words gs) group_field refl
        (rw (set_field, t.read_write_name g) refl)
      ∙ (read_groups (record a { groups = a.groups ++ g ∷ [] }) gs
          ∙ ap (λ ms. inr (record a { groups = ms })) (append_assoc a.groups (g ∷ []) gs))

  -- A command line that spells out the arguments of the repository is read as them.
  pub parse_args-words :
      (default_socket : List ℕ) (a : Args N N) → parse_args default_socket (args_words a) ≡ inr a
  unfolding parse_args args_words with_prefix read_args field_of same_text set_field
  parse_args-words default_socket a =
      let placed : Args (List ℕ) N = record {
        socket = a.socket;
        prefix = t.write_name a.prefix;
        store_dir = a.store_dir;
        groups = [];
      } in
      rw (parse_args, read_groups placed a.groups, with_prefix, t.read_write_name a.prefix) refl
