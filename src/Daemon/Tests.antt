-- ===== src/Daemon/Tests.antt =====
-- crates/ndn-repo/src/bin/ndn-repo.rs: the arguments of a repository with two groups.
use ndn_repo.Base.{ℕ, ◌≡◌, inl, inr, refl, [], ◌∷◌}
use ndn_repo.Extern.Concrete.{octet_text}
use ndn_repo.Daemon.{Args, needs_value, same_text, read_args, field_of, set_field, parse_args}
use ndn_repo.Daemon.Flags
use ndn_repo.Daemon.Words.{args_words, parse_args-words}

abbrev two_groups : Args ℕ ℕ
two_groups = record { socket = 1 ∷ []; prefix = 4; store_dir = 2 ∷ []; groups = 7 ∷ (8 ∷ []) }

parse_args-words_example : parse_args (9 ∷ []) (args_words two_groups) ≡ inr two_groups
parse_args-words_example = parse_args-words (9 ∷ []) two_groups

no_value : parse_args {N = ℕ} (9 ∷ []) (Flags.group_flag ∷ []) ≡ inl (needs_value Flags.group_flag)
unfolding parse_args read_args field_of same_text set_field octet_text
no_value = refl
