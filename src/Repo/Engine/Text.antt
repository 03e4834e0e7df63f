-- ===== src/Repo/Engine/Text.antt =====
-- crates/ndn-repo/src/repo.rs: the texts of the replies, as the octets of their UTF-8.
use ndn_repo.Base.{ℕ, List, [], ◌∷◌}

-- "malformed repo command"
abbrev pub malformed : List ℕ
malformed =
    0x6d ∷ 0x61 ∷ 0x6c ∷ 0x66 ∷ 0x6f ∷ 0x72 ∷ 0x6d ∷ 0x65 ∷ 0x64 ∷ 0x20 ∷ 0x72 ∷ 0x65 ∷ 0x70 ∷ 0x6f
    ∷ 0x20 ∷ 0x63 ∷ 0x6f ∷ 0x6d ∷ 0x6d ∷ 0x61 ∷ 0x6e ∷ 0x64 ∷ []

-- "unknown sync protocol"
abbrev pub unknown_protocol : List ℕ
unknown_protocol =
    0x75 ∷ 0x6e ∷ 0x6b ∷ 0x6e ∷ 0x6f ∷ 0x77 ∷ 0x6e ∷ 0x20 ∷ 0x73 ∷ 0x79 ∷ 0x6e ∷ 0x63 ∷ 0x20 ∷ 0x70
    ∷ 0x72 ∷ 0x6f ∷ 0x74 ∷ 0x6f ∷ 0x63 ∷ 0x6f ∷ 0x6c ∷ []

-- "missing group name"
abbrev pub missing_group : List ℕ
missing_group =
    0x6d ∷ 0x69 ∷ 0x73 ∷ 0x73 ∷ 0x69 ∷ 0x6e ∷ 0x67 ∷ 0x20 ∷ 0x67 ∷ 0x72 ∷ 0x6f ∷ 0x75 ∷ 0x70 ∷ 0x20
    ∷ 0x6e ∷ 0x61 ∷ 0x6d ∷ 0x65 ∷ []

-- "invalid history snapshot threshold"
abbrev pub invalid_threshold : List ℕ
invalid_threshold =
    0x69 ∷ 0x6e ∷ 0x76 ∷ 0x61 ∷ 0x6c ∷ 0x69 ∷ 0x64 ∷ 0x20 ∷ 0x68 ∷ 0x69 ∷ 0x73 ∷ 0x74 ∷ 0x6f ∷ 0x72
    ∷ 0x79 ∷ 0x20 ∷ 0x73 ∷ 0x6e ∷ 0x61 ∷ 0x70 ∷ 0x73 ∷ 0x68 ∷ 0x6f ∷ 0x74 ∷ 0x20 ∷ 0x74 ∷ 0x68
    ∷ 0x72 ∷ 0x65 ∷ 0x73 ∷ 0x68 ∷ 0x6f ∷ 0x6c ∷ 0x64 ∷ []

-- "group not joined"
abbrev pub not_joined : List ℕ
not_joined =
    0x67 ∷ 0x72 ∷ 0x6f ∷ 0x75 ∷ 0x70 ∷ 0x20 ∷ 0x6e ∷ 0x6f ∷ 0x74 ∷ 0x20 ∷ 0x6a ∷ 0x6f ∷ 0x69 ∷ 0x6e
    ∷ 0x65 ∷ 0x64 ∷ []
