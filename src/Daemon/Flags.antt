-- ===== src/Daemon/Flags.antt =====
-- crates/ndn-repo/src/bin/ndn-repo.rs: the words of the command line, as the codes of their characters.
use ndn_repo.Base.{ℕ, List, [], ◌∷◌}

-- "--socket"
abbrev pub socket_flag : List ℕ
socket_flag = 45 ∷ 45 ∷ 115 ∷ 111 ∷ 99 ∷ 107 ∷ 101 ∷ 116 ∷ []

-- "--prefix"
abbrev pub prefix_flag : List ℕ
prefix_flag = 45 ∷ 45 ∷ 112 ∷ 114 ∷ 101 ∷ 102 ∷ 105 ∷ 120 ∷ []

-- "--store"
abbrev pub store_flag : List ℕ
store_flag = 45 ∷ 45 ∷ 115 ∷ 116 ∷ 111 ∷ 114 ∷ 101 ∷ []

-- "--group"
abbrev pub group_flag : List ℕ
group_flag = 45 ∷ 45 ∷ 103 ∷ 114 ∷ 111 ∷ 117 ∷ 112 ∷ []

-- "-h"
abbrev pub short_help : List ℕ
short_help = 45 ∷ 104 ∷ []

-- "--help"
abbrev pub help : List ℕ
help = 45 ∷ 45 ∷ 104 ∷ 101 ∷ 108 ∷ 112 ∷ []

-- "--device"
abbrev pub device_flag : List ℕ
device_flag = 45 ∷ 45 ∷ 100 ∷ 101 ∷ 118 ∷ 105 ∷ 99 ∷ 101 ∷ []

-- "--pib"
abbrev pub pib_flag : List ℕ
pib_flag = 45 ∷ 45 ∷ 112 ∷ 105 ∷ 98 ∷ []

-- "--hold-for"
abbrev pub hold_for_flag : List ℕ
hold_for_flag = 45 ∷ 45 ∷ 104 ∷ 111 ∷ 108 ∷ 100 ∷ 45 ∷ 102 ∷ 111 ∷ 114 ∷ []

-- "--in-namespace"
abbrev pub in_namespace_flag : List ℕ
in_namespace_flag = 45 ∷ 45 ∷ 105 ∷ 110 ∷ 45 ∷ 110 ∷ 97 ∷ 109 ∷ 101 ∷ 115 ∷ 112 ∷ 97 ∷ 99 ∷ 101 ∷ []

-- "--erasure"
abbrev pub erasure_flag : List ℕ
erasure_flag = 45 ∷ 45 ∷ 101 ∷ 114 ∷ 97 ∷ 115 ∷ 117 ∷ 114 ∷ 101 ∷ []

-- "--sync-interval-ms"
abbrev pub sync_interval_flag : List ℕ
sync_interval_flag =
    45 ∷ 45 ∷ 115 ∷ 121 ∷ 110 ∷ 99 ∷ 45 ∷ 105 ∷ 110 ∷ 116 ∷ 101 ∷ 114 ∷ 118 ∷ 97 ∷ 108 ∷ 45 ∷ 109
    ∷ 115 ∷ []

-- "/repo"
abbrev pub default_prefix : List ℕ
default_prefix = 47 ∷ 114 ∷ 101 ∷ 112 ∷ 111 ∷ []

-- "./repo-data"
abbrev pub default_store : List ℕ
default_store = 46 ∷ 47 ∷ 114 ∷ 101 ∷ 112 ∷ 111 ∷ 45 ∷ 100 ∷ 97 ∷ 116 ∷ 97 ∷ []
