-- ===== src/Cluster/Msg/MsgType.antt =====
-- crates/ndn-repo-cluster/src/msg.rs, `t`: the private TLV types of the coordination messages.
use ndn_repo.Base.{ℕ}

abbrev pub heartbeat : ℕ
heartbeat = 0x1e00

abbrev pub job : ℕ
job = 0x1e01

abbrev pub claim : ℕ
claim = 0x1e02

abbrev pub release : ℕ
release = 0x1e03

abbrev pub node : ℕ
node = 0x1e10

abbrev pub target : ℕ
target = 0x1e11

abbrev pub job_ref : ℕ
job_ref = 0x1e12

abbrev pub cap_used : ℕ
cap_used = 0x1e14

abbrev pub cap_total : ℕ
cap_total = 0x1e15

abbrev pub epoch : ℕ
epoch = 0x1e16

abbrev pub repl : ℕ
repl = 0x1e17

abbrev pub ts : ℕ
ts = 0x1e18

abbrev pub ec_k : ℕ
ec_k = 0x1e19

abbrev pub ec_n : ℕ
ec_n = 0x1e1a
