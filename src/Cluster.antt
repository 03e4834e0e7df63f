-- ===== src/Cluster.antt =====
-- crates/ndn-repo-cluster: the coordination layer above the repository.
pub mod Coord
pub mod Msg
pub mod Node
pub mod Object
mod Tests
