-- ===== src/Repo.antt =====
-- crates/ndn-repo: the repository of one node.
pub mod Cmd
pub mod Engine
pub mod Ingest
pub mod Service
mod Tests
