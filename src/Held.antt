-- ===== src/Held.antt =====
-- crates/ndn-repo/src/held.rs: the erasure-coded store of packets held for others.
pub mod Contract
pub mod Holder
pub mod Scan
pub mod Shards
pub mod Stripes
pub mod Segments
pub mod Text
pub mod Encoding
pub mod Rebuild
pub mod Repair
pub mod Losses
mod Tests
