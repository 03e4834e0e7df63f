-- ===== src/Extern.antt =====
-- What the repository calls and does not contain, as interfaces: operations and documented laws.
pub mod Float
pub mod Tlv
pub mod Names
pub mod Store
pub mod Coding
pub mod Concrete
pub mod Copies
pub mod Sync
