-- ===== src/Mls.antt =====
-- src/mls/mod.rs: the operations on groups, over openmls.
pub mod Types
pub mod OpenMls
pub mod Bundle
pub mod Groups
pub mod Messages
pub mod Restore
pub mod Laws
pub mod Usable
pub mod Sent
pub mod Received
pub mod Made
pub mod Commits
pub mod Panics
