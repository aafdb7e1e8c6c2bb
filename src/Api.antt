-- ===== src/Api.antt =====
-- src/api.rs: the functions that the bindings call, over the global stores.
pub mod Store
pub mod State
pub mod Keys
pub mod Sessions
pub mod Groups
pub mod Handles
pub mod Isolation
pub mod Poison
pub mod Agreement
pub mod Snapshots
pub mod KeyExchange
