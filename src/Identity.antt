-- ===== src/Identity.antt =====
-- src/identity/keys.rs: identity keys, signed pre-keys, one-time pre-keys and the key bundle.
mod Keys
mod PreKeys
pub mod Laws
unfoldable pub use Keys.*
unfoldable pub use PreKeys.*
