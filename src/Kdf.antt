-- ===== src/Kdf.antt =====
-- src/kdf/mod.rs: HKDF-SHA-256, and the HMAC step of the symmetric ratchet.
mod Laws
pub use Laws.*
mod Defs
unfoldable pub use Defs.*
