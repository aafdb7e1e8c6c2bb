-- ===== src/Aead.antt =====
-- src/aead/mod.rs: AES-256-GCM with a fresh random nonce.
mod Defs
unfoldable pub use Defs.*
pub mod RoundTrip
