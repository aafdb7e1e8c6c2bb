-- ===== src/Pqc.antt =====
-- src/pqc/hybrid_kem.rs: the hybrid key encapsulation.
mod Defs
pub mod Agreement
unfoldable pub use Defs.*
