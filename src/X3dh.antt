-- ===== src/X3dh.antt =====
-- src/x3dh: the X3DH key agreement.
mod Defs
unfoldable pub use Defs.*
pub mod Agreement
