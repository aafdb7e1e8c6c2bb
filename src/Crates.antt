-- ===== src/Crates.antt =====
-- The third-party crates that the program calls: their types and functions are parameters. `Rng` is
-- the state of the operating system's random source (`OsRng`), which each draw advances.
mod Laws
pub use Laws.*
mod Defs
pub use Defs.*
