-- ===== src/Examples.antt =====
-- Concrete inputs: a small stand-in for the crates that meets their documented behaviour, the
-- theorems at work on it, and runs of the code.
pub mod Toy
pub mod Keys
pub mod Api
pub mod KeyExchange
pub mod Hybrid
pub mod Ratchets
pub mod Batch
pub mod Turns
pub mod Talk
pub mod ToyText
pub mod ToyMls
pub mod ToyJson
pub mod Wasm
pub mod Instances
pub mod Mls
