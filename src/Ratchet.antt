-- ===== src/Ratchet.antt =====
-- src/ratchet: the Double Ratchet. The definitions stand in the first children, one for each file
-- of that folder; the theorems stand in the others, named for what they are about.
pub mod Chain
pub mod Header
pub mod DhRatchet
pub mod SkippedKeys
pub mod State
pub mod Session
pub mod Skip
pub mod Stored
pub mod Loop
pub mod Delivery
pub mod AnyOrder
pub mod Schedule
pub mod Turn
pub mod Turned
pub mod Exchange
pub mod Batch
pub mod Conversation
pub mod Start
pub mod Bounds
pub mod Replay
pub mod KeyLengths
pub mod Keyed
pub mod Settled
