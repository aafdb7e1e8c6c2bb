-- ===== src/Wasm.antt =====
-- src/wasm.rs: the functions for JavaScript, on handles, base64 and JSON.
pub mod State
pub mod Keys
pub mod Agreement
pub mod Sessions
pub mod Groups
pub mod Moves
pub mod Requests
pub mod KeySteps
pub mod GroupSteps
pub mod Steps
pub mod Handles
pub mod GroupStates
pub mod Texts
pub mod Runs
pub mod Delivered
pub mod Refusals
pub mod Interrupted
pub mod Surfaces
