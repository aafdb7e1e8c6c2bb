-- ===== src/Lib.antt =====
-- The cryptographic core of GhostCrypt.
--
-- The program is a library for end-to-end encrypted messages. Two parties publish key bundles
-- (src/identity), agree on a secret by X3DH (src/x3dh), and then exchange messages in a Double
-- Ratchet session (src/ratchet), whose keys come from HKDF and HMAC (src/kdf) and whose messages
-- are sealed with AES-256-GCM (src/aead).
-- A hybrid key encapsulation (src/pqc) and MLS groups (src/mls) stand beside them, and src/api.rs
-- gives all of it to the bindings.
--
-- Files and what they model (paths from the repository's root):
--   Common, Exec: helpers; lists of bytes, maps, and the state monad of the operations.
--   Error: src/error.rs. A Result of the program has a third outcome, `panic`, for the calls that
--     end the thread (slice lengths, `expect`).
--   Crates: the third-party functions as parameters (a record of types and functions), and what is
--     documented of them (Crates/Laws): the lengths of keys and digests, that Diffie-Hellman is
--     symmetric, that opening undoes sealing, that a signature verifies. No law says that keys or
--     digests are different from each other.
--   Kdf: src/kdf/mod.rs (derive, hmac_sha256, derive_chain_and_message_key).
--   Aead: src/aead/mod.rs (encrypt, decrypt).
--   Identity: src/identity/keys.rs. Keys has IdentityKeyPair, PreKeys has SignedPreKey,
--     OneTimePreKey and KeyBundle; the associated functions `generate` and `from_bytes` of SignedPreKey
--     are generate_signed and signed_from_bytes there. Methods that return a field are projections.
--   X3dh: src/x3dh (initiate, respond).
--   Ratchet: src/ratchet. Chain is chain.rs, Header is header.rs, DhRatchet is dh_ratchet.rs;
--     SkippedKeys is the map of state.rs, State its session and the loop that skips ahead, Session
--     the methods init_alice, init_bob, encrypt, decrypt. The other files are proofs.
--   Pqc: src/pqc/hybrid_kem.rs, with ML-KEM-768 as a parameter (MlKem) and its sizes and
--     correctness as hypotheses (MlKemLaws); Rust's array types fix the lengths of X25519 keys.
--   Encoding: base64, serde and serde_json values as parameters, with what is documented of them.
--   Mls: src/mls/mod.rs. Types has its result types, OpenMls the openmls crates as a parameter,
--     Bundle the bundles with the snapshot and restore of the key store, Groups and Messages the
--     operations by their names; f_in is the part of f that works with its provider. The other
--     files are proofs; Laws has what they rely on: a call that gives or changes a group has
--     written it to the provider's storage when it returns.
--   Api: src/api.rs. Store is a global map behind a lock with its counter of handles, State the
--     static variables, Keys the calls without state, Sessions and Groups the calls on handles, by
--     the names that they have in api.rs. A panic under a write lock poisons the store. The other
--     files are proofs.
--   Wasm: src/wasm.rs. State has the thread-local stores and what the functions share, Keys,
--     Agreement, Sessions and Groups the exported functions by their names, Requests all of them as
--     one type. The other files are proofs; Moves says what one call may do.
--   Examples: stand-ins for the crates that meet the laws, and the theorems at concrete inputs.
--
-- State: a method that takes `&mut self` is a function from the state to the result and the state
-- after, also where the result is an error or a panic: what was changed before stays changed. The
-- operating system's random source is part of that state.
-- Concurrency: a call of the API is one step on the static variables. The session calls hold the
-- write lock of the map from their first access to their last, so that threads interleave in no
-- other way; a group call holds the lock twice, and is one step as well.
--   An instance of src/wasm.rs is used by one thread. A panic there is a trap that unwinds nothing:
--   the mutable borrow of the sessions that it interrupts stays, which the instance records. No
--   call panics while one of the other stores is borrowed.
-- Iterating over a HashMap goes in the order of the entries' list; no theorem rests on which order
-- that is.
-- Not modelled: benches and tests; the locks around the storage of a provider, which only one call
-- has.
-- Numbers: a u32 is a native natural number; adding one wraps at 2 ^ 32, as in a release build (a debug build panics there).
-- Loops: `while index < until` is recursion on a fuel of `until - index`, which is enough because
-- each round adds one to the index.
pub mod Common
pub mod Error
pub mod Exec
pub mod Crates
pub mod Encoding
pub mod Kdf
pub mod Aead
pub mod Identity
pub mod X3dh
pub mod Ratchet
pub mod Pqc
pub mod Mls
pub mod Api
pub mod Wasm
pub mod Examples
