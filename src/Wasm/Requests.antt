-- ===== src/Wasm/Requests.antt =====
-- The calls that JavaScript can make of src/wasm.rs, and what a run of them leaves.
use ghostcrypt_crypto_core.Common.{ℕ, String, List, [], ◌∷◌}
use ghostcrypt_crypto_core.Mls.Types.{MlsOps}
use ghostcrypt_crypto_core.Wasm.State.{WasmCrates, Instance}
use ghostcrypt_crypto_core.Wasm.Keys
use ghostcrypt_crypto_core.Wasm.Agreement
use ghostcrypt_crypto_core.Wasm.Sessions
use ghostcrypt_crypto_core.Wasm.Groups

-- One constructor for each exported function, with its arguments
pub data Request : Type 0 where
  generate_identity_keypair : Request
  generate_signed_pre_key generate_one_time_pre_keys : ℕ → Request
  x3dh_initiate : ℕ → String → Request
  x3dh_respond : ℕ → ℕ → String → String → Request
  create_session_alice : String → String → Request
  create_session_bob : String → ℕ → Request
  session_encrypt : ℕ → String → Request
  session_decrypt : ℕ → String → String → String → Request
  mls_generate_key_package mls_create_group : String → Request
  mls_add_member : ℕ → String → Request
  mls_remove_member : ℕ → ℕ → Request
  mls_encrypt_message mls_decrypt_message : ℕ → String → Request
  mls_process_welcome : String → String → Request
  mls_process_commit : ℕ → String → Request
  mls_destroy_state : ℕ → Request

module _ (x : WasmCrates) (mls : MlsOps x.core.Rng) where
  -- What the call leaves
  unfoldable pub serve : Request → Instance x.core → Instance x.core
  serve generate_identity_keypair i = (Keys.generate_identity_keypair x i).1
  serve (generate_signed_pre_key identity) i = (Keys.generate_signed_pre_key x identity i).1
  serve (generate_one_time_pre_keys count) i = (Keys.generate_one_time_pre_keys x count i).1
  serve (x3dh_initiate identity bundle) i = (Agreement.x3dh_initiate x identity bundle i).1
  serve (x3dh_respond identity spk ik ek) i = (Agreement.x3dh_respond x identity spk ik ek i).1
  serve (create_session_alice secret spk) i = (Sessions.create_session_alice x secret spk i).1
  serve (create_session_bob secret spk) i = (Sessions.create_session_bob x secret spk i).1
  serve (session_encrypt session plaintext) i = (Sessions.session_encrypt x session plaintext i).1
  serve (session_decrypt session header ciphertext nonce) i =
      (Sessions.session_decrypt x session header ciphertext nonce i).1
  serve (mls_generate_key_package identity) i = (Groups.mls_generate_key_package x mls identity i).1
  serve (mls_create_group identity) i = (Groups.mls_create_group x mls identity i).1
  serve (mls_add_member group key_package) i = (Groups.mls_add_member x mls group key_package i).1
  serve (mls_remove_member group leaf) i = (Groups.mls_remove_member x mls group leaf i).1
  serve (mls_encrypt_message group text) i = (Groups.mls_encrypt_message x mls group text i).1
  serve (mls_decrypt_message group message) i = (Groups.mls_decrypt_message x mls group message i).1
  serve (mls_process_welcome welcome secret) i =
      (Groups.mls_process_welcome x mls welcome secret i).1
  serve (mls_process_commit group commit) i = (Groups.mls_process_commit x mls group commit i).1
  serve (mls_destroy_state group) i = (Groups.mls_destroy_state group i).1

  unfoldable pub serve_all : List Request → Instance x.core → Instance x.core
  serve_all [] i = i
  serve_all (request ∷ requests) i = serve_all requests (serve request i)
