-- ===== src/Wasm/Steps.antt =====
-- Every call of src/wasm.rs does one of the moves.
use ghostcrypt_crypto_core.Mls.Types.{MlsOps}
use ghostcrypt_crypto_core.Wasm.State.{WasmCrates, Instance}
use ghostcrypt_crypto_core.Wasm.Groups
use ghostcrypt_crypto_core.Wasm.Moves.{Moves, removed_group}
use ghostcrypt_crypto_core.Wasm.Requests
use ghostcrypt_crypto_core.Wasm.Requests.{Request, serve}
use ghostcrypt_crypto_core.Wasm.KeySteps
use ghostcrypt_crypto_core.Wasm.GroupSteps

module _ (x : WasmCrates) (mls : MlsOps x.core.Rng) where
  -- Whatever call is made, and however it ends, it does one of the moves: it stores at most one
  -- thing, under the next handle, and changes or removes at most one thing behind a handle.
  pub serve-Moves : (request : Request) (i : Instance x.core) → Moves mls i (serve x mls request i)
  unfolding serve Groups.mls_destroy_state
  serve-Moves Requests.generate_identity_keypair i =
      KeySteps.generate_identity_keypair-Moves x mls i
  serve-Moves (Requests.generate_signed_pre_key identity) i =
      KeySteps.generate_signed_pre_key-Moves x mls i identity
  serve-Moves (Requests.generate_one_time_pre_keys count) i =
      KeySteps.generate_one_time_pre_keys-Moves x mls i count
  serve-Moves (Requests.x3dh_initiate identity bundle) i =
      KeySteps.x3dh_initiate-Moves x mls i identity bundle
  serve-Moves (Requests.x3dh_respond identity spk ik ek) i =
      KeySteps.x3dh_respond-Moves x mls i identity spk ik ek
  serve-Moves (Requests.create_session_alice secret spk) i =
      KeySteps.create_session_alice-Moves x mls i secret spk
  serve-Moves (Requests.create_session_bob secret spk) i =
      KeySteps.create_session_bob-Moves x mls i secret spk
  serve-Moves (Requests.session_encrypt session plaintext) i =
      KeySteps.session_encrypt-Moves x mls i session plaintext
  serve-Moves (Requests.session_decrypt session header ciphertext nonce) i =
      KeySteps.session_decrypt-Moves x mls i session header ciphertext nonce
  serve-Moves (Requests.mls_generate_key_package identity) i =
      GroupSteps.mls_generate_key_package-Moves x mls i identity
  serve-Moves (Requests.mls_create_group identity) i =
      GroupSteps.mls_create_group-Moves x mls i identity
  serve-Moves (Requests.mls_add_member group key_package) i =
      GroupSteps.mls_add_member-Moves x mls i group key_package
  serve-Moves (Requests.mls_remove_member group leaf) i =
      GroupSteps.mls_remove_member-Moves x mls i group leaf
  serve-Moves (Requests.mls_encrypt_message group text) i =
      GroupSteps.mls_encrypt_message-Moves x mls i group text
  serve-Moves (Requests.mls_decrypt_message group message) i =
      GroupSteps.mls_decrypt_message-Moves x mls i group message
  serve-Moves (Requests.mls_process_welcome welcome secret) i =
      GroupSteps.mls_process_welcome-Moves x mls i welcome secret
  serve-Moves (Requests.mls_process_commit group commit) i =
      GroupSteps.mls_process_commit-Moves x mls i group commit
  serve-Moves (Requests.mls_destroy_state group) i = removed_group group
