-- ===== src/Wasm/Groups.antt =====
-- src/wasm.rs: MLS groups behind handles. Every operation that changes a group stores the new state
-- under a new handle.
use ghostcrypt_crypto_core.Common.{ℕ, Bytes, String, Bool, [], ◌∷◌, nat_eq}
use ghostcrypt_crypto_core.Common.Dict
use ghostcrypt_crypto_core.Exec.{Call, pure, lift, modify, ◌>>=◌, ◌>>◌}
use ghostcrypt_crypto_core.Crates.{Crates}
use ghostcrypt_crypto_core.Mls.Types.{MlsOps}
use ghostcrypt_crypto_core.Api.Store.{is_some}
use ghostcrypt_crypto_core.Wasm.State.{
  WasmCrates, Instance, find_handle, on_core, next_id, from_base64, base64_value, answer,
}

module _ {c : Crates} where
  -- `MLS_STATES.with(..)` with `get(&group_handle).cloned()`
  unfoldable pub read_state : ℕ → Call (Instance c) Bytes
  read_state group_handle i = (find_handle "MLS group" group_handle i.mls_states, i)

  -- A new handle for a group state
  unfoldable pub store_state : Bytes → Call (Instance c) ℕ
  store_state group_state = do
    handle ← next_id
    modify λ i. record i { mls_states = Dict.insert i.mls_states handle group_state }
    pure handle

  unfoldable pub mls_destroy_state : ℕ → Instance c → Bool × Instance c
  mls_destroy_state group_handle i = (
    is_some (Dict.get i.mls_states group_handle),
    record i { mls_states = Dict.remove i.mls_states group_handle },
  )

module _ (x : WasmCrates) (mls : MlsOps x.core.Rng) where
  open x use {core, json}

  unfoldable pub mls_generate_key_package : String → Call (Instance core) String
  mls_generate_key_package identity_b64 = do
    identity ← lift (from_base64 x "identity" identity_b64)
    result ← on_core "MLS key package generation failed: " (mls.generate_key_package identity)
    answer x (
        json.object (
          ("key_package", base64_value x result.key_package)
          ∷ ("secret_bundle", base64_value x result.secret_bundle)
          ∷ []))

  unfoldable pub mls_create_group : String → Call (Instance core) String
  mls_create_group identity_b64 = do
    identity ← lift (from_base64 x "identity" identity_b64)
    result ← on_core "MLS create group failed: " (mls.create_group identity)
    handle ← store_state result.group_state
    answer x (
        json.object (
          ("handle", json.number handle)
          ∷ ("group_id", base64_value x result.group_id)
          ∷ ("epoch", json.number result.epoch)
          ∷ []))

  unfoldable pub mls_add_member : ℕ → String → Call (Instance core) String
  mls_add_member group_handle key_package_b64 = do
    key_package ← lift (from_base64 x "key_package" key_package_b64)
    state ← read_state group_handle
    result ← on_core "MLS add member failed: " (mls.add_member state key_package)
    handle ← store_state result.group_state
    answer x (
        json.object (
          ("handle", json.number handle)
          ∷ ("commit", base64_value x result.commit)
          ∷ ("welcome", base64_value x result.welcome)
          ∷ ("epoch", json.number result.epoch)
          ∷ []))

  unfoldable pub mls_remove_member : ℕ → ℕ → Call (Instance core) String
  mls_remove_member group_handle leaf_index = do
    state ← read_state group_handle
    result ← on_core "MLS remove member failed: " (mls.remove_member state leaf_index)
    handle ← store_state result.group_state
    answer x (
        json.object (
          ("handle", json.number handle)
          ∷ ("commit", base64_value x result.commit)
          ∷ ("epoch", json.number result.epoch)
          ∷ []))

  unfoldable pub mls_encrypt_message : ℕ → String → Call (Instance core) String
  mls_encrypt_message group_handle plaintext_b64 = do
    plaintext ← lift (from_base64 x "plaintext" plaintext_b64)
    state ← read_state group_handle
    result ← on_core "MLS encrypt failed: " (mls.encrypt_message state plaintext)
    handle ← store_state result.group_state
    answer x (
        json.object (
          ("handle", json.number handle)
          ∷ ("mls_ciphertext", base64_value x result.mls_ciphertext)
          ∷ ("epoch", json.number result.epoch)
          ∷ []))

  unfoldable pub mls_decrypt_message : ℕ → String → Call (Instance core) String
  mls_decrypt_message group_handle mls_message_b64 = do
    mls_message ← lift (from_base64 x "mls_message" mls_message_b64)
    state ← read_state group_handle
    result ← on_core "MLS decrypt failed: " (mls.decrypt_message state mls_message)
    handle ← store_state result.group_state
    answer x (
        json.object
          (("handle", json.number handle) ∷ ("plaintext", base64_value x result.plaintext) ∷ []))

  unfoldable pub mls_process_welcome : String → String → Call (Instance core) String
  mls_process_welcome welcome_b64 secret_bundle_b64 = do
    welcome ← lift (from_base64 x "welcome" welcome_b64)
    secret_bundle ← lift (from_base64 x "secret_bundle" secret_bundle_b64)
    result ← on_core "MLS process welcome failed: " (mls.process_welcome welcome secret_bundle)
    handle ← store_state result.group_state
    answer x (
        json.object (
          ("handle", json.number handle)
          ∷ ("group_id", base64_value x result.group_id)
          ∷ ("epoch", json.number result.epoch)
          ∷ []))

  unfoldable pub mls_process_commit : ℕ → String → Call (Instance core) String
  mls_process_commit group_handle commit_b64 = do
    commit ← lift (from_base64 x "commit" commit_b64)
    state ← read_state group_handle
    result ← on_core "MLS process commit failed: " (mls.process_commit state commit)
    handle ← store_state result.group_state
    answer x
        (json.object (("handle", json.number handle) ∷ ("epoch", json.number result.epoch) ∷ []))
