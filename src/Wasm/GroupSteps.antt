-- ===== src/Wasm/GroupSteps.antt =====
-- Every call of src/wasm.rs on groups does one of the moves.
use ghostcrypt_crypto_core.Common.{ℕ, String, nat_eq}
use ghostcrypt_crypto_core.Exec.{continue-leaves}
use ghostcrypt_crypto_core.Mls.Types.{MlsOps}
use ghostcrypt_crypto_core.Wasm.State.{
  WasmCrates, Instance, find_handle, find_handle-ok, core_error, core_error-ok, next_id,
  from_base64, answer,
}
use ghostcrypt_crypto_core.Wasm.Groups
use ghostcrypt_crypto_core.Wasm.Moves.{
  Moves, drew, new_group, created, joined, added, removed, encrypted, decrypted, committed,
}

module _ (x : WasmCrates) (mls : MlsOps x.core.Rng) (i : Instance x.core) where
  open x use {core}

  abbrev P : Instance core → Type 0
  P j = Moves mls i j

  pub mls_create_group-Moves :
      (identity_b64 : String) → P (Groups.mls_create_group x mls identity_b64 i).1
  unfolding Groups.mls_create_group Groups.read_state Groups.store_state next_id answer
  mls_create_group-Moves identity_b64 =
      continue-leaves P (from_base64 x "identity" identity_b64) _ i (drew i.rng) λ identity h₀.
        let (out, rng') = mls.create_group identity i.rng in
        continue-leaves P (core_error "MLS create group failed: " out) _ (record i { rng = rng' })
          (drew rng')
          λ r h₂.
            new_group rng' r.group_state
              (created identity i.rng r (core_error-ok "MLS create group failed: " out h₂))

  pub mls_add_member-Moves :
      (group_handle : ℕ) (key_package_b64 : String)
      → P (Groups.mls_add_member x mls group_handle key_package_b64 i).1
  unfolding Groups.mls_add_member Groups.read_state Groups.store_state next_id answer
  mls_add_member-Moves group_handle key_package_b64 =
      continue-leaves P (from_base64 x "key_package" key_package_b64) _ i (drew i.rng)
        λ key_package h₀.
          continue-leaves P (find_handle "MLS group" group_handle i.mls_states) _ i (drew i.rng)
            λ state h₁.
              let (out, rng') = mls.add_member state key_package i.rng in
              continue-leaves P (core_error "MLS add member failed: " out) _
                (record i { rng = rng' }) (drew rng')
                λ r h₂. new_group rng' r.group_state (
                  added group_handle state key_package i.rng r
                    (find_handle-ok "MLS group" group_handle i.mls_states h₁)
                    (core_error-ok "MLS add member failed: " out h₂))

  pub mls_remove_member-Moves :
      (group_handle : ℕ) (leaf_index : ℕ)
      → P (Groups.mls_remove_member x mls group_handle leaf_index i).1
  unfolding Groups.mls_remove_member Groups.read_state Groups.store_state next_id answer
  mls_remove_member-Moves group_handle leaf_index =
      continue-leaves P (find_handle "MLS group" group_handle i.mls_states) _ i (drew i.rng)
        λ state h₁.
          let (out, rng') = mls.remove_member state leaf_index i.rng in
          continue-leaves P (core_error "MLS remove member failed: " out) _
            (record i { rng = rng' }) (drew rng')
            λ r h₂. new_group rng' r.group_state (
              removed group_handle state leaf_index i.rng r
                (find_handle-ok "MLS group" group_handle i.mls_states h₁)
                (core_error-ok "MLS remove member failed: " out h₂))

  pub mls_encrypt_message-Moves :
      (group_handle : ℕ) (plaintext_b64 : String)
      → P (Groups.mls_encrypt_message x mls group_handle plaintext_b64 i).1
  unfolding Groups.mls_encrypt_message Groups.read_state Groups.store_state next_id answer
  mls_encrypt_message-Moves group_handle plaintext_b64 =
      continue-leaves P (from_base64 x "plaintext" plaintext_b64) _ i (drew i.rng) λ plaintext h₀.
        continue-leaves P (find_handle "MLS group" group_handle i.mls_states) _ i (drew i.rng)
          λ state h₁.
            let (out, rng') = mls.encrypt_message state plaintext i.rng in
            continue-leaves P (core_error "MLS encrypt failed: " out) _ (record i { rng = rng' })
              (drew rng')
              λ r h₂. new_group rng' r.group_state (
                encrypted group_handle state plaintext i.rng r
                  (find_handle-ok "MLS group" group_handle i.mls_states h₁)
                  (core_error-ok "MLS encrypt failed: " out h₂))

  pub mls_decrypt_message-Moves :
      (group_handle : ℕ) (mls_message_b64 : String)
      → P (Groups.mls_decrypt_message x mls group_handle mls_message_b64 i).1
  unfolding Groups.mls_decrypt_message Groups.read_state Groups.store_state next_id answer
  mls_decrypt_message-Moves group_handle mls_message_b64 =
      continue-leaves P (from_base64 x "mls_message" mls_message_b64) _ i (drew i.rng)
        λ mls_message h₀.
          continue-leaves P (find_handle "MLS group" group_handle i.mls_states) _ i (drew i.rng)
            λ state h₁.
              let (out, rng') = mls.decrypt_message state mls_message i.rng in
              continue-leaves P (core_error "MLS decrypt failed: " out) _ (record i { rng = rng' })
                (drew rng')
                λ r h₂. new_group rng' r.group_state (
                  decrypted group_handle state mls_message i.rng r
                    (find_handle-ok "MLS group" group_handle i.mls_states h₁)
                    (core_error-ok "MLS decrypt failed: " out h₂))

  pub mls_process_commit-Moves :
      (group_handle : ℕ) (commit_b64 : String)
      → P (Groups.mls_process_commit x mls group_handle commit_b64 i).1
  unfolding Groups.mls_process_commit Groups.read_state Groups.store_state next_id answer
  mls_process_commit-Moves group_handle commit_b64 =
      continue-leaves P (from_base64 x "commit" commit_b64) _ i (drew i.rng) λ commit h₀.
        continue-leaves P (find_handle "MLS group" group_handle i.mls_states) _ i (drew i.rng)
          λ state h₁.
            let (out, rng') = mls.process_commit state commit i.rng in
            continue-leaves P (core_error "MLS process commit failed: " out) _
              (record i { rng = rng' }) (drew rng')
              λ r h₂. new_group rng' r.group_state (
                committed group_handle state commit i.rng r
                  (find_handle-ok "MLS group" group_handle i.mls_states h₁)
                  (core_error-ok "MLS process commit failed: " out h₂))

  pub mls_process_welcome-Moves :
      (welcome_b64 secret_bundle_b64 : String)
      → P (Groups.mls_process_welcome x mls welcome_b64 secret_bundle_b64 i).1
  unfolding Groups.mls_process_welcome Groups.store_state next_id answer
  mls_process_welcome-Moves welcome_b64 secret_bundle_b64 =
      continue-leaves P (from_base64 x "welcome" welcome_b64) _ i (drew i.rng) λ welcome h₀.
        continue-leaves P (from_base64 x "secret_bundle" secret_bundle_b64) _ i (drew i.rng)
          λ secret h₁.
            let (out, rng') = mls.process_welcome welcome secret i.rng in
            continue-leaves P (core_error "MLS process welcome failed: " out) _
              (record i { rng = rng' }) (drew rng')
              λ r h₂. new_group rng' r.group_state (
                joined welcome secret i.rng r (core_error-ok "MLS process welcome failed: " out h₂))

  pub mls_generate_key_package-Moves :
      (identity_b64 : String) → P (Groups.mls_generate_key_package x mls identity_b64 i).1
  unfolding Groups.mls_generate_key_package answer
  mls_generate_key_package-Moves identity_b64 =
      continue-leaves P (from_base64 x "identity" identity_b64) _ i (drew i.rng) λ identity h₀.
        let (out, rng') = mls.generate_key_package identity i.rng in
        continue-leaves P (core_error "MLS key package generation failed: " out) _
          (record i { rng = rng' }) (drew rng') λ r h₂. drew rng'
