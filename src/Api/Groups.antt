-- ===== src/Api/Groups.antt =====
-- The MLS groups of src/api.rs, behind handles. Every operation that changes a group stores the
-- new state under a new handle.
use ghostcrypt_crypto_core.Common.{ℕ, Bytes, String, Bool}
use ghostcrypt_crypto_core.Exec.{Call, pure, ◌>>=◌}
use ghostcrypt_crypto_core.Crates.{Crates}
use ghostcrypt_crypto_core.Mls.Types.{MlsOps}
use ghostcrypt_crypto_core.Api.Store.{find, insert_new, destroy}
use ghostcrypt_crypto_core.Api.State.{Statics, on_core, on_mls_states}

pub record MlsKeyPackageResult : Type 0 where
  pub key_package : Bytes
  pub secret_bundle : Bytes

pub record MlsCreateGroupResult : Type 0 where
  pub handle : ℕ
  pub group_id : Bytes
  pub epoch : ℕ

pub record MlsAddMemberResult : Type 0 where
  pub handle : ℕ
  pub commit : Bytes
  pub welcome : Bytes
  pub epoch : ℕ

pub record MlsRemoveMemberResult : Type 0 where
  pub handle : ℕ
  pub commit : Bytes
  pub epoch : ℕ

pub record MlsEncryptResult : Type 0 where
  pub handle : ℕ
  pub mls_ciphertext : Bytes
  pub epoch : ℕ

pub record MlsDecryptResult : Type 0 where
  pub handle : ℕ
  pub plaintext : Bytes

pub record MlsProcessWelcomeResult : Type 0 where
  pub handle : ℕ
  pub group_id : Bytes
  pub epoch : ℕ

pub record MlsProcessCommitResult : Type 0 where
  pub handle : ℕ
  pub epoch : ℕ

abbrev pub mls_lock : String
mls_lock = "MLS state lock poisoned: "

module _ {c : Crates} where
  -- `MLS_STATES.read()?.get(&handle)?.clone()`
  unfoldable pub read_state : ℕ → Call (Statics c) Bytes
  read_state group_handle g =
      (find mls_lock "No MLS group with handle " group_handle g.mls_states, g)

  -- A new handle for a group state
  unfoldable pub store_state : Bytes → Call (Statics c) ℕ
  store_state group_state = on_mls_states (insert_new mls_lock group_state)

module _ (c : Crates) (mls : MlsOps c.Rng) where
  unfoldable pub mls_generate_key_package : Bytes → Call (Statics c) MlsKeyPackageResult
  mls_generate_key_package identity = do
    result ← on_core (mls.generate_key_package identity)
    pure (record { key_package = result.key_package; secret_bundle = result.secret_bundle })

  unfoldable pub mls_create_group : Bytes → Call (Statics c) MlsCreateGroupResult
  mls_create_group identity = do
    result ← on_core (mls.create_group identity)
    handle ← store_state result.group_state
    pure (record { handle = handle; group_id = result.group_id; epoch = result.epoch })

  unfoldable pub mls_add_member : ℕ → Bytes → Call (Statics c) MlsAddMemberResult
  mls_add_member group_handle key_package = do
    state ← read_state group_handle
    result ← on_core (mls.add_member state key_package)
    handle ← store_state result.group_state
    pure (record {
      handle = handle;
      commit = result.commit;
      welcome = result.welcome;
      epoch = result.epoch;
    })

  unfoldable pub mls_remove_member : ℕ → ℕ → Call (Statics c) MlsRemoveMemberResult
  mls_remove_member group_handle leaf_index = do
    state ← read_state group_handle
    result ← on_core (mls.remove_member state leaf_index)
    handle ← store_state result.group_state
    pure (record { handle = handle; commit = result.commit; epoch = result.epoch })

  unfoldable pub mls_encrypt_message : ℕ → Bytes → Call (Statics c) MlsEncryptResult
  mls_encrypt_message group_handle plaintext = do
    state ← read_state group_handle
    result ← on_core (mls.encrypt_message state plaintext)
    handle ← store_state result.group_state
    pure (record { handle = handle; mls_ciphertext = result.mls_ciphertext; epoch = result.epoch })

  unfoldable pub mls_decrypt_message : ℕ → Bytes → Call (Statics c) MlsDecryptResult
  mls_decrypt_message group_handle mls_message = do
    state ← read_state group_handle
    result ← on_core (mls.decrypt_message state mls_message)
    handle ← store_state result.group_state
    pure (record { handle = handle; plaintext = result.plaintext })

  unfoldable pub mls_process_welcome : Bytes → Bytes → Call (Statics c) MlsProcessWelcomeResult
  mls_process_welcome welcome secret_bundle = do
    result ← on_core (mls.process_welcome welcome secret_bundle)
    handle ← store_state result.group_state
    pure (record { handle = handle; group_id = result.group_id; epoch = result.epoch })

  unfoldable pub mls_process_commit : ℕ → Bytes → Call (Statics c) MlsProcessCommitResult
  mls_process_commit group_handle commit = do
    state ← read_state group_handle
    result ← on_core (mls.process_commit state commit)
    handle ← store_state result.group_state
    pure (record { handle = handle; epoch = result.epoch })

module _ {c : Crates} where
  unfoldable pub mls_destroy_state : ℕ → Statics c → Bool × Statics c
  mls_destroy_state group_handle g =
      let (removed, s) = destroy group_handle g.mls_states in (removed, record g { mls_states = s })
