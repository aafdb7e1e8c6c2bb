-- ===== src/Mls/Groups.antt =====
-- src/mls/mod.rs: key packages, new groups and changes of membership.
use ghostcrypt_crypto_core.Common.{ℕ, Bytes, String, true}
use ghostcrypt_crypto_core.Common.Dict
use ghostcrypt_crypto_core.Common.Dict.{Dict}
use ghostcrypt_crypto_core.Error.{serialization, mls, key_generation, wrap_err}
use ghostcrypt_crypto_core.Exec.{Exec, attempt, pure, lift, gets, ◌>>=◌, ◌>>◌}
use ghostcrypt_crypto_core.Mls.Types.{
  KeyPackageResult, CreateGroupResult, AddMemberResult, RemoveMemberResult,
}
use ghostcrypt_crypto_core.Mls.OpenMls.{Provider, GroupCreateConfig}
use ghostcrypt_crypto_core.Mls.Bundle.{MlsCrates, Loaded, snapshot_store, open_state, save_group}

-- CIPHERSUITE
abbrev pub ciphersuite : String
ciphersuite = "MLS_128_DHKEMX25519_AES128GCM_SHA256_Ed25519"

abbrev pub default_group_create_config : GroupCreateConfig
default_group_create_config = record {
  ciphersuite = ciphersuite;
  use_ratchet_tree_extension = true;
}

module _ {Rng : Type 0} where
  -- A computation with a provider of its own, which has these values at first
  abbrev pub in_provider {ℓ} : {A : Type ℓ} → Dict Bytes Bytes → Exec (Provider Rng) A → Exec Rng A
  in_provider values m rng = let (r, p) = m (record { values = values; rng = rng }) in (r, p.rng)

  abbrev pub on_os_rng {ℓ} : {A : Type ℓ} → Exec Rng A → Exec (Provider Rng) A
  on_os_rng m p = let (r, rng') = m p.rng in (r, record p { rng = rng' })

module _ {Rng : Type 0} (x : MlsCrates Rng) where
  open x.openmls use {
    Signer, CredentialWithKey, Group, group_id, id_bytes, epoch, new_signer, store_signer,
    credential_with_key, build_key_package, key_package_bytes, new_group, key_package_in, validate,
    add_members, remove_members, merge_pending_commit, message_bytes, signer_codec,
    credential_codec,
  }

  -- The new signer of `generate_key_package` and `create_group`, kept in the provider
  unfoldable pub fresh_signer : Exec (Provider Rng) Signer
  fresh_signer = do
    signer ← on_os_rng (attempt key_generation "signature keypair: " (new_signer ciphersuite))
    attempt key_generation "store signer: " (store_signer signer)
    pure signer

  unfoldable pub generate_key_package : Bytes → Exec Rng KeyPackageResult
  generate_key_package identity = in_provider Dict.empty (do
    signer ← fresh_signer
    let credential = credential_with_key identity signer
    kp ←
        attempt key_generation "key package build: "
          (build_key_package ciphersuite signer credential)
    kp_bytes ← lift (wrap_err serialization "key package tls: " (key_package_bytes kp))
    values ← gets (λ p. p.values)
    signer_bytes ← lift (wrap_err serialization "" (signer_codec.to_vec signer))
    credential_bytes ← lift (wrap_err serialization "" (credential_codec.to_vec credential))
    secret_bytes ← lift (
        wrap_err serialization "" (
          x.secret_codec.to_vec (record {
            store = snapshot_store x.base64 values;
            signer = signer_bytes;
            credential_with_key = credential_bytes;
          })))
    pure (record { key_package = kp_bytes; secret_bundle = secret_bytes }))

  -- `save_group(&group, &provider, ..)?`
  unfoldable pub save : Group → Signer → CredentialWithKey → Exec (Provider Rng) Bytes
  save group signer credential p = lift (save_group x group p.values signer credential) p

  -- `create_group` with its new provider
  unfoldable pub create_group_in : Bytes → Exec (Provider Rng) CreateGroupResult
  create_group_in identity = do
    signer ← fresh_signer
    let credential = credential_with_key identity signer
    group ← attempt mls "create group: " (new_group default_group_create_config signer credential)
    state ← save group signer credential
    pure (record { group_state = state; group_id = id_bytes (group_id group); epoch = epoch group })

  unfoldable pub create_group : Bytes → Exec Rng CreateGroupResult
  create_group identity = in_provider Dict.empty (create_group_in identity)

  -- `deserialize_bundle(group_state)?`, `load_group(&bundle)?`, and the rest with its provider
  abbrev pub in_group {ℓ} : {A : Type ℓ} → Bytes → (Loaded x → Exec (Provider Rng) A) → Exec Rng A
  in_group group_state rest = do
    loaded ← lift (open_state x group_state)
    in_provider loaded.values (rest loaded)

  -- `add_member` once the group is loaded
  unfoldable pub add_member_in : Bytes → Loaded x → Exec (Provider Rng) AddMemberResult
  add_member_in key_package g = do
    package_in ←
        lift (wrap_err serialization "key package tls deser: " (key_package_in key_package))
    kp ← lift (wrap_err mls "key package validation: " (validate package_in))
    (commit_msg, welcome_msg, group) ← attempt mls "add_members: " (add_members g.group g.signer kp)
    merged ← attempt mls "merge_pending_commit: " (merge_pending_commit group)
    state ← save merged g.signer g.credential_with_key
    commit ← lift (wrap_err serialization "tls_serialize: " (message_bytes commit_msg))
    welcome ← lift (wrap_err serialization "tls_serialize: " (message_bytes welcome_msg))
    pure (record { commit = commit; welcome = welcome; group_state = state; epoch = epoch merged })

  unfoldable pub add_member : Bytes → Bytes → Exec Rng AddMemberResult
  add_member group_state key_package = in_group group_state (add_member_in key_package)

  -- `remove_member` once the group is loaded
  unfoldable pub remove_member_in : ℕ → Loaded x → Exec (Provider Rng) RemoveMemberResult
  remove_member_in leaf_index g = do
    (commit_msg, group) ←
        attempt mls "remove_members: " (remove_members g.group g.signer leaf_index)
    merged ← attempt mls "merge_pending_commit: " (merge_pending_commit group)
    state ← save merged g.signer g.credential_with_key
    commit ← lift (wrap_err serialization "tls_serialize: " (message_bytes commit_msg))
    pure (record { commit = commit; group_state = state; epoch = epoch merged })

  unfoldable pub remove_member : Bytes → ℕ → Exec Rng RemoveMemberResult
  remove_member group_state leaf_index = in_group group_state (remove_member_in leaf_index)
