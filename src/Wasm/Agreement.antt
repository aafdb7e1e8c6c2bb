-- ===== src/Wasm/Agreement.antt =====
-- src/wasm.rs: X3DH, with the identity and the signed pre-key behind handles.
use ghostcrypt_crypto_core.Common.{ℕ, String, Option, none, some, [], ◌∷◌}
use ghostcrypt_crypto_core.Error.{Outcome, ok}
use ghostcrypt_crypto_core.Error
use ghostcrypt_crypto_core.Exec.{Call, lift, gets, ◌>>=◌, ◌>>◌}
use ghostcrypt_crypto_core.X3dh
use ghostcrypt_crypto_core.X3dh.{PreKeyBundle}
use ghostcrypt_crypto_core.Wasm.State.{
  WasmCrates, Instance, find_handle, check_32, js_error, core_error, on_core, from_base64,
  str_field, base64_value, answer,
}

module _ (x : WasmCrates) where
  open x use {core, json}

  -- `if let Some(opk_b64) = one_time_pre_key_b64 { .. } else { None }`
  unfoldable pub read_opk : Option String → Outcome String (Option core.PublicKey)
  read_opk none = ok none
  read_opk (some opk_b64) = Error.◌>>=◌ (from_base64 x "one_time_pre_key" opk_b64) λ opk_bytes.
      Error.◌>>◌ (check_32 "one_time_pre_key must be 32 bytes" opk_bytes)
        (ok (some (core.public_from_bytes opk_bytes)))

  -- The part of `x3dh_initiate` that reads the bundle
  unfoldable pub read_bundle : String → Outcome String (PreKeyBundle core)
  read_bundle bob_bundle_json =
      Error.◌>>=◌ (js_error "Invalid bundle JSON: " (json.from_str bob_bundle_json)) λ v.
        Error.◌>>=◌ (str_field x "bundle" v "identity_key") λ identity_key_b64.
          Error.◌>>=◌ (str_field x "bundle" v "signed_pre_key") λ signed_pre_key_b64.
            Error.◌>>=◌ (str_field x "bundle" v "signature") λ signature_b64.
              Error.◌>>=◌ (str_field x "bundle" v "identity_verifying_key")
                λ identity_verifying_key_b64.
                  Error.◌>>=◌ (from_base64 x "identity_key" identity_key_b64) λ ik_bytes.
                    Error.◌>>=◌ (from_base64 x "signed_pre_key" signed_pre_key_b64) λ spk_bytes.
                      Error.◌>>=◌ (from_base64 x "signature" signature_b64) λ sig_bytes.
                        Error.◌>>=◌
                          (from_base64 x "identity_verifying_key" identity_verifying_key_b64)
                          λ vk_bytes.
                            Error.◌>>◌ (check_32 "identity_key must be 32 bytes" ik_bytes) (
                              Error.◌>>◌ (check_32 "signed_pre_key must be 32 bytes" spk_bytes) (
                                Error.◌>>◌
                                  (check_32 "identity_verifying_key must be 32 bytes" vk_bytes)
                                  (Error.◌>>=◌
                                    (js_error "Invalid identity_verifying_key: "
                                      (core.verifying_from_bytes vk_bytes))
                                    λ bob_vk.
                                      Error.◌>>=◌
                                        (read_opk (json.as_str (json.index v "one_time_pre_key")))
                                        λ bob_opk. ok (record {
                                          identity_key = core.public_from_bytes ik_bytes;
                                          identity_verifying_key = bob_vk;
                                          signed_pre_key = core.public_from_bytes spk_bytes;
                                          signature = sig_bytes;
                                          one_time_pre_key = bob_opk;
                                        }))))

  unfoldable pub x3dh_initiate : ℕ → String → Call (Instance core) String
  x3dh_initiate identity_handle bob_bundle_json = do
    bundle ← lift (read_bundle bob_bundle_json)
    identity_keys ← gets (λ i. i.identity_keys)
    identity ← lift (find_handle "Identity" identity_handle identity_keys)
    result ← on_core "X3DH initiate failed: " (X3dh.initiate core identity bundle)
    answer x (
        json.object (
          ("shared_secret", base64_value x result.shared_secret)
          ∷ ("ephemeral_key", base64_value x (core.public_bytes result.ephemeral_key))
          ∷ []))

  unfoldable pub x3dh_respond : ℕ → ℕ → String → String → Call (Instance core) String
  x3dh_respond identity_handle spk_handle alice_identity_key_b64 alice_ephemeral_key_b64 = do
    alice_ik_bytes ← lift (from_base64 x "alice_identity_key" alice_identity_key_b64)
    alice_ek_bytes ← lift (from_base64 x "alice_ephemeral_key" alice_ephemeral_key_b64)
    lift (check_32 "alice_identity_key must be 32 bytes" alice_ik_bytes)
    lift (check_32 "alice_ephemeral_key must be 32 bytes" alice_ek_bytes)
    i ← gets (λ i. i)
    identity ← lift (find_handle "Identity" identity_handle i.identity_keys)
    spk ← lift (find_handle "SPK" spk_handle i.spk_keys)
    result ← lift (
        core_error "X3DH respond failed: " (
          X3dh.respond core identity spk none (core.public_from_bytes alice_ik_bytes)
            (core.public_from_bytes alice_ek_bytes)))
    answer x (json.object (("shared_secret", base64_value x result.shared_secret) ∷ []))
