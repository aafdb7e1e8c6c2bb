-- ===== src/Wasm/Keys.antt =====
-- src/wasm.rs: new keys.
use ghostcrypt_crypto_core.Common.{ℕ, String, [], ◌∷◌, map, nat_eq}
use ghostcrypt_crypto_core.Common.Dict
use ghostcrypt_crypto_core.Exec.{Call, lift, gets, modify, ◌>>=◌, ◌>>◌}
use ghostcrypt_crypto_core.Identity
use ghostcrypt_crypto_core.Identity.{OneTimePreKey}
use ghostcrypt_crypto_core.Wasm.State.{
  WasmCrates, Instance, find_handle, next_id, on_core, base64_value, answer,
}

module _ (x : WasmCrates) where
  open x use {core, json}

  unfoldable pub generate_identity_keypair : Call (Instance core) String
  generate_identity_keypair = do
    kp ← on_core "" (Identity.generate core)
    handle ← next_id
    modify λ i. record i { identity_keys = Dict.insert i.identity_keys handle kp }
    answer x (
        json.object (
          ("handle", json.number handle)
          ∷ ("public_key", base64_value x (core.public_bytes (Identity.public_key core kp)))
          ∷ (
            "signing_key_public",
            base64_value x (core.verifying_bytes (Identity.verifying_key core kp)),
          )
          ∷ []))

  unfoldable pub generate_signed_pre_key : ℕ → Call (Instance core) String
  generate_signed_pre_key identity_handle = do
    identity_keys ← gets (λ i. i.identity_keys)
    identity ← lift (find_handle "Identity" identity_handle identity_keys)
    spk ← on_core "" (Identity.generate_signed core identity)
    handle ← next_id
    modify λ i. record i { spk_keys = Dict.insert i.spk_keys handle spk }
    answer x (
        json.object (
          ("handle", json.number handle)
          ∷ ("public_key", base64_value x (core.public_bytes spk.x25519_public))
          ∷ ("signature", base64_value x spk.signature)
          ∷ []))

  unfoldable pub generate_one_time_pre_keys : ℕ → Call (Instance core) String
  generate_one_time_pre_keys count i =
      let (otpks, rng') = Identity.generate_batch core count i.rng in
      answer x
        (json.array (
          map
            (λ (otpk : OneTimePreKey core). json.object (
              ("id", json.number otpk.id)
              ∷ ("public_key", base64_value x (core.public_bytes otpk.x25519_public))
              ∷ []))
            otpks))
        (record i { rng = rng' })
