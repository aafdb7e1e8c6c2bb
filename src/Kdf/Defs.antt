-- ===== src/Kdf/Defs.antt =====
-- The functions of src/kdf/mod.rs.
use ghostcrypt_crypto_core.Common.{ℕ, Bytes, [], ◌∷◌}
use ghostcrypt_crypto_core.Error.{Result, ok, key_generation, wrap_err, ◌>>=◌}
use ghostcrypt_crypto_core.Crates.{Crates}

module _ (c : Crates) where
  unfoldable pub derive : Bytes → Bytes → Bytes → ℕ → Result Bytes
  derive ikm salt info length =
      wrap_err key_generation "HKDF expand failed: " (c.hkdf_expand salt ikm info length)

  unfoldable pub hmac_sha256 : Bytes → Bytes → Result Bytes
  hmac_sha256 key message = wrap_err key_generation "HMAC key error: " (c.hmac key message)

  unfoldable pub derive_chain_and_message_key : Bytes → Result (Bytes × Bytes)
  unfolding hmac_sha256
  derive_chain_and_message_key chain_key = do
    new_chain_key ← hmac_sha256 chain_key (0x01 ∷ [])
    message_key ← hmac_sha256 chain_key (0x02 ∷ [])
    ok (new_chain_key, message_key)
