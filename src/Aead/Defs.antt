-- ===== src/Aead/Defs.antt =====
-- The type and the functions of src/aead/mod.rs. A key is a `[u8; 32]` there.
use ghostcrypt_crypto_core.Common.{Bytes, length, nat_eqb, if◌then◌else◌}
use ghostcrypt_crypto_core.Error.{Result, panic, encryption, decryption, wrap_err}
use ghostcrypt_crypto_core.Error
use ghostcrypt_crypto_core.Exec.{Exec, pure, lift, ◌>>=◌}
use ghostcrypt_crypto_core.Crates.{Crates}

pub record Encrypted : Type 0 where
  pub nonce : Bytes
  pub ciphertext : Bytes

module _ (c : Crates) where
  open c use {Rng, Cipher, cipher_new, cipher_encrypt, cipher_decrypt}

  -- Aes256Gcm::generate_nonce(&mut OsRng)
  draw_nonce : Exec Rng Bytes
  draw_nonce r = let (nonce, r') = c.generate_nonce r in pure nonce r'

  unfoldable pub encrypt : Bytes → Bytes → Bytes → Exec Rng Encrypted
  unfolding draw_nonce
  encrypt key plaintext associated_data = do
    cipher ← lift (wrap_err encryption "Invalid key: " (cipher_new key))
    nonce ← draw_nonce
    ciphertext ← lift (
        wrap_err encryption "Encryption failed: "
          (cipher_encrypt cipher nonce plaintext associated_data))
    pure (record { nonce = nonce; ciphertext = ciphertext })

  -- `Nonce::from_slice` panics unless the slice has 12 bytes.
  open_with : Encrypted → Bytes → Cipher → Result Bytes
  open_with encrypted associated_data cipher =
      if nat_eqb (length encrypted.nonce) 12
      then wrap_err decryption "Decryption failed: "
          (cipher_decrypt cipher encrypted.nonce encrypted.ciphertext associated_data)
      else panic

  unfoldable pub decrypt : Bytes → Encrypted → Bytes → Result Bytes
  unfolding open_with
  decrypt key encrypted associated_data =
      Error.◌>>=◌ (wrap_err decryption "Invalid key: " (cipher_new key))
        (open_with encrypted associated_data)
