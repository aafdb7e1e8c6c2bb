-- ===== src/Crates/Defs.antt =====
-- x25519-dalek, ed25519-dalek, hkdf, hmac, aes-gcm, rand and serde_json, as far as they are called.
use ghostcrypt_crypto_core.Common.{ℕ, Bytes, Bool}
use ghostcrypt_crypto_core.Error.{Fallible}

pub record Crates : Type 1 where
  pub Rng : Type 0
  -- RngCore::fill_bytes on a buffer of that many bytes
  pub fill_bytes : ℕ → Rng → Bytes × Rng
  pub PublicKey : Type 0
  pub StaticSecret : Type 0
  pub SharedSecret : Type 0
  -- PublicKey::from([u8; 32]), PublicKey::as_bytes
  pub public_from_bytes : Bytes → PublicKey
  pub public_bytes : PublicKey → Bytes
  -- StaticSecret::from([u8; 32]), StaticSecret::to_bytes, StaticSecret::random_from_rng
  pub secret_from_bytes : Bytes → StaticSecret
  pub static_secret_bytes : StaticSecret → Bytes
  pub random_secret : Rng → StaticSecret × Rng
  -- PublicKey::from(&StaticSecret)
  pub public_from_secret : StaticSecret → PublicKey
  pub diffie_hellman : StaticSecret → PublicKey → SharedSecret
  pub shared_bytes : SharedSecret → Bytes
  pub SigningKey : Type 0
  pub VerifyingKey : Type 0
  pub generate_signing_key : Rng → SigningKey × Rng
  -- SigningKey::from_bytes, to_bytes, verifying_key, sign (as the signature's bytes)
  pub signing_from_bytes : Bytes → SigningKey
  pub signing_bytes : SigningKey → Bytes
  pub verifying_key_of : SigningKey → VerifyingKey
  pub sign_with : SigningKey → Bytes → Bytes
  -- VerifyingKey::from_bytes, as_bytes, verify(..).is_ok() on a 64-byte signature
  pub verifying_from_bytes : Bytes → Fallible VerifyingKey
  pub verifying_bytes : VerifyingKey → Bytes
  pub verify_with : VerifyingKey → Bytes → Bytes → Bool
  -- Hkdf::<Sha256>::new(Some(salt), ikm).expand(info, output of that length)
  pub hkdf_expand : Bytes → Bytes → Bytes → ℕ → Fallible Bytes
  -- Hmac::<Sha256>::new_from_slice(key), update(message), finalize
  pub hmac : Bytes → Bytes → Fallible Bytes
  pub Cipher : Type 0
  -- Aes256Gcm::new_from_slice, generate_nonce, encrypt and decrypt with nonce, message and aad
  pub cipher_new : Bytes → Fallible Cipher
  pub generate_nonce : Rng → Bytes × Rng
  pub cipher_encrypt : Cipher → Bytes → Bytes → Bytes → Fallible Bytes
  pub cipher_decrypt : Cipher → Bytes → Bytes → Bytes → Fallible Bytes
  -- serde_json::to_vec of a `MessageHeader` with these fields
  pub header_json : Bytes → ℕ → ℕ → Fallible Bytes
