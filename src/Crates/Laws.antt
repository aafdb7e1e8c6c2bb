-- ===== src/Crates/Laws.antt =====
-- What the theorems rely on of the crates: documented behaviour, as hypotheses.
use ghostcrypt_crypto_core.Common.{ℕ, ◌≤◌, ◌≡◌, Bytes, length, true}
use ghostcrypt_crypto_core.Error.{value}
use ghostcrypt_crypto_core.Crates.Defs.{Crates}

-- X25519: keys are 32 bytes, and both sides of an exchange compute one secret.
pub record X25519Laws (c : Crates) : Type 0 where
  pub length-public : (k : c.PublicKey) → length (c.public_bytes k) ≡ 32
  pub from-public : (k : c.PublicKey) → c.public_from_bytes (c.public_bytes k) ≡ k
  pub from-secret : (s : c.StaticSecret) → c.secret_from_bytes (c.static_secret_bytes s) ≡ s
  pub exchange :
      (a b : c.StaticSecret)
      → c.diffie_hellman a (c.public_from_secret b) ≡ c.diffie_hellman b (c.public_from_secret a)

-- HMAC takes a key of any length; HKDF fills any output of at most 255 blocks of 32 bytes.
pub record KdfLaws (c : Crates) : Type 0 where
  pub hmac_total :
      (key message : Bytes) → (t : Bytes) × (c.hmac key message ≡ value t) × (length t ≡ 32)
  pub hkdf_total :
      (salt ikm info : Bytes) (n : ℕ)
      → n ≤ 8160
      → (t : Bytes) × (c.hkdf_expand salt ikm info n ≡ value t) × (length t ≡ n)

-- AES-256-GCM: nonces are 12 bytes, and decryption undoes encryption.
pub record AeadLaws (c : Crates) : Type 0 where
  pub length-nonce : (r : c.Rng) → length (c.generate_nonce r).0 ≡ 12
  pub decrypt-encrypt :
      (k : c.Cipher) (nonce message aad sealed : Bytes)
      → c.cipher_encrypt k nonce message aad ≡ value sealed
      → c.cipher_decrypt k nonce sealed aad ≡ value message

-- Ed25519: signatures are 64 bytes, and the signer's own verify.
pub record SignatureLaws (c : Crates) : Type 0 where
  pub length-signature : (k : c.SigningKey) (m : Bytes) → length (c.sign_with k m) ≡ 64
  pub verify-sign :
      (k : c.SigningKey) (m : Bytes)
      → c.verify_with (c.verifying_key_of k) m (c.sign_with k m) ≡ true
