-- ===== src/Pqc/Defs.antt =====
-- The functions of src/pqc/hybrid_kem.rs, over ML-KEM-768 as a parameter.
use ghostcrypt_crypto_core.Common.{
  ℕ, ◌≡◌, Bytes, ◌++◌, String, text_append, codes, decimal, length, nat_eqb,
}
use ghostcrypt_crypto_core.Error.{
  Result, ok, err, invalid_key, key_exchange, Fallible, value, guard, wrap_err,
}
use ghostcrypt_crypto_core.Error
use ghostcrypt_crypto_core.Exec.{Exec, pure, lift, ◌>>=◌, ◌>>◌}
use ghostcrypt_crypto_core.Crates.{Crates}
use ghostcrypt_crypto_core.Kdf.{derive}

abbrev pub mlkem_public_key_len : ℕ
mlkem_public_key_len = 1184

abbrev pub mlkem_secret_key_len : ℕ
mlkem_secret_key_len = 2400

abbrev pub mlkem_ciphertext_len : ℕ
mlkem_ciphertext_len = 1088

-- ml-kem's MlKem768, with keys and ciphertexts as bytes: generate gives the encapsulation and the
-- decapsulation key, encapsulate the ciphertext and the secret.
pub record MlKem (Rng : Type 0) : Type 0 where
  pub generate : Rng → (Bytes × Bytes) × Rng
  pub encapsulate_to : Bytes → Rng → Fallible (Bytes × Bytes) × Rng
  pub decapsulate_with : Bytes → Bytes → Fallible Bytes

-- What FIPS 203 and the crate document: the sizes, that encapsulation to a generated key succeeds
-- and that decapsulation then gives the same secret.
pub record MlKemLaws {Rng : Type 0} (kem : MlKem Rng) : Type 0 where
  pub length-public : (r : Rng) → length (kem.generate r).0.0 ≡ mlkem_public_key_len
  pub length-secret : (r : Rng) → length (kem.generate r).0.1 ≡ mlkem_secret_key_len
  pub agree :
      (r r' : Rng)
      → (ct : Bytes) × (ss : Bytes) × ((kem.encapsulate_to (kem.generate r).0.0 r').0
          ≡ value (ct, ss))
        × (length ct ≡ mlkem_ciphertext_len)
        × (kem.decapsulate_with (kem.generate r).0.1 ct ≡ value ss)

pub record HybridKeyPair : Type 0 where
  pub x25519_public : Bytes
  pub x25519_secret : Bytes
  pub mlkem_public : Bytes
  pub mlkem_secret : Bytes

pub record HybridEncapsulation : Type 0 where
  pub x25519_ephemeral_public : Bytes
  pub mlkem_ciphertext : Bytes
  pub shared_secret : Bytes

-- `bytes.try_into().map_err(|_| InvalidKey(format!("<what> must be {n} bytes, got {}", ..)))?`
abbrev pub check_size : String → ℕ → Bytes → Result (Unit {0})
check_size what n bytes = guard (nat_eqb (length bytes) n) (
    invalid_key (
      text_append what (
        text_append " must be "
          (text_append (decimal n) (text_append " bytes, got " (decimal (length bytes)))))))

module _ (c : Crates) (kem : MlKem c.Rng) where
  unfoldable pub generate_kem_keypair : Exec c.Rng (Bytes × Bytes)
  generate_kem_keypair r = let (keys, r') = kem.generate r in pure keys r'

  unfoldable pub encapsulate : Bytes → Exec c.Rng (Bytes × Bytes)
  encapsulate recipient_public_key =
      lift (check_size "ML-KEM public key" mlkem_public_key_len recipient_public_key) >> λ r.
      let (out, r') = kem.encapsulate_to recipient_public_key r in
      (wrap_err key_exchange "ML-KEM encapsulation failed: " out, r')

  unfoldable pub decapsulate : Bytes → Bytes → Result Bytes
  decapsulate secret_key ciphertext =
      Error.◌>>◌ (check_size "ML-KEM secret key" mlkem_secret_key_len secret_key) (
        Error.◌>>◌ (check_size "ML-KEM ciphertext" mlkem_ciphertext_len ciphertext) (
          wrap_err key_exchange "ML-KEM decapsulation failed: "
            (kem.decapsulate_with secret_key ciphertext)))

  unfoldable pub hybrid_shared_secret : Bytes → Bytes → Result Bytes
  hybrid_shared_secret x25519_shared mlkem_shared =
      derive c (x25519_shared ++ mlkem_shared) (codes "GhostCrypt_Hybrid_PQ")
        (codes "hybrid_shared_secret") 32

  unfoldable pub generate_hybrid_keypair : Exec c.Rng HybridKeyPair
  generate_hybrid_keypair r =
      let (x25519_secret, r₁) = c.random_secret r in
      (generate_kem_keypair >>= λ keys. pure (record {
        x25519_public = c.public_bytes (c.public_from_secret x25519_secret);
        x25519_secret = c.static_secret_bytes x25519_secret;
        mlkem_public = keys.0;
        mlkem_secret = keys.1;
      }))
        r₁

  -- The X25519 part of both sides: our secret's bytes, their public key's bytes
  abbrev pub x25519_shared_bytes : Bytes → Bytes → Bytes
  x25519_shared_bytes our_x25519_secret their_x25519_public = c.shared_bytes (
      c.diffie_hellman (c.secret_from_bytes our_x25519_secret)
        (c.public_from_bytes their_x25519_public))

  unfoldable pub hybrid_encapsulate : Bytes → Bytes → Bytes → Exec c.Rng HybridEncapsulation
  hybrid_encapsulate our_x25519_secret their_x25519_public their_mlkem_public = do
    (mlkem_ct, mlkem_shared) ← encapsulate their_mlkem_public
    hybrid ← lift (
        hybrid_shared_secret (x25519_shared_bytes our_x25519_secret their_x25519_public)
          mlkem_shared)
    pure (record {
      x25519_ephemeral_public =
          c.public_bytes (c.public_from_secret (c.secret_from_bytes our_x25519_secret));
      mlkem_ciphertext = mlkem_ct;
      shared_secret = hybrid;
    })

  unfoldable pub hybrid_decapsulate : Bytes → Bytes → Bytes → Bytes → Result Bytes
  hybrid_decapsulate our_x25519_secret their_x25519_public our_mlkem_secret mlkem_ciphertext =
      Error.◌>>=◌ (decapsulate our_mlkem_secret mlkem_ciphertext)
        (hybrid_shared_secret (x25519_shared_bytes our_x25519_secret their_x25519_public))
