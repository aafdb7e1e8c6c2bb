-- ===== src/Identity/Keys.antt =====
-- IdentityKeyPair of src/identity/keys.rs.
use ghostcrypt_crypto_core.Common.{
  ℕ, Bytes, Bool, false, String, text_append, length, nat_eqb, decimal, if◌then◌else◌,
}
use ghostcrypt_crypto_core.Error.{Result, ok, invalid_key, guard, ◌>>◌}
use ghostcrypt_crypto_core.Exec.{Exec, pure}
use ghostcrypt_crypto_core.Crates.{Crates}

pub record IdentityKeyPair (c : Crates) : Type 0 where
  pub secret_seed : Bytes
  pub x25519_secret : c.StaticSecret
  pub x25519_public : c.PublicKey
  pub signing_key : c.SigningKey

-- `if bytes.len() != n { return Err(InvalidKey(format!("... must be n bytes, got {}"))) }`
unfoldable pub check_length : String → ℕ → Bytes → Result (Unit {0})
check_length prefix n bytes =
    guard (nat_eqb (length bytes) n) (invalid_key (text_append prefix (decimal (length bytes))))

module _ (c : Crates) where
  -- The key pair of a seed and a signing key, as both constructors build it.
  abbrev pub from_seed : Bytes → c.SigningKey → IdentityKeyPair c
  from_seed seed signing_key =
      let x25519_secret = c.secret_from_bytes seed in
      record {
        secret_seed = seed;
        x25519_secret = x25519_secret;
        x25519_public = c.public_from_secret x25519_secret;
        signing_key = signing_key;
      }

  unfoldable pub generate : Exec c.Rng (IdentityKeyPair c)
  generate r =
      let (seed, r₁) = c.fill_bytes 32 r in
      let (signing_key, r₂) = c.generate_signing_key r₁ in pure (from_seed seed signing_key) r₂

  unfoldable pub secret_bytes : IdentityKeyPair c → Bytes
  secret_bytes k = k.secret_seed

  unfoldable pub signing_secret_bytes : IdentityKeyPair c → Bytes
  signing_secret_bytes k = c.signing_bytes k.signing_key

  unfoldable pub from_bytes : Bytes → Bytes → Result (IdentityKeyPair c)
  unfolding check_length
  from_bytes identity_secret signing_secret = do
    check_length "identity secret must be 32 bytes, got " 32 identity_secret
    check_length "signing secret must be 32 bytes, got " 32 signing_secret
    ok (from_seed identity_secret (c.signing_from_bytes signing_secret))

  unfoldable pub public_key : IdentityKeyPair c → c.PublicKey
  public_key k = k.x25519_public

  unfoldable pub verifying_key : IdentityKeyPair c → c.VerifyingKey
  verifying_key k = c.verifying_key_of k.signing_key

  unfoldable pub dh : IdentityKeyPair c → c.PublicKey → c.SharedSecret
  dh k their_public = c.diffie_hellman k.x25519_secret their_public

  unfoldable pub sign : IdentityKeyPair c → Bytes → Bytes
  sign k message = c.sign_with k.signing_key message

  unfoldable pub verify : c.VerifyingKey → Bytes → Bytes → Bool
  verify verifying_key message signature =
      if nat_eqb (length signature) 64 then c.verify_with verifying_key message signature else false
