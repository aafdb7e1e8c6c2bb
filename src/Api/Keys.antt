-- ===== src/Api/Keys.antt =====
-- The entry points of src/api.rs that keep no state: keys, X3DH and plain AES-GCM.
use ghostcrypt_crypto_core.Common.{
  ℕ, Bytes, String, text_append, [], List, map, Option, none, some, length, nat_eqb, decimal,
}
use ghostcrypt_crypto_core.Error.{Outcome, ok, err, Fallible, value, failed, guard}
use ghostcrypt_crypto_core.Error
use ghostcrypt_crypto_core.Exec.{Call, pure, lift, print_err, ◌>>=◌, ◌>>◌}
use ghostcrypt_crypto_core.Crates.{Crates}
use ghostcrypt_crypto_core.Aead
use ghostcrypt_crypto_core.Aead.{Encrypted}
use ghostcrypt_crypto_core.Identity
use ghostcrypt_crypto_core.Identity.{OneTimePreKey}
use ghostcrypt_crypto_core.X3dh
use ghostcrypt_crypto_core.X3dh.{PreKeyBundle}
use ghostcrypt_crypto_core.Api.State.{Statics, on_core}

pub record IdentityKeyResult : Type 0 where
  pub identity_secret : Bytes
  pub identity_public : Bytes
  pub signing_secret : Bytes
  pub signing_public : Bytes

pub record SignedPreKeyResult : Type 0 where
  pub secret : Bytes
  pub public_key : Bytes
  pub signature : Bytes

pub record OneTimePreKeyResult : Type 0 where
  pub id : ℕ
  pub public_key : Bytes
  pub secret : Bytes

pub record X3dhInitResult : Type 0 where
  pub shared_secret : Bytes
  pub ephemeral_public : Bytes

pub record X3dhRespondResult : Type 0 where
  pub shared_secret : Bytes

pub record SimpleEncryptResult : Type 0 where
  pub ciphertext : Bytes
  pub nonce : Bytes

-- `if bytes.len() != 32 { return Err(format!("<prefix>{}", bytes.len())) }`
abbrev pub check_32 : String → Bytes → Outcome String (Unit {0})
check_32 prefix bytes =
    guard (nat_eqb (length bytes) 32) (text_append prefix (decimal (length bytes)))

-- `result.map_err(|e| format!("<prefix>{e}"))`
abbrev pub print_failure {ℓ} : {A : Type ℓ} → String → Fallible A → Outcome String A
print_failure prefix (value a) = ok a
print_failure prefix (failed e) = err (text_append prefix e)

module _ (c : Crates) where
  unfoldable pub bytes_to_public_key : Bytes → Outcome String c.PublicKey
  bytes_to_public_key bytes =
      Error.◌>>◌ (check_32 "Expected 32 bytes for public key, got " bytes)
        (ok (c.public_from_bytes bytes))

  unfoldable pub bytes_to_verifying_key : Bytes → Outcome String c.VerifyingKey
  bytes_to_verifying_key bytes =
      Error.◌>>◌ (check_32 "Expected 32 bytes for verifying key, got " bytes)
        (print_failure "Invalid Ed25519 verifying key: " (c.verifying_from_bytes bytes))

  unfoldable pub generate_identity_keypair : Call (Statics c) IdentityKeyResult
  generate_identity_keypair = do
    kp ← on_core (Identity.generate c)
    pure (record {
      identity_secret = Identity.secret_bytes c kp;
      identity_public = c.public_bytes (Identity.public_key c kp);
      signing_secret = Identity.signing_secret_bytes c kp;
      signing_public = c.verifying_bytes (Identity.verifying_key c kp);
    })

  unfoldable pub generate_signed_pre_key : Bytes → Bytes → Call (Statics c) SignedPreKeyResult
  generate_signed_pre_key identity_secret signing_secret = do
    identity ← lift (print_err (Identity.from_bytes c identity_secret signing_secret))
    spk ← on_core (Identity.generate_signed c identity)
    pure (record {
      secret = spk.secret_seed;
      public_key = c.public_bytes spk.x25519_public;
      signature = spk.signature;
    })

  unfoldable pub generate_one_time_pre_keys : ℕ → Call (Statics c) (List OneTimePreKeyResult)
  generate_one_time_pre_keys count g =
      let (keys, rng') = Identity.generate_batch c count g.rng in
      pure
        (map
          (λ (k : OneTimePreKey c). record {
            id = k.id;
            public_key = c.public_bytes k.x25519_public;
            secret = k.secret_seed;
          })
          keys)
        (record g { rng = rng' })

  abbrev pub opk_from_bytes : Option Bytes → Outcome String (Option c.PublicKey)
  opk_from_bytes none = ok none
  opk_from_bytes (some bytes) = Error.◌>>=◌ (bytes_to_public_key bytes) (λ key. ok (some key))

  unfoldable pub x3dh_initiate :
      Bytes → Bytes → Bytes → Bytes → Bytes → Bytes → Option Bytes → Call (Statics c) X3dhInitResult
  x3dh_initiate alice_identity_secret alice_signing_secret bob_identity_public bob_signing_public
        bob_spk_public bob_spk_signature bob_opk_public =
      do
        alice_identity ←
            lift (print_err (Identity.from_bytes c alice_identity_secret alice_signing_secret))
        bob_ik ← lift (bytes_to_public_key bob_identity_public)
        bob_spk ← lift (bytes_to_public_key bob_spk_public)
        bob_vk ← lift (bytes_to_verifying_key bob_signing_public)
        bob_opk ← lift (opk_from_bytes bob_opk_public)
        result ← on_core (
            X3dh.initiate c alice_identity (record {
              identity_key = bob_ik;
              identity_verifying_key = bob_vk;
              signed_pre_key = bob_spk;
              signature = bob_spk_signature;
              one_time_pre_key = bob_opk;
            }))
        pure (record {
          shared_secret = result.shared_secret;
          ephemeral_public = c.public_bytes result.ephemeral_key;
        })

  unfoldable pub x3dh_respond :
      Bytes → Bytes → Bytes → Bytes → Bytes → Bytes → Bytes → Call (Statics c) X3dhRespondResult
  x3dh_respond bob_identity_secret bob_signing_secret bob_spk_secret bob_spk_public
        bob_spk_signature alice_identity_public alice_ephemeral_public =
      do
        bob_identity ←
            lift (print_err (Identity.from_bytes c bob_identity_secret bob_signing_secret))
        bob_spk ← lift (
            print_err
              (Identity.signed_from_bytes c bob_spk_secret bob_spk_public bob_spk_signature))
        alice_ik ← lift (bytes_to_public_key alice_identity_public)
        alice_ek ← lift (bytes_to_public_key alice_ephemeral_public)
        result ← lift (print_err (X3dh.respond c bob_identity bob_spk none alice_ik alice_ek))
        pure (record { shared_secret = result.shared_secret })

  unfoldable pub aes_encrypt : Bytes → Bytes → Call (Statics c) SimpleEncryptResult
  aes_encrypt key plaintext = do
    lift (check_32 "Key must be 32 bytes, got " key)
    encrypted ← on_core (Aead.encrypt c key plaintext [])
    pure (record { ciphertext = encrypted.ciphertext; nonce = encrypted.nonce })

  unfoldable pub aes_decrypt : Bytes → Bytes → Bytes → Call (Statics c) Bytes
  aes_decrypt key ciphertext nonce = do
    lift (check_32 "Key must be 32 bytes, got " key)
    lift (print_err (Aead.decrypt c key (record { nonce = nonce; ciphertext = ciphertext }) []))
