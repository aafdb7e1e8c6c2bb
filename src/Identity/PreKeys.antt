-- ===== src/Identity/PreKeys.antt =====
-- SignedPreKey, OneTimePreKey and KeyBundle of src/identity/keys.rs.
use ghostcrypt_crypto_core.Common.{ℕ, zero, suc, ◌+◌, ◌%◌, ◌^◌, Bytes, Bool, List, [], ◌∷◌}
use ghostcrypt_crypto_core.Error.{Result, ok, ◌>>◌}
use ghostcrypt_crypto_core.Exec.{Exec, pure}
use ghostcrypt_crypto_core.Crates.{Crates}
use ghostcrypt_crypto_core.Identity.Keys.{
  IdentityKeyPair, check_length, sign, verify, verifying_key,
}

pub record SignedPreKey (c : Crates) : Type 0 where
  pub secret_seed : Bytes
  pub x25519_secret : c.StaticSecret
  pub x25519_public : c.PublicKey
  pub signature : Bytes

pub record OneTimePreKey (c : Crates) : Type 0 where
  pub id : ℕ
  pub secret_seed : Bytes
  pub x25519_secret : c.StaticSecret
  pub x25519_public : c.PublicKey

pub record KeyBundle (c : Crates) : Type 0 where
  pub identity_key : c.PublicKey
  pub signed_pre_key : c.PublicKey
  pub signature : Bytes
  pub one_time_pre_keys : List c.PublicKey

module _ (c : Crates) where
  -- SignedPreKey::generate
  unfoldable pub generate_signed : IdentityKeyPair c → Exec c.Rng (SignedPreKey c)
  unfolding sign
  generate_signed identity r =
      let (seed, r') = c.fill_bytes 32 r in
      let x25519_secret = c.secret_from_bytes seed in
      let x25519_public = c.public_from_secret x25519_secret in
      pure
        (record {
          secret_seed = seed;
          x25519_secret = x25519_secret;
          x25519_public = x25519_public;
          signature = sign c identity (c.public_bytes x25519_public);
        })
        r'

  -- SignedPreKey::from_bytes: the public key is taken as given, and not derived from the secret.
  unfoldable pub signed_from_bytes : Bytes → Bytes → Bytes → Result (SignedPreKey c)
  unfolding check_length
  signed_from_bytes secret public signature = do
    check_length "secret must be 32 bytes, got " 32 secret
    check_length "public key must be 32 bytes, got " 32 public
    check_length "signature must be 64 bytes, got " 64 signature
    ok (record {
      secret_seed = secret;
      x25519_secret = c.secret_from_bytes secret;
      x25519_public = c.public_from_bytes public;
      signature = signature;
    })

  unfoldable pub verify_signature : SignedPreKey c → IdentityKeyPair c → Bool
  unfolding verify verifying_key
  verify_signature spk identity =
      verify c (verifying_key c identity) (c.public_bytes spk.x25519_public) spk.signature

  unfoldable pub signed_dh : SignedPreKey c → c.PublicKey → c.SharedSecret
  signed_dh spk their_public = c.diffie_hellman spk.x25519_secret their_public

  -- The closure of `generate_batch` at index i; `i as u32` wraps.
  unfoldable pub generate_one_time : ℕ → c.Rng → OneTimePreKey c × c.Rng
  generate_one_time i r =
      let (seed, r') = c.fill_bytes 32 r in
      let x25519_secret = c.secret_from_bytes seed in
      (
        record {
          id = i % 2 ^ 32;
          secret_seed = seed;
          x25519_secret = x25519_secret;
          x25519_public = c.public_from_secret x25519_secret;
        },
        r',
      )

  -- `(i..i + n).map(..).collect()`
  unfoldable pub generate_from : ℕ → ℕ → c.Rng → List (OneTimePreKey c) × c.Rng
  generate_from i zero r = ([], r)
  generate_from i (suc n) r =
      let (key, r₁) = generate_one_time i r in
      let (rest, r₂) = generate_from (i + 1) n r₁ in (key ∷ rest, r₂)

  -- OneTimePreKey::generate_batch
  unfoldable pub generate_batch : ℕ → c.Rng → List (OneTimePreKey c) × c.Rng
  unfolding generate_from
  generate_batch count r = generate_from 0 count r

  unfoldable pub one_time_dh : OneTimePreKey c → c.PublicKey → c.SharedSecret
  one_time_dh opk their_public = c.diffie_hellman opk.x25519_secret their_public

  -- KeyBundle::new
  unfoldable pub new_bundle : c.PublicKey → c.PublicKey → Bytes → List c.PublicKey → KeyBundle c
  new_bundle identity_key signed_pre_key signature one_time_pre_keys = record {
    identity_key = identity_key;
    signed_pre_key = signed_pre_key;
    signature = signature;
    one_time_pre_keys = one_time_pre_keys;
  }
