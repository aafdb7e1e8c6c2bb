-- ===== src/X3dh/Defs.antt =====
-- src/x3dh/bundle.rs and src/x3dh/mod.rs.
use ghostcrypt_crypto_core.Common.{ℕ, Bytes, ◌++◌, Option, none, some, codes}
use ghostcrypt_crypto_core.Error.{Result, ok, invalid_signature, guard, ◌>>=◌}
use ghostcrypt_crypto_core.Exec
use ghostcrypt_crypto_core.Exec.{Exec, pure, lift}
use ghostcrypt_crypto_core.Crates.{Crates}
use ghostcrypt_crypto_core.Kdf.{derive}
use ghostcrypt_crypto_core.Identity
use ghostcrypt_crypto_core.Identity.{IdentityKeyPair, SignedPreKey, OneTimePreKey, verify}

pub record PreKeyBundle (c : Crates) : Type 0 where
  pub identity_key : c.PublicKey
  pub identity_verifying_key : c.VerifyingKey
  pub signed_pre_key : c.PublicKey
  pub signature : Bytes
  pub one_time_pre_key : Option c.PublicKey

pub record X3dhResult (c : Crates) : Type 0 where
  pub shared_secret : Bytes
  pub ephemeral_key : c.PublicKey

abbrev pub x3dh_salt : Bytes
x3dh_salt = codes "GhostCrypt_X3DH"

abbrev pub x3dh_info : Bytes
x3dh_info = codes "X3DH_shared_secret"

abbrev pub shared_secret_len : ℕ
shared_secret_len = 32

module _ (c : Crates) where
  -- `extend_from_slice` of the shared secrets, the fourth only if there is one
  abbrev pub concat_secrets :
      c.SharedSecret → c.SharedSecret → c.SharedSecret → Option c.SharedSecret → Bytes
  concat_secrets dh1 dh2 dh3 none = c.shared_bytes dh1 ++ (c.shared_bytes dh2 ++ c.shared_bytes dh3)
  concat_secrets dh1 dh2 dh3 (some dh4) =
      c.shared_bytes dh1 ++ (c.shared_bytes dh2 ++ (c.shared_bytes dh3 ++ c.shared_bytes dh4))

  abbrev pub derive_shared : c.PublicKey → Bytes → Result (X3dhResult c)
  derive_shared ephemeral_key dh_concat = do
    shared_secret ← derive c dh_concat x3dh_salt x3dh_info shared_secret_len
    ok (record { shared_secret = shared_secret; ephemeral_key = ephemeral_key })

  abbrev pub initiator_dh4 : c.StaticSecret → Option c.PublicKey → Option c.SharedSecret
  initiator_dh4 ephemeral_secret none = none
  initiator_dh4 ephemeral_secret (some opk) = some (c.diffie_hellman ephemeral_secret opk)

  -- `dh_concat` of the initiator
  unfoldable pub initiator_secrets : IdentityKeyPair c → PreKeyBundle c → c.StaticSecret → Bytes
  initiator_secrets alice_identity bob_bundle ephemeral_secret =
      let dh1 = Identity.dh c alice_identity bob_bundle.signed_pre_key in
      let dh2 = c.diffie_hellman ephemeral_secret bob_bundle.identity_key in
      let dh3 = c.diffie_hellman ephemeral_secret bob_bundle.signed_pre_key in
      let dh4 = initiator_dh4 ephemeral_secret bob_bundle.one_time_pre_key in
      concat_secrets dh1 dh2 dh3 dh4

  -- What follows the check of the signature and the draw of the ephemeral secret
  unfoldable pub initiate_with :
      IdentityKeyPair c → PreKeyBundle c → c.StaticSecret → Result (X3dhResult c)
  initiate_with alice_identity bob_bundle ephemeral_secret =
      derive_shared (c.public_from_secret ephemeral_secret)
        (initiator_secrets alice_identity bob_bundle ephemeral_secret)

  unfoldable pub initiate : IdentityKeyPair c → PreKeyBundle c → Exec c.Rng (X3dhResult c)
  initiate alice_identity bob_bundle =
      Exec.◌>>◌
        (lift (
          guard
            (verify c bob_bundle.identity_verifying_key (c.public_bytes bob_bundle.signed_pre_key)
              bob_bundle.signature)
            (invalid_signature "signed pre-key signature failed verification")))
        λ r.
          let (ephemeral_secret, r') = c.random_secret r in
          lift (initiate_with alice_identity bob_bundle ephemeral_secret) r'

  abbrev pub responder_dh4 : Option (OneTimePreKey c) → c.PublicKey → Option c.SharedSecret
  responder_dh4 none alice_ephemeral_pub = none
  responder_dh4 (some opk) alice_ephemeral_pub =
      some (Identity.one_time_dh c opk alice_ephemeral_pub)

  unfoldable pub respond :
      IdentityKeyPair c
      → SignedPreKey c
      → Option (OneTimePreKey c)
      → c.PublicKey
      → c.PublicKey
      → Result (X3dhResult c)
  respond bob_identity bob_spk bob_opk alice_identity_pub alice_ephemeral_pub =
      let dh1 = Identity.signed_dh c bob_spk alice_identity_pub in
      let dh2 = Identity.dh c bob_identity alice_ephemeral_pub in
      let dh3 = Identity.signed_dh c bob_spk alice_ephemeral_pub in
      let dh4 = responder_dh4 bob_opk alice_ephemeral_pub in
      derive_shared alice_ephemeral_pub (concat_secrets dh1 dh2 dh3 dh4)
