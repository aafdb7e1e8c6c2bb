-- ===== src/X3dh/Agreement.antt =====
-- Both sides of X3DH derive one secret, and an unauthentic signed pre-key is rejected.
use ghostcrypt_crypto_core.Common.{◌≡◌, ◌↔◌, refl, ap, ◌∙◌, true, length, Option, none, some, arith}
use ghostcrypt_crypto_core.Error.{ok, >>=-eq-ok}
use ghostcrypt_crypto_core.Crates.{Crates, X25519Laws, KdfLaws}
use ghostcrypt_crypto_core.Kdf.{derive, derive_total}
use ghostcrypt_crypto_core.Identity
use ghostcrypt_crypto_core.Identity.{
  IdentityKeyPair, SignedPreKey, OneTimePreKey, verify, verifying_key, verify_signature,
}
use ghostcrypt_crypto_core.Identity.Laws.{IsIdentity, IsSigned, IsOneTimeIfAny}
use ghostcrypt_crypto_core.X3dh.Defs.{
  PreKeyBundle, X3dhResult, initiate, initiate_with, respond, initiator_secrets, initiator_dh4,
  responder_dh4, x3dh_salt, x3dh_info,
}

module _ {c : Crates} where
  abbrev one_time_public : Option (OneTimePreKey c) → Option c.PublicKey
  one_time_public none = none
  one_time_public (some opk) = some opk.x25519_public

  -- The bundle that a server hands out for an honest owner
  unfoldable pub published :
      IdentityKeyPair c → SignedPreKey c → Option (OneTimePreKey c) → PreKeyBundle c
  unfolding verifying_key
  published bob spk opk = record {
    identity_key = bob.x25519_public;
    identity_verifying_key = verifying_key c bob;
    signed_pre_key = spk.x25519_public;
    signature = spk.signature;
    one_time_pre_key = one_time_public opk;
  }

module _ (c : Crates) (laws : X25519Laws c) where
  dh4-agrees :
      (e : c.StaticSecret) (opk : Option (OneTimePreKey c))
      → IsOneTimeIfAny opk
      → initiator_dh4 c e (one_time_public opk) ≡ responder_dh4 c opk (c.public_from_secret e)
  unfolding Identity.one_time_dh
  dh4-agrees e none h = refl
  dh4-agrees e (some k) h = rw (h.paired, laws.exchange e k.x25519_secret)

  -- The responder computes the initiator's result, for each ephemeral secret.
  pub respond-initiate_with :
      (alice bob : IdentityKeyPair c) (spk : SignedPreKey c) (opk : Option (OneTimePreKey c))
      (e : c.StaticSecret)
      → IsIdentity alice
      → IsIdentity bob
      → IsSigned spk
      → IsOneTimeIfAny opk
      → respond c bob spk opk alice.x25519_public (c.public_from_secret e)
        ≡ initiate_with c alice (published bob spk opk) e
  unfolding respond initiate_with initiator_secrets published Identity.dh Identity.signed_dh
  respond-initiate_with alice bob spk opk e ia ib is io = rw (
    dh4-agrees e opk io,
    ia.paired,
    ib.paired,
    is.paired,
    laws.exchange alice.x25519_secret spk.x25519_secret,
    laws.exchange e bob.x25519_secret,
    laws.exchange e spk.x25519_secret,
  )

  pub ephemeral-initiate_with :
      (alice : IdentityKeyPair c) (bundle : PreKeyBundle c) (e : c.StaticSecret)
      (result : X3dhResult c)
      → initiate_with c alice bundle e ≡ ok result
      → result.ephemeral_key ≡ c.public_from_secret e
  unfolding initiate_with
  ephemeral-initiate_with alice bundle e result h =
      let (secret, _, p) =
        >>=-eq-ok (derive c (initiator_secrets c alice bundle e) x3dh_salt x3dh_info 32) _ h in
      cc p

  -- A successful run of `initiate` is one of its second part, at the secret that it drew.
  pub initiate-inversion :
      (alice : IdentityKeyPair c) (bundle : PreKeyBundle c) (rng rng' : c.Rng)
      (result : X3dhResult c)
      → initiate c alice bundle rng ≡ (ok result, rng')
      → initiate_with c alice bundle (c.random_secret rng).0 ≡ ok result
  unfolding initiate
  initiate-inversion alice bundle rng rng' result h = ground arith

  -- Whatever `initiate` returns for a published bundle, with or without a one-time pre-key,
  -- `respond` computes too, from the owner's secrets, the initiator's identity key and the
  -- ephemeral key. Each key pair is the pair of its seed.
  pub respond-initiate :
      (alice bob : IdentityKeyPair c) (spk : SignedPreKey c) (opk : Option (OneTimePreKey c))
      (rng rng' : c.Rng) (result : X3dhResult c)
      → IsIdentity alice
      → IsIdentity bob
      → IsSigned spk
      → IsOneTimeIfAny opk
      → initiate c alice (published bob spk opk) rng ≡ (ok result, rng')
      → respond c bob spk opk alice.x25519_public result.ephemeral_key ≡ ok result
  respond-initiate alice bob spk opk rng rng' result ia ib is io h =
      let bundle = published bob spk opk in
      let e = (c.random_secret rng).0 in
      let run = initiate-inversion alice bundle rng rng' result h in
      ap (respond c bob spk opk alice.x25519_public)
        (ephemeral-initiate_with alice bundle e result run)
      ∙ respond-initiate_with alice bob spk opk e ia ib is io
      ∙ run

module _ (c : Crates) (laws : KdfLaws c) where
  initiate_with_total :
      (alice : IdentityKeyPair c) (bundle : PreKeyBundle c) (e : c.StaticSecret)
      → (result : X3dhResult c) × (initiate_with c alice bundle e ≡ ok result)
        × (length result.shared_secret ≡ 32)
        × (result.ephemeral_key ≡ c.public_from_secret e)
  unfolding initiate_with
  initiate_with_total alice bundle e =
      let (t, p, l) =
        derive_total c laws (initiator_secrets c alice bundle e) x3dh_salt x3dh_info 32
          (omega arith) in
      (record { shared_secret = t; ephemeral_key = c.public_from_secret e }, rw p, l, refl)

  -- `initiate` succeeds, with a 32-byte secret, exactly when the signed pre-key's signature
  -- verifies under the bundle's identity key.
  pub initiate-ok_iff :
      (alice : IdentityKeyPair c) (bundle : PreKeyBundle c) (rng : c.Rng)
      → ((result : X3dhResult c) × (rng' : c.Rng) × (initiate c alice bundle rng
            ≡ (ok result, rng'))
          × (length result.shared_secret ≡ 32))
        ↔ (verify c bundle.identity_verifying_key
              (c.public_bytes bundle.signed_pre_key)
              bundle.signature
            ≡ true)
  unfolding initiate
  initiate-ok_iff alice bundle rng = (
    λ (result, rng', run, l). ground arith,
    λ verified.
        let e = (c.random_secret rng).0 in
        let (result, run, l, _) = initiate_with_total alice bundle e in
        (result, (c.random_secret rng).1, rw (verified, run), l),
  )
