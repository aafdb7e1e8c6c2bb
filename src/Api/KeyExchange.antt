-- ===== src/Api/KeyExchange.antt =====
-- X3DH through the entry points of src/api.rs, on bytes.
use ghostcrypt_crypto_core.Common.{◌≡◌, refl, sym, ◌∙◌, Bytes, none, length, arith}
use ghostcrypt_crypto_core.Error.{ok}
use ghostcrypt_crypto_core.Exec.{print_err, print_err-ok, continue-ok, ok-injective}
use ghostcrypt_crypto_core.Crates.{Crates, X25519Laws}
use ghostcrypt_crypto_core.Identity.{
  IdentityKeyPair, SignedPreKey, from_seed, from_bytes, signed_from_bytes, check_length,
}
use ghostcrypt_crypto_core.X3dh.{
  PreKeyBundle, X3dhResult, initiate, initiate_with, initiator_secrets,
}
use ghostcrypt_crypto_core.X3dh.Agreement.{
  published, respond-initiate_with, ephemeral-initiate_with, initiate-inversion,
}
use ghostcrypt_crypto_core.Api.State.{Statics}
use ghostcrypt_crypto_core.Api.Keys.{
  X3dhInitResult, x3dh_initiate, x3dh_respond, bytes_to_public_key, bytes_to_verifying_key,
}

module _ (c : Crates) (x25519 : X25519Laws c) where
  -- The public key's bytes of a secret's bytes
  abbrev pub public_of : Bytes → Bytes
  public_of secret = c.public_bytes (c.public_from_secret (c.secret_from_bytes secret))

  abbrev pre_key : Bytes → Bytes → SignedPreKey c
  pre_key secret signature = record {
    secret_seed = secret;
    x25519_secret = c.secret_from_bytes secret;
    x25519_public = c.public_from_secret (c.secret_from_bytes secret);
    signature = signature;
  }

  public-of_bytes :
      (secret : Bytes) {k : c.PublicKey}
      → bytes_to_public_key c (public_of secret) ≡ ok k
      → k ≡ c.public_from_secret (c.secret_from_bytes secret)
  unfolding bytes_to_public_key
  public-of_bytes secret h =
      ground (arith, h, x25519.from-public (c.public_from_secret (c.secret_from_bytes secret)))

  from_bytes-value :
      (secret signing : Bytes) {k : IdentityKeyPair c}
      → from_bytes c secret signing ≡ ok k
      → k ≡ from_seed c secret (c.signing_from_bytes signing)
  unfolding from_bytes check_length
  from_bytes-value secret signing h = ground arith

  -- A successful run of `x3dh_initiate` without a one-time key is one of `initiate_with` on the
  -- bundle of the responder's keys.
  x3dh_initiate-inversion :
      (alice_secret alice_signing bob_vk spk_secret signature : Bytes) (bob : IdentityKeyPair c)
      (bob_secret : Bytes) (g g' : Statics c) (r : X3dhInitResult)
      → bob.x25519_public ≡ c.public_from_secret (c.secret_from_bytes bob_secret)
      → x3dh_initiate c alice_secret alice_signing
          (public_of bob_secret)
          bob_vk
          (public_of spk_secret)
          signature
          none
          g
        ≡ (ok r, g')
      → (result : X3dhResult c) × (initiate_with c
            (from_seed c alice_secret (c.signing_from_bytes alice_signing))
            (published bob (pre_key spk_secret signature) none)
            (c.random_secret g.rng).0
          ≡ ok result)
        × (r ≡ record {
          shared_secret = result.shared_secret;
          ephemeral_public = c.public_bytes result.ephemeral_key;
        })
  unfolding x3dh_initiate published initiate_with initiator_secrets
  x3dh_initiate-inversion alice_secret alice_signing bob_vk spk_secret signature bob bob_secret g g'
        r b h =
      let (alice, p₁, h₁) =
        continue-ok (print_err (from_bytes c alice_secret alice_signing)) _ g h in
      let (ik, p₂, h₂) = continue-ok (bytes_to_public_key c (public_of bob_secret)) _ g h₁ in
      let (spk, p₃, h₃) = continue-ok (bytes_to_public_key c (public_of spk_secret)) _ g h₂ in
      let (vk, p₄, h₄) = continue-ok (bytes_to_verifying_key c bob_vk) _ g h₃ in
      let bundle : PreKeyBundle c = record {
        identity_key = ik;
        identity_verifying_key = vk;
        signed_pre_key = spk;
        signature = signature;
        one_time_pre_key = none;
      } in
      let (result, p₅, h₅) = continue-ok (print_err (initiate c alice bundle g.rng).0) _ _ h₄ in
      let run : initiate c alice bundle g.rng ≡ (ok result, (initiate c alice bundle g.rng).1) =
        λ i. (
          print_err-ok (initiate c alice bundle g.rng).0 p₅ i,
          (initiate c alice bundle g.rng).1,
        ) in
      let with_keys =
        initiate-inversion c x25519 alice bundle g.rng (initiate c alice bundle g.rng).1 result
          run in
      let a =
        from_bytes-value alice_secret alice_signing
          (print_err-ok (from_bytes c alice_secret alice_signing) p₁) in
      let i = public-of_bytes bob_secret p₂ in
      let s = public-of_bytes spk_secret p₃ in
      let bob_key : bob.x25519_public ≡ ik = b ∙ sym i in
      let same : initiate_with c (from_seed c alice_secret (c.signing_from_bytes alice_signing))
            (published bob (pre_key spk_secret signature) none) (c.random_secret g.rng).0
          ≡ initiate_with c alice bundle (c.random_secret g.rng).0 =
        λ j.
          initiate_with c (sym a j)
            (record {
              identity_key = bob_key j;
              identity_verifying_key = vk;
              signed_pre_key = sym s j;
              signature = signature;
              one_time_pre_key = none;
            })
            (c.random_secret g.rng).0 in
      (result, same ∙ with_keys, sym (ok-injective h₅))

  -- X3DH on bytes: what `x3dh_initiate` returns without a one-time key, for the public keys of the
  -- responder's identity and signed pre-key secrets, `x3dh_respond` gives on any device from these
  -- secrets, of 32 bytes each, the 64-byte signature, and the initiator's identity and ephemeral
  -- public keys.
  pub x3dh_respond-x3dh_initiate :
      (alice_secret alice_signing bob_secret bob_signing bob_vk spk_secret signature : Bytes)
      (g g' other : Statics c) (r : X3dhInitResult)
      → length bob_secret ≡ 32
      → length bob_signing ≡ 32
      → length spk_secret ≡ 32
      → length signature ≡ 64
      → x3dh_initiate c alice_secret alice_signing
          (public_of bob_secret)
          bob_vk
          (public_of spk_secret)
          signature
          none
          g
        ≡ (ok r, g')
      → x3dh_respond c bob_secret bob_signing spk_secret
          (public_of spk_secret)
          signature
          (public_of alice_secret)
          r.ephemeral_public
          other
        ≡ (ok (record { shared_secret = r.shared_secret }), other)
  unfolding x3dh_respond from_bytes signed_from_bytes check_length bytes_to_public_key
  x3dh_respond-x3dh_initiate alice_secret alice_signing bob_secret bob_signing bob_vk spk_secret
        signature g g' other r lb ls lk lg h =
      let alice = from_seed c alice_secret (c.signing_from_bytes alice_signing) in
      let bob = from_seed c bob_secret (c.signing_from_bytes bob_signing) in
      let spk = pre_key spk_secret signature in
      let e = (c.random_secret g.rng).0 in
      let (result, run, q) =
        x3dh_initiate-inversion alice_secret alice_signing bob_vk spk_secret signature bob
          bob_secret g g' r refl h in
      let responding =
        respond-initiate_with c x25519 alice bob spk none e
          (record { seeded = refl; paired = refl }) (record { seeded = refl; paired = refl })
          (record { seeded = refl; paired = refl }) tt
        ∙ run in
      let ephemeral =
        ephemeral-initiate_with c x25519 alice (published bob spk none) e result run in
      rw
        (
          q,
          ephemeral,
          lb,
          ls,
          lk,
          lg,
          x25519.length-public (c.public_from_secret (c.secret_from_bytes spk_secret)),
          x25519.length-public (c.public_from_secret (c.secret_from_bytes alice_secret)),
          x25519.length-public (c.public_from_secret e),
          x25519.from-public (c.public_from_secret (c.secret_from_bytes spk_secret)),
          x25519.from-public (c.public_from_secret (c.secret_from_bytes alice_secret)),
          x25519.from-public (c.public_from_secret e),
          responding,
        )
        refl
