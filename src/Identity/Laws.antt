-- ===== src/Identity/Laws.antt =====
-- What the constructors of src/identity/keys.rs guarantee of the keys they build.
use ghostcrypt_crypto_core.Common.{
  ℕ, zero, suc, ◌+◌, ◌<◌, ◌^◌, ◌%◌, ◌≡◌, ◌↔◌, refl, ap, ◌∙◌, Bytes, true, length, Option, none,
  some, get_elem?, arith,
}
use ghostcrypt_crypto_core.Error.{ok}
use ghostcrypt_crypto_core.Crates.{Crates, SignatureLaws}
use ghostcrypt_crypto_core.Identity.Keys
use ghostcrypt_crypto_core.Identity.Keys.{
  IdentityKeyPair, from_seed, from_bytes, secret_bytes, signing_secret_bytes, verify, sign,
  verifying_key,
}
use ghostcrypt_crypto_core.Identity.PreKeys.{
  SignedPreKey, OneTimePreKey, generate_signed, verify_signature, generate_one_time, generate_from,
  generate_batch,
}

module _ {c : Crates} where
  -- The X25519 keys are those of the seed.
  pub record IsIdentity (k : IdentityKeyPair c) : Type 0 where
    pub seeded : k.x25519_secret ≡ c.secret_from_bytes k.secret_seed
    pub paired : k.x25519_public ≡ c.public_from_secret k.x25519_secret

  pub record IsSigned (k : SignedPreKey c) : Type 0 where
    pub seeded : k.x25519_secret ≡ c.secret_from_bytes k.secret_seed
    pub paired : k.x25519_public ≡ c.public_from_secret k.x25519_secret

  pub record IsOneTime (k : OneTimePreKey c) : Type 0 where
    pub seeded : k.x25519_secret ≡ c.secret_from_bytes k.secret_seed
    pub paired : k.x25519_public ≡ c.public_from_secret k.x25519_secret

  abbrev pub IsOneTimeIfAny : Option (OneTimePreKey c) → Type 0
  IsOneTimeIfAny none = Unit
  IsOneTimeIfAny (some k) = IsOneTime k

module _ (c : Crates) where
  -- Generating an identity gives the pair of the 32 bytes that were drawn.
  pub generate_lem :
      (r : c.Rng)
      → (k : IdentityKeyPair c) × ((Keys.generate c r).0 ≡ ok k)
        × (k.secret_seed ≡ (c.fill_bytes 32 r).0)
        × IsIdentity k
  unfolding Keys.generate
  generate_lem r =
      let (seed, r₁) = c.fill_bytes 32 r in
      (
        from_seed c seed (c.generate_signing_key r₁).0,
        refl,
        refl,
        record { seeded = refl; paired = refl },
      )

  -- `from_bytes` accepts exactly two strings of 32 bytes, and then the key pair exports the first
  -- of them again and is the pair of that seed.
  pub from_bytes-ok_iff :
      (seed signing : Bytes)
      → ((k : IdentityKeyPair c) × (from_bytes c seed signing ≡ ok k)
          × (secret_bytes c k ≡ seed)
          × IsIdentity k)
        ↔ ((length seed ≡ 32) × (length signing ≡ 32))
  unfolding from_bytes secret_bytes
  from_bytes-ok_iff seed signing = (
    λ (k, e, _, _). ground arith,
    λ (a, b). (
      from_seed c seed (c.signing_from_bytes signing),
      ground arith,
      refl,
      record { seeded = refl; paired = refl },
    ),
  )

  generate_from_ids :
      (start n i : ℕ) (r : c.Rng)
      → i < n
      → (k : OneTimePreKey c) × (get_elem? (generate_from c start n r).0 i ≡ some k)
        × (k.id ≡ (start + i) % 2 ^ 32)
        × IsOneTime k
  unfolding generate_from generate_one_time
  generate_from_ids start zero i r h = absurd (omega arith)
  generate_from_ids start (suc n) zero r h = (
    (generate_one_time c start r).0,
    refl,
    ap (λ k. k % 2 ^ 32) (omega arith),
    record { seeded = refl; paired = refl },
  )
  generate_from_ids start (suc n) (suc i) r h =
      let (k, at, id, p) =
        generate_from_ids (start + 1) n i (generate_one_time c start r).1 (omega arith) in
      (k, at, id ∙ ap (λ k. k % 2 ^ 32) (omega arith), p)

  length-generate_from : (start n : ℕ) (r : c.Rng) → length (generate_from c start n r).0 ≡ n
  unfolding generate_from
  length-generate_from start zero r = refl
  length-generate_from start (suc n) r =
      ap suc (length-generate_from (start + 1) n (generate_one_time c start r).1)

  -- A batch has as many keys as were asked for; the one at index i has the id i, on 32 bits, and
  -- is the key pair of its seed.
  pub generate_batch_lem :
      (count : ℕ) (r : c.Rng)
      → (length (generate_batch c count r).0 ≡ count)
        × ((i : ℕ)
            → i < count
            → (k : OneTimePreKey c) × (get_elem? (generate_batch c count r).0 i ≡ some k)
              × (k.id ≡ i % 2 ^ 32)
              × IsOneTime k)
  unfolding generate_batch
  generate_batch_lem count r = (
    length-generate_from 0 count r,
    λ i h.
        let (k, at, id, p) = generate_from_ids 0 count i r h in
        (k, at, id ∙ ap (λ k. k % 2 ^ 32) (omega arith), p),
  )

module _ (c : Crates) (laws : SignatureLaws c) where
  verify-sign_lem :
      (k : IdentityKeyPair c) (m : Bytes) → verify c (verifying_key c k) m (sign c k m) ≡ true
  unfolding verify sign verifying_key
  verify-sign_lem k m =
      rw (laws.length-signature k.signing_key m) (laws.verify-sign k.signing_key m)

  -- Generating a signed pre-key gives the pair of its seed, and it verifies under its owner's
  -- identity.
  pub generate_signed_lem :
      (identity : IdentityKeyPair c) (r : c.Rng)
      → (k : SignedPreKey c) × ((generate_signed c identity r).0 ≡ ok k)
        × IsSigned k
        × (verify_signature c k identity ≡ true)
  unfolding generate_signed verify_signature
  generate_signed_lem identity r =
      let seed = (c.fill_bytes 32 r).0 in
      let secret = c.secret_from_bytes seed in
      let public = c.public_from_secret secret in
      (
        record {
          secret_seed = seed;
          x25519_secret = secret;
          x25519_public = public;
          signature = sign c identity (c.public_bytes public);
        },
        refl,
        record { seeded = refl; paired = refl },
        verify-sign_lem identity (c.public_bytes public),
      )
