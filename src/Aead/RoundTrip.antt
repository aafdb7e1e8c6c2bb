-- ===== src/Aead/RoundTrip.antt =====
-- Decryption undoes encryption; a nonce of another length is fatal.
use ghostcrypt_crypto_core.Common.{◌≡◌, inl, inr, Bytes, arith}
use ghostcrypt_crypto_core.Error.{ok, Fallible-cases}
use ghostcrypt_crypto_core.Crates.{Crates, AeadLaws}
use ghostcrypt_crypto_core.Aead.Defs.{Encrypted, encrypt, decrypt}

module _ (c : Crates) (laws : AeadLaws c) where
  -- What `encrypt` returns, `decrypt` opens under the same key and associated data.
  pub decrypt-encrypt :
      (key plaintext associated_data : Bytes) (rng rng' : c.Rng) (sealed : Encrypted)
      → encrypt c key plaintext associated_data rng ≡ (ok sealed, rng')
      → decrypt c key sealed associated_data ≡ ok plaintext
  unfolding encrypt decrypt
  decrypt-encrypt key plaintext ad rng rng' sealed h = elim (Fallible-cases (c.cipher_new key)) [
    | inr (e, bad) ↦ cc (h, bad)
    | inl (k, good) ↦
        elim (Fallible-cases (c.cipher_encrypt k (c.generate_nonce rng).0 plaintext ad)) [
          | inr (e, bad) ↦ ground (arith, h, good, bad)
          | inl (out, sealing) ↦ ground (
            arith,
            h,
            good,
            sealing,
            laws.length-nonce rng,
            laws.decrypt-encrypt k (c.generate_nonce rng).0 plaintext ad out sealing,
          )
        ]
  ]
