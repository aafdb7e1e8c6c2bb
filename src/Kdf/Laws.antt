-- ===== src/Kdf/Laws.antt =====
-- Key derivation does not fail, and gives keys of the length that was asked for.
use ghostcrypt_crypto_core.Common.{ℕ, ◌≤◌, ◌≡◌, Bytes, length, [], ◌∷◌}
use ghostcrypt_crypto_core.Error.{ok}
use ghostcrypt_crypto_core.Crates.{Crates, KdfLaws}
use ghostcrypt_crypto_core.Kdf.Defs.{derive, derive_chain_and_message_key}

module _ (c : Crates) (laws : KdfLaws c) where
  pub derive_total :
      (ikm salt info : Bytes) (n : ℕ)
      → n ≤ 8160
      → (t : Bytes) × (derive c ikm salt info n ≡ ok t) × (length t ≡ n)
  unfolding derive
  derive_total ikm salt info n h = let (t, e, l) = laws.hkdf_total salt ikm info n h in (t, rw e, l)

  pub chain_step_total :
      (key : Bytes)
      → (next message : Bytes) × (derive_chain_and_message_key c key ≡ ok (next, message))
        × (length next ≡ 32)
        × (length message ≡ 32)
  unfolding derive_chain_and_message_key
  chain_step_total key =
      let (next, e, l) = laws.hmac_total key (0x01 ∷ []) in
      let (message, f, m) = laws.hmac_total key (0x02 ∷ []) in (next, message, rw (e, f), l, m)
