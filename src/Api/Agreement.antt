-- ===== src/Api/Agreement.antt =====
-- What one device sends through src/api.rs, the other one gets.
use ghostcrypt_crypto_core.Common.{
  ℕ, ◌≤◌, ◌<◌, ◌≡◌, refl, sym, ap, ◌∙◌, Bytes, [], false, some, length, arith,
}
use ghostcrypt_crypto_core.Error.{Result, ok}
use ghostcrypt_crypto_core.Exec.{print_err, print_err-ok, continue-ok, ok-injective}
use ghostcrypt_crypto_core.Crates.{Crates, KdfLaws, X25519Laws, AeadLaws}
use ghostcrypt_crypto_core.Aead
use ghostcrypt_crypto_core.Aead.{Encrypted}
use ghostcrypt_crypto_core.Aead.RoundTrip
use ghostcrypt_crypto_core.Ratchet.Chain.{u32_mod}
use ghostcrypt_crypto_core.Ratchet.SkippedKeys.{count}
use ghostcrypt_crypto_core.Ratchet.Header.{MessageHeader}
use ghostcrypt_crypto_core.Ratchet.State.{Session, World, max_skip}
use ghostcrypt_crypto_core.Ratchet.Session.{encrypt}
use ghostcrypt_crypto_core.Ratchet.Turn.{Turn, Room, FreshKey}
use ghostcrypt_crypto_core.Ratchet.Exchange.{decrypt-encrypt-Turn}
use ghostcrypt_crypto_core.Api.Store.{entry}
use ghostcrypt_crypto_core.Api.State.{Statics}
use ghostcrypt_crypto_core.Api.Keys.{SimpleEncryptResult, check_32, aes_encrypt, aes_decrypt}
use ghostcrypt_crypto_core.Api.Sessions.{
  with_session, session_decrypt, session_encrypt, EncryptResult, from_data,
}
use ghostcrypt_crypto_core.Api.Isolation.{with_session-Touches, session_decrypt-Touches}

-- The core's results behind those of the API
abbrev sealed_of : SimpleEncryptResult → Result Encrypted
sealed_of r = ok (record { nonce = r.nonce; ciphertext = r.ciphertext })

abbrev sent_of : EncryptResult → Result (MessageHeader × Encrypted)
sent_of r = ok (from_data r.header, record { nonce = r.nonce; ciphertext = r.ciphertext })

module _ (c : Crates) (laws : AeadLaws c) where
  aes_encrypt-inversion :
      (key plaintext : Bytes) (g g' : Statics c) (sealed : SimpleEncryptResult)
      → aes_encrypt c key plaintext g ≡ (ok sealed, g')
      → (length key ≡ 32)
        × (Aead.encrypt c key plaintext [] g.rng ≡ (
          ok (record { nonce = sealed.nonce; ciphertext = sealed.ciphertext }),
          (Aead.encrypt c key plaintext [] g.rng).1,
        ))
  unfolding aes_encrypt
  aes_encrypt-inversion key plaintext g g' sealed h =
      let (_, l, h₁) = continue-ok (check_32 "Key must be 32 bytes, got " key) _ g h in
      let (encrypted, run, h₂) =
        continue-ok (print_err (Aead.encrypt c key plaintext [] g.rng).0) _ _ h₁ in
      let e = print_err-ok (Aead.encrypt c key plaintext [] g.rng).0 run in
      (
        ground (arith, l),
        λ i. (
          (e ∙ ap (λ (r : SimpleEncryptResult). sealed_of r) (ok-injective h₂)) i,
          (Aead.encrypt c key plaintext [] g.rng).1,
        ),
      )

  -- What `aes_encrypt` returns for a key, `aes_decrypt` opens with that key, on any device.
  pub aes_decrypt-aes_encrypt :
      (key plaintext : Bytes) (g g' other : Statics c) (sealed : SimpleEncryptResult)
      → aes_encrypt c key plaintext g ≡ (ok sealed, g')
      → aes_decrypt c key sealed.ciphertext sealed.nonce other ≡ (ok plaintext, other)
  unfolding aes_decrypt
  aes_decrypt-aes_encrypt key plaintext g g' other sealed h =
      let (l, run) = aes_encrypt-inversion key plaintext g g' sealed h in
      let e =
        RoundTrip.decrypt-encrypt c laws key plaintext [] g.rng
          (Aead.encrypt c key plaintext [] g.rng).1
          (record { nonce = sealed.nonce; ciphertext = sealed.ciphertext }) run in
      rw (l, e) refl

module _ (c : Crates) (kdf : KdfLaws c) (x25519 : X25519Laws c) (aead : AeadLaws c) where
  session_encrypt-inversion :
      (handle : ℕ) (plaintext : Bytes) (g g' : Statics c) (sent : EncryptResult)
      (session : Session c)
      → g.sessions.poisoned ≡ false
      → entry g.sessions handle ≡ some session
      → session_encrypt c handle plaintext g ≡ (ok sent, g')
      → let w : World c = record { session = session; rng = g.rng } in
        (encrypt c plaintext w ≡ (
          ok (from_data sent.header, record { nonce = sent.nonce; ciphertext = sent.ciphertext }),
          (encrypt c plaintext w).1,
        ))
  unfolding session_encrypt
  session_encrypt-inversion handle plaintext g g' sent session healthy at h =
      let w : World c = record { session = session; rng = g.rng } in
      let (result, _, _) =
        with_session-Touches c handle (encrypt c plaintext) g session healthy at in
      let (pair, run, h₁) = continue-ok (with_session c handle (encrypt c plaintext) g).0 _ _ h in
      let e = print_err-ok (encrypt c plaintext w).0 (sym result ∙ run) in
      λ i.
        ((e ∙ ap (λ (r : EncryptResult). sent_of r) (ok-injective h₁)) i, (encrypt c plaintext w).1)

  -- Two devices whose sessions, behind their handles, are at the sender's turn: what
  -- `session_encrypt` returns on the one, `session_decrypt` on the other one decrypts. The
  -- hypotheses on the receiver are those of the ratchet: room for the keys of its old chain, and a
  -- new key drawn that is not in use.
  pub session_decrypt-session_encrypt :
      (handle handle' : ℕ) (plaintext : Bytes) (g g' other : Statics c) (sent : EncryptResult)
      (sender receiver : Session c)
      → g.sessions.poisoned ≡ false
      → entry g.sessions handle ≡ some sender
      → other.sessions.poisoned ≡ false
      → entry other.sessions handle' ≡ some receiver
      → Turn sender receiver
      → session_encrypt c handle plaintext g ≡ (ok sent, g')
      → sent.header.previous_chain_length < u32_mod
      → Room sent.header.previous_chain_length receiver
      → count receiver.skipped_keys ≤ max_skip
      → FreshKey sender (record { session = receiver; rng = other.rng })
      → (session_decrypt c handle' sent.header sent.ciphertext sent.nonce other).0 ≡ ok plaintext
  session_decrypt-session_encrypt handle handle' plaintext g g' other sent sender receiver healthy
        at healthy' at' turn h u room fits fresh =
      let w : World c = record { session = sender; rng = g.rng } in
      let w' : World c = record { session = receiver; rng = other.rng } in
      let run = session_encrypt-inversion handle plaintext g g' sent sender healthy at h in
      let (got, _) =
        decrypt-encrypt-Turn c kdf x25519 aead plaintext w (encrypt c plaintext w).1 w'
          (from_data sent.header) (record { nonce = sent.nonce; ciphertext = sent.ciphertext }) turn
          run u room fits fresh in
      (session_decrypt-Touches c handle' sent.header sent.ciphertext sent.nonce other receiver
        healthy' at').0
      ∙ ap print_err got
