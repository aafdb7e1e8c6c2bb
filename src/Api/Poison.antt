-- ===== src/Api/Poison.antt =====
-- What a panic under the lock of the sessions does to all the sessions.
use ghostcrypt_crypto_core.Common.{
  ℕ, ◌≡◌, ◌≢◌, refl, ap, ◌∙◌, Bytes, true, false, none, some, length, arith,
}
use ghostcrypt_crypto_core.Error.{err, panic}
use ghostcrypt_crypto_core.Exec.{Exec}
use ghostcrypt_crypto_core.Crates.{Crates}
use ghostcrypt_crypto_core.Aead.{Encrypted}
use ghostcrypt_crypto_core.Ratchet.SkippedKeys.{stored}
use ghostcrypt_crypto_core.Ratchet.Header.{MessageHeader, to_public_key}
use ghostcrypt_crypto_core.Ratchet.State.{Session, World}
use ghostcrypt_crypto_core.Ratchet.Session.{encrypt, decrypt, decrypt_next}
use ghostcrypt_crypto_core.Api.Store.{entry, insert_new, destroy, lock_error}
use ghostcrypt_crypto_core.Api.State.{Statics}
use ghostcrypt_crypto_core.Api.Sessions.{
  session_lock, with_session, session_decrypt, session_encrypt, MessageHeaderData, from_data,
  destroy_session,
}
use ghostcrypt_crypto_core.Api.Handles.{find-poisoned}
use ghostcrypt_crypto_core.Api.Isolation.{session_decrypt-Touches}

module _ (c : Crates) where
  -- A header key that is not 32 bytes long makes `decrypt` panic, unless a key is stored under it.
  decrypt-bad_header :
      (header : MessageHeader) (sealed : Encrypted) (w : World c)
      → length header.dh_public_key ≢ 32
      → stored w.session.skipped_keys header.dh_public_key header.message_number ≡ none
      → decrypt c header sealed w ≡ (panic, w)
  unfolding decrypt decrypt_next to_public_key
  decrypt-bad_header header sealed w l absent = ground (arith, absent)

  with_session-poisoned {ℓ} :
      {A : Type ℓ} (handle : ℕ) (m : Exec (World c) A) (g : Statics c)
      → g.sessions.poisoned ≡ true
      → with_session c handle m g ≡ (err (lock_error session_lock), g)
  unfolding with_session
  with_session-poisoned handle m g bad =
      rw (find-poisoned session_lock "No session with handle " handle g.sessions bad, with_session)
        refl

  -- On a poisoned store every operation on sessions fails, whatever the handle, with the text of
  -- the lock, and destroying does nothing.
  pub session_calls-poisoned :
      (g : Statics c)
      → g.sessions.poisoned ≡ true
      → ((handle : ℕ) (plaintext : Bytes)
          → session_encrypt c handle plaintext g ≡ (err (lock_error session_lock), g))
        × ((handle : ℕ) (header : MessageHeaderData) (ciphertext nonce : Bytes)
            → session_decrypt c handle header ciphertext nonce g
              ≡ (err (lock_error session_lock), g))
        × ((session : Session c)
            → (insert_new session_lock session g.sessions).0 ≡ err (lock_error session_lock))
        × ((handle : ℕ) → destroy_session c handle g ≡ (false, g))
  unfolding session_encrypt session_decrypt insert_new destroy_session destroy
  session_calls-poisoned g bad = (
    λ handle plaintext.
        rw (with_session-poisoned handle (encrypt c plaintext) g bad, session_encrypt) refl,
    λ handle header ciphertext nonce.
        with_session-poisoned handle
          (decrypt c (from_data header) (record { nonce = nonce; ciphertext = ciphertext })) g bad,
    λ session. rw bad refl,
    λ handle. rw bad refl,
  )

  -- On a store that is not poisoned, one message to a handle in use with a header key that is not
  -- 32 bytes long, under which no key is stored, makes
  -- `session_decrypt` panic, and after that `session_encrypt` and `session_decrypt` fail on every
  -- handle, and no session can be destroyed.
  pub bad_header-poisons :
      (handle : ℕ) (header : MessageHeaderData) (ciphertext nonce : Bytes) (g : Statics c)
      (session : Session c)
      → g.sessions.poisoned ≡ false
      → entry g.sessions handle ≡ some session
      → length header.dh_public_key ≢ 32
      → stored session.skipped_keys header.dh_public_key header.message_number ≡ none
      → let (r, g') = session_decrypt c handle header ciphertext nonce g in
        (r ≡ panic)
        × ((other : ℕ) (plaintext : Bytes)
            → (session_encrypt c other plaintext g').0 ≡ err (lock_error session_lock))
        × ((other : ℕ) (next : MessageHeaderData) (ciphertext' nonce' : Bytes)
            → (session_decrypt c other next ciphertext' nonce' g').0
              ≡ err (lock_error session_lock))
        × ((other : ℕ) → (destroy_session c other g').0 ≡ false)
  bad_header-poisons handle header ciphertext nonce g session healthy at l absent =
      let sealed : Encrypted = record { nonce = nonce; ciphertext = ciphertext } in
      let w : World c = record { session = session; rng = g.rng } in
      let e = decrypt-bad_header (from_data header) sealed w l absent in
      let (result, _, poisoned) =
        session_decrypt-Touches c handle header ciphertext nonce g session healthy at in
      let (encrypting, decrypting, _, destroying) =
        session_calls-poisoned (session_decrypt c handle header ciphertext nonce g).1
          (poisoned ∙ rw e refl) in
      (
        result ∙ rw e refl,
        λ other plaintext. ap (λ x. x.0) (encrypting other plaintext),
        λ other next ciphertext' nonce'. ap (λ x. x.0) (decrypting other next ciphertext' nonce'),
        λ other. ap (λ x. x.0) (destroying other),
      )
