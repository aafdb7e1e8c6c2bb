-- ===== src/Wasm/Runs.antt =====
-- `session_encrypt` and `session_decrypt` of src/wasm.rs on a session that is there.
use ghostcrypt_crypto_core.Common.{
  ℕ, ◌≡◌, refl, sym, ap, ◌∙◌, Bytes, String, false, some, List, [], ◌∷◌, nat_eq, string_eq,
}
use ghostcrypt_crypto_core.Common.Dict
use ghostcrypt_crypto_core.Error.{ok, value}
use ghostcrypt_crypto_core.Exec.{Exec, continue, continue-ok, pure}
use ghostcrypt_crypto_core.Aead.{Encrypted}
use ghostcrypt_crypto_core.Encoding.Base64.{Base64Laws}
use ghostcrypt_crypto_core.Ratchet.Header.{MessageHeader}
use ghostcrypt_crypto_core.Ratchet.State.{Session, World}
use ghostcrypt_crypto_core.Ratchet.Session.{encrypt, decrypt}
use ghostcrypt_crypto_core.Wasm.State.{
  WasmCrates, Instance, find_handle, core_error, core_error-ok, js_error-ok, base64_value, answer,
}
use ghostcrypt_crypto_core.Wasm.Sessions.{
  with_session, put_back, header_value, read_header, session_encrypt, session_decrypt,
}
use ghostcrypt_crypto_core.Wasm.Texts.{from_base64-encode}

module _ (x : WasmCrates) where
  open x use {core, json}

  -- A method runs on the session of its handle, which is not borrowed.
  pub with_session-run :
      {A : Type 0} (prefix : String) (handle : ℕ) (m : Exec (World core) A) (i : Instance core)
      (session : Session core)
      → i.sessions_borrowed ≡ false
      → Dict.get i.sessions handle ≡ some session
      → let out = m (record { session = session; rng = i.rng }) in
        with_session x prefix handle m i ≡ (core_error prefix out.0, put_back x handle out i)
  unfolding with_session find_handle
  with_session-run prefix handle m i session free at = rw (free, at, with_session) refl

  -- The fields of the answer of `session_encrypt`
  abbrev pub sent_fields : MessageHeader → Encrypted → List (String × json.Value)
  sent_fields header sealed =
      ("header", header_value x header)
      ∷ ("ciphertext", base64_value x sealed.ciphertext)
      ∷ ("nonce", base64_value x sealed.nonce)
      ∷ []

  session_encrypt-run :
      (base64 : Base64Laws x.base64) (handle : ℕ) (plaintext : Bytes) (i : Instance core)
      (session : Session core)
      → i.sessions_borrowed ≡ false
      → Dict.get i.sessions handle ≡ some session
      → let out = encrypt core plaintext (record { session = session; rng = i.rng }) in
        session_encrypt x handle (x.base64.encode plaintext) i
        ≡ continue
            (core_error "Encryption failed: " out.0)
            (λ p. answer x (json.object (sent_fields p.0 p.1)))
            (put_back x handle out i)
  unfolding session_encrypt
  session_encrypt-run base64 handle plaintext i session free at =
      rw
        (
          from_base64-encode x base64 "plaintext" plaintext,
          with_session-run "Encryption failed: " handle (encrypt core plaintext) i session free at,
        )
        refl

  pub session_encrypt-inversion :
      (base64 : Base64Laws x.base64) (handle : ℕ) (plaintext : Bytes) (i i' : Instance core)
      (text : String) (session : Session core)
      → i.sessions_borrowed ≡ false
      → Dict.get i.sessions handle ≡ some session
      → session_encrypt x handle (x.base64.encode plaintext) i ≡ (ok text, i')
      → let w : World core = record { session = session; rng = i.rng } in
        (header : MessageHeader) × (sealed : Encrypted) × (encrypt core plaintext w
          ≡ (ok (header, sealed), (encrypt core plaintext w).1))
        × (json.to_string (json.object (sent_fields header sealed)) ≡ value text)
  unfolding answer
  session_encrypt-inversion base64 handle plaintext i i' text session free at h =
      let out = encrypt core plaintext (record { session = session; rng = i.rng }) in
      let ((header, sealed), h₀, h₁) =
        continue-ok (core_error "Encryption failed: " out.0) _ (put_back x handle out i)
          (sym (session_encrypt-run base64 handle plaintext i session free at) ∙ h) in
      (
        header,
        sealed,
        ap (λ r. (r, out.1)) (core_error-ok "Encryption failed: " out.0 h₀),
        js_error-ok "Serialization failed: "
            (json.to_string (json.object (sent_fields header sealed))) (ap (λ r. r.0) h₁),
      )

  pub session_decrypt-run :
      (base64 : Base64Laws x.base64) (handle : ℕ) (header : MessageHeader) (sealed : Encrypted)
      (header_json : String) (i : Instance core) (session : Session core)
      → i.sessions_borrowed ≡ false
      → Dict.get i.sessions handle ≡ some session
      → read_header x header_json ≡ ok header
      → let out = decrypt core header sealed (record { session = session; rng = i.rng }) in
        session_decrypt x handle header_json
          (x.base64.encode sealed.ciphertext)
          (x.base64.encode sealed.nonce)
          i
        ≡ continue
            (core_error "Decryption failed: " out.0)
            (λ plaintext. pure (x.base64.encode plaintext))
            (put_back x handle out i)
  unfolding session_decrypt
  session_decrypt-run base64 handle header sealed header_json i session free at read =
      rw
        (
          read,
          from_base64-encode x base64 "ciphertext" sealed.ciphertext,
          from_base64-encode x base64 "nonce" sealed.nonce,
          with_session-run "Decryption failed: " handle (decrypt core header sealed) i session free
              at,
        )
        refl
