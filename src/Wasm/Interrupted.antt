-- ===== src/Wasm/Interrupted.antt =====
-- src/wasm.rs after a panic while `SESSIONS` is borrowed.
use ghostcrypt_crypto_core.Common.{
  ℕ, ◌≡◌, refl, ap, ◌∙◌, Bytes, String, some, List, [], ◌∷◌, true, false, nat_eq,
}
use ghostcrypt_crypto_core.Common.Dict
use ghostcrypt_crypto_core.Error.{ok, panic}
use ghostcrypt_crypto_core.Aead.{Encrypted}
use ghostcrypt_crypto_core.Encoding.Base64.{Base64Laws}
use ghostcrypt_crypto_core.Mls.Types.{MlsOps}
use ghostcrypt_crypto_core.Ratchet.Header.{MessageHeader}
use ghostcrypt_crypto_core.Ratchet.State.{Session}
use ghostcrypt_crypto_core.Ratchet.Session.{decrypt}
use ghostcrypt_crypto_core.Wasm.State.{WasmCrates, Instance}
use ghostcrypt_crypto_core.Wasm.Sessions.{
  with_session, read_header, session_encrypt, session_decrypt,
}
use ghostcrypt_crypto_core.Wasm.Moves.{
  Moves, drew, used_up, new_identity, new_pre_key, new_session, changed_session, new_group,
  removed_group,
}
use ghostcrypt_crypto_core.Wasm.Requests.{Request, serve, serve_all}
use ghostcrypt_crypto_core.Wasm.Steps.{serve-Moves}
use ghostcrypt_crypto_core.Wasm.Texts.{from_base64-encode}
use ghostcrypt_crypto_core.Wasm.Runs.{session_decrypt-run}

module _ (x : WasmCrates) (mls : MlsOps x.core.Rng) where
  open x use {core}

  -- No move gives the borrow back.
  Moves-borrowed :
      (i i' : Instance core)
      → Moves mls i i'
      → i.sessions_borrowed ≡ true
      → i'.sessions_borrowed ≡ true
  Moves-borrowed i i' (drew rng) b = b
  Moves-borrowed i i' (used_up rng) b = b
  Moves-borrowed i i' (new_identity rng kp) b = b
  Moves-borrowed i i' (new_pre_key rng spk) b = b
  Moves-borrowed i i' (new_session rng session free) b = b
  Moves-borrowed i i' (changed_session rng handle s s' borrowed free at) b = cc (b, free)
  Moves-borrowed i i' (new_group rng state wrote) b = b
  Moves-borrowed i i' (removed_group handle) b = b

  serve_all-borrowed :
      (requests : List Request) (i : Instance core)
      → i.sessions_borrowed ≡ true
      → (serve_all x mls requests i).sessions_borrowed ≡ true
  unfolding serve_all
  serve_all-borrowed [] i b = b
  serve_all-borrowed (request ∷ requests) i b =
      serve_all-borrowed requests (serve x mls request i)
        (Moves-borrowed i (serve x mls request i) (serve-Moves x mls request i) b)

  module _ (base64 : Base64Laws x.base64) where
    session_encrypt-borrowed :
        (handle : ℕ) (plaintext : Bytes) (i : Instance core)
        → i.sessions_borrowed ≡ true
        → session_encrypt x handle (x.base64.encode plaintext) i ≡ (panic, i)
    unfolding session_encrypt with_session
    session_encrypt-borrowed handle plaintext i b =
        rw (from_base64-encode x base64 "plaintext" plaintext, b) refl

    -- If `decrypt` panics on what `session_decrypt` is given for a session that is there, then
    -- `session_decrypt` panics; and from then on `session_encrypt` panics too, on every handle and
    -- each argument that is base64, whatever calls are made in between.
    pub session_decrypt-panic :
        (handle : ℕ) (header : MessageHeader) (sealed : Encrypted) (header_json : String)
        (i : Instance core) (session : Session core)
        → i.sessions_borrowed ≡ false
        → Dict.get i.sessions handle ≡ some session
        → read_header x header_json ≡ ok header
        → (decrypt core header sealed (record { session = session; rng = i.rng })).0 ≡ panic
        → let out =
            session_decrypt x handle header_json
              (x.base64.encode sealed.ciphertext)
              (x.base64.encode sealed.nonce)
              i in
          (out.0 ≡ panic)
          × ((requests : List Request) (handle' : ℕ) (plaintext : Bytes)
              → session_encrypt x handle'
                  (x.base64.encode plaintext)
                  (serve_all x mls requests out.1)
                ≡ (panic, serve_all x mls requests out.1))
    session_decrypt-panic handle header sealed header_json i session free at read bad =
        let out = decrypt core header sealed (record { session = session; rng = i.rng }) in
        let run =
          session_decrypt-run x base64 handle header sealed header_json i session free at read in
        let ended = ap (λ r. r.0) run ∙ rw bad refl in
        let kept = ap (λ r. r.1.sessions_borrowed) run ∙ rw bad refl in
        (
          ended,
          λ requests handle' plaintext.
              let i' =
                (session_decrypt x handle header_json (x.base64.encode sealed.ciphertext)
                  (x.base64.encode sealed.nonce) i).1 in
              session_encrypt-borrowed handle' plaintext (serve_all x mls requests i')
                (serve_all-borrowed requests i' kept),
        )
