-- ===== src/Wasm/Surfaces.antt =====
-- src/wasm.rs and src/api.rs on the same session.
use ghostcrypt_crypto_core.Common.{
  ℕ, ◌≡◌, refl, sym, ap, ◌∙◌, Bytes, String, text_append, false, some, nat_eq, arith,
}
use ghostcrypt_crypto_core.Common.Dict
use ghostcrypt_crypto_core.Common.Dict.{get-insert}
use ghostcrypt_crypto_core.Error.{Outcome, ok, err, panic, Result}
use ghostcrypt_crypto_core.Exec.{continue, pure, print_err}
use ghostcrypt_crypto_core.Aead.{Encrypted}
use ghostcrypt_crypto_core.Encoding.Base64.{Base64Laws}
use ghostcrypt_crypto_core.Ratchet.Header.{MessageHeader}
use ghostcrypt_crypto_core.Ratchet.State.{Session}
use ghostcrypt_crypto_core.Ratchet.Session.{decrypt}
use ghostcrypt_crypto_core.Api.Store.{entry}
use ghostcrypt_crypto_core.Api.State.{Statics}
use ghostcrypt_crypto_core.Api.Sessions
use ghostcrypt_crypto_core.Api.Sessions.{to_data}
use ghostcrypt_crypto_core.Api.Isolation.{session_decrypt-Touches}
use ghostcrypt_crypto_core.Wasm.State.{WasmCrates, Instance, core_error}
use ghostcrypt_crypto_core.Wasm.Sessions.{put_back, read_header, session_decrypt}
use ghostcrypt_crypto_core.Wasm.Runs.{session_decrypt-run}

module _ (x : WasmCrates) where
  open x use {core}

  -- An outcome of the API's `session_decrypt` as JavaScript sees it
  abbrev pub in_js : Outcome String Bytes → Outcome String String
  in_js (ok plaintext) = ok (x.base64.encode plaintext)
  in_js (err e) = err (text_append "Decryption failed: " e)
  in_js panic = panic

  in_js-print_err :
      (r : Result Bytes) (i : Instance core)
      → continue (core_error "Decryption failed: " r) (λ text. pure (x.base64.encode text)) i
        ≡ (in_js (print_err r), i)
  in_js-print_err (ok plaintext) i = refl
  in_js-print_err (err e) i = refl
  in_js-print_err panic i = refl

  -- The two surfaces agree: with the same session behind their handles, neither poisoned nor
  -- borrowed, and the same random source, `session_decrypt` for JavaScript gives on a readable
  -- header and base64 what `session_decrypt` of the API gives, the plaintext in base64 and an error
  -- behind its prefix, and leaves the same session and the same random source.
  pub session_decrypt-session_decrypt :
      (base64 : Base64Laws x.base64) (handle handle' : ℕ) (header : MessageHeader)
      (sealed : Encrypted) (header_json : String) (g : Statics core) (i : Instance core)
      (session : Session core)
      → g.sessions.poisoned ≡ false
      → entry g.sessions handle ≡ some session
      → i.sessions_borrowed ≡ false
      → Dict.get i.sessions handle' ≡ some session
      → g.rng ≡ i.rng
      → read_header x header_json ≡ ok header
      → let (r, g') =
          Sessions.session_decrypt core handle (to_data header) sealed.ciphertext sealed.nonce g in
        let (r', i') =
          session_decrypt x handle' header_json
            (x.base64.encode sealed.ciphertext)
            (x.base64.encode sealed.nonce)
            i in
        (r' ≡ in_js r)
        × (Dict.get i'.sessions handle' ≡ entry g'.sessions handle)
        × (i'.rng ≡ g'.rng)
  session_decrypt-session_decrypt base64 handle handle' header sealed header_json g i session
        healthy at free at' same read =
      let (result, touches, _) =
        session_decrypt-Touches core handle (to_data header) sealed.ciphertext sealed.nonce g
          session healthy at in
      let out = decrypt core header sealed (record { session = session; rng = i.rng }) in
      let drawn : decrypt core header sealed (record { session = session; rng = g.rng }) ≡ out =
        ap (λ rng. decrypt core header sealed (record { session = session; rng = rng })) same in
      let run =
        session_decrypt-run x base64 handle' header sealed header_json i session free at' read
        ∙ in_js-print_err out.0 (put_back x handle' out i) in
      (
        ap (λ q. q.0) run ∙ ap (λ q. in_js (print_err q.0)) (sym drawn) ∙ ap in_js (sym result),
        ap (λ q. Dict.get q.1.sessions handle') run
            ∙ ground (arith, get-insert i.sessions handle' handle' out.1.session)
            ∙ ap (λ q. some q.1.session) (sym drawn)
            ∙ sym touches.own,
        ap (λ q. q.1.rng) run ∙ ap (λ q. q.1.rng) (sym drawn) ∙ sym touches.drawn,
      )
