-- ===== src/Wasm/Sessions.antt =====
-- src/wasm.rs: Double Ratchet sessions behind handles.
use ghostcrypt_crypto_core.Common.{
  ℕ, ◌%◌, String, Bool, true, false, [], ◌∷◌, nat_eq, if◌then◌else◌,
}
use ghostcrypt_crypto_core.Common.Dict
use ghostcrypt_crypto_core.Error.{Outcome, ok, err, panic, Result}
use ghostcrypt_crypto_core.Error
use ghostcrypt_crypto_core.Exec.{Exec, Call, pure, lift, gets, ◌>>=◌, ◌>>◌}
use ghostcrypt_crypto_core.Ratchet.Chain.{u32_mod}
use ghostcrypt_crypto_core.Ratchet.Header.{MessageHeader}
use ghostcrypt_crypto_core.Ratchet.State.{Session, World}
use ghostcrypt_crypto_core.Ratchet.Session.{init_alice, init_bob, encrypt, decrypt}
use ghostcrypt_crypto_core.Wasm.State.{
  WasmCrates, Instance, find_handle, check_32, js_error, core_error, on_core, next_id, from_base64,
  str_field, u64_field, base64_value, answer,
}

-- A panic keeps the borrow that it interrupts.
abbrev pub interrupted {ℓ κ} : {E : Type ℓ} {A : Type κ} → Outcome E A → Bool
interrupted (ok a) = false
interrupted (err e) = false
interrupted panic = true

module _ (x : WasmCrates) where
  open x use {core, json}

  -- `SESSIONS.with(|store| { store.borrow_mut().insert(handle, session); })`
  unfoldable pub insert_session : ℕ → Session core → Call (Instance core) (Unit {0})
  insert_session handle session i =
      if i.sessions_borrowed
      then (panic, i)
      else (ok tt, record i { sessions = Dict.insert i.sessions handle session })

  unfoldable pub create_session_alice : String → String → Call (Instance core) ℕ
  create_session_alice shared_secret_b64 bob_spk_public_b64 = do
    shared_secret ← lift (from_base64 x "shared_secret" shared_secret_b64)
    bob_spk_bytes ← lift (from_base64 x "bob_spk_public" bob_spk_public_b64)
    lift (check_32 "Bob's SPK public key must be 32 bytes" bob_spk_bytes)
    session ← on_core "" (init_alice core shared_secret (core.public_from_bytes bob_spk_bytes))
    handle ← next_id
    insert_session handle session
    pure handle

  unfoldable pub create_session_bob : String → ℕ → Call (Instance core) ℕ
  create_session_bob shared_secret_b64 spk_handle = do
    shared_secret ← lift (from_base64 x "shared_secret" shared_secret_b64)
    spk_keys ← gets (λ i. i.spk_keys)
    spk ← lift (find_handle "SPK" spk_handle spk_keys)
    handle ← next_id
    insert_session handle (init_bob core shared_secret spk)
    pure handle

  -- What a method on the session of a handle leaves
  abbrev pub put_back {ℓ} : {A : Type ℓ} → ℕ → Result A × World core → Instance core → Instance core
  put_back handle (r, w) i = record i {
    sessions = Dict.insert i.sessions handle w.session;
    sessions_borrowed = interrupted r;
    rng = w.rng;
  }

  -- `SESSIONS.with(|store| ..)`: `borrow_mut()`, `get_mut(&handle)?`, and a method on the session
  unfoldable pub with_session {ℓ} :
      {A : Type ℓ} → String → ℕ → Exec (World core) A → Call (Instance core) A
  with_session prefix handle m i =
      if i.sessions_borrowed then (panic, i) else elim (find_handle "Session" handle i.sessions) [
        | ok session ↦
            let out = m (record { session = session; rng = i.rng }) in
            (core_error prefix out.0, put_back handle out i)
        | err e ↦ (err e, i)
        | panic ↦ (panic, i)
      ]

  -- The `"header"` of the answer
  abbrev pub header_value : MessageHeader → json.Value
  header_value header = json.object (
      ("dh_public_key", base64_value x header.dh_public_key)
      ∷ ("message_number", json.number header.message_number)
      ∷ ("previous_chain_length", json.number header.previous_chain_length)
      ∷ [])

  unfoldable pub session_encrypt : ℕ → String → Call (Instance core) String
  session_encrypt session_handle plaintext_b64 = do
    plaintext ← lift (from_base64 x "plaintext" plaintext_b64)
    (header, encrypted) ← with_session "Encryption failed: " session_handle (encrypt core plaintext)
    answer x (
        json.object (
          ("header", header_value header)
          ∷ ("ciphertext", base64_value x encrypted.ciphertext)
          ∷ ("nonce", base64_value x encrypted.nonce)
          ∷ []))

  -- The part of `session_decrypt` that reads the header; `as u32` keeps the low bits.
  unfoldable pub read_header : String → Outcome String MessageHeader
  read_header header_json =
      Error.◌>>=◌ (js_error "Invalid header JSON: " (json.from_str header_json)) λ v.
        Error.◌>>=◌ (str_field x "header" v "dh_public_key") λ dh_public_key_b64.
          Error.◌>>=◌ (from_base64 x "dh_public_key" dh_public_key_b64) λ dh_public_key.
            Error.◌>>=◌ (u64_field x "header" v "message_number") λ message_number.
              Error.◌>>=◌ (u64_field x "header" v "previous_chain_length") λ previous_chain_length.
                ok (record {
                  dh_public_key = dh_public_key;
                  message_number = message_number % u32_mod;
                  previous_chain_length = previous_chain_length % u32_mod;
                })

  unfoldable pub session_decrypt : ℕ → String → String → String → Call (Instance core) String
  session_decrypt session_handle header_json ciphertext_b64 nonce_b64 = do
    header ← lift (read_header header_json)
    ciphertext ← lift (from_base64 x "ciphertext" ciphertext_b64)
    nonce ← lift (from_base64 x "nonce" nonce_b64)
    plaintext ←
        with_session "Decryption failed: " session_handle
          (decrypt core header (record { nonce = nonce; ciphertext = ciphertext }))
    pure (x.base64.encode plaintext)
