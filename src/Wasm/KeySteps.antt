-- ===== src/Wasm/KeySteps.antt =====
-- Every call of src/wasm.rs on keys and sessions does one of the moves.
use ghostcrypt_crypto_core.Common.{ℕ, ◌≡◌, refl, String, none, false, nat_eq}
use ghostcrypt_crypto_core.Error.{Outcome, ok, err, panic}
use ghostcrypt_crypto_core.Exec.{Exec, continue, continue-leaves, if-leaves, pure}
use ghostcrypt_crypto_core.Identity
use ghostcrypt_crypto_core.X3dh
use ghostcrypt_crypto_core.Ratchet.Chain.{u32_suc}
use ghostcrypt_crypto_core.Ratchet.State.{Session, World}
use ghostcrypt_crypto_core.Ratchet.Session.{init_alice, init_bob, encrypt, decrypt}
use ghostcrypt_crypto_core.Mls.Types.{MlsOps}
use ghostcrypt_crypto_core.Wasm.State.{
  WasmCrates, Instance, find_handle, find_handle-ok, core_error, check_32, next_id, from_base64,
  answer,
}
use ghostcrypt_crypto_core.Wasm.Keys
use ghostcrypt_crypto_core.Wasm.Agreement
use ghostcrypt_crypto_core.Wasm.Sessions
use ghostcrypt_crypto_core.Wasm.Moves.{
  Moves, drew, used_up, new_identity, new_pre_key, new_session, changed_session,
}

module _ (x : WasmCrates) (mls : MlsOps x.core.Rng) (i : Instance x.core) where
  open x use {core}

  abbrev P : Instance core → Type 0
  P j = Moves mls i j

  pub generate_identity_keypair-Moves : P (Keys.generate_identity_keypair x i).1
  unfolding Keys.generate_identity_keypair next_id answer
  generate_identity_keypair-Moves =
      let (out, rng') = Identity.generate core i.rng in
      continue-leaves P (core_error "" out) _ (record i { rng = rng' }) (drew rng')
        λ kp h. new_identity rng' kp

  pub generate_signed_pre_key-Moves :
      (identity_handle : ℕ) → P (Keys.generate_signed_pre_key x identity_handle i).1
  unfolding Keys.generate_signed_pre_key next_id answer
  generate_signed_pre_key-Moves identity_handle =
      continue-leaves P (find_handle "Identity" identity_handle i.identity_keys) _ i (drew i.rng)
        λ identity h₀.
          let (out, rng') = Identity.generate_signed core identity i.rng in
          continue-leaves P (core_error "" out) _ (record i { rng = rng' }) (drew rng')
            λ spk h. new_pre_key rng' spk

  pub generate_one_time_pre_keys-Moves :
      (count : ℕ) → P (Keys.generate_one_time_pre_keys x count i).1
  unfolding Keys.generate_one_time_pre_keys answer
  generate_one_time_pre_keys-Moves count = drew (Identity.generate_batch core count i.rng).1

  pub x3dh_initiate-Moves :
      (identity_handle : ℕ) (bundle_json : String)
      → P (Agreement.x3dh_initiate x identity_handle bundle_json i).1
  unfolding Agreement.x3dh_initiate answer
  x3dh_initiate-Moves identity_handle bundle_json =
      continue-leaves P (Agreement.read_bundle x bundle_json) _ i (drew i.rng) λ bundle h₀.
        continue-leaves P (find_handle "Identity" identity_handle i.identity_keys) _ i (drew i.rng)
          λ identity h₁.
            let (out, rng') = X3dh.initiate core identity bundle i.rng in
            continue-leaves P (core_error "X3DH initiate failed: " out) _ (record i { rng = rng' })
              (drew rng') λ r h₂. drew rng'

  pub x3dh_respond-Moves :
      (identity_handle spk_handle : ℕ) (ik_b64 ek_b64 : String)
      → P (Agreement.x3dh_respond x identity_handle spk_handle ik_b64 ek_b64 i).1
  unfolding Agreement.x3dh_respond answer
  x3dh_respond-Moves identity_handle spk_handle ik_b64 ek_b64 =
      continue-leaves P (from_base64 x "alice_identity_key" ik_b64) _ i (drew i.rng) λ ik h₀.
        continue-leaves P (from_base64 x "alice_ephemeral_key" ek_b64) _ i (drew i.rng) λ ek h₁.
          continue-leaves P (check_32 "alice_identity_key must be 32 bytes" ik) _ i (drew i.rng)
            λ _ h₂.
              continue-leaves P (check_32 "alice_ephemeral_key must be 32 bytes" ek) _ i
                (drew i.rng)
                λ _ h₃.
                  continue-leaves P (find_handle "Identity" identity_handle i.identity_keys) _ i
                    (drew i.rng)
                    λ identity h₄.
                      continue-leaves P (find_handle "SPK" spk_handle i.spk_keys) _ i (drew i.rng)
                        λ spk h₅.
                          continue-leaves P
                            (core_error "X3DH respond failed: " (
                              X3dh.respond core identity spk none (core.public_from_bytes ik)
                                (core.public_from_bytes ek)))
                            _ i (drew i.rng) λ r h₆. drew i.rng

  insert_session-Moves :
      (session : Session core) (rng' : core.Rng)
      → P
          (Sessions.insert_session x i.next session
            (record i { rng = rng'; next = u32_suc i.next })).1
  unfolding Sessions.insert_session
  insert_session-Moves session rng' =
      if-leaves P i.sessions_borrowed _ _ (λ t. used_up rng') λ f. new_session rng' session f

  -- The end of `create_session_alice` and `create_session_bob`
  answered-Moves :
      (session : Session core) (rng' : core.Rng)
      → let out =
          Sessions.insert_session x i.next session
            (record i { rng = rng'; next = u32_suc i.next }) in
        P (continue out.0 (λ _. pure i.next) out.1).1
  answered-Moves session rng' =
      let out =
        Sessions.insert_session x i.next session (record i { rng = rng'; next = u32_suc i.next }) in
      let done = insert_session-Moves session rng' in
      continue-leaves P out.0 (λ _. pure i.next) out.1 done λ _ h. done

  pub create_session_alice-Moves :
      (shared_secret_b64 bob_spk_public_b64 : String)
      → P (Sessions.create_session_alice x shared_secret_b64 bob_spk_public_b64 i).1
  unfolding Sessions.create_session_alice next_id
  create_session_alice-Moves shared_secret_b64 bob_spk_public_b64 =
      continue-leaves P (from_base64 x "shared_secret" shared_secret_b64) _ i (drew i.rng)
        λ secret h₀.
          continue-leaves P (from_base64 x "bob_spk_public" bob_spk_public_b64) _ i (drew i.rng)
            λ spk h₁.
              continue-leaves P (check_32 "Bob's SPK public key must be 32 bytes" spk) _ i
                (drew i.rng)
                λ _ h₂.
                  let (out, rng') = init_alice core secret (core.public_from_bytes spk) i.rng in
                  continue-leaves P (core_error "" out) _ (record i { rng = rng' }) (drew rng')
                    λ session h₃. answered-Moves session rng'

  pub create_session_bob-Moves :
      (shared_secret_b64 : String) (spk_handle : ℕ)
      → P (Sessions.create_session_bob x shared_secret_b64 spk_handle i).1
  unfolding Sessions.create_session_bob next_id
  create_session_bob-Moves shared_secret_b64 spk_handle =
      continue-leaves P (from_base64 x "shared_secret" shared_secret_b64) _ i (drew i.rng)
        λ secret h₀.
          continue-leaves P (find_handle "SPK" spk_handle i.spk_keys) _ i (drew i.rng)
            λ spk h₁. answered-Moves (init_bob core secret spk) i.rng

  found-Moves :
      {A : Type 0} (prefix : String) (handle : ℕ) (m : Exec (World core) A)
      (o : Outcome String (Session core))
      → i.sessions_borrowed ≡ false
      → find_handle "Session" handle i.sessions ≡ o
      → P
          (elim o as (λ _. Outcome String A × Instance core) [
            | ok session ↦
                let out = m (record { session = session; rng = i.rng }) in
                (core_error prefix out.0, Sessions.put_back x handle out i)
            | err e ↦ (err e, i)
            | panic ↦ (panic, i)
          ]).1
  found-Moves prefix handle m (ok session) f h =
      let out = m (record { session = session; rng = i.rng }) in
      changed_session out.1.rng handle session out.1.session (Sessions.interrupted out.0) f
        (find_handle-ok "Session" handle i.sessions h)
  found-Moves prefix handle m (err e) f h = drew i.rng
  found-Moves prefix handle m panic f h = drew i.rng

  with_session-Moves :
      {A : Type 0} (prefix : String) (handle : ℕ) (m : Exec (World core) A)
      → P (Sessions.with_session x prefix handle m i).1
  unfolding Sessions.with_session
  with_session-Moves prefix handle m =
      if-leaves P i.sessions_borrowed _ _ (λ t. drew i.rng)
        λ f. found-Moves prefix handle m (find_handle "Session" handle i.sessions) f refl

  pub session_encrypt-Moves :
      (handle : ℕ) (plaintext_b64 : String)
      → P (Sessions.session_encrypt x handle plaintext_b64 i).1
  unfolding Sessions.session_encrypt answer
  session_encrypt-Moves handle plaintext_b64 =
      continue-leaves P (from_base64 x "plaintext" plaintext_b64) _ i (drew i.rng) λ plaintext h₀.
        let out = Sessions.with_session x "Encryption failed: " handle (encrypt core plaintext) i in
        let done = with_session-Moves "Encryption failed: " handle (encrypt core plaintext) in
        continue-leaves P out.0 _ out.1 done λ _ h₁. done

  pub session_decrypt-Moves :
      (handle : ℕ) (header_json ciphertext_b64 nonce_b64 : String)
      → P (Sessions.session_decrypt x handle header_json ciphertext_b64 nonce_b64 i).1
  unfolding Sessions.session_decrypt
  session_decrypt-Moves handle header_json ciphertext_b64 nonce_b64 =
      continue-leaves P (Sessions.read_header x header_json) _ i (drew i.rng) λ header h₀.
        continue-leaves P (from_base64 x "ciphertext" ciphertext_b64) _ i (drew i.rng)
          λ ciphertext h₁.
            continue-leaves P (from_base64 x "nonce" nonce_b64) _ i (drew i.rng) λ nonce h₂.
              let m = decrypt core header (record { nonce = nonce; ciphertext = ciphertext }) in
              let out = Sessions.with_session x "Decryption failed: " handle m i in
              let done = with_session-Moves "Decryption failed: " handle m in
              continue-leaves P out.0 _ out.1 done λ _ h₃. done
