-- ===== src/Api/Sessions.antt =====
-- The sessions of src/api.rs, behind handles.
use ghostcrypt_crypto_core.Common.{ℕ, Bytes, String, Bool, true, false}
use ghostcrypt_crypto_core.Error.{Outcome, ok, err, panic, Result}
use ghostcrypt_crypto_core.Exec.{Exec, Call, pure, lift, print_err, ◌>>=◌}
use ghostcrypt_crypto_core.Crates.{Crates}
use ghostcrypt_crypto_core.Identity
use ghostcrypt_crypto_core.Ratchet.Header.{MessageHeader}
use ghostcrypt_crypto_core.Ratchet.State.{Session, World}
use ghostcrypt_crypto_core.Ratchet.Session.{init_alice, init_bob, encrypt, decrypt}
use ghostcrypt_crypto_core.Api.Store.{Store, find, insert_new, set_entry, destroy}
use ghostcrypt_crypto_core.Api.State.{Statics, on_core, on_sessions}
use ghostcrypt_crypto_core.Api.Keys.{bytes_to_public_key}

pub record MessageHeaderData : Type 0 where
  pub dh_public_key : Bytes
  pub message_number : ℕ
  pub previous_chain_length : ℕ

pub record EncryptResult : Type 0 where
  pub header : MessageHeaderData
  pub ciphertext : Bytes
  pub nonce : Bytes

abbrev pub session_lock : String
session_lock = "Session lock poisoned: "

-- A panic under the write guard poisons the lock.
abbrev pub poisoned_by {ℓ κ} : {E : Type ℓ} {A : Type κ} → Outcome E A → Bool
poisoned_by (ok a) = false
poisoned_by (err e) = false
poisoned_by panic = true

abbrev pub to_data : MessageHeader → MessageHeaderData
to_data header = record {
  dh_public_key = header.dh_public_key;
  message_number = header.message_number;
  previous_chain_length = header.previous_chain_length;
}

abbrev pub from_data : MessageHeaderData → MessageHeader
from_data header = record {
  dh_public_key = header.dh_public_key;
  message_number = header.message_number;
  previous_chain_length = header.previous_chain_length;
}

module _ (c : Crates) where
  unfoldable pub create_session_initiator : Bytes → Bytes → Call (Statics c) ℕ
  create_session_initiator shared_secret responder_spk_public = do
    bob_spk_pub ← lift (bytes_to_public_key c responder_spk_public)
    session ← on_core (init_alice c shared_secret bob_spk_pub)
    on_sessions (insert_new session_lock session)

  unfoldable pub create_session_responder : Bytes → Bytes → Bytes → Bytes → Call (Statics c) ℕ
  create_session_responder shared_secret our_spk_secret our_spk_public our_spk_signature = do
    spk ←
        lift
          (print_err (Identity.signed_from_bytes c our_spk_secret our_spk_public our_spk_signature))
    on_sessions (insert_new session_lock (init_bob c shared_secret spk))

  -- What a method on the session of a handle leaves: the session in its place, changed or not.
  abbrev pub put_back {ℓ} : {A : Type ℓ} → ℕ → Result A × World c → Statics c → Statics c
  put_back handle (r, w) g =
      let s : Store (Session c) = record (g.sessions) { poisoned = poisoned_by r } in
      record g { sessions = set_entry handle w.session s; rng = w.rng }

  -- `SESSIONS.write()?`, `get_mut(&handle)?`, and a method on the session under the guard
  unfoldable pub with_session {ℓ} : {A : Type ℓ} → ℕ → Exec (World c) A → Call (Statics c) A
  with_session handle m g = elim (find session_lock "No session with handle " handle g.sessions) [
    | ok session ↦
        let out = m (record { session = session; rng = g.rng }) in
        (print_err out.0, put_back handle out g)
    | err e ↦ (err e, g)
    | panic ↦ (panic, g)
  ]

  unfoldable pub session_encrypt : ℕ → Bytes → Call (Statics c) EncryptResult
  session_encrypt session_handle plaintext = do
    (header, encrypted) ← with_session session_handle (encrypt c plaintext)
    pure (record {
      header = to_data header;
      ciphertext = encrypted.ciphertext;
      nonce = encrypted.nonce;
    })

  unfoldable pub session_decrypt : ℕ → MessageHeaderData → Bytes → Bytes → Call (Statics c) Bytes
  session_decrypt session_handle header ciphertext nonce =
      with_session session_handle
        (decrypt c (from_data header) (record { nonce = nonce; ciphertext = ciphertext }))

  unfoldable pub destroy_session : ℕ → Statics c → Bool × Statics c
  destroy_session session_handle g =
      let (removed, s) = destroy session_handle g.sessions in (removed, record g { sessions = s })
