-- ===== src/Examples/Api.antt =====
-- The entry points of the API at concrete stores.
use ghostcrypt_crypto_core.Common.{
  ℕ, ◌≡◌, ◌≢◌, ◌↔◌, refl, Bytes, true, false, [], ◌∷◌, none, some, arith,
}
use ghostcrypt_crypto_core.Error.{Outcome, ok, err, panic}
use ghostcrypt_crypto_core.Exec.{pure, print_err}
use ghostcrypt_crypto_core.Aead
use ghostcrypt_crypto_core.Ratchet.SkippedKeys.{count-empty, stored-empty}
use ghostcrypt_crypto_core.Ratchet.Chain
use ghostcrypt_crypto_core.Ratchet.State
use ghostcrypt_crypto_core.Ratchet.State.{Session, World}
use ghostcrypt_crypto_core.Ratchet.Session.{init_alice, init_bob, encrypt, decrypt}
use ghostcrypt_crypto_core.Kdf
use ghostcrypt_crypto_core.Mls.Types.{MlsOps}
use ghostcrypt_crypto_core.Api.Store.{entry, lock_error, find}
use ghostcrypt_crypto_core.Api.State.{Statics}
use ghostcrypt_crypto_core.Api.Keys.{SimpleEncryptResult, aes_encrypt, aes_decrypt}
use ghostcrypt_crypto_core.Api.Sessions.{
  MessageHeaderData, EncryptResult, from_data, to_data, session_lock, with_session, session_encrypt,
  session_decrypt, create_session_initiator, destroy_session, poisoned_by,
}
use ghostcrypt_crypto_core.Api.Groups.{mls_encrypt_message}
use ghostcrypt_crypto_core.Api.Handles.{Fresh, Inserts}
use ghostcrypt_crypto_core.Api.Isolation.{
  Touches, session_decrypt-Touches, destroy_session-entry, create_session_initiator-Inserts,
}
use ghostcrypt_crypto_core.Api.Poison.{bad_header-poisons}
use ghostcrypt_crypto_core.Api.Agreement.{aes_decrypt-aes_encrypt, session_decrypt-session_encrypt}
use ghostcrypt_crypto_core.Api.Snapshots.{Keeps, mls-Keeps}
use ghostcrypt_crypto_core.Examples.Toy.{toy, toy-X25519Laws, toy-KdfLaws, toy-AeadLaws, key_bytes}
use ghostcrypt_crypto_core.Examples.Turns.{
  sender, answering, sent, sender-Turn, no_previous_chain, answering-FreshKey, answering-Room,
}

-- A device with one session, behind the handle 1
abbrev pub device : World toy → Statics toy
device w = record {
  sessions = record {
    next = 2;
    slots = record { entries = (1, w.session) ∷ [] };
    poisoned = false;
  };
  mls_states = record {
    next = 2;
    slots = record { entries = (1, 77 ∷ []) ∷ [] };
    poisoned = false;
  };
  rng = w.rng;
}

pub first_entry : (w : World toy) → entry (device w).sessions 1 ≡ some w.session
unfolding entry
first_entry w = refl

device-Fresh : (w : World toy) → Fresh (device w).sessions
unfolding entry
device-Fresh w h le = ground arith

device-Fresh_groups : (w : World toy) → Fresh (device w).mls_states
unfolding entry
device-Fresh_groups w h le = ground arith

abbrev aes_of : Outcome Prim.Native.String.String SimpleEncryptResult → SimpleEncryptResult
aes_of (ok r) = r
aes_of _ = record { ciphertext = []; nonce = [] }

abbrev aes_sealed : SimpleEncryptResult
aes_sealed = aes_of (aes_encrypt toy (key_bytes 5) (42 ∷ []) (device sender)).0

aes_runs :
    aes_encrypt toy (key_bytes 5) (42 ∷ []) (device sender)
    ≡ (ok aes_sealed, (aes_encrypt toy (key_bytes 5) (42 ∷ []) (device sender)).1)
unfolding aes_encrypt Aead.encrypt
aes_runs = refl

aes_decrypt-aes_encrypt_example :
    aes_decrypt toy (key_bytes 5) aes_sealed.ciphertext aes_sealed.nonce (device answering)
    ≡ (ok (42 ∷ []), device answering)
aes_decrypt-aes_encrypt_example =
    aes_decrypt-aes_encrypt toy toy-AeadLaws (key_bytes 5) (42 ∷ []) (device sender)
      (aes_encrypt toy (key_bytes 5) (42 ∷ []) (device sender)).1 (device answering) aes_sealed
      aes_runs

abbrev posted : EncryptResult
posted = record { header = to_data sent.0; ciphertext = sent.1.ciphertext; nonce = sent.1.nonce }

session_encrypt_runs :
    session_encrypt toy 1 (42 ∷ []) (device sender)
    ≡ (ok posted, (session_encrypt toy 1 (42 ∷ []) (device sender)).1)
unfolding session_encrypt with_session find entry encrypt Chain.advance
    Kdf.derive_chain_and_message_key Aead.encrypt State.message_key_array
session_encrypt_runs = refl

session_decrypt-session_encrypt_example :
    (session_decrypt toy 1 posted.header posted.ciphertext posted.nonce (device answering)).0
    ≡ ok (42 ∷ [])
unfolding init_bob
session_decrypt-session_encrypt_example =
    session_decrypt-session_encrypt toy toy-KdfLaws toy-X25519Laws toy-AeadLaws 1 1 (42 ∷ [])
      (device sender) (session_encrypt toy 1 (42 ∷ []) (device sender)).1 (device answering) posted
      sender.session answering.session refl (first_entry sender) refl (first_entry answering)
      sender-Turn session_encrypt_runs (omega (arith, no_previous_chain)) answering-Room
      (omega (arith, count-empty)) answering-FreshKey

session_decrypt-Touches_example :
    let (r, w) =
      decrypt toy
        (from_data posted.header)
        (record { nonce = posted.nonce; ciphertext = posted.ciphertext })
        answering in
    let (r', g') =
      session_decrypt toy 1 posted.header posted.ciphertext posted.nonce (device answering) in
    (r' ≡ print_err r) × Touches 1 w (device answering) g' × (g'.sessions.poisoned ≡ poisoned_by r)
session_decrypt-Touches_example =
    session_decrypt-Touches toy 1 posted.header posted.ciphertext posted.nonce (device answering)
      answering.session refl (first_entry answering)

destroy_session-entry_example :
    let (removed, g') = destroy_session toy 1 (device sender) in
    ((removed ≡ true) ↔ (entry (device sender).sessions 1 ≢ none))
    × (entry g'.sessions 1 ≡ none)
    × ((other : ℕ) → other ≢ 1 → entry g'.sessions other ≡ entry (device sender).sessions other)
destroy_session-entry_example = destroy_session-entry toy 1 (device sender) refl

create_session_initiator-Inserts_example :
    (session : Session toy) × (rng' : ℕ) × (g' : Statics toy) × (init_alice toy (key_bytes 9) 5 21
      ≡ (ok session, rng'))
    × (create_session_initiator toy (key_bytes 9) (key_bytes 5) (device sender) ≡ (ok 2, g'))
    × Inserts session (device sender).sessions g'.sessions
create_session_initiator-Inserts_example =
    create_session_initiator-Inserts toy toy-KdfLaws (key_bytes 9) (key_bytes 5) (device sender)
      refl (device-Fresh sender) refl (omega arith)

-- A header from the network with an empty key
abbrev bad_header : MessageHeaderData
bad_header = record { dh_public_key = []; message_number = 0; previous_chain_length = 0 }

bad_header-poisons_example :
    let (r, g') = session_decrypt toy 1 bad_header [] [] (device sender) in
    (r ≡ panic)
    × ((other : ℕ) (plaintext : Bytes)
        → (session_encrypt toy other plaintext g').0 ≡ err (lock_error session_lock))
    × ((other : ℕ) (next : MessageHeaderData) (ciphertext' nonce' : Bytes)
        → (session_decrypt toy other next ciphertext' nonce' g').0 ≡ err (lock_error session_lock))
    × ((other : ℕ) → (destroy_session toy other g').0 ≡ false)
bad_header-poisons_example =
    bad_header-poisons toy 1 bad_header [] [] (device sender) sender.session refl
      (first_entry sender) (omega arith) (stored-empty [] 0)

-- A stand-in for the group operations: the state is the message, and each one succeeds.
abbrev toy_mls : MlsOps ℕ
toy_mls = record {
  generate_key_package = λ identity. pure (record { key_package = identity; secret_bundle = [] });
  create_group =
      λ identity. pure (record { group_state = identity; group_id = identity; epoch = 0 });
  add_member = λ state key_package. pure (record {
    commit = key_package;
    welcome = key_package;
    group_state = key_package;
    epoch = 1;
  });
  remove_member = λ state leaf. pure (record { commit = []; group_state = leaf ∷ []; epoch = 1 });
  encrypt_message = λ state m. pure (record { mls_ciphertext = m; group_state = m; epoch = 1 });
  decrypt_message = λ state m. pure (record { plaintext = m; group_state = m });
  process_commit = λ state m. pure (record { group_state = m; epoch = 1 });
  process_welcome =
      λ welcome bundle. pure (record { group_state = bundle; group_id = welcome; epoch = 1 });
}

mls-Keeps_example :
    Keeps (device sender) (mls_encrypt_message toy toy_mls 1 (8 ∷ []) (device sender)).1
mls-Keeps_example =
    (mls-Keeps toy toy_mls (device sender) 1 0 (8 ∷ []) [] (device-Fresh_groups sender)).3
