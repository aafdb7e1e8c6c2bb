-- ===== src/Examples/Wasm.antt =====
-- Calls from JavaScript at concrete instances.
use ghostcrypt_crypto_core.Common.{
  ℕ, ◌≡◌, refl, Bytes, String, some, List, [], ◌∷◌, nat_eq, string_eq, arith,
}
use ghostcrypt_crypto_core.Common.Dict
use ghostcrypt_crypto_core.Common.Dict.Entries.{insert_all}
use ghostcrypt_crypto_core.Error.{ok, panic}
use ghostcrypt_crypto_core.Kdf
use ghostcrypt_crypto_core.Aead
use ghostcrypt_crypto_core.Ratchet.Chain
use ghostcrypt_crypto_core.Ratchet.SkippedKeys
use ghostcrypt_crypto_core.Ratchet.SkippedKeys.{count-empty}
use ghostcrypt_crypto_core.Ratchet.Header
use ghostcrypt_crypto_core.Ratchet.Header.{MessageHeader}
use ghostcrypt_crypto_core.Ratchet.State
use ghostcrypt_crypto_core.Ratchet.State.{Session, World}
use ghostcrypt_crypto_core.Ratchet.Session.{encrypt, decrypt, decrypt_next, init_bob}
use ghostcrypt_crypto_core.Wasm.State.{
  WasmCrates, Instance, new_instance, find_handle, from_base64, answer,
}
use ghostcrypt_crypto_core.Wasm.Sessions.{
  with_session, session_encrypt, session_decrypt, header_value, read_header,
}
use ghostcrypt_crypto_core.Wasm.Runs.{sent_fields}
use ghostcrypt_crypto_core.Api.Store.{entry}
use ghostcrypt_crypto_core.Api.Sessions
use ghostcrypt_crypto_core.Api.Sessions.{to_data}
use ghostcrypt_crypto_core.Wasm.Surfaces.{in_js, session_decrypt-session_decrypt}
use ghostcrypt_crypto_core.Examples.Api.{device, first_entry}
use ghostcrypt_crypto_core.Wasm.Texts.{FitsU32, read_header-to_string}
use ghostcrypt_crypto_core.Wasm.Requests.{Request, serve_all}
use ghostcrypt_crypto_core.Wasm.Interrupted.{session_decrypt-panic}
use ghostcrypt_crypto_core.Mls.Messages.{mls_ops}
use ghostcrypt_crypto_core.Examples.ToyMls.{toy_mls}
use ghostcrypt_crypto_core.Wasm.Delivered.{session_decrypt-session_encrypt_text}
use ghostcrypt_crypto_core.Examples.Toy.{toy, toy-X25519Laws, toy-KdfLaws, toy-AeadLaws}
use ghostcrypt_crypto_core.Examples.ToyText.{toy_base64, toy_base64-Base64Laws}
use ghostcrypt_crypto_core.Examples.ToyJson.{toy_json, toy_json-JsonLaws}
use ghostcrypt_crypto_core.Examples.Turns.{
  sender, answering, sent, sender-Turn, no_previous_chain, answering-FreshKey, answering-Room,
}

abbrev pub browser : WasmCrates
browser = record { core = toy; base64 = toy_base64; json = toy_json }

-- An instance with one session, behind the handle 1
abbrev pub tab : World toy → Instance toy
tab w = record (new_instance {c = toy} w.rng) {
  sessions = record { entries = (1, w.session) ∷ [] };
  next = 2;
}

pub tab_session : (w : World toy) → Dict.get (tab w).sessions 1 ≡ some w.session
unfolding Dict.get
tab_session w = refl

abbrev posted : String
posted = toy_json.object (sent_fields browser sent.0 sent.1)

session_encrypt_runs :
    session_encrypt browser 1 (toy_base64.encode (42 ∷ [])) (tab sender)
    ≡ (ok posted, (session_encrypt browser 1 (toy_base64.encode (42 ∷ [])) (tab sender)).1)
unfolding session_encrypt with_session find_handle from_base64 answer Dict.get encrypt Chain.advance
    Kdf.derive_chain_and_message_key Aead.encrypt State.message_key_array
session_encrypt_runs = refl

session_decrypt-session_encrypt_text_example :
    (session_decrypt browser 1
      (header_value browser sent.0)
      (toy_base64.encode sent.1.ciphertext)
      (toy_base64.encode sent.1.nonce)
      (tab answering)).0
    ≡ ok (toy_base64.encode (42 ∷ []))
unfolding init_bob Dict.get insert_all Dict.insert encrypt Chain.advance
    Kdf.derive_chain_and_message_key State.message_key_array Aead.encrypt Header.new Chain.u32_pred
    Chain.u32_suc Header.to_bytes
session_decrypt-session_encrypt_text_example =
    session_decrypt-session_encrypt_text browser toy_base64-Base64Laws toy_json-JsonLaws toy-KdfLaws
      toy-X25519Laws toy-AeadLaws 1 1 (42 ∷ []) (tab sender)
      (session_encrypt browser 1 (toy_base64.encode (42 ∷ [])) (tab sender)).1 (tab answering)
      posted (header_value browser sent.0) (toy_base64.encode sent.1.ciphertext)
      (toy_base64.encode sent.1.nonce) posted sender.session answering.session refl
      (tab_session sender) refl (tab_session answering) sender-Turn session_encrypt_runs refl refl
      refl refl (omega (arith, no_previous_chain)) answering-Room (omega (arith, count-empty))
      answering-FreshKey

-- A header whose public key has one byte, in place of 32
abbrev short_header : MessageHeader
short_header = record { dh_public_key = 1 ∷ []; message_number = 0; previous_chain_length = 0 }

short_header-read : read_header browser (header_value browser short_header) ≡ ok short_header
short_header-read =
    read_header-to_string browser toy_base64-Base64Laws toy_json-JsonLaws short_header
      (header_value browser short_header) (record { number = omega arith; previous = omega arith })
      refl

short_header-panic : (decrypt toy short_header sent.1 answering).0 ≡ panic
unfolding decrypt decrypt_next SkippedKeys.stored Header.to_public_key init_bob Dict.get
    SkippedKeys.empty
short_header-panic = refl

session_decrypt-panic_example :
    let out =
      session_decrypt browser 1
        (header_value browser short_header)
        (toy_base64.encode sent.1.ciphertext)
        (toy_base64.encode sent.1.nonce)
        (tab answering) in
    (out.0 ≡ panic)
    × ((requests : List Request) (handle : ℕ) (plaintext : Bytes)
        → session_encrypt browser handle
            (toy_base64.encode plaintext)
            (serve_all browser (mls_ops toy_mls) requests out.1)
          ≡ (panic, serve_all browser (mls_ops toy_mls) requests out.1))
session_decrypt-panic_example =
    session_decrypt-panic browser (mls_ops toy_mls) toy_base64-Base64Laws 1 short_header sent.1
      (header_value browser short_header) (tab answering) answering.session refl
      (tab_session answering) short_header-read short_header-panic

sent_header-FitsU32 : FitsU32 sent.0
unfolding encrypt Chain.advance Kdf.derive_chain_and_message_key Aead.encrypt
    State.message_key_array Header.new Chain.u32_pred Chain.u32_suc
sent_header-FitsU32 = record { number = omega arith; previous = omega arith }

sent_header-read : read_header browser (header_value browser sent.0) ≡ ok sent.0
sent_header-read =
    read_header-to_string browser toy_base64-Base64Laws toy_json-JsonLaws sent.0
      (header_value browser sent.0) sent_header-FitsU32 refl

session_decrypt-session_decrypt_example :
    let (r, g') =
      Sessions.session_decrypt toy 1
        (to_data sent.0)
        sent.1.ciphertext
        sent.1.nonce
        (device answering) in
    let (r', i') =
      session_decrypt browser 1
        (header_value browser sent.0)
        (toy_base64.encode sent.1.ciphertext)
        (toy_base64.encode sent.1.nonce)
        (tab answering) in
    (r' ≡ in_js browser r) × (Dict.get i'.sessions 1 ≡ entry g'.sessions 1) × (i'.rng ≡ g'.rng)
session_decrypt-session_decrypt_example =
    session_decrypt-session_decrypt browser toy_base64-Base64Laws 1 1 sent.0 sent.1
      (header_value browser sent.0) (device answering) (tab answering) answering.session refl
      (first_entry answering) refl (tab_session answering) refl sent_header-read
