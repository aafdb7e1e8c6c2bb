-- ===== src/Wasm/Delivered.antt =====
-- What one JavaScript instance sends through src/wasm.rs, the other one gets.
use ghostcrypt_crypto_core.Common.{
  ℕ, ◌≤◌, ◌<◌, ◌≡◌, refl, sym, ap, subst, ◌∙◌, Bytes, String, false, some, nat_eq, string_eq, arith,
}
use ghostcrypt_crypto_core.Common.Dict
use ghostcrypt_crypto_core.Common.Dict.Entries.{insert_all}
use ghostcrypt_crypto_core.Error.{ok, value}
use ghostcrypt_crypto_core.Crates.{KdfLaws, X25519Laws, AeadLaws}
use ghostcrypt_crypto_core.Aead.{Encrypted}
use ghostcrypt_crypto_core.Encoding.Base64.{Base64Laws}
use ghostcrypt_crypto_core.Encoding.Json.{
  JsonLaws, IsPlain, plain_string, plain_object, no_fields, plain_field,
}
use ghostcrypt_crypto_core.Ratchet.Chain.{u32_mod}
use ghostcrypt_crypto_core.Ratchet.Chain
use ghostcrypt_crypto_core.Ratchet.SkippedKeys.{count}
use ghostcrypt_crypto_core.Ratchet.Header
use ghostcrypt_crypto_core.Ratchet.Header.{MessageHeader}
use ghostcrypt_crypto_core.Ratchet.State.{Session, World, max_skip}
use ghostcrypt_crypto_core.Ratchet.Session.{encrypt}
use ghostcrypt_crypto_core.Ratchet.Delivery.{encrypt-Sends}
use ghostcrypt_crypto_core.Ratchet.Turn.{Turn, Room, FreshKey}
use ghostcrypt_crypto_core.Ratchet.Exchange.{decrypt-encrypt-Turn}
use ghostcrypt_crypto_core.Wasm.State.{WasmCrates, Instance, base64_value}
use ghostcrypt_crypto_core.Wasm.Sessions.{
  header_value, read_header, session_encrypt, session_decrypt,
}
use ghostcrypt_crypto_core.Wasm.Runs.{sent_fields, session_encrypt-inversion, session_decrypt-run}
use ghostcrypt_crypto_core.Wasm.Texts.{
  as_str-base64_value, FitsU32, header_value-IsPlain, read_header-to_string,
}

module _ (x : WasmCrates) (base64 : Base64Laws x.base64) (laws : JsonLaws x.json)
    (kdf : KdfLaws x.core) (x25519 : X25519Laws x.core) (aead : AeadLaws x.core) where
  open x use {core, json}

  -- The fields of the answer, as JavaScript reads them off its parsed text
  record Received (header : MessageHeader) (sealed : Encrypted)
      (header_text ciphertext nonce : String) : Type 0 where
    read : read_header x header_text ≡ ok header
    sealed_text : ciphertext ≡ x.base64.encode sealed.ciphertext
    nonce_text : nonce ≡ x.base64.encode sealed.nonce

  received :
      (header : MessageHeader) (sealed : Encrypted) (text header_text ciphertext nonce : String)
      (v : json.Value)
      → FitsU32 header
      → json.to_string (json.object (sent_fields x header sealed)) ≡ value text
      → json.from_str text ≡ value v
      → json.to_string (json.index v "header") ≡ value header_text
      → json.as_str (json.index v "ciphertext") ≡ some ciphertext
      → json.as_str (json.index v "nonce") ≡ some nonce
      → Received header sealed header_text ciphertext nonce
  unfolding insert_all Dict.insert Dict.get
  received header sealed text header_text ciphertext nonce v fits h₀ h₁ h₂ h₃ h₄ =
      let fields = sent_fields x header sealed in
      let plain : IsPlain json (json.object fields) = plain_object _ (
        plain_field _ _ _ (header_value-IsPlain x base64 laws header fits)
          (plain_field _ _ _ (plain_string _) (plain_field _ _ _ (plain_string _) no_fields))) in
      let same : v ≡ json.object fields =
        cc (h₁, laws.from_str-to_string (json.object fields) text plain h₀) in
      let e₀ : json.index v "header" ≡ header_value x header =
        ap (λ u. json.index u "header") same
        ∙ laws.index-object fields "header" (header_value x header) refl in
      let e₁ : json.index v "ciphertext" ≡ base64_value x sealed.ciphertext =
        ap (λ u. json.index u "ciphertext") same
        ∙ laws.index-object fields "ciphertext" (base64_value x sealed.ciphertext) refl in
      let e₂ : json.index v "nonce" ≡ base64_value x sealed.nonce =
        ap (λ u. json.index u "nonce") same
        ∙ laws.index-object fields "nonce" (base64_value x sealed.nonce) refl in
      record {
        read =
            read_header-to_string x base64 laws header header_text fits
              (sym (ap json.to_string e₀) ∙ h₂);
        sealed_text = as_str-base64_value x base64 laws _ sealed.ciphertext ciphertext e₁ h₃;
        nonce_text = as_str-base64_value x base64 laws _ sealed.nonce nonce e₂ h₄;
      }

  -- The header of the first message of a turn fits its types.
  encrypt-FitsU32 :
      (plaintext : Bytes) (w w' : World core) (receiver : Session core) (header : MessageHeader)
      (sealed : Encrypted)
      → Turn w.session receiver
      → w.session.previous_sending_chain_length < u32_mod
      → encrypt core plaintext w ≡ (ok (header, sealed), w')
      → FitsU32 header × (header.previous_chain_length ≡ w.session.previous_sending_chain_length)
  unfolding Header.new
  encrypt-FitsU32 plaintext w w' receiver header sealed t u h =
      let s =
        encrypt-Sends core kdf (Chain.new t.chain_key 0) plaintext w w' header sealed t.sending
          (omega arith) h in
      let number : header.message_number ≡ 0 =
        ap (λ (q : MessageHeader). q.message_number) s.headed in
      let previous : header.previous_chain_length ≡ w.session.previous_sending_chain_length =
        ap (λ (q : MessageHeader). q.previous_chain_length) s.headed in
      (record { number = omega (arith, number); previous = omega (arith, previous, u) }, previous)

  -- Two instances whose sessions, behind their handles and not borrowed, are at the sender's turn.
  -- The text that `session_encrypt` returns on the one is parsed; its header, printed again, and
  -- the strings that are its ciphertext and its nonce go to `session_decrypt` on the other one,
  -- which returns the plaintext. The hypotheses on the receiver are those of the ratchet: room for
  -- the keys of its old chain, and a new key drawn that is not in use.
  pub session_decrypt-session_encrypt_text :
      (handle handle' : ℕ) (plaintext : Bytes) (i i' other : Instance core)
      (text header_text ciphertext nonce : String) (v : json.Value) (sender receiver : Session core)
      → i.sessions_borrowed ≡ false
      → Dict.get i.sessions handle ≡ some sender
      → other.sessions_borrowed ≡ false
      → Dict.get other.sessions handle' ≡ some receiver
      → Turn sender receiver
      → session_encrypt x handle (x.base64.encode plaintext) i ≡ (ok text, i')
      → json.from_str text ≡ value v
      → json.to_string (json.index v "header") ≡ value header_text
      → json.as_str (json.index v "ciphertext") ≡ some ciphertext
      → json.as_str (json.index v "nonce") ≡ some nonce
      → sender.previous_sending_chain_length < u32_mod
      → Room sender.previous_sending_chain_length receiver
      → count receiver.skipped_keys ≤ max_skip
      → FreshKey sender (record { session = receiver; rng = other.rng })
      → (session_decrypt x handle' header_text ciphertext nonce other).0
        ≡ ok (x.base64.encode plaintext)
  session_decrypt-session_encrypt_text handle handle' plaintext i i' other text header_text
        ciphertext nonce v sender receiver free at free' at' turn h parsed printed sealed_str
        nonce_str u room fits fresh =
      let w : World core = record { session = sender; rng = i.rng } in
      let w' : World core = record { session = receiver; rng = other.rng } in
      let (header, sealed, run, answered) =
        session_encrypt-inversion x base64 handle plaintext i i' text sender free at h in
      let (fits_u32, previous) =
        encrypt-FitsU32 plaintext w (encrypt core plaintext w).1 receiver header sealed turn u
          run in
      let r =
        received header sealed text header_text ciphertext nonce v fits_u32 answered parsed printed
          sealed_str nonce_str in
      let (got, _) =
        decrypt-encrypt-Turn core kdf x25519 aead plaintext w (encrypt core plaintext w).1 w' header
          sealed turn run (omega (arith, previous, u))
          (subst (λ n. Room n receiver) (sym previous) room) fits fresh in
      rw
        (
          r.sealed_text,
          r.nonce_text,
          session_decrypt-run x base64 handle' header sealed header_text other receiver free' at'
              r.read,
          got,
        )
        refl
