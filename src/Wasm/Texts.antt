-- ===== src/Wasm/Texts.antt =====
-- What src/wasm.rs writes as base64 and JSON, it reads again.
use ghostcrypt_crypto_core.Common.{
  ◌<◌, ◌%◌, ◌≡◌, refl, Bytes, String, some, List, [], ◌∷◌, string_eq, arith,
}
use ghostcrypt_crypto_core.Common.Dict
use ghostcrypt_crypto_core.Common.Dict.Entries.{insert_all}
use ghostcrypt_crypto_core.Error.{ok, value}
use ghostcrypt_crypto_core.Encoding.Base64.{Base64Laws}
use ghostcrypt_crypto_core.Encoding.Json.{
  JsonLaws, IsPlain, plain_string, plain_number, plain_object, no_fields, plain_field,
}
use ghostcrypt_crypto_core.Ratchet.Chain.{u32_mod}
use ghostcrypt_crypto_core.Ratchet.Header.{MessageHeader}
use ghostcrypt_crypto_core.Wasm.State.{WasmCrates, from_base64, str_field, u64_field, base64_value}
use ghostcrypt_crypto_core.Wasm.Sessions.{header_value, read_header}

-- A header whose numbers fit their type
pub record FitsU32 (header : MessageHeader) : Type 0 where
  pub number : header.message_number < u32_mod
  pub previous : header.previous_chain_length < u32_mod

module _ (x : WasmCrates) (base64 : Base64Laws x.base64) where
  open x.json use {Value, as_str, as_u64, index, to_string, from_str}

  pub from_base64-encode :
      (name : String) (bytes : Bytes) → from_base64 x name (x.base64.encode bytes) ≡ ok bytes
  unfolding from_base64
  from_base64-encode name bytes = rw (base64.decode-encode bytes) refl

  module _ (laws : JsonLaws x.json) where
    pub as_str-base64_value :
        (v : Value) (bytes : Bytes) (text : String)
        → v ≡ base64_value x bytes
        → as_str v ≡ some text
        → text ≡ x.base64.encode bytes
    as_str-base64_value v bytes text e h = cc (e, h, laws.as_str-string (x.base64.encode bytes))

    pub header_value-IsPlain :
        (header : MessageHeader) → FitsU32 header → IsPlain x.json (header_value x header)
    header_value-IsPlain header fits = plain_object _ (
        plain_field _ _ _ (plain_string _) (
          plain_field _ _ _ (plain_number _ (omega (arith, fits.number)))
            (plain_field _ _ _ (plain_number _ (omega (arith, fits.previous))) no_fields)))

    -- The header that `session_encrypt` wrote is the one that `session_decrypt` reads.
    pub read_header-to_string :
        (header : MessageHeader) (text : String)
        → FitsU32 header
        → to_string (header_value x header) ≡ value text
        → read_header x text ≡ ok header
    unfolding read_header str_field u64_field insert_all Dict.insert Dict.get
    read_header-to_string header text fits h =
        let e₀ =
          laws.from_str-to_string (header_value x header) text (header_value-IsPlain header fits)
            h in
        let fields : List (String × Value) =
          ("dh_public_key", base64_value x header.dh_public_key)
          ∷ ("message_number", x.json.number header.message_number)
          ∷ ("previous_chain_length", x.json.number header.previous_chain_length)
          ∷ [] in
        let e₁ =
          laws.index-object fields "dh_public_key" (base64_value x header.dh_public_key) refl in
        let e₂ =
          laws.index-object fields "message_number" (x.json.number header.message_number) refl in
        let e₃ =
          laws.index-object fields "previous_chain_length"
            (x.json.number header.previous_chain_length) refl in
        let e₄ = laws.as_str-string (x.base64.encode header.dh_public_key) in
        let e₅ = laws.as_u64-number header.message_number (omega (arith, fits.number)) in
        let e₆ = laws.as_u64-number header.previous_chain_length (omega (arith, fits.previous)) in
        let number : header.message_number % u32_mod ≡ header.message_number =
          omega (arith, fits.number) in
        let previous : header.previous_chain_length % u32_mod ≡ header.previous_chain_length =
          omega (arith, fits.previous) in
        rw
          (
            e₀,
            e₁,
            e₂,
            e₃,
            e₄,
            e₅,
            e₆,
            from_base64-encode "dh_public_key" header.dh_public_key,
            number,
            previous,
          )
          refl
