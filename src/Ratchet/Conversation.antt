-- ===== src/Ratchet/Conversation.antt =====
-- Two sessions of src/ratchet/state.rs that send in turn.
use ghostcrypt_crypto_core.Common.{◌≤◌, ◌<◌, ◌≡◌, refl, ap₂, Bytes, List, [], ◌∷◌, map}
use ghostcrypt_crypto_core.Error.{Result, ok}
use ghostcrypt_crypto_core.Crates.{Crates, KdfLaws, X25519Laws, AeadLaws}
use ghostcrypt_crypto_core.Aead.{Encrypted}
use ghostcrypt_crypto_core.Ratchet.Chain.{u32_mod}
use ghostcrypt_crypto_core.Ratchet.SkippedKeys.{count}
use ghostcrypt_crypto_core.Ratchet.Header.{MessageHeader}
use ghostcrypt_crypto_core.Ratchet.State.{World, max_skip}
use ghostcrypt_crypto_core.Ratchet.Session.{encrypt, decrypt}
use ghostcrypt_crypto_core.Ratchet.Turn.{Turn, Room, FreshKey}
use ghostcrypt_crypto_core.Ratchet.Exchange.{decrypt-encrypt-Turn}

module _ (c : Crates) where
  -- The first party sends the first of the plaintexts, the second one answers with the next, and so
  -- on. At each message the receiver has room for the keys of its old chain, and the key that it
  -- draws is a new one.
  pub data Alternates : World c → World c → List Bytes → Type 0 where
    quiet : (sender receiver : World c) → Alternates sender receiver []
    says :
        (plaintext : Bytes) (sender sender' receiver : World c) (header : MessageHeader)
        (sealed : Encrypted) (rest : List Bytes)
        → encrypt c plaintext sender ≡ (ok (header, sealed), sender')
        → header.previous_chain_length < u32_mod
        → Room header.previous_chain_length receiver.session
        → count receiver.session.skipped_keys ≤ max_skip
        → FreshKey sender.session receiver
        → Alternates (decrypt c header sealed receiver).1 sender' rest
        → Alternates sender receiver (plaintext ∷ rest)

  -- What the receivers get, message by message
  pub results :
      (sender receiver : World c) (texts : List Bytes)
      → Alternates sender receiver texts
      → List (Result Bytes)
  results sender receiver texts (quiet s r) = []
  results sender receiver texts
        (says plaintext s s' r header sealed rest h u room fits fresh more) =
      (decrypt c header sealed r).0 ∷ results (decrypt c header sealed r).1 s' rest more

module _ (c : Crates) (kdf : KdfLaws c) (x25519 : X25519Laws c) (aead : AeadLaws c) where
  -- In a conversation of any length that starts at the sender's turn, every message is decrypted to
  -- its plaintext.
  pub results-Alternates :
      (sender receiver : World c) (texts : List Bytes) (talk : Alternates c sender receiver texts)
      → Turn sender.session receiver.session
      → results c sender receiver texts talk ≡ map (λ text. ok text) texts
  unfolding results
  results-Alternates sender receiver texts (quiet s r) turn = refl
  results-Alternates sender receiver texts
        (says plaintext s s' r header sealed rest h u room fits fresh more) turn =
      let (got, turn') =
        decrypt-encrypt-Turn c kdf x25519 aead plaintext s s' r header sealed turn h u room fits
          fresh in
      ap₂ (λ g gs. g ∷ gs) got (results-Alternates (decrypt c header sealed r).1 s' rest more turn')
