-- ===== src/Examples/Talk.antt =====
-- A message and its answer, at concrete keys.
use ghostcrypt_crypto_core.Common.{length, ◌≡◌, ◌≢◌, refl, ap, ◌∙◌, [], ◌∷◌, none, arith}
use ghostcrypt_crypto_core.Error.{ok, panic}
use ghostcrypt_crypto_core.Aead
use ghostcrypt_crypto_core.Aead.{Encrypted}
use ghostcrypt_crypto_core.Kdf
use ghostcrypt_crypto_core.Ratchet.SkippedKeys
use ghostcrypt_crypto_core.Ratchet.SkippedKeys.{count, count-empty, stored-empty}
use ghostcrypt_crypto_core.Ratchet.Chain
use ghostcrypt_crypto_core.Ratchet.Header
use ghostcrypt_crypto_core.Ratchet.Header.{MessageHeader}
use ghostcrypt_crypto_core.Ratchet.DhRatchet
use ghostcrypt_crypto_core.Ratchet.State
use ghostcrypt_crypto_core.Ratchet.State.{World}
use ghostcrypt_crypto_core.Ratchet.Session.{
  encrypt, decrypt, decrypt_next, need_ratchet, ratchet_to, receive, next_key,
  skip_current_receiving_chain, init_bob,
}
use ghostcrypt_crypto_core.Ratchet.Turn.{FreshKey}
use ghostcrypt_crypto_core.Ratchet.KeyLengths.{Keyed}
use ghostcrypt_crypto_core.Ratchet.Keyed.{Reached, responded, encrypted, decrypted, Reached-Keyed}
use ghostcrypt_crypto_core.Ratchet.Settled.{decrypt-calm}
use ghostcrypt_crypto_core.Ratchet.Conversation.{
  Alternates, quiet, says, results, results-Alternates,
}
use ghostcrypt_crypto_core.Examples.Toy.{
  toy, toy-X25519Laws, toy-KdfLaws, toy-AeadLaws, key_bytes, head_or_zero,
}
use ghostcrypt_crypto_core.Examples.Turns.{
  sender, answering, signed_pre_key, sent, sent_of, sender-Turn, encrypt_runs, no_previous_chain,
  answering-FreshKey, answering-Room,
}

abbrev waiting : World toy
waiting = (encrypt toy (42 ∷ []) sender).1

abbrev answerer : World toy
answerer = (decrypt toy sent.0 sent.1 answering).1

abbrev answer : MessageHeader × Encrypted
answer = sent_of (encrypt toy (7 ∷ []) answerer).0

-- What the two sessions are like after the first message
talk-facts :
    (encrypt toy (7 ∷ []) answerer ≡ (ok (answer.0, answer.1), (encrypt toy (7 ∷ []) answerer).1))
    × (answer.0.previous_chain_length ≡ 0)
    × (waiting.session.receiving_chain ≡ none)
    × (waiting.session.skipped_keys ≡ SkippedKeys.empty)
    × (answerer.session.skipped_keys ≡ SkippedKeys.empty)
unfolding encrypt decrypt decrypt_next need_ratchet ratchet_to receive next_key
    skip_current_receiving_chain SkippedKeys.stored SkippedKeys.empty Header.new
    Header.to_public_key DhRatchet.generate_dh_keypair DhRatchet.dh_ratchet_step DhRatchet.dh
    State.skip_until State.skip_rounds Chain.advance Chain.u32_pred Chain.u32_suc Kdf.derive
    Kdf.derive_chain_and_message_key Aead.encrypt State.message_key_array init_bob
talk-facts = (refl, refl, refl, refl, refl)

waiting-new_key :
    toy.public_bytes (toy.public_from_secret (toy.random_secret waiting.rng).0)
    ≢ toy.public_bytes waiting.session.dh_public
unfolding encrypt decrypt decrypt_next need_ratchet ratchet_to receive next_key
    skip_current_receiving_chain SkippedKeys.stored SkippedKeys.empty Header.new
    Header.to_public_key DhRatchet.generate_dh_keypair DhRatchet.dh_ratchet_step DhRatchet.dh
    State.skip_until State.skip_rounds Chain.advance Chain.u32_pred Chain.u32_suc Kdf.derive
    Kdf.derive_chain_and_message_key Aead.encrypt State.message_key_array init_bob
waiting-new_key h = omega (arith, ap head_or_zero h)

waiting-FreshKey : FreshKey answerer.session waiting
waiting-FreshKey = record {
  other = waiting-new_key;
  unstored = λ n.
      ap
        (λ ks.
          SkippedKeys.stored ks
            (toy.public_bytes (toy.public_from_secret (toy.random_secret waiting.rng).0)) n)
        talk-facts.4
      ∙ stored-empty _ n;
}

talk : Alternates toy sender answering ((42 ∷ []) ∷ (7 ∷ []) ∷ [])
unfolding count init_bob
talk =
    says (42 ∷ []) sender waiting answering sent.0 sent.1 ((7 ∷ []) ∷ []) encrypt_runs
      (omega (arith, no_previous_chain)) answering-Room (omega (arith, count-empty))
      answering-FreshKey
      (says (7 ∷ []) answerer (encrypt toy (7 ∷ []) answerer).1 waiting answer.0 answer.1 []
        talk-facts.0 (omega (arith, talk-facts.1)) (λ chain e. cc (e, talk-facts.2))
        (omega (arith, ap count talk-facts.3, count-empty)) waiting-FreshKey
        (quiet (decrypt toy answer.0 answer.1 waiting).1 (encrypt toy (7 ∷ []) answerer).1))

results-Alternates_example :
    results toy sender answering ((42 ∷ []) ∷ (7 ∷ []) ∷ []) talk ≡ ok (42 ∷ []) ∷ ok (7 ∷ []) ∷ []
results-Alternates_example =
    results-Alternates toy toy-KdfLaws toy-X25519Laws toy-AeadLaws sender answering
      ((42 ∷ []) ∷ (7 ∷ []) ∷ []) talk sender-Turn

answerer-Reached : Reached toy (encrypt toy (7 ∷ []) answerer).1
answerer-Reached =
    encrypted answerer (7 ∷ [])
      (decrypted answering sent.0 sent.1 (responded (key_bytes 9) signed_pre_key 30 refl))

-- The responder, after it has read the first message and answered it
Reached-Keyed_example : Keyed (encrypt toy (7 ∷ []) answerer).1.session
Reached-Keyed_example =
    Reached-Keyed toy toy-KdfLaws (encrypt toy (7 ∷ []) answerer).1 answerer-Reached

sent-lengths : (length sent.0.dh_public_key ≡ 32) × (length sent.1.nonce ≡ 12)
unfolding Header.new encrypt Chain.advance Kdf.derive_chain_and_message_key State.message_key_array
    Aead.encrypt
sent-lengths = (refl, refl)

-- The first message, to a session that has never seen it
decrypt-calm_example : (decrypt toy sent.0 sent.1 answering).0 ≢ panic
decrypt-calm_example =
    decrypt-calm toy toy-KdfLaws sent.0 sent.1 answering sent-lengths.0 sent-lengths.1
