-- ===== src/Examples/Batch.antt =====
-- Two messages that one session sends arrive in the other order.
use ghostcrypt_crypto_core.Common.{ℕ, ◌≡◌, refl, Bytes, [], ◌∷◌, some, none, arith}
use ghostcrypt_crypto_core.Error.{ok}
use ghostcrypt_crypto_core.Aead
use ghostcrypt_crypto_core.Aead.{Encrypted}
use ghostcrypt_crypto_core.Kdf
use ghostcrypt_crypto_core.Ratchet.SkippedKeys
use ghostcrypt_crypto_core.Ratchet.SkippedKeys.{count, count-empty}
use ghostcrypt_crypto_core.Ratchet.Chain.{chain_after}
use ghostcrypt_crypto_core.Ratchet.Chain
use ghostcrypt_crypto_core.Ratchet.Header
use ghostcrypt_crypto_core.Ratchet.Header.{MessageHeader}
use ghostcrypt_crypto_core.Ratchet.State
use ghostcrypt_crypto_core.Ratchet.State.{World}
use ghostcrypt_crypto_core.Ratchet.Session.{encrypt}
use ghostcrypt_crypto_core.Ratchet.Schedule.{Packet, Fits, done, ahead, late, decrypt_all}
use ghostcrypt_crypto_core.Ratchet.Batch.{
  Sending, silent, sends, none_sent, put, here, there, decrypt_all-Sending,
}
use ghostcrypt_crypto_core.Examples.Toy.{toy, toy-X25519Laws, toy-KdfLaws, toy-AeadLaws, key_bytes}
use ghostcrypt_crypto_core.Examples.Turns.{sent_of}
use ghostcrypt_crypto_core.Examples.Ratchets.{origin, after_two, after_two-Tracks}

-- The session of the key 7, which has sent two messages
abbrev speaker : World toy
speaker = record {
  session = record {
    root_key = key_bytes 1;
    dh_secret = 7;
    dh_public = 7;
    remote_dh_public = some 3;
    sending_chain = some (chain_after toy 2 origin);
    receiving_chain = none;
    previous_sending_chain_length = 0;
    skipped_keys = SkippedKeys.empty;
  };
  rng = 60;
}

abbrev packet_of : Bytes → World toy → Packet
packet_of plaintext w =
    let (header, sealed) = sent_of (encrypt toy plaintext w).0 in
    record { header = header; sealed = sealed; plaintext = plaintext }

abbrev first : Packet
first = packet_of (20 ∷ []) speaker

abbrev between : World toy
between = (encrypt toy (20 ∷ []) speaker).1

abbrev second : Packet
second = packet_of (21 ∷ []) between

both-Sending : Sending toy speaker (encrypt toy (21 ∷ []) between).1 (first ∷ second ∷ [])
unfolding encrypt Chain.advance Chain.chain_after Kdf.derive_chain_and_message_key Aead.encrypt
    State.message_key_array Chain.u32_suc Chain.u32_pred Header.new
both-Sending =
    sends (20 ∷ []) speaker between (encrypt toy (21 ∷ []) between).1 first.header first.sealed
      (second ∷ []) refl
      (sends (21 ∷ []) between (encrypt toy (21 ∷ []) between).1 (encrypt toy (21 ∷ []) between).1
        second.header second.sealed [] refl (silent (encrypt toy (21 ∷ []) between).1))

numbers : (first.header.message_number ≡ 2) × (second.header.message_number ≡ 3)
unfolding encrypt Chain.advance Chain.chain_after Kdf.derive_chain_and_message_key Aead.encrypt
    State.message_key_array Chain.u32_suc Chain.u32_pred Header.new
numbers = (refl, refl)

swapped-Fits : (k : ℕ) → k ≡ 0 → Fits 2 k (second ∷ first ∷ [])
swapped-Fits k e =
    ahead 2 k second _ (omega (arith, numbers.1)) (omega (arith, numbers.1))
      (omega (arith, numbers.1))
      (late _ _ first [] (omega (arith, numbers.0, numbers.1)) (done _ _))

decrypt_all-Sending_example :
    (decrypt_all toy (second ∷ first ∷ []) after_two).0 ≡ ok (21 ∷ []) ∷ ok (20 ∷ []) ∷ []
decrypt_all-Sending_example =
    decrypt_all-Sending toy toy-KdfLaws toy-X25519Laws toy-AeadLaws 2 origin speaker
      (encrypt toy (21 ∷ []) between).1 after_two (first ∷ second ∷ []) (second ∷ first ∷ []) refl
      refl after_two-Tracks (omega arith) both-Sending
      (put first (second ∷ []) (second ∷ []) (second ∷ first ∷ [])
        (put second [] [] (second ∷ []) none_sent (here []))
        (there second [] (first ∷ []) (here [])))
      (swapped-Fits (count after_two.session.skipped_keys) count-empty)
