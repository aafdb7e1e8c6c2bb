-- ===== src/Examples/Ratchets.antt =====
-- The ratchet's theorems at concrete sessions.
use Prim.Native.Nat.{max}
use ghostcrypt_crypto_core.Common.{
  ℕ, ◌+◌, ◌≤◌, ◌≡◌, refl, Bytes, List, [], ◌∷◌, some, none, inl, ◌-◌, arith,
}
use ghostcrypt_crypto_core.Error.{Result, ok}
use ghostcrypt_crypto_core.Aead
use ghostcrypt_crypto_core.Aead.{Encrypted}
use ghostcrypt_crypto_core.Ratchet.SkippedKeys
use ghostcrypt_crypto_core.Ratchet.SkippedKeys.{count, count-empty, stored-empty}
use ghostcrypt_crypto_core.Ratchet.Chain.{ChainKey, chain_after, message_key, advance, u32_suc}
use ghostcrypt_crypto_core.Ratchet.Chain
use ghostcrypt_crypto_core.Ratchet.Header.{MessageHeader, to_bytes}
use ghostcrypt_crypto_core.Ratchet.State.{World, skip_until}
use ghostcrypt_crypto_core.Ratchet.Session.{decrypt}
use ghostcrypt_crypto_core.Ratchet.AnyOrder.{Tracks, Genuine, key_of}
use ghostcrypt_crypto_core.Ratchet.Schedule.{
  Packet, Fits, done, ahead, late, decrypt_all, decrypt_all-any_order,
}
use ghostcrypt_crypto_core.Ratchet.Replay.{replay_desyncs}
use ghostcrypt_crypto_core.Ratchet.Bounds.{count-decrypt, count-decrypt_all}
use ghostcrypt_crypto_core.Ratchet.Loop.{Ends, skip_until-Ends}
use ghostcrypt_crypto_core.Examples.Toy.{toy, toy-X25519Laws, toy-KdfLaws, toy-AeadLaws, key_bytes}

abbrev pub origin : ChainKey
origin = Chain.new (key_bytes 5) 0

-- A session that expects the first message of the chain of the key 7
abbrev receiver : World toy
receiver = record {
  session = record {
    root_key = key_bytes 1;
    dh_secret = 3;
    dh_public = 3;
    remote_dh_public = some 7;
    sending_chain = none;
    receiving_chain = some origin;
    previous_sending_chain_length = 0;
    skipped_keys = SkippedKeys.empty;
  };
  rng = 40;
}

abbrev sealed_of : Result Encrypted → Encrypted
sealed_of (ok e) = e
sealed_of _ = record { nonce = []; ciphertext = [] }

abbrev packet : ℕ → Bytes → Packet
packet n plaintext =
    let header : MessageHeader = record {
      dh_public_key = key_bytes 7;
      message_number = n;
      previous_chain_length = 0;
    } in
    record {
      header = header;
      sealed =
          sealed_of (Aead.encrypt toy (key_of toy 7 origin n) plaintext (to_bytes toy header) 9).0;
      plaintext = plaintext;
    }

packet-Genuine :
    (n : ℕ) (plaintext : Bytes)
    → Genuine toy 7 origin
        (packet n plaintext).plaintext
        (packet n plaintext).header
        (packet n plaintext).sealed
unfolding Aead.encrypt
packet-Genuine n plaintext = record { sender = refl; rng = 9; rng' = 10; sealing = refl }

-- Messages 2, 0 and 1, in this order
abbrev shuffled : List Packet
shuffled = packet 2 (20 ∷ []) ∷ packet 0 (21 ∷ []) ∷ packet 1 (22 ∷ []) ∷ []

-- Message 1 has arrived, and arrives again before message 2 does.
abbrev pub after_two : World toy
after_two = record receiver {
  session = record (receiver.session) { receiving_chain = some (chain_after toy 2 origin) };
}

pub after_two-Tracks : Tracks toy 7 origin 2 after_two.session
after_two-Tracks = record {
  known = refl;
  following = refl;
  ahead = λ n _. stored-empty (key_bytes 7) n;
}

-- Messages 4, 2 and 3, in this order, to the session that expects message 2
abbrev rest : List Packet
rest = packet 4 (20 ∷ []) ∷ packet 2 (21 ∷ []) ∷ packet 3 (22 ∷ []) ∷ []

rest-Fits : (k : ℕ) → k ≡ 0 → Fits 2 k rest
rest-Fits k e = ahead 2 k (packet 4 (20 ∷ [])) _ (omega arith) (omega arith) (omega arith) (
    late 5 (k + 2) (packet 2 (21 ∷ [])) _ (omega arith)
      (late 5 (k + 2 - 1) (packet 3 (22 ∷ [])) _ (omega arith) (done 5 (k + 2 - 1 - 1))))

decrypt_all-any_order_example :
    (decrypt_all toy rest after_two).0 ≡ ok (20 ∷ []) ∷ ok (21 ∷ []) ∷ ok (22 ∷ []) ∷ []
decrypt_all-any_order_example =
    decrypt_all-any_order toy toy-KdfLaws toy-X25519Laws toy-AeadLaws 7 origin refl 2 rest after_two
      after_two-Tracks (rest-Fits (count after_two.session.skipped_keys) count-empty)
      (packet-Genuine 4 (20 ∷ []), (packet-Genuine 2 (21 ∷ []), (packet-Genuine 3 (22 ∷ []), tt)))
      (omega arith) (inl (omega arith), (inl (omega arith), (inl (omega arith), tt)))

replay_desyncs_example :
    (decrypt toy
      (packet 1 (22 ∷ [])).header
      (packet 1 (22 ∷ [])).sealed
      after_two).1.session.receiving_chain
    ≡ some (chain_after toy 3 origin)
replay_desyncs_example =
    (replay_desyncs toy toy-KdfLaws toy-X25519Laws 7 origin refl 2 (packet 1 (22 ∷ [])).header
      (packet 2 (23 ∷ [])).header (packet 1 (22 ∷ [])).sealed (packet 2 (23 ∷ [])).sealed after_two
      after_two-Tracks (omega arith) refl (omega arith) (stored-empty (key_bytes 7) 1) refl refl).1

count-decrypt_example :
    count
      (decrypt toy (packet 200 []).header (packet 200 []).sealed receiver).1.session.skipped_keys
    ≤ max 100 (count receiver.session.skipped_keys) + 1
count-decrypt_example = (count-decrypt toy (packet 200 []).header (packet 200 []).sealed receiver).0

count-decrypt_all_example :
    count (decrypt_all toy shuffled receiver).1.session.skipped_keys
    ≤ max 100 (count receiver.session.skipped_keys) + 3
count-decrypt_all_example = count-decrypt_all toy shuffled receiver

-- 200 messages are skipped, which is more than the limit.
skip_until-Ends_example :
    Ends toy
      (key_bytes 7)
      200
      (record { chain = origin; keys = SkippedKeys.empty })
      (skip_until toy 200 (key_bytes 7) (record { chain = origin; keys = SkippedKeys.empty }))
skip_until-Ends_example =
    skip_until-Ends toy toy-KdfLaws 200 (key_bytes 7)
      (record { chain = origin; keys = SkippedKeys.empty }) (omega arith)
