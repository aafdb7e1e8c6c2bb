-- ===== src/Examples/Turns.antt =====
-- From key generation to the first message and the answer, at concrete keys.
use ghostcrypt_crypto_core.Common.{
  ℕ, ◌≡◌, ◌≢◌, refl, ap, Bytes, [], ◌∷◌, some, none, length, replicate, arith,
}
use ghostcrypt_crypto_core.Error.{Result, ok}
use ghostcrypt_crypto_core.Aead
use ghostcrypt_crypto_core.Aead.{Encrypted}
use ghostcrypt_crypto_core.Kdf
use ghostcrypt_crypto_core.Identity
use ghostcrypt_crypto_core.Identity.{IdentityKeyPair, SignedPreKey, OneTimePreKey}
use ghostcrypt_crypto_core.Identity.Laws.{IsIdentity, IsSigned, IsOneTime}
use ghostcrypt_crypto_core.X3dh
use ghostcrypt_crypto_core.X3dh.{X3dhResult, initiate, respond}
use ghostcrypt_crypto_core.X3dh.Agreement.{published, respond-initiate, initiate-ok_iff}
use ghostcrypt_crypto_core.Ratchet.SkippedKeys
use ghostcrypt_crypto_core.Ratchet.SkippedKeys.{count, count-empty, stored-empty}
use ghostcrypt_crypto_core.Ratchet.Header
use ghostcrypt_crypto_core.Ratchet.Header.{MessageHeader}
use ghostcrypt_crypto_core.Ratchet.DhRatchet
use ghostcrypt_crypto_core.Ratchet.State
use ghostcrypt_crypto_core.Ratchet.State.{Session, World}
use ghostcrypt_crypto_core.Ratchet.Chain
use ghostcrypt_crypto_core.Ratchet.Session.{encrypt, decrypt, init_alice, init_bob}
use ghostcrypt_crypto_core.Ratchet.Turn.{Turn, Room, FreshKey}
use ghostcrypt_crypto_core.Ratchet.Start.{init-Turn, x3dh_first_message}
use ghostcrypt_crypto_core.Ratchet.Exchange.{decrypt-encrypt-Turn}
use ghostcrypt_crypto_core.Examples.Toy.{
  toy, toy-X25519Laws, toy-KdfLaws, toy-AeadLaws, key_bytes, head_or_zero,
}

abbrev alice_identity : IdentityKeyPair toy
alice_identity = Identity.from_seed toy (key_bytes 1) 2

abbrev bob_identity : IdentityKeyPair toy
bob_identity = Identity.from_seed toy (key_bytes 3) 4

abbrev pub signed_pre_key : SignedPreKey toy
signed_pre_key = record {
  secret_seed = key_bytes 5;
  x25519_secret = 5;
  x25519_public = 5;
  signature = toy.sign_with 4 (key_bytes 5);
}

abbrev one_time_key : OneTimePreKey toy
one_time_key = record { id = 0; secret_seed = key_bytes 6; x25519_secret = 6; x25519_public = 6 }

alice-IsIdentity : IsIdentity alice_identity
alice-IsIdentity = record { seeded = refl; paired = refl }

bob-IsIdentity : IsIdentity bob_identity
bob-IsIdentity = record { seeded = refl; paired = refl }

pre_key-IsSigned : IsSigned signed_pre_key
pre_key-IsSigned = record { seeded = refl; paired = refl }

opk-IsOneTime : IsOneTime one_time_key
opk-IsOneTime = record { seeded = refl; paired = refl }

abbrev secret_of : Result (X3dhResult toy) → X3dhResult toy
secret_of (ok x) = x
secret_of _ = record { shared_secret = []; ephemeral_key = 0 }

abbrev agreed_result : X3dhResult toy
agreed_result =
    secret_of
      (initiate toy alice_identity (published bob_identity signed_pre_key (some one_time_key)) 11).0

initiate_runs :
    initiate toy alice_identity (published bob_identity signed_pre_key (some one_time_key)) 11
    ≡ (ok agreed_result, 12)
unfolding initiate published X3dh.initiate_with X3dh.initiator_secrets Identity.verify Kdf.derive
initiate_runs = refl

respond-initiate_example :
    respond toy bob_identity signed_pre_key (some one_time_key) 1 agreed_result.ephemeral_key
    ≡ ok agreed_result
respond-initiate_example =
    respond-initiate toy toy-X25519Laws alice_identity bob_identity signed_pre_key
      (some one_time_key) 11 12 agreed_result alice-IsIdentity bob-IsIdentity pre_key-IsSigned
      opk-IsOneTime initiate_runs

-- With the right signature X3DH succeeds.
initiate-ok_iff_example :
    (result : X3dhResult toy) × (rng' : ℕ) × (initiate toy alice_identity
        (published bob_identity signed_pre_key none)
        11
      ≡ (ok result, rng'))
    × (length result.shared_secret ≡ 32)
unfolding published Identity.verify
initiate-ok_iff_example =
    (initiate-ok_iff toy toy-KdfLaws alice_identity (published bob_identity signed_pre_key none)
        11).1
      refl

init-Turn_example :
    (alice : Session toy) × (rng' : ℕ) × (init_alice toy (key_bytes 9) 5 20 ≡ (ok alice, rng'))
    × Turn alice (init_bob toy (key_bytes 9) signed_pre_key)
    × (alice.previous_sending_chain_length ≡ 0)
    × (alice.skipped_keys ≡ SkippedKeys.empty)
init-Turn_example = init-Turn toy toy-KdfLaws (key_bytes 9) signed_pre_key 20 pre_key-IsSigned

x3dh_first_message_example :
    (respond toy bob_identity signed_pre_key (some one_time_key) 1 agreed_result.ephemeral_key
      ≡ ok agreed_result)
    × ((session : Session toy) × (rng'' : ℕ) × (init_alice toy agreed_result.shared_secret 5 12
          ≡ (ok session, rng''))
        × ((plaintext : Bytes) (sender' : World toy) (header : MessageHeader) (sealed : Encrypted)
              (other : ℕ)
            → encrypt toy plaintext (record { session = session; rng = rng'' })
              ≡ (ok (header, sealed), sender')
            → key_bytes other ≢ key_bytes 5
            → (decrypt toy header sealed (record {
              session = init_bob toy agreed_result.shared_secret signed_pre_key;
              rng = other;
            })).0
              ≡ ok plaintext))
x3dh_first_message_example =
    x3dh_first_message toy toy-KdfLaws toy-X25519Laws toy-AeadLaws alice_identity bob_identity
      signed_pre_key (some one_time_key) 11 12 agreed_result alice-IsIdentity bob-IsIdentity
      pre_key-IsSigned opk-IsOneTime initiate_runs

-- What `init_alice` gives for the shared secret 9 and the key 20
abbrev pub sender : World toy
sender = record {
  session = record {
    root_key = replicate 32 34;
    dh_secret = 20;
    dh_public = 20;
    remote_dh_public = some 5;
    sending_chain = some (Chain.new (replicate 32 34) 0);
    receiving_chain = none;
    previous_sending_chain_length = 0;
    skipped_keys = SkippedKeys.empty;
  };
  rng = 21;
}

init_alice_runs : init_alice toy (key_bytes 9) 5 20 ≡ (ok sender.session, 21)
unfolding init_alice DhRatchet.generate_dh_keypair DhRatchet.dh_ratchet_step DhRatchet.dh Kdf.derive
init_alice_runs = refl

abbrev pub answering : World toy
answering = record { session = init_bob toy (key_bytes 9) signed_pre_key; rng = 30 }

pub sender-Turn : Turn sender.session answering.session
unfolding init_bob DhRatchet.dh_ratchet_step DhRatchet.dh Kdf.derive
sender-Turn = record {
  sender_paired = refl;
  receiver_paired = refl;
  towards = refl;
  chain_key = replicate 32 34;
  agreed = refl;
  sending = refl;
  unseen = λ k h. cc;
  unstored = λ n. stored-empty (key_bytes 20) n;
}

abbrev pub sent_of : Result (MessageHeader × Encrypted) → MessageHeader × Encrypted
sent_of (ok x) = x
sent_of _ = (
  record { dh_public_key = []; message_number = 0; previous_chain_length = 0 },
  record { nonce = []; ciphertext = [] },
)

abbrev pub sent : MessageHeader × Encrypted
sent = sent_of (encrypt toy (42 ∷ []) sender).0

pub encrypt_runs :
    encrypt toy (42 ∷ []) sender ≡ (ok (sent.0, sent.1), (encrypt toy (42 ∷ []) sender).1)
unfolding encrypt Chain.advance Kdf.derive_chain_and_message_key Aead.encrypt
    State.message_key_array
encrypt_runs = refl

pub no_previous_chain : sent.0.previous_chain_length ≡ 0
unfolding encrypt Chain.advance Kdf.derive_chain_and_message_key Aead.encrypt
    State.message_key_array Header.new
no_previous_chain = refl

pub answering-FreshKey : FreshKey sender.session answering
unfolding init_bob
answering-FreshKey = record {
  other = λ h. omega (arith, ap head_or_zero h);
  unstored = λ n. stored-empty (key_bytes 30) n;
}

pub answering-Room : Room sent.0.previous_chain_length answering.session
unfolding init_bob
answering-Room = λ chain e. cc e

decrypt-encrypt-Turn_example :
    let (r, receiver') = decrypt toy sent.0 sent.1 answering in
    (r ≡ ok (42 ∷ [])) × Turn receiver'.session (encrypt toy (42 ∷ []) sender).1.session
unfolding init_bob
decrypt-encrypt-Turn_example =
    decrypt-encrypt-Turn toy toy-KdfLaws toy-X25519Laws toy-AeadLaws (42 ∷ []) sender
      (encrypt toy (42 ∷ []) sender).1 answering sent.0 sent.1 sender-Turn encrypt_runs
      (omega (arith, no_previous_chain)) answering-Room (omega (arith, count-empty))
      answering-FreshKey
