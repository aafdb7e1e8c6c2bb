-- ===== src/Ratchet/Start.antt =====
-- How a session starts: X3DH, the two constructors, and the first message.
use ghostcrypt_crypto_core.Common.{◌≡◌, ◌≢◌, ◌∙◌, refl, ap, Bytes, Option, none, some, arith}
use ghostcrypt_crypto_core.Error.{ok}
use ghostcrypt_crypto_core.Crates.{Crates, KdfLaws, X25519Laws, AeadLaws}
use ghostcrypt_crypto_core.Aead.{Encrypted}
use ghostcrypt_crypto_core.Identity.{IdentityKeyPair, SignedPreKey, OneTimePreKey}
use ghostcrypt_crypto_core.Identity.Laws.{IsIdentity, IsSigned, IsOneTimeIfAny}
use ghostcrypt_crypto_core.X3dh.{X3dhResult, initiate, respond}
use ghostcrypt_crypto_core.X3dh.Agreement.{published, respond-initiate}
use ghostcrypt_crypto_core.Ratchet.SkippedKeys
use ghostcrypt_crypto_core.Ratchet.SkippedKeys.{stored, stored-empty, count-empty}
use ghostcrypt_crypto_core.Ratchet.Chain
use ghostcrypt_crypto_core.Ratchet.Header
use ghostcrypt_crypto_core.Ratchet.Header.{MessageHeader}
use ghostcrypt_crypto_core.Ratchet.Delivery.{encrypt-Sends}
use ghostcrypt_crypto_core.Ratchet.DhRatchet.{dh_ratchet_step_total, dh, generate_dh_keypair}
use ghostcrypt_crypto_core.Ratchet.State.{Session, World}
use ghostcrypt_crypto_core.Ratchet.Session.{encrypt, decrypt, init_alice, init_bob}
use ghostcrypt_crypto_core.Ratchet.Turn.{Turn}
use ghostcrypt_crypto_core.Ratchet.Exchange.{decrypt-encrypt-Turn}

module _ (c : Crates) (kdf : KdfLaws c) where
  -- From one shared secret, with the responder's signed pre-key, whose key pair comes from its
  -- secret bytes, `init_alice` succeeds and the two sessions are at the initiator's turn; hers has
  -- no earlier chain and no stored keys. hkdf is taken to give the length asked for.
  pub init-Turn :
      (shared_secret : Bytes) (spk : SignedPreKey c) (rng : c.Rng)
      → IsSigned spk
      → (alice : Session c) × (rng' : c.Rng) × (init_alice c shared_secret spk.x25519_public rng
          ≡ (ok alice, rng'))
        × Turn alice (init_bob c shared_secret spk)
        × (alice.previous_sending_chain_length ≡ 0)
        × (alice.skipped_keys ≡ SkippedKeys.empty)
  unfolding init_alice init_bob generate_dh_keypair
  init-Turn shared_secret spk rng signed =
      let secret = (c.random_secret rng).0 in
      let (root, chain, e) =
        dh_ratchet_step_total c kdf shared_secret (dh c secret spk.x25519_public) in
      (
        record {
          root_key = root;
          dh_secret = secret;
          dh_public = c.public_from_secret secret;
          remote_dh_public = some spk.x25519_public;
          sending_chain = some (Chain.new chain 0);
          receiving_chain = none;
          previous_sending_chain_length = 0;
          skipped_keys = SkippedKeys.empty;
        },
        (c.random_secret rng).1,
        rw e,
        record {
          sender_paired = refl;
          receiver_paired = signed.paired ∙ ap c.public_from_secret signed.seeded;
          towards = refl;
          chain_key = chain;
          agreed = e;
          sending = refl;
          unseen = λ k h. cc;
          unstored = λ n. stored-empty (c.public_bytes (c.public_from_secret secret)) n;
        },
        refl,
        refl,
      )

module _ (c : Crates) (kdf : KdfLaws c) (x25519 : X25519Laws c) (aead : AeadLaws c) where
  -- The first message of a session whose secret the two sides share
  first_message :
      (shared_secret plaintext : Bytes) (spk : SignedPreKey c) (rng rng' other : c.Rng)
      (alice : Session c) (sender' : World c) (header : MessageHeader) (sealed : Encrypted)
      → Turn alice (init_bob c shared_secret spk)
      → alice.previous_sending_chain_length ≡ 0
      → alice.skipped_keys ≡ SkippedKeys.empty
      → encrypt c plaintext (record { session = alice; rng = rng' })
        ≡ (ok (header, sealed), sender')
      → c.public_bytes (c.public_from_secret (c.random_secret other).0)
        ≢ c.public_bytes spk.x25519_public
      → (decrypt c header sealed (record { session = init_bob c shared_secret spk; rng = other })).0
        ≡ ok plaintext
  unfolding init_bob Header.new
  first_message shared_secret plaintext spk rng rng' other alice sender' header sealed t p k sent
        new =
      let sender : World c = record { session = alice; rng = rng' } in
      let bob : World c = record { session = init_bob c shared_secret spk; rng = other } in
      let s =
        encrypt-Sends c kdf (Chain.new t.chain_key 0) plaintext sender sender' header sealed
          t.sending (omega arith) sent in
      let previous = ap (λ (h : MessageHeader). h.previous_chain_length) s.headed ∙ p in
      let key = c.public_bytes (c.public_from_secret (c.random_secret other).0) in
      (decrypt-encrypt-Turn c kdf x25519 aead plaintext sender sender' bob header sealed t sent
        (omega (arith, previous)) (λ chain none_yet. cc none_yet) (omega (arith, count-empty))
        (record {
          other = new;
          unstored = λ n. ap (λ ks. stored ks key n) k ∙ stored-empty key n;
        })).0

  -- From key bundles to the first message: if the initiator's X3DH succeeds on a published bundle,
  -- then the responder's gives the same secret, both constructors succeed on it, and whatever the
  -- initiator encrypts first, the responder decrypts, provided that the key that the responder
  -- draws then is not the signed pre-key again.
  pub x3dh_first_message :
      (alice bob : IdentityKeyPair c) (spk : SignedPreKey c) (opk : Option (OneTimePreKey c))
      (rng rng' : c.Rng) (result : X3dhResult c)
      → IsIdentity alice
      → IsIdentity bob
      → IsSigned spk
      → IsOneTimeIfAny opk
      → initiate c alice (published bob spk opk) rng ≡ (ok result, rng')
      → (respond c bob spk opk alice.x25519_public result.ephemeral_key ≡ ok result)
        × ((session : Session c) × (rng'' : c.Rng) × (init_alice c result.shared_secret
                spk.x25519_public rng'
              ≡ (ok session, rng''))
            × ((plaintext : Bytes) (sender' : World c) (header : MessageHeader) (sealed : Encrypted)
                  (other : c.Rng)
                → encrypt c plaintext (record { session = session; rng = rng'' })
                  ≡ (ok (header, sealed), sender')
                → c.public_bytes (c.public_from_secret (c.random_secret other).0)
                  ≢ c.public_bytes spk.x25519_public
                → (decrypt c header sealed
                    (record { session = init_bob c result.shared_secret spk; rng = other })).0
                  ≡ ok plaintext))
  x3dh_first_message alice bob spk opk rng rng' result ia ib is io h =
      let (session, rng'', run, t, p, k) = init-Turn c kdf result.shared_secret spk rng' is in
      (
        respond-initiate c x25519 alice bob spk opk rng rng' result ia ib is io h,
        (
          session,
          rng'',
          run,
          λ plaintext sender' header sealed other sent new.
              first_message result.shared_secret plaintext spk rng' rng'' other session sender'
                header sealed t p k sent new,
        ),
      )
