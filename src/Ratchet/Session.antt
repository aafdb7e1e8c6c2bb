-- ===== src/Ratchet/Session.antt =====
-- The methods of `Session` in src/ratchet/state.rs.
use ghostcrypt_crypto_core.Common.{
  ℕ, Bytes, Bool, true, not, Option, none, some, list_eqb, nat_eq, if◌then◌else◌,
}
use ghostcrypt_crypto_core.Error.{Result, ok, err, panic, ratchet}
use ghostcrypt_crypto_core.Exec.{Exec, pure, lift, gets, modify, ◌>>=◌, ◌>>◌}
use ghostcrypt_crypto_core.Crates.{Crates}
use ghostcrypt_crypto_core.Aead
use ghostcrypt_crypto_core.Aead.{Encrypted}
use ghostcrypt_crypto_core.Identity.{SignedPreKey}
use ghostcrypt_crypto_core.Ratchet.SkippedKeys
use ghostcrypt_crypto_core.Ratchet.Chain
use ghostcrypt_crypto_core.Ratchet.Chain.{ChainKey, advance, u32_pred}
use ghostcrypt_crypto_core.Ratchet.Header
use ghostcrypt_crypto_core.Ratchet.Header.{MessageHeader, to_public_key, to_bytes}
use ghostcrypt_crypto_core.Ratchet.DhRatchet.{dh_ratchet_step, generate_dh_keypair, dh}
use ghostcrypt_crypto_core.Ratchet.State.{
  Session, World, Skipping, message_key_array, skipped_key_array, skip_until,
}

-- `result.expect(..)`
abbrev expect {ℓ} : {A : Type ℓ} → Result A → Result A
expect (ok a) = ok a
expect (err e) = panic
expect panic = panic

module _ (c : Crates) where
  unfoldable pub init_alice : Bytes → c.PublicKey → Exec c.Rng (Session c)
  init_alice shared_secret bob_spk_public = do
    (dh_secret, dh_public) ← generate_dh_keypair c
    (root_key, chain_key) ←
        lift (expect (dh_ratchet_step c shared_secret (dh c dh_secret bob_spk_public)))
    pure (record {
      root_key = root_key;
      dh_secret = dh_secret;
      dh_public = dh_public;
      remote_dh_public = some bob_spk_public;
      sending_chain = some (Chain.new chain_key 0);
      receiving_chain = none;
      previous_sending_chain_length = 0;
      skipped_keys = SkippedKeys.empty;
    })

  unfoldable pub init_bob : Bytes → SignedPreKey c → Session c
  init_bob shared_secret our_spk = record {
    root_key = shared_secret;
    dh_secret = c.secret_from_bytes our_spk.secret_seed;
    dh_public = our_spk.x25519_public;
    remote_dh_public = none;
    sending_chain = none;
    receiving_chain = none;
    previous_sending_chain_length = 0;
    skipped_keys = SkippedKeys.empty;
  }

  -- A call that draws from `OsRng`
  abbrev on_rng {ℓ} : {A : Type ℓ} → Exec c.Rng A → Exec (World c) A
  on_rng m w = let (r, rng') = m w.rng in (r, record w { rng = rng' })

  -- A call on the receiving chain and the skipped keys
  abbrev on_receiving {ℓ} : {A : Type ℓ} → ChainKey → Exec Skipping A → Exec (World c) A
  on_receiving chain m w =
      let (r, l) = m (record { chain = chain; keys = w.session.skipped_keys }) in
      (
        r,
        record w {
          session = record (w.session) { receiving_chain = some l.chain; skipped_keys = l.keys };
        },
      )

  abbrev on_session : (Session c → Session c) → Exec (World c) (Unit {0})
  on_session f = modify λ w. record w { session = f w.session }

  -- `sending_chain.advance()?` and the index after it
  advance_sending : ChainKey → Exec (World c) (Bytes × ℕ)
  advance_sending chain w =
      let (r, chain') = advance c chain in
      let w' : World c = record w {
        session = record (w.session) { sending_chain = some chain' };
      } in
      (lift r >>= λ message_key. pure (message_key, chain'.index)) w'

  encrypt_on : ChainKey → Bytes → Exec (World c) (MessageHeader × Encrypted)
  unfolding advance_sending
  encrypt_on chain plaintext = do
    (message_key, index) ← advance_sending chain
    s ← gets (λ w. w.session)
    let header = Header.new c s.dh_public (u32_pred index) s.previous_sending_chain_length
    key ← lift (message_key_array message_key)
    encrypted ← on_rng (Aead.encrypt c key plaintext (to_bytes c header))
    pure (header, encrypted)

  unfoldable pub encrypt : Bytes → Exec (World c) (MessageHeader × Encrypted)
  unfolding encrypt_on
  encrypt plaintext w = elim w.session.sending_chain [
    | none ↦ (err (ratchet "No sending chain established"), w)
    | some chain ↦ encrypt_on chain plaintext w
  ]

  unfoldable pub skip_current_receiving_chain : ℕ → Exec (World c) (Unit {0})
  skip_current_receiving_chain until w = elim w.session.receiving_chain [
    | none ↦ (ok tt, w)
    | some chain ↦ elim w.session.remote_dh_public [
      | none ↦ (ok tt, w)
      | some remote ↦ on_receiving chain (skip_until c until (c.public_bytes remote)) w
    ]
  ]

  unfoldable pub need_ratchet : Option c.PublicKey → c.PublicKey → Bool
  need_ratchet none header_dh_public = true
  need_ratchet (some remote) header_dh_public =
      not (list_eqb (c.public_bytes remote) (c.public_bytes header_dh_public))

  -- The receiving half of the DH ratchet step: new root key, receiving chain and remote key.
  abbrev pub start_receiving : Bytes → Bytes → c.PublicKey → Session c → Session c
  start_receiving root_key recv_chain_key remote s = record s {
    root_key = root_key;
    receiving_chain = some (Chain.new recv_chain_key 0);
    remote_dh_public = some remote;
    previous_sending_chain_length = elim s.sending_chain [ none ↦ 0 | some ch ↦ ch.index ];
  }

  -- The sending half, under the new key pair.
  abbrev pub start_sending : Bytes → Bytes → c.StaticSecret → c.PublicKey → Session c → Session c
  start_sending root_key send_chain_key new_secret new_public s = record s {
    root_key = root_key;
    dh_secret = new_secret;
    dh_public = new_public;
    sending_chain = some (Chain.new send_chain_key 0);
  }

  -- The body of `if need_ratchet`
  unfoldable pub ratchet_to : MessageHeader → c.PublicKey → Exec (World c) (Unit {0})
  ratchet_to header header_dh_public = do
    skip_current_receiving_chain header.previous_chain_length
    s ← gets (λ w. w.session)
    (root_key, recv_chain_key) ←
        lift (dh_ratchet_step c s.root_key (dh c s.dh_secret header_dh_public))
    on_session (start_receiving root_key recv_chain_key header_dh_public)
    (new_secret, new_public) ← on_rng (generate_dh_keypair c)
    (root_key', send_chain_key) ←
        lift (dh_ratchet_step c root_key (dh c new_secret header_dh_public))
    on_session (start_sending root_key' send_chain_key new_secret new_public)

  -- Skip ahead to the message's number, and derive its key.
  unfoldable pub next_key : MessageHeader → Exec Skipping Bytes
  next_key header = skip_until c header.message_number header.dh_public_key >>= λ _ l.
      let (r, chain') = advance c l.chain in (r, record l { chain = chain' })

  unfoldable pub receive : MessageHeader → Encrypted → Exec (World c) Bytes
  receive header encrypted w = elim w.session.receiving_chain [
    | none ↦ (err (ratchet "No receiving chain established"), w)
    | some chain ↦
        (do
          message_key ← on_receiving chain (next_key header)
          key ← lift (message_key_array message_key)
          lift (Aead.decrypt c key encrypted (to_bytes c header)))
          w
  ]

  -- The path of a message whose key was not stored.
  unfoldable pub decrypt_next : MessageHeader → Encrypted → Exec (World c) Bytes
  decrypt_next header encrypted = do
    header_dh_public ← lift (to_public_key c header)
    s ← gets (λ w. w.session)
    (if need_ratchet s.remote_dh_public header_dh_public
        then ratchet_to header header_dh_public
        else pure tt)
    receive header encrypted

  -- The path of a message whose key was stored; the key is gone from the map.
  unfoldable pub decrypt_skipped : Bytes → MessageHeader → Encrypted → Exec (World c) Bytes
  decrypt_skipped mk header encrypted w =
      let keys =
        SkippedKeys.forget w.session.skipped_keys header.dh_public_key header.message_number in
      (do
        key ← lift (skipped_key_array mk)
        lift (Aead.decrypt c key encrypted (to_bytes c header)))
        (record w { session = record (w.session) { skipped_keys = keys } })

  unfoldable pub decrypt : MessageHeader → Encrypted → Exec (World c) Bytes
  decrypt header encrypted w =
      elim (SkippedKeys.stored w.session.skipped_keys header.dh_public_key header.message_number) [
        | some mk ↦ decrypt_skipped mk header encrypted w
        | none ↦ decrypt_next header encrypted w
      ]
