-- ===== src/Ratchet/Keyed.antt =====
-- The calls of a session of src/ratchet/state.rs, and the lengths of its keys.
use ghostcrypt_crypto_core.Common.{
  ℕ, ◌≡◌, sym, ◌∙◌, subst, inl, inr, Option-cases, some, none, Bytes, Bool, true, false, length,
  if◌then◌else◌, arith,
}
use ghostcrypt_crypto_core.Error.{ok}
use ghostcrypt_crypto_core.Exec.{continue-after, continue-leaves, ok-injective, pure}
use ghostcrypt_crypto_core.Crates.{Crates, KdfLaws}
use ghostcrypt_crypto_core.Aead.{Encrypted}
use ghostcrypt_crypto_core.Identity.{SignedPreKey}
use ghostcrypt_crypto_core.Ratchet.SkippedKeys
use ghostcrypt_crypto_core.Ratchet.Chain
use ghostcrypt_crypto_core.Ratchet.SkippedKeys.{stored, stored-empty}
use ghostcrypt_crypto_core.Ratchet.Chain.{ChainKey, advance}
use ghostcrypt_crypto_core.Ratchet.Header.{MessageHeader, to_public_key}
use ghostcrypt_crypto_core.Ratchet.DhRatchet.{
  dh_ratchet_step, dh_ratchet_step_total, generate_dh_keypair, dh,
}
use ghostcrypt_crypto_core.Ratchet.State.{
  Session, World, Skipping, skip_until, message_key_array, skipped_key_array,
}
use ghostcrypt_crypto_core.Ratchet.Session.{
  init_alice, init_bob, encrypt, decrypt, decrypt_next, decrypt_skipped, receive, next_key,
  need_ratchet, ratchet_to, start_receiving, skip_current_receiving_chain,
}
use ghostcrypt_crypto_core.Ratchet.KeyLengths.{
  Keyed, SkippingKeyed, received-Keyed, started_receiving-Keyed, started_sending-Keyed,
  forgotten-Keyed, some-ChainKeyed, length-advance, skip_until-Keyed, length-dh_ratchet_step,
}

-- The sessions that a device can have: one that a constructor made, `init_bob` from a shared secret
-- of 32 bytes, and what calls of `encrypt` and `decrypt`, on whatever they are given and however
-- they end, make of it.
pub data Reached (c : Crates) : World c → Type 0 where
  initiated :
      (shared_secret : Bytes) (bob_spk_public : c.PublicKey) (rng rng' : c.Rng) (s : Session c)
      → init_alice c shared_secret bob_spk_public rng ≡ (ok s, rng')
      → Reached c (record { session = s; rng = rng' })
  responded :
      (shared_secret : Bytes) (our_spk : SignedPreKey c) (rng : c.Rng)
      → length shared_secret ≡ 32
      → Reached c (record { session = init_bob c shared_secret our_spk; rng = rng })
  encrypted : (w : World c) (plaintext : Bytes) → Reached c w → Reached c (encrypt c plaintext w).1
  decrypted :
      (w : World c) (header : MessageHeader) (sealed : Encrypted)
      → Reached c w
      → Reached c (decrypt c header sealed w).1

-- A session with its random source
abbrev pub KeyedWorld : {c : Crates} → World c → Type 0
KeyedWorld w = Keyed w.session

module _ (c : Crates) (kdf : KdfLaws c) where
  session-encrypt :
      (plaintext : Bytes) (w : World c) (chain : ChainKey)
      → w.session.sending_chain ≡ some chain
      → (encrypt c plaintext w).1.session
        ≡ record (w.session) { sending_chain = some (advance c chain).1 }
  unfolding encrypt
  session-encrypt plaintext w chain e = rw (e, encrypt) (ground arith)

  encrypt-Keyed :
      (plaintext : Bytes) (w : World c) → KeyedWorld w → KeyedWorld (encrypt c plaintext w).1
  unfolding encrypt
  encrypt-Keyed plaintext w k = elim (Option-cases w.session.sending_chain) [
    | inl e ↦ rw (e, encrypt) k
    | inr (chain, e) ↦
        let chain' = (advance c chain).1 in
        let k' : Keyed (record (w.session) { sending_chain = some chain' }) = record {
          root = k.root;
          sending = some-ChainKeyed chain' (length-advance c kdf chain);
          receiving = k.receiving;
          skipped = k.skipped;
        } in
        subst Keyed (sym (session-encrypt plaintext w chain e)) k'
  ]

  next_key-Keyed :
      (header : MessageHeader) (l : Skipping)
      → SkippingKeyed l
      → SkippingKeyed (next_key c header l).1
  unfolding next_key
  next_key-Keyed header l k =
      let (r, l') = skip_until c header.message_number header.dh_public_key l in
      let k' = skip_until-Keyed c kdf header.message_number header.dh_public_key l k in
      continue-after SkippingKeyed r _ l' k' (λ _. (length-advance c kdf l'.chain, k'.1))

  receive-Keyed :
      (header : MessageHeader) (sealed : Encrypted) (w : World c)
      → KeyedWorld w
      → KeyedWorld (receive c header sealed w).1
  unfolding receive
  receive-Keyed header sealed w k = elim (Option-cases w.session.receiving_chain) [
    | inl e ↦ rw (e, receive) k
    | inr (chain, e) ↦
        let l : Skipping = record { chain = chain; keys = w.session.skipped_keys } in
        let q =
          received-Keyed w.session (next_key c header l).1 k
            (next_key-Keyed header l (k.receiving chain e, k.skipped)) in
        rw (e, receive)
          (continue-after KeyedWorld (next_key c header l).0 _ _ q
            (λ key. continue-after KeyedWorld (message_key_array key) _ _ q (λ array. q)))
  ]

  skip_current-Keyed :
      (until : ℕ) (w : World c)
      → KeyedWorld w
      → KeyedWorld (skip_current_receiving_chain c until w).1
  unfolding skip_current_receiving_chain
  skip_current-Keyed until w k = elim (Option-cases w.session.receiving_chain) [
    | inl e ↦ rw (e, skip_current_receiving_chain) k
    | inr (chain, e) ↦ elim (Option-cases w.session.remote_dh_public) [
      | inl f ↦ rw (e, f, skip_current_receiving_chain) k
      | inr (remote, f) ↦
          let l : Skipping = record { chain = chain; keys = w.session.skipped_keys } in
          let dh_bytes = c.public_bytes remote in
          rw (e, f, skip_current_receiving_chain)
            (received-Keyed w.session (skip_until c until dh_bytes l).1 k
              (skip_until-Keyed c kdf until dh_bytes l (k.receiving chain e, k.skipped)))
    ]
  ]

  ratchet_to-Keyed :
      (header : MessageHeader) (key : c.PublicKey) (w : World c)
      → KeyedWorld w
      → KeyedWorld (ratchet_to c header key w).1
  unfolding ratchet_to generate_dh_keypair
  ratchet_to-Keyed header key w k =
      let (r, w₁) = skip_current_receiving_chain c header.previous_chain_length w in
      let k₁ = skip_current-Keyed header.previous_chain_length w k in
      continue-after KeyedWorld r _ w₁ k₁ (λ _.
        let out = dh c w₁.session.dh_secret key in
        continue-leaves KeyedWorld (dh_ratchet_step c w₁.session.root_key out) _ w₁ k₁
          (λ (root, chain) e.
            let l = length-dh_ratchet_step c kdf w₁.session.root_key out root chain e in
            let s₂ = start_receiving c root chain key w₁.session in
            let k₂ = started_receiving-Keyed w₁.session root chain key k₁ l in
            let secret = (c.random_secret w₁.rng).0 in
            continue-leaves KeyedWorld (dh_ratchet_step c root (dh c secret key)) _ _ k₂
              (λ (root', chain') e'.
                started_sending-Keyed s₂ root' chain' secret (c.public_from_secret secret) k₂
                  (length-dh_ratchet_step c kdf root (dh c secret key) root' chain' e'))))

  turn-Keyed :
      (b : Bool) (header : MessageHeader) (key : c.PublicKey) (w : World c)
      → KeyedWorld w
      → KeyedWorld ((if b then ratchet_to c header key else pure tt) w).1
  turn-Keyed true header key w k = ratchet_to-Keyed header key w k
  turn-Keyed false header key w k = k

  decrypt_next-Keyed :
      (header : MessageHeader) (sealed : Encrypted) (w : World c)
      → KeyedWorld w
      → KeyedWorld (decrypt_next c header sealed w).1
  unfolding decrypt_next
  decrypt_next-Keyed header sealed w k =
      continue-after KeyedWorld (to_public_key c header) _ w k (λ key.
        let b = need_ratchet c w.session.remote_dh_public key in
        let (r, w') = (if b then ratchet_to c header key else pure tt) w in
        let k' = turn-Keyed b header key w k in
        continue-after KeyedWorld r _ w' k' (λ _. receive-Keyed header sealed w' k'))

  decrypt-Keyed :
      (header : MessageHeader) (sealed : Encrypted) (w : World c)
      → KeyedWorld w
      → KeyedWorld (decrypt c header sealed w).1
  unfolding decrypt decrypt_skipped
  decrypt-Keyed header sealed w k =
      elim (Option-cases
        (stored w.session.skipped_keys header.dh_public_key header.message_number)) [
          | inl e ↦ rw (e, decrypt) (decrypt_next-Keyed header sealed w k)
          | inr (mk, e) ↦
              let k' = forgotten-Keyed w.session header.dh_public_key header.message_number k in
              rw (e, decrypt) (continue-after KeyedWorld (skipped_key_array mk) _ _ k' (λ key. k'))
        ]

  init_alice-Keyed :
      (shared_secret : Bytes) (bob_spk_public : c.PublicKey) (rng rng' : c.Rng) (s : Session c)
      → init_alice c shared_secret bob_spk_public rng ≡ (ok s, rng')
      → Keyed s
  unfolding init_alice generate_dh_keypair
  init_alice-Keyed shared_secret bob_spk_public rng rng' s h =
      let secret = (c.random_secret rng).0 in
      let out = dh c secret bob_spk_public in
      let (root, chain, e) = dh_ratchet_step_total c kdf shared_secret out in
      let (l, m) = length-dh_ratchet_step c kdf shared_secret out root chain e in
      let alice : Session c = record {
        root_key = root;
        dh_secret = secret;
        dh_public = c.public_from_secret secret;
        remote_dh_public = some bob_spk_public;
        sending_chain = some (Chain.new chain 0);
        receiving_chain = none;
        previous_sending_chain_length = 0;
        skipped_keys = SkippedKeys.empty;
      } in
      let made : init_alice c shared_secret bob_spk_public rng
          ≡ (ok alice, (c.random_secret rng).1) =
        rw e in
      let keyed : Keyed alice = record {
        root = l;
        sending = some-ChainKeyed (Chain.new chain 0) m;
        receiving = λ ch h. cc;
        skipped = λ dh_bytes n mk h. cc (h, stored-empty dh_bytes n);
      } in
      subst Keyed (ok-injective (sym made ∙ h)) keyed

  init_bob-Keyed :
      (shared_secret : Bytes) (our_spk : SignedPreKey c)
      → length shared_secret ≡ 32
      → Keyed (init_bob c shared_secret our_spk)
  unfolding init_bob
  init_bob-Keyed shared_secret our_spk l = record {
    root = l;
    sending = λ ch h. cc;
    receiving = λ ch h. cc;
    skipped = λ dh_bytes n mk h. cc (h, stored-empty dh_bytes n);
  }

  -- All keys of a session that a device can have are 32 bytes long: the root key, the keys of the
  -- chains, and every message key that is stored. `init_bob` is taken to get a secret of 32 bytes,
  -- and hkdf and hmac to give the lengths asked for.
  pub Reached-Keyed : (w : World c) → Reached c w → Keyed w.session
  Reached-Keyed _ (initiated shared_secret bob_spk_public rng rng' s h) =
      init_alice-Keyed shared_secret bob_spk_public rng rng' s h
  Reached-Keyed _ (responded shared_secret our_spk rng l) = init_bob-Keyed shared_secret our_spk l
  Reached-Keyed _ (encrypted w plaintext r) = encrypt-Keyed plaintext w (Reached-Keyed w r)
  Reached-Keyed _ (decrypted w header sealed r) = decrypt-Keyed header sealed w (Reached-Keyed w r)
