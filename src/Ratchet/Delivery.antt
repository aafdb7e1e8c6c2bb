-- ===== src/Ratchet/Delivery.antt =====
-- One call of `encrypt`, and one call of `decrypt` on a message of the current receiving chain.
use ghostcrypt_crypto_core.Common.{
  ◌<◌, ◌≡◌, sym, ap, ◌∙◌, Bytes, none, some, list_eqb_iff, nat_eq, arith,
}
use ghostcrypt_crypto_core.Error.{Result, ok, err, panic}
use ghostcrypt_crypto_core.Exec.{Exec, pure, continue}
use ghostcrypt_crypto_core.Crates.{Crates, KdfLaws, X25519Laws}
use ghostcrypt_crypto_core.Aead
use ghostcrypt_crypto_core.Aead.{Encrypted}
use ghostcrypt_crypto_core.Ratchet.SkippedKeys.{stored}
use ghostcrypt_crypto_core.Ratchet.Chain.{
  ChainKey, advance, message_key, u32_mod, u32_pred-suc, advance-message_key, length-message_key,
  index-advance,
}
use ghostcrypt_crypto_core.Ratchet.Header
use ghostcrypt_crypto_core.Ratchet.Header.{MessageHeader, to_bytes, to_public_key}
use ghostcrypt_crypto_core.Ratchet.State.{World, Skipping, message_key_array, skip_until}
use ghostcrypt_crypto_core.Ratchet.Session.{
  encrypt, decrypt, decrypt_next, receive, next_key, need_ratchet,
}

module _ (c : Crates) (laws : KdfLaws c) where
  -- What a call of `encrypt` that succeeds has done, on the sending chain `chain`.
  pub record Sends (chain : ChainKey) (plaintext : Bytes) (w w' : World c) (header : MessageHeader)
      (sealed : Encrypted) : Type 0 where
    pub headed :
        header
        ≡ Header.new c w.session.dh_public chain.index w.session.previous_sending_chain_length
    pub sealing :
        Aead.encrypt c (message_key c chain) plaintext (to_bytes c header) w.rng
        ≡ (ok sealed, w'.rng)
    pub after : w'.session ≡ record (w.session) { sending_chain = some (advance c chain).1 }

  -- The end of `encrypt`
  abbrev pub answer : MessageHeader → Encrypted → Exec (World c) (MessageHeader × Encrypted)
  answer header sealed = pure (header, sealed)

  -- The session and random source that `encrypt` leaves
  abbrev pub after_send : ChainKey → World c → c.Rng → World c
  after_send chain w rng' = record w {
    session = record (w.session) { sending_chain = some (advance c chain).1 };
    rng = rng';
  }

  pub encrypt_lem :
      (chain : ChainKey) (plaintext : Bytes) (w : World c)
      → w.session.sending_chain ≡ some chain
      → chain.index < u32_mod
      → let header =
          Header.new c w.session.dh_public chain.index w.session.previous_sending_chain_length in
        let (r, rng') = Aead.encrypt c (message_key c chain) plaintext (to_bytes c header) w.rng in
        encrypt c plaintext w ≡ continue r (answer header) (after_send chain w rng')
  unfolding encrypt message_key_array
  encrypt_lem chain plaintext w e i = rw (
    e,
    encrypt,
    advance-message_key c laws chain,
    index-advance c laws chain,
    u32_pred-suc chain.index i,
    length-message_key c laws chain,
  )

  sent_parts :
      (r : Result Encrypted) (h header : MessageHeader) (v w' : World c) (sealed : Encrypted)
      → continue r (answer h) v ≡ (ok (header, sealed), w')
      → (r ≡ ok sealed) × (header ≡ h) × (w' ≡ v)
  sent_parts (ok x) h header v w' sealed e = ground arith
  sent_parts (err x) h header v w' sealed e = cc
  sent_parts panic h header v w' sealed e = cc

  pub encrypt-Sends :
      (chain : ChainKey) (plaintext : Bytes) (w w' : World c) (header : MessageHeader)
      (sealed : Encrypted)
      → w.session.sending_chain ≡ some chain
      → chain.index < u32_mod
      → encrypt c plaintext w ≡ (ok (header, sealed), w')
      → Sends chain plaintext w w' header sealed
  encrypt-Sends chain plaintext w w' header sealed e i h =
      let hd =
        Header.new c w.session.dh_public chain.index w.session.previous_sending_chain_length in
      let (r, rng') = Aead.encrypt c (message_key c chain) plaintext (to_bytes c hd) w.rng in
      let (good, same, after) =
        sent_parts r hd header (after_send chain w rng') w' sealed
          (sym (encrypt_lem chain plaintext w e i) ∙ h) in
      let back = sym after in
      let sealing : Aead.encrypt c (message_key c chain) plaintext (to_bytes c hd) w.rng
          ≡ (ok sealed, w'.rng) =
        λ i. (good i, (back i).rng) in
      let resealed =
        ap
          (λ (x : MessageHeader).
            Aead.encrypt c (message_key c chain) plaintext (to_bytes c x) w.rng)
          same in
      record {
        headed = same;
        sealing = resealed ∙ sealing;
        after = ap (λ (v : World c). v.session) after;
      }

  -- The last part of `decrypt`, once the loop has run.
  pub receive_lem :
      (header : MessageHeader) (sealed : Encrypted) (w : World c) (chain : ChainKey) (l : Skipping)
      → w.session.receiving_chain ≡ some chain
      → skip_until c header.message_number header.dh_public_key
          (record { chain = chain; keys = w.session.skipped_keys })
        ≡ (ok tt, l)
      → receive c header sealed w ≡ (
        Aead.decrypt c (message_key c l.chain) sealed (to_bytes c header),
        record w {
          session = record (w.session) {
            receiving_chain = some (advance c l.chain).1;
            skipped_keys = l.keys;
          };
        },
      )
  unfolding receive next_key message_key_array
  receive_lem header sealed w chain l e run =
      rw (e, receive, run, advance-message_key c laws l.chain, length-message_key c laws l.chain)

module _ (c : Crates) (laws : X25519Laws c) where
  -- A message under the remote party's current key, not stored, needs no DH ratchet step.
  pub decrypt-receive :
      (header : MessageHeader) (sealed : Encrypted) (w : World c) (remote : c.PublicKey)
      → stored w.session.skipped_keys header.dh_public_key header.message_number ≡ none
      → w.session.remote_dh_public ≡ some remote
      → header.dh_public_key ≡ c.public_bytes remote
      → decrypt c header sealed w ≡ receive c header sealed w
  unfolding decrypt decrypt_next to_public_key need_ratchet
  decrypt-receive header sealed w remote absent known same = ground (
    arith,
    laws.length-public remote,
    laws.from-public remote,
    list_eqb_iff (c.public_bytes remote) (c.public_bytes remote),
  )
