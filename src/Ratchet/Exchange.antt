-- ===== src/Ratchet/Exchange.antt =====
-- A message that opens a turn: sent under a new chain, received through a DH ratchet step, and
-- answered under the receiver's own new chain.
use ghostcrypt_crypto_core.Common.{ℕ, ◌≤◌, ◌<◌, ◌≡◌, refl, sym, ap, ◌∙◌, Bytes, some, arith}
use ghostcrypt_crypto_core.Error.{ok}
use ghostcrypt_crypto_core.Crates.{Crates, KdfLaws, X25519Laws, AeadLaws}
use ghostcrypt_crypto_core.Aead
use ghostcrypt_crypto_core.Aead.{Encrypted}
use ghostcrypt_crypto_core.Ratchet.SkippedKeys.{stored, count}
use ghostcrypt_crypto_core.Ratchet.Chain
use ghostcrypt_crypto_core.Ratchet.Chain.{
  ChainKey, u32_mod, chain_after, message_key, advance, chain_after-zero,
}
use ghostcrypt_crypto_core.Ratchet.Header
use ghostcrypt_crypto_core.Ratchet.Header.{MessageHeader, to_bytes}
use ghostcrypt_crypto_core.Ratchet.DhRatchet.{dh_ratchet_step, dh}
use ghostcrypt_crypto_core.Ratchet.State.{Session, World, max_skip}
use ghostcrypt_crypto_core.Ratchet.Session.{encrypt, decrypt}
use ghostcrypt_crypto_core.Ratchet.Delivery.{encrypt-Sends, Sends}
use ghostcrypt_crypto_core.Ratchet.AnyOrder.{SameSender, Genuine, deliver_ahead}
use ghostcrypt_crypto_core.Ratchet.Turn.{Turn, Room, FreshKey}
use ghostcrypt_crypto_core.Ratchet.Turned.{decrypt-Turns}

module _ {c : Crates} where
  Turn-sender : {s s' r : Session c} → SameSender s s' → Turn s r → Turn s' r
  Turn-sender {s} {s'} {r} e t = record {
    sender_paired = e.public ∙ t.sender_paired ∙ ap c.public_from_secret (sym e.secret);
    receiver_paired = t.receiver_paired;
    towards = e.remote ∙ t.towards;
    chain_key = t.chain_key;
    agreed =
        ap (λ x. dh_ratchet_step c r.root_key (dh c x r.dh_public)) e.secret
        ∙ t.agreed
        ∙ ap (λ (x : Bytes). ok (x, t.chain_key)) (sym e.root);
    sending = e.sending ∙ t.sending;
    unseen = λ k f same. t.unseen k f (same ∙ ap c.public_bytes e.public);
    unstored = λ n. ap (λ d. stored r.skipped_keys (c.public_bytes d) n) e.public ∙ t.unstored n;
  }

  -- The receiver of a turn may send on its own chain meanwhile.
  Turn-sent :
      {s r r' : Session c} (chain : ChainKey)
      → r' ≡ record r { sending_chain = some chain }
      → Turn s r
      → Turn s r'
  Turn-sent chain e t = rw e (record {
    sender_paired = t.sender_paired;
    receiver_paired = t.receiver_paired;
    towards = t.towards;
    chain_key = t.chain_key;
    agreed = t.agreed;
    sending = t.sending;
    unseen = t.unseen;
    unstored = t.unstored;
  })

module _ (c : Crates) (kdf : KdfLaws c) where
  -- A message goes out under the sender's key, with the index of its chain as its number.
  pub Sends-header :
      (chain : ChainKey) (plaintext : Bytes) (w w' : World c) (header : MessageHeader)
      (sealed : Encrypted)
      → Sends c kdf chain plaintext w w' header sealed
      → (header.dh_public_key ≡ c.public_bytes w.session.dh_public)
        × (header.message_number ≡ chain.index)
  unfolding Header.new
  Sends-header chain plaintext w w' header sealed s = (
    ap (λ (h : MessageHeader). h.dh_public_key) s.headed,
    ap (λ (h : MessageHeader). h.message_number) s.headed,
  )

  -- What is sent as message n of a chain is a genuine packet of that chain.
  pub Sends-Genuine :
      (n : ℕ) (origin chain : ChainKey) (plaintext : Bytes) (w w' : World c)
      (header : MessageHeader) (sealed : Encrypted)
      → chain ≡ chain_after c n origin
      → chain.index ≡ n
      → Sends c kdf chain plaintext w w' header sealed
      → Genuine c w.session.dh_public origin plaintext header sealed
  Sends-Genuine n origin chain plaintext w w' header sealed e i s =
      let (sender, number) = Sends-header chain plaintext w w' header sealed s in
      let at : chain_after c header.message_number origin ≡ chain =
        ap (λ k. chain_after c k origin) (number ∙ i) ∙ sym e in
      record {
        sender = sender;
        rng = w.rng;
        rng' = w'.rng;
        sealing =
            ap (λ k. Aead.encrypt c (message_key c k) plaintext (to_bytes c header) w.rng) at
            ∙ s.sealing;
      }

module _ (c : Crates) (kdf : KdfLaws c) (x25519 : X25519Laws c) (aead : AeadLaws c) where
  -- The first message of a turn is decrypted to its plaintext, and then the turn is the receiver's:
  -- its first message back will be decrypted likewise. The hypotheses: the keys that the receiver
  -- still misses of its old chain fit in the limit, and the key that it draws is a new one.
  pub decrypt-encrypt-Turn :
      (plaintext : Bytes) (sender sender' receiver : World c) (header : MessageHeader)
      (sealed : Encrypted)
      → Turn sender.session receiver.session
      → encrypt c plaintext sender ≡ (ok (header, sealed), sender')
      → header.previous_chain_length < u32_mod
      → Room header.previous_chain_length receiver.session
      → count receiver.session.skipped_keys ≤ max_skip
      → FreshKey sender.session receiver
      → let (r, receiver') = decrypt c header sealed receiver in
        (r ≡ ok plaintext) × Turn receiver'.session sender'.session
  decrypt-encrypt-Turn plaintext sender sender' receiver header sealed t sent u room fits fresh =
      let chain = Chain.new t.chain_key 0 in
      let s =
        encrypt-Sends c kdf chain plaintext sender sender' header sealed t.sending (omega arith)
          sent in
      let (same, number) = Sends-header c kdf chain plaintext sender sender' header sealed s in
      let turns = decrypt-Turns c kdf x25519 sender.session receiver header t same u room fits in
      let genuine =
        Sends-Genuine c kdf 0 chain chain plaintext sender sender' header sealed
          (chain_after-zero c chain) refl s in
      let d =
        deliver_ahead c kdf x25519 aead sender.session.dh_public chain 0 plaintext header sealed
          turns.w' refl turns.tracks genuine (omega arith) (omega arith)
          (omega (arith, turns.within)) in
      rw (turns.reads sealed) (
        d.result,
        Turn-sent (advance c chain).1 s.after (Turn-sender d.unchanged (turns.back fresh)),
      )
