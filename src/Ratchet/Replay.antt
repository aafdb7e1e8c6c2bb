-- ===== src/Ratchet/Replay.antt =====
-- A message whose number is behind the chain and whose key is not stored: a duplicate, or a forgery.
use ghostcrypt_crypto_core.Common.{
  ℕ, suc, ◌+◌, ◌≤◌, ◌<◌, ◌≡◌, refl, sym, ap, ◌∙◌, none, some, arith,
}
use ghostcrypt_crypto_core.Crates.{Crates, KdfLaws, X25519Laws}
use ghostcrypt_crypto_core.Aead
use ghostcrypt_crypto_core.Aead.{Encrypted}
use ghostcrypt_crypto_core.Ratchet.SkippedKeys.{stored}
use ghostcrypt_crypto_core.Ratchet.Chain.{
  ChainKey, chain_after, u32_mod, index-chain_after, chain_after-suc,
}
use ghostcrypt_crypto_core.Ratchet.Header.{MessageHeader, to_bytes}
use ghostcrypt_crypto_core.Ratchet.State.{World, Skipping}
use ghostcrypt_crypto_core.Ratchet.Session.{decrypt}
use ghostcrypt_crypto_core.Ratchet.Skip.{skip_until-done}
use ghostcrypt_crypto_core.Ratchet.Delivery.{decrypt-receive, receive_lem}
use ghostcrypt_crypto_core.Ratchet.AnyOrder.{Tracks, key_of}

module _ (c : Crates) (kdf : KdfLaws c) (x25519 : X25519Laws c) (remote : c.PublicKey)
    (origin : ChainKey) (start : origin.index ≡ 0) where
  -- The session that has used up the key of message m
  abbrev moved_on : ℕ → World c → World c
  moved_on m w = record w {
    session = record (w.session) { receiving_chain = some (chain_after c (suc m) origin) };
  }

  -- A message with no stored key and a number at or behind the expected one is opened with the key
  -- of the expected message, whatever its own number is.
  decrypt_late :
      (m : ℕ) (header : MessageHeader) (sealed : Encrypted) (w : World c)
      → w.session.remote_dh_public ≡ some remote
      → w.session.receiving_chain ≡ some (chain_after c m origin)
      → m < u32_mod
      → header.dh_public_key ≡ c.public_bytes remote
      → header.message_number ≤ m
      → stored w.session.skipped_keys (c.public_bytes remote) header.message_number ≡ none
      → decrypt c header sealed w
        ≡ (Aead.decrypt c (key_of c remote origin m) sealed (to_bytes c header), moved_on m w)
  decrypt_late m header sealed w known following u same n absent =
      let l : Skipping = record { chain = chain_after c m origin; keys = w.session.skipped_keys } in
      let i = index-chain_after c kdf m origin (omega arith) in
      decrypt-receive c x25519 header sealed w remote
        (ap (λ d. stored w.session.skipped_keys d header.message_number) same ∙ absent) known same
      ∙ receive_lem c kdf header sealed w (chain_after c m origin) l following
          (skip_until-done c header.message_number header.dh_public_key l (omega (arith, i)))
      ∙ ap
          (λ ch. (
            Aead.decrypt c (key_of c remote origin m) sealed (to_bytes c header),
            record w { session = record (w.session) { receiving_chain = some ch } },
          ))
          (sym (chain_after-suc c m origin))

  -- Take a session that follows a chain, expects message m of it next and stores no key of it from
  -- m on, with m + 1 below 2^32; and a message with a smaller number whose key is not stored, such as
  -- a second copy of one that was received. `decrypt` tries the key of message m on it and moves the
  -- chain on, whatever comes of that; and then message m itself is tried with the key of m + 1.
  pub replay_desyncs :
      (m : ℕ) (header next : MessageHeader) (sealed sealed' : Encrypted) (w : World c)
      → Tracks c remote origin m w.session
      → m + 1 < u32_mod
      → header.dh_public_key ≡ c.public_bytes remote
      → header.message_number < m
      → stored w.session.skipped_keys (c.public_bytes remote) header.message_number ≡ none
      → next.dh_public_key ≡ c.public_bytes remote
      → next.message_number ≡ m
      → let (r, w') = decrypt c header sealed w in
        let (r', w'') = decrypt c next sealed' w' in
        (r ≡ Aead.decrypt c (key_of c remote origin m) sealed (to_bytes c header))
        × (w'.session.receiving_chain ≡ some (chain_after c (suc m) origin))
        × (r' ≡ Aead.decrypt c (key_of c remote origin (suc m)) sealed' (to_bytes c next))
  replay_desyncs m header next sealed sealed' w t u same n absent same' n' =
      let e =
        decrypt_late m header sealed w t.known t.following (omega arith) same (omega arith)
          absent in
      let f =
        decrypt_late (suc m) next sealed' (moved_on m w) t.known refl (omega arith) same'
          (omega arith) (t.ahead next.message_number (omega arith)) in
      rw e (refl, refl, λ i. (f i).0)
