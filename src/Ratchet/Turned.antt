-- ===== src/Ratchet/Turned.antt =====
-- The receiver of a new chain: what `decrypt` does before it reads the first message.
use mathlib.Core.Option.{some-injective}
use ghostcrypt_crypto_core.Common.{
  ℕ, ◌≡◌, ◌≢◌, refl, sym, ap, ◌∙◌, true, Bytes, Option, none, some, list_eqb_iff, nat_eq, ◌<◌, ◌≤◌,
  arith,
}
use ghostcrypt_crypto_core.Error.{ok}
use ghostcrypt_crypto_core.Crates.{Crates, KdfLaws, X25519Laws}
use ghostcrypt_crypto_core.Aead.{Encrypted}
use ghostcrypt_crypto_core.Ratchet.SkippedKeys.{SkippedKeys, stored, count}
use ghostcrypt_crypto_core.Ratchet.Chain
use ghostcrypt_crypto_core.Ratchet.Chain.{ChainKey, u32_mod, chain_after}
use ghostcrypt_crypto_core.Ratchet.Header.{MessageHeader, to_public_key}
use ghostcrypt_crypto_core.Ratchet.DhRatchet.{
  dh, dh_ratchet_step, dh_ratchet_step_total, generate_dh_keypair,
}
use ghostcrypt_crypto_core.Ratchet.State.{Session, World, max_skip}
use ghostcrypt_crypto_core.Ratchet.Session.{
  decrypt, decrypt_next, receive, need_ratchet, ratchet_to, skip_current_receiving_chain,
}
use ghostcrypt_crypto_core.Ratchet.Delivery.{decrypt-receive}
use ghostcrypt_crypto_core.Ratchet.AnyOrder.{Tracks}
use ghostcrypt_crypto_core.Ratchet.Turn.{Turn, Room, FreshKey, skip_current-SkipsCurrent}

need_ratchet-true :
    (c : Crates) (known : Option c.PublicKey) (key : c.PublicKey)
    → ((k : c.PublicKey) → known ≡ some k → c.public_bytes k ≢ c.public_bytes key)
    → need_ratchet c known key ≡ true
unfolding need_ratchet
need_ratchet-true c none key h = refl
need_ratchet-true c (some k) key h =
    ground (arith, h k refl, list_eqb_iff (c.public_bytes k) (c.public_bytes key))

module _ (c : Crates) where
  -- The world after `ratchet_to`, in terms of what its steps gave
  abbrev turned :
      World c → Option ChainKey → SkippedKeys → c.PublicKey → Bytes → Bytes → Bytes → World c
  turned w old keys remote chain_key root_key send_chain_key =
      let (secret, rng') = c.random_secret w.rng in
      record {
        session = record {
          root_key = root_key;
          dh_secret = secret;
          dh_public = c.public_from_secret secret;
          remote_dh_public = some remote;
          sending_chain = some (Chain.new send_chain_key 0);
          receiving_chain = some (Chain.new chain_key 0);
          previous_sending_chain_length = elim w.session.sending_chain [
            | none ↦ 0
            | some ch ↦ ch.index
          ];
          skipped_keys = keys;
        };
        rng = rng';
      }

  ratchet_to_lem :
      (header : MessageHeader) (remote : c.PublicKey) (w : World c) (old : Option ChainKey)
      (keys : SkippedKeys) (root₁ chain_key root₂ send_key : Bytes)
      → skip_current_receiving_chain c header.previous_chain_length w ≡ (
        ok tt,
        record w { session = record (w.session) { receiving_chain = old; skipped_keys = keys } },
      )
      → dh_ratchet_step c w.session.root_key (dh c w.session.dh_secret remote)
        ≡ ok (root₁, chain_key)
      → dh_ratchet_step c root₁ (dh c (c.random_secret w.rng).0 remote) ≡ ok (root₂, send_key)
      → ratchet_to c header remote w ≡ (ok tt, turned w old keys remote chain_key root₂ send_key)
  unfolding ratchet_to generate_dh_keypair
  ratchet_to_lem header remote w old keys root₁ chain_key root₂ send_key run p q = rw (run, p, q)

module _ (c : Crates) (kdf : KdfLaws c) (x25519 : X25519Laws c) where
  to_public_key_same :
      (header : MessageHeader) (remote : c.PublicKey)
      → header.dh_public_key ≡ c.public_bytes remote
      → to_public_key c header ≡ ok remote
  unfolding to_public_key
  to_public_key_same header remote same =
      ground (arith, x25519.length-public remote, x25519.from-public remote)

  decrypt-ratchet_to :
      (header : MessageHeader) (sealed : Encrypted) (remote : c.PublicKey) (w w' : World c)
      → header.dh_public_key ≡ c.public_bytes remote
      → stored w.session.skipped_keys header.dh_public_key header.message_number ≡ none
      → need_ratchet c w.session.remote_dh_public remote ≡ true
      → ratchet_to c header remote w ≡ (ok tt, w')
      → decrypt c header sealed w ≡ receive c header sealed w'
  unfolding decrypt decrypt_next
  decrypt-ratchet_to header sealed remote w w' same absent need run =
      rw (absent, decrypt, to_public_key_same header remote same, need, run)

  -- The receiver `w` of a new chain of `s` comes to `w'` before it reads the first message.
  pub record Turns (s : Session c) (turn_chain : Bytes) (header : MessageHeader) (w : World c)
      : Type 0 where
    pub w' : World c
    pub reads : (sealed : Encrypted) → decrypt c header sealed w ≡ decrypt c header sealed w'
    pub tracks : Tracks c s.dh_public (Chain.new turn_chain 0) 0 w'.session
    pub within : count w'.session.skipped_keys ≤ max_skip
    pub back : FreshKey s w → Turn w'.session s

  -- Both parties derive one receiving chain, by the exchange of the two key pairs.
  receiver_step :
      (s r : Session c) (t : Turn s r)
      → dh_ratchet_step c r.root_key (dh c r.dh_secret s.dh_public) ≡ ok (s.root_key, t.chain_key)
  unfolding dh
  receiver_step s r t =
      ap (λ k. dh_ratchet_step c r.root_key (c.shared_bytes k))
        (ap (c.diffie_hellman r.dh_secret) t.sender_paired
          ∙ x25519.exchange r.dh_secret s.dh_secret
          ∙ ap (c.diffie_hellman s.dh_secret) (sym t.receiver_paired))
      ∙ t.agreed

  module _ (s : Session c) (w : World c) (header : MessageHeader) (t : Turn s w.session)
      (old : Option ChainKey) (keys : SkippedKeys) (root₂ send_key : Bytes)
      (kept : (n : ℕ) → stored keys (c.public_bytes s.dh_public) n ≡ none)
      (q : dh_ratchet_step c s.root_key (dh c (c.random_secret w.rng).0 s.dh_public)
        ≡ ok (root₂, send_key)) where
    after : World c
    after = turned c w old keys s.dh_public t.chain_key root₂ send_key

    after-Tracks : Tracks c s.dh_public (Chain.new t.chain_key 0) 0 after.session
    unfolding after chain_after
    after-Tracks = record { known = refl; following = refl; ahead = λ n _. kept n }

    after-Turn : FreshKey s w → Turn after.session s
    unfolding after
    after-Turn f = record {
      sender_paired = refl;
      receiver_paired = t.sender_paired;
      towards = refl;
      chain_key = send_key;
      agreed = q;
      sending = refl;
      unseen = λ k e same.
          f.other (
            sym same
            ∙ ap c.public_bytes (some-injective k w.session.dh_public (sym e ∙ t.towards)));
      unstored = f.unstored;
    }

  -- A message under the sender's new key is read as if the session had turned before: it then
  -- follows the sender's new chain from its start, and has begun a chain of its own.
  pub decrypt-Turns :
      (s : Session c) (w : World c) (header : MessageHeader) (t : Turn s w.session)
      → header.dh_public_key ≡ c.public_bytes s.dh_public
      → header.previous_chain_length < u32_mod
      → Room header.previous_chain_length w.session
      → count w.session.skipped_keys ≤ max_skip
      → Turns s t.chain_key header w
  decrypt-Turns s w header t same u room fits =
      let k = skip_current-SkipsCurrent c kdf header.previous_chain_length w u room fits in
      let secret = (c.random_secret w.rng).0 in
      let (root₂, send_key, q) = dh_ratchet_step_total c kdf s.root_key (dh c secret s.dh_public) in
      let kept : (n : ℕ) → stored k.keys (c.public_bytes s.dh_public) n ≡ none =
        λ n. k.kept (c.public_bytes s.dh_public) n t.unseen ∙ t.unstored n in
      let run =
        ratchet_to_lem c header s.dh_public w k.chain k.keys s.root_key t.chain_key root₂ send_key
          k.run (receiver_step s w.session t) q in
      let absent =
        ap (λ d. stored w.session.skipped_keys d header.message_number) same
        ∙ t.unstored header.message_number in
      let need = need_ratchet-true c w.session.remote_dh_public s.dh_public t.unseen in
      record {
        w' = turned c w k.chain k.keys s.dh_public t.chain_key root₂ send_key;
        reads = λ sealed.
            decrypt-ratchet_to header sealed s.dh_public w _ same absent need run
            ∙ sym (
                decrypt-receive c x25519 header sealed _ s.dh_public
                  (ap (λ d. stored k.keys d header.message_number) same
                    ∙ kept header.message_number)
                  refl same);
        tracks = unfold after in after-Tracks s w header t k.chain k.keys root₂ send_key kept q;
        within = k.within;
        back = unfold after in after-Turn s w header t k.chain k.keys root₂ send_key kept q;
      }
