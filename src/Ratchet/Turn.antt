-- ===== src/Ratchet/Turn.antt =====
-- The DH ratchet: a session that gets the first message under a new key follows the sender's new
-- chain, and has a new chain of its own that the sender can follow in turn.
use ghostcrypt_crypto_core.Common.{
  ℕ, ◌+◌, ◌-◌, ◌≤◌, ◌<◌, ◌≡◌, ◌≢◌, inl, inr, refl, Option-cases, Bytes, Option, none, some, nat_eq,
  arith,
}
use ghostcrypt_crypto_core.Error.{ok}
use ghostcrypt_crypto_core.Crates.{Crates, KdfLaws}
use ghostcrypt_crypto_core.Ratchet.SkippedKeys.{SkippedKeys, stored, count}
use ghostcrypt_crypto_core.Ratchet.Chain
use ghostcrypt_crypto_core.Ratchet.Chain.{ChainKey, u32_mod, chain_after}
use ghostcrypt_crypto_core.Ratchet.DhRatchet.{dh, dh_ratchet_step}
use ghostcrypt_crypto_core.Ratchet.State.{Session, World, Skipping, max_skip}
use ghostcrypt_crypto_core.Ratchet.Session.{skip_current_receiving_chain}
use ghostcrypt_crypto_core.Ratchet.Stored.{skip_until-Skips}

module _ {c : Crates} where
  -- `s` has begun a sending chain under a new key, which `r` has seen nothing of.
  pub record Turn (s r : Session c) : Type 0 where
    pub sender_paired : s.dh_public ≡ c.public_from_secret s.dh_secret
    pub receiver_paired : r.dh_public ≡ c.public_from_secret r.dh_secret
    pub towards : s.remote_dh_public ≡ some r.dh_public
    pub chain_key : Bytes
    pub agreed :
        dh_ratchet_step c r.root_key (dh c s.dh_secret r.dh_public) ≡ ok (s.root_key, chain_key)
    pub sending : s.sending_chain ≡ some (Chain.new chain_key 0)
    pub unseen :
        (k : c.PublicKey)
        → r.remote_dh_public ≡ some k
        → c.public_bytes k ≢ c.public_bytes s.dh_public
    pub unstored : (n : ℕ) → stored r.skipped_keys (c.public_bytes s.dh_public) n ≡ none

  -- The rest of the receiving chain up to `until` fits in the map of skipped keys.
  abbrev pub Room : ℕ → Session c → Type 0
  Room until r =
      (chain : ChainKey)
      → r.receiving_chain ≡ some chain
      → count r.skipped_keys + (until - chain.index) ≤ max_skip

  -- The key that the random source would give next is new to both parties.
  pub record FreshKey (s : Session c) (w : World c) : Type 0 where
    pub other :
        c.public_bytes (c.public_from_secret (c.random_secret w.rng).0)
        ≢ c.public_bytes w.session.dh_public
    pub unstored :
        (n : ℕ)
        → stored s.skipped_keys (c.public_bytes (c.public_from_secret (c.random_secret w.rng).0)) n
          ≡ none

module _ (c : Crates) (kdf : KdfLaws c) where
  -- What `skip_current_receiving_chain` leaves
  pub record SkipsCurrent (until : ℕ) (w : World c) : Type 0 where
    pub chain : Option ChainKey
    pub keys : SkippedKeys
    pub run : skip_current_receiving_chain c until w ≡ (
      ok tt,
      record w { session = record (w.session) { receiving_chain = chain; skipped_keys = keys } },
    )
    pub kept :
        (b : Bytes) (n : ℕ)
        → ((k : c.PublicKey) → w.session.remote_dh_public ≡ some k → c.public_bytes k ≢ b)
        → stored keys b n ≡ stored w.session.skipped_keys b n
    pub within : count keys ≤ max_skip

  pub skip_current-SkipsCurrent :
      (until : ℕ) (w : World c)
      → until < u32_mod
      → Room until w.session
      → count w.session.skipped_keys ≤ max_skip
      → SkipsCurrent until w
  unfolding skip_current_receiving_chain
  skip_current-SkipsCurrent until w u room fits = elim (Option-cases w.session.receiving_chain) [
    | inl e ↦ record {
      chain = w.session.receiving_chain;
      keys = w.session.skipped_keys;
      run = ground arith;
      kept = λ b n _. refl;
      within = fits;
    }
    | inr (chain, e) ↦ elim (Option-cases w.session.remote_dh_public) [
      | inl f ↦ record {
        chain = w.session.receiving_chain;
        keys = w.session.skipped_keys;
        run = ground arith;
        kept = λ b n _. refl;
        within = fits;
      }
      | inr (remote, f) ↦
          let l : Skipping = record { chain = chain; keys = w.session.skipped_keys } in
          let (l', run, s) =
            skip_until-Skips c kdf until (c.public_bytes remote) l u (room chain e) in
          record {
            chain = some l'.chain;
            keys = l'.keys;
            run = ground (arith, run);
            kept = λ b n other. s.kept b n (inl (other remote f));
            within = omega (arith, s.bounded, room chain e);
          }
    ]
  ]
