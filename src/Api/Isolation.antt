-- ===== src/Api/Isolation.antt =====
-- The sessions behind the handles of src/api.rs do not disturb each other.
use ghostcrypt_crypto_core.Common.{
  ℕ, ◌+◌, ◌<◌, ◌≡◌, ◌≢◌, ◌↔◌, refl, Bytes, true, false, none, some, length,
}
use ghostcrypt_crypto_core.Error.{ok}
use ghostcrypt_crypto_core.Exec.{Exec, print_err}
use ghostcrypt_crypto_core.Crates.{Crates, KdfLaws}
use ghostcrypt_crypto_core.Ratchet.Chain
use ghostcrypt_crypto_core.Ratchet.Chain.{u32_mod}
use ghostcrypt_crypto_core.Ratchet.SkippedKeys
use ghostcrypt_crypto_core.Ratchet.DhRatchet.{dh, dh_ratchet_step_total, generate_dh_keypair}
use ghostcrypt_crypto_core.Ratchet.State.{Session, World}
use ghostcrypt_crypto_core.Ratchet.Session.{init_alice, decrypt}
use ghostcrypt_crypto_core.Api.Store.{Store, entry, set_entry}
use ghostcrypt_crypto_core.Api.State.{Statics}
use ghostcrypt_crypto_core.Api.Keys.{bytes_to_public_key}
use ghostcrypt_crypto_core.Api.Sessions.{
  session_lock, poisoned_by, with_session, session_decrypt, create_session_initiator,
  MessageHeaderData, from_data, destroy_session,
}
use ghostcrypt_crypto_core.Api.Handles.{
  Fresh, Inserts, insert_new-Inserts, entry-set_entry-same, entry-set_entry-other, find-some,
  entry-destroy,
}

module _ {c : Crates} where
  -- What a method on the session of a handle leaves of the static variables
  pub record Touches (handle : ℕ) (w : World c) (g g' : Statics c) : Type 0 where
    pub own : entry g'.sessions handle ≡ some w.session
    pub others : (other : ℕ) → other ≢ handle → entry g'.sessions other ≡ entry g.sessions other
    pub groups : g'.mls_states ≡ g.mls_states
    pub counter : g'.sessions.next ≡ g.sessions.next
    pub drawn : g'.rng ≡ w.rng

module _ (c : Crates) where
  pub with_session-Touches {ℓ} :
      {A : Type ℓ} (handle : ℕ) (m : Exec (World c) A) (g : Statics c) (session : Session c)
      → g.sessions.poisoned ≡ false
      → entry g.sessions handle ≡ some session
      → let (r, w) = m (record { session = session; rng = g.rng }) in
        let (r', g') = with_session c handle m g in
        (r' ≡ print_err r) × Touches handle w g g' × (g'.sessions.poisoned ≡ poisoned_by r)
  unfolding with_session set_entry entry
  with_session-Touches handle m g session healthy at =
      let (r, w) = m (record { session = session; rng = g.rng }) in
      let s : Store (Session c) = record (g.sessions) { poisoned = poisoned_by r } in
      rw
        (
          find-some session_lock "No session with handle " handle session g.sessions healthy at,
          with_session,
        )
        (
          refl,
          record {
            own = entry-set_entry-same handle w.session s;
            others = λ other differ. entry-set_entry-other handle other w.session s differ;
            groups = refl;
            counter = refl;
            drawn = refl;
          },
          refl,
        )

  -- On a store that is not poisoned, `session_decrypt` on a handle in use gives what `decrypt`
  -- gives on its session, error or not. It leaves the session as `decrypt` leaves it, the sessions
  -- of all other handles and the groups as they were, and poisons the store exactly if `decrypt`
  -- panics.
  pub session_decrypt-Touches :
      (handle : ℕ) (header : MessageHeaderData) (ciphertext nonce : Bytes) (g : Statics c)
      (session : Session c)
      → g.sessions.poisoned ≡ false
      → entry g.sessions handle ≡ some session
      → let (r, w) =
          decrypt c
            (from_data header)
            (record { nonce = nonce; ciphertext = ciphertext })
            (record { session = session; rng = g.rng }) in
        let (r', g') = session_decrypt c handle header ciphertext nonce g in
        (r' ≡ print_err r) × Touches handle w g g' × (g'.sessions.poisoned ≡ poisoned_by r)
  unfolding session_decrypt
  session_decrypt-Touches handle header ciphertext nonce g session healthy at =
      with_session-Touches handle
        (decrypt c (from_data header) (record { nonce = nonce; ciphertext = ciphertext })) g session
        healthy at

  -- Destroying the session of a handle answers whether there was one, takes it away, and leaves
  -- every other session.
  pub destroy_session-entry :
      (handle : ℕ) (g : Statics c)
      → g.sessions.poisoned ≡ false
      → let (removed, g') = destroy_session c handle g in
        ((removed ≡ true) ↔ (entry g.sessions handle ≢ none))
        × (entry g'.sessions handle ≡ none)
        × ((other : ℕ) → other ≢ handle → entry g'.sessions other ≡ entry g.sessions other)
  unfolding destroy_session
  destroy_session-entry handle g healthy = entry-destroy handle g.sessions healthy

module _ (c : Crates) (kdf : KdfLaws c) where
  init_alice_total :
      (shared_secret : Bytes) (spk : c.PublicKey) (rng : c.Rng)
      → (session : Session c) × (rng' : c.Rng) × (init_alice c shared_secret spk rng
          ≡ (ok session, rng'))
  unfolding init_alice generate_dh_keypair
  init_alice_total shared_secret spk rng =
      let (root, chain, e) =
        dh_ratchet_step_total c kdf shared_secret (dh c (c.random_secret rng).0 spk) in
      let secret = (c.random_secret rng).0 in
      (
        record {
          root_key = root;
          dh_secret = secret;
          dh_public = c.public_from_secret secret;
          remote_dh_public = some spk;
          sending_chain = some (Chain.new chain 0);
          receiving_chain = none;
          previous_sending_chain_length = 0;
          skipped_keys = SkippedKeys.empty;
        },
        (c.random_secret rng).1,
        rw e refl,
      )

  -- On a store that is not poisoned, that has no session at or above its next handle and has not
  -- used up its handles, `create_session_initiator` with a key of 32 bytes succeeds: the handle it
  -- returns was not in use and has the session of `init_alice`, every other session is as it was,
  -- and there is still none at or above the next handle.
  pub create_session_initiator-Inserts :
      (shared_secret spk : Bytes) (g : Statics c)
      → length spk ≡ 32
      → Fresh g.sessions
      → g.sessions.poisoned ≡ false
      → g.sessions.next + 1 < u32_mod
      → (session : Session c) × (rng' : c.Rng) × (g' : Statics c) × (init_alice c shared_secret
            (c.public_from_bytes spk)
            g.rng
          ≡ (ok session, rng'))
        × (create_session_initiator c shared_secret spk g ≡ (ok g.sessions.next, g'))
        × Inserts session g.sessions g'.sessions
  unfolding create_session_initiator bytes_to_public_key
  create_session_initiator-Inserts shared_secret spk g l fresh healthy room =
      let (session, rng', run) = init_alice_total shared_secret (c.public_from_bytes spk) g.rng in
      let (s', stored, inserts) =
        insert_new-Inserts session_lock session g.sessions fresh healthy room in
      (
        session,
        rng',
        record g { sessions = s'; rng = rng' },
        run,
        rw (l, run, stored) refl,
        inserts,
      )
