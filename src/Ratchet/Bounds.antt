-- ===== src/Ratchet/Bounds.antt =====
-- How many skipped keys a session can come to hold.
use Prim.Native.Nat.{max}
use ghostcrypt_crypto_core.Common.{
  ℕ, ◌+◌, ◌≤◌, ◌≡◌, inl, inr, refl, Bool, true, false, List, [], ◌∷◌, Option-cases, length,
  if◌then◌else◌, arith,
}
use ghostcrypt_crypto_core.Error.{Result, ok, err, panic}
use ghostcrypt_crypto_core.Exec.{Exec, pure, lift, continue}
use ghostcrypt_crypto_core.Crates.{Crates}
use ghostcrypt_crypto_core.Aead.{Encrypted}
use ghostcrypt_crypto_core.Ratchet.SkippedKeys.{count, count-forget, stored}
use ghostcrypt_crypto_core.Ratchet.Chain.{advance}
use ghostcrypt_crypto_core.Ratchet.Header.{MessageHeader, to_public_key}
use ghostcrypt_crypto_core.Ratchet.State.{
  World, Skipping, max_skip, skip_until, message_key_array, skipped_key_array,
}
use ghostcrypt_crypto_core.Ratchet.DhRatchet.{generate_dh_keypair}
use ghostcrypt_crypto_core.Ratchet.Session.{
  decrypt, decrypt_next, decrypt_skipped, receive, next_key, need_ratchet, ratchet_to,
  skip_current_receiving_chain,
}
use ghostcrypt_crypto_core.Ratchet.Schedule.{Packet, decrypt_all}
use ghostcrypt_crypto_core.Ratchet.Skip.{StoredAll, count-skip_until}

-- From m stored keys the call came to one beyond the limit, or beyond m, at most; and not beyond
-- either if it succeeded.
abbrev pub Within {ℓ} : {c : Crates} {A : Type ℓ} → ℕ → Result A × World c → Type ℓ
Within m (r, w) =
    (count w.session.skipped_keys ≤ max max_skip m + 1)
    × ((a : _) → r ≡ ok a → count w.session.skipped_keys ≤ max max_skip m)

module _ {c : Crates} where
  Within-continue :
      {A B : Type 0} (m : ℕ) (r : Result A) (f : A → Exec (World c) B) (w : World c)
      → Within m (r, w)
      → ((a : A) (w' : World c)
          → count w'.session.skipped_keys ≤ max max_skip m
          → Within m (f a w'))
      → Within m (continue r f w)
  Within-continue m (ok a) f w h rest = rest a w (h.1 a refl)
  Within-continue m (err e) f w h rest = (h.0, λ a bad. cc)
  Within-continue m panic f w h rest = (h.0, λ a bad. cc)

  -- A call that leaves the map alone
  Within-same :
      {A : Type 0} (m : ℕ) (r : Result A) (w : World c)
      → count w.session.skipped_keys ≤ max max_skip m
      → Within m (r, w)
  Within-same m r w h = (omega arith, λ a good. h)

  Within-lift :
      {A B : Type 0} (m : ℕ) (r : Result A) (g : A → Result B) (w : World c)
      → count w.session.skipped_keys ≤ max max_skip m
      → Within m (continue r (λ a. lift (g a)) w)
  Within-lift m r g w h =
      Within-continue m r (λ a. lift (g a)) w (Within-same m r w h)
        (λ a w' h'. Within-same m (g a) w' h')

-- The same of a call on the chain and the map alone
abbrev WithinLoop : {A : Type 0} → ℕ → Result A × Skipping → Type 0
WithinLoop m (r, l) =
    (count l.keys ≤ max max_skip m + 1) × ((a : _) → r ≡ ok a → count l.keys ≤ max max_skip m)

module _ (c : Crates) where
  advance-Within :
      (m : ℕ) (r : Result (Unit {0})) (l : Skipping)
      → StoredAll m (r, l)
      → WithinLoop m (
          continue r
            (λ _ (k : Skipping).
              let (s, chain') = advance c k.chain in (s, record k { chain = chain' }))
            l)
  advance-Within m (ok tt) l h = (h.0, λ a e. h.1 refl)
  advance-Within m (err e) l h = (h.0, λ a bad. cc)
  advance-Within m panic l h = (h.0, λ a bad. cc)

  next_key-Within :
      (header : MessageHeader) (l : Skipping) → WithinLoop (count l.keys) (next_key c header l)
  unfolding next_key
  next_key-Within header l =
      let (r, l') = skip_until c header.message_number header.dh_public_key l in
      advance-Within (count l.keys) r l'
        (count-skip_until c header.message_number header.dh_public_key l)

  receive-Within :
      (m : ℕ) (header : MessageHeader) (sealed : Encrypted) (w : World c)
      → count w.session.skipped_keys ≤ max max_skip m
      → Within m (receive c header sealed w)
  unfolding receive
  receive-Within m header sealed w h = elim (Option-cases w.session.receiving_chain) [
    | inl e ↦ rw (e, receive) (omega arith, λ a bad. cc)
    | inr (chain, e) ↦
        let l : Skipping = record { chain = chain; keys = w.session.skipped_keys } in
        let q = next_key-Within header l in
        rw (e, receive)
          (Within-continue m (next_key c header l).0 _ _
            (omega (arith, q.0), λ a good. omega (arith, q.1 a good))
            (λ a w' h'. Within-lift m (message_key_array a) _ w' h'))
  ]

  skip_current-Within :
      (m until : ℕ) (w : World c)
      → count w.session.skipped_keys ≤ max max_skip m
      → Within m (skip_current_receiving_chain c until w)
  unfolding skip_current_receiving_chain
  skip_current-Within m until w h = elim (Option-cases w.session.receiving_chain) [
    | inl e ↦ rw (e, skip_current_receiving_chain) (omega arith, λ a good. h)
    | inr (chain, e) ↦ elim (Option-cases w.session.remote_dh_public) [
      | inl f ↦ rw (e, f, skip_current_receiving_chain) (omega arith, λ a good. h)
      | inr (remote, f) ↦
          let l : Skipping = record { chain = chain; keys = w.session.skipped_keys } in
          let q = count-skip_until c until (c.public_bytes remote) l in
          rw (e, f, skip_current_receiving_chain)
            (omega (arith, q.0), λ a good. omega (arith, q.1 good))
    ]
  ]

  ratchet_to-Within :
      (m : ℕ) (header : MessageHeader) (key : c.PublicKey) (w : World c)
      → count w.session.skipped_keys ≤ max max_skip m
      → Within m (ratchet_to c header key w)
  unfolding ratchet_to generate_dh_keypair
  ratchet_to-Within m header key w h =
      let (r, w₁) = skip_current_receiving_chain c header.previous_chain_length w in
      Within-continue m r _ w₁ (skip_current-Within m header.previous_chain_length w h)
        (λ a w₂ h₂. ground arith)

  turn-Within :
      (m : ℕ) (b : Bool) (header : MessageHeader) (key : c.PublicKey) (w : World c)
      → count w.session.skipped_keys ≤ max max_skip m
      → Within m ((if b then ratchet_to c header key else pure tt) w)
  turn-Within m true header key w h = ratchet_to-Within m header key w h
  turn-Within m false header key w h = (omega arith, λ a good. h)

  decrypt_next-Within :
      (m : ℕ) (header : MessageHeader) (sealed : Encrypted) (w : World c)
      → count w.session.skipped_keys ≤ max max_skip m
      → Within m (decrypt_next c header sealed w)
  unfolding decrypt_next
  decrypt_next-Within m header sealed w h =
      Within-continue m (to_public_key c header) _ w (Within-same m (to_public_key c header) w h)
        (λ key w₁ h₁.
          let b = need_ratchet c w₁.session.remote_dh_public key in
          let (r, w₂) = (if b then ratchet_to c header key else pure tt) w₁ in
          Within-continue m r _ w₂ (turn-Within m b header key w₁ h₁)
            (λ a w₃ h₃. receive-Within m header sealed w₃ h₃))

  -- One call of `decrypt`, on any header and ciphertext, stores at most one key more than the
  -- limit of 100 or than were stored before; if it returns a plaintext, not even that one.
  pub count-decrypt :
      (header : MessageHeader) (sealed : Encrypted) (w : World c)
      → Within (count w.session.skipped_keys) (decrypt c header sealed w)
  unfolding decrypt decrypt_skipped
  count-decrypt header sealed w =
      elim (Option-cases
        (stored w.session.skipped_keys header.dh_public_key header.message_number)) [
          | inl e ↦
              rw (e, decrypt)
                (decrypt_next-Within (count w.session.skipped_keys) header sealed w (omega arith))
          | inr (mk, e) ↦
              rw (e, decrypt)
                (Within-lift (count w.session.skipped_keys) (skipped_key_array mk) _ _ (
                  omega (
                    arith,
                    count-forget w.session.skipped_keys header.dh_public_key header.message_number,
                  )))
        ]

  -- After any sequence of `decrypt` calls the map holds at most the limit, or what it held before,
  -- and one key for each call.
  pub count-decrypt_all :
      (ps : List Packet) (w : World c)
      → count (decrypt_all c ps w).1.session.skipped_keys
        ≤ max max_skip (count w.session.skipped_keys) + length ps
  unfolding decrypt_all
  count-decrypt_all [] w = omega arith
  count-decrypt_all (p ∷ ps) w =
      let (r, w') = decrypt c p.header p.sealed w in
      omega (arith, count-decrypt p.header p.sealed w, count-decrypt_all ps w')
