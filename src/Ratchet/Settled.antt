-- ===== src/Ratchet/Settled.antt =====
-- The calls of a session that end with a result or an error.
use ghostcrypt_crypto_core.Common.{
  ℕ, zero, suc, ◌-◌, ◌≡◌, ◌≢◌, refl, inl, inr, Option-cases, Bytes, Bool, true, false, length,
  nat_eqb, ltb, if◌then◌else◌, arith,
}
use ghostcrypt_crypto_core.Error.{Outcome, Result, ok, err, panic, Fallible-cases}
use ghostcrypt_crypto_core.Exec.{continue, pure, ◌>>=◌}
use ghostcrypt_crypto_core.Crates.{Crates, KdfLaws}
use ghostcrypt_crypto_core.Aead
use ghostcrypt_crypto_core.Aead.{Encrypted}
use ghostcrypt_crypto_core.Ratchet.SkippedKeys.{stored}
use ghostcrypt_crypto_core.Ratchet.Chain.{advance_total}
use ghostcrypt_crypto_core.Ratchet.Header.{MessageHeader, to_public_key, to_bytes}
use ghostcrypt_crypto_core.Ratchet.DhRatchet.{
  dh_ratchet_step, dh_ratchet_step_total, generate_dh_keypair, dh,
}
use ghostcrypt_crypto_core.Ratchet.State.{
  World, Skipping, store_skipped, keep_key, skip_rounds, skip_until, message_key_array,
  skipped_key_array,
}
use ghostcrypt_crypto_core.Ratchet.Session.{
  decrypt, decrypt_next, decrypt_skipped, receive, next_key, need_ratchet, ratchet_to,
  skip_current_receiving_chain,
}

-- The call did not panic.
record Settles {ℓ κ μ} {E : Type μ} {S : Type ℓ} {A : Type κ} (out : Outcome E A × S)
    : Type (ℓ ⊔ κ ⊔ μ) where
  pub calm : out.0 ≢ panic

module _ {E S A : Type 0} where
  settled_ok : (a : A) (s : S) → Settles {E = E} (ok a, s)
  settled_ok a s = record { calm = λ bad. cc }

  settled_err : (e : E) (s : S) → Settles {A = A} (err e, s)
  settled_err e s = record { calm = λ bad. cc }

  if-Settles :
      (b : Bool) (x y : Outcome E A × S) → Settles x → Settles y → Settles (if b then x else y)
  if-Settles true x y h k = h
  if-Settles false x y h k = k

module _ {E S A B : Type 0} where
  continue-Settles :
      (r : Outcome E A) (f : A → S → Outcome E B × S) (s : S)
      → r ≢ panic
      → ((a : A) → Settles (f a s))
      → Settles (continue r f s)
  continue-Settles (ok a) f s calm rest = rest a
  continue-Settles (err e) f s calm rest = settled_err e s
  continue-Settles panic f s calm rest = elim (calm refl) [ ]

if-calm {ℓ} :
    {A : Type ℓ} (b : Bool) (x y : Result A) → x ≢ panic → y ≢ panic → (if b then x else y) ≢ panic
if-calm true x y h k = h
if-calm false x y h k = k

message_key_array-calm : (key : Bytes) → message_key_array key ≢ panic
unfolding message_key_array
message_key_array-calm key = if-calm (nat_eqb (length key) 32) (ok key) _ (λ bad. cc) (λ bad. cc)

skipped_key_array-calm : (key : Bytes) → skipped_key_array key ≢ panic
unfolding skipped_key_array
skipped_key_array-calm key = if-calm (nat_eqb (length key) 32) (ok key) _ (λ bad. cc) (λ bad. cc)

module _ (c : Crates) where
  aead-calm :
      (key associated_data : Bytes) (sealed : Encrypted)
      → length sealed.nonce ≡ 12
      → Aead.decrypt c key sealed associated_data ≢ panic
  unfolding Aead.decrypt
  aead-calm key ad sealed n bad = elim (Fallible-cases (c.cipher_new key)) [
    | inr (e, failing) ↦ cc (bad, failing)
    | inl (cipher, good) ↦
        elim (Fallible-cases (c.cipher_decrypt cipher sealed.nonce sealed.ciphertext ad)) [
          | inr (e, failing) ↦ ground (arith, bad, good, n, failing)
          | inl (out, opened) ↦ ground (arith, bad, good, n, opened)
        ]
  ]

module _ (c : Crates) (kdf : KdfLaws c) where
  store_skipped-Settles : (dh_bytes : Bytes) (l : Skipping) → Settles (store_skipped c dh_bytes l)
  unfolding store_skipped keep_key
  store_skipped-Settles dh_bytes l =
      let (mk, next, e, _) = advance_total c kdf l.chain in
      rw e (if-Settles _ _ _ (settled_err _ _) (settled_ok _ _))

  skip_rounds-Settles :
      (fuel until : ℕ) (dh_bytes : Bytes) (l : Skipping)
      → Settles (skip_rounds c fuel until dh_bytes l)
  unfolding skip_rounds
  skip_rounds-Settles zero until dh_bytes l = settled_ok tt l
  skip_rounds-Settles (suc fuel) until dh_bytes l =
      if-Settles (ltb l.chain.index until)
        ((store_skipped c dh_bytes >>= λ _. skip_rounds c fuel until dh_bytes) l) (pure tt l)
        (continue-Settles (store_skipped c dh_bytes l).0 (λ _. skip_rounds c fuel until dh_bytes)
          (store_skipped c dh_bytes l).1 (store_skipped-Settles dh_bytes l).calm
          (λ _. skip_rounds-Settles fuel until dh_bytes (store_skipped c dh_bytes l).1))
        (settled_ok tt l)

  skip_until-Settles :
      (until : ℕ) (dh_bytes : Bytes) (l : Skipping) → Settles (skip_until c until dh_bytes l)
  unfolding skip_until
  skip_until-Settles until dh_bytes l = skip_rounds-Settles (until - l.chain.index) until dh_bytes l

  next_key-Settles : (header : MessageHeader) (l : Skipping) → Settles (next_key c header l)
  unfolding next_key
  next_key-Settles header l =
      let (r, l') = skip_until c header.message_number header.dh_public_key l in
      continue-Settles r _ l' (skip_until-Settles header.message_number header.dh_public_key l).calm
        (λ _. let (mk, next, e, _) = advance_total c kdf l'.chain in rw e (settled_ok _ _))

  receive-Settles :
      (header : MessageHeader) (sealed : Encrypted) (w : World c)
      → length sealed.nonce ≡ 12
      → Settles (receive c header sealed w)
  unfolding receive
  receive-Settles header sealed w n = elim (Option-cases w.session.receiving_chain) [
    | inl e ↦ rw (e, receive) (settled_err _ _)
    | inr (chain, e) ↦
        let l : Skipping = record { chain = chain; keys = w.session.skipped_keys } in
        rw (e, receive)
          (continue-Settles (next_key c header l).0 _ _ (next_key-Settles header l).calm (λ key.
            continue-Settles (message_key_array key) _ _ (message_key_array-calm key)
              (λ array. record { calm = aead-calm c array (to_bytes c header) sealed n })))
  ]

  skip_current-Settles :
      (until : ℕ) (w : World c) → Settles (skip_current_receiving_chain c until w)
  unfolding skip_current_receiving_chain
  skip_current-Settles until w = elim (Option-cases w.session.receiving_chain) [
    | inl e ↦ rw (e, skip_current_receiving_chain) (settled_ok tt w)
    | inr (chain, e) ↦ elim (Option-cases w.session.remote_dh_public) [
      | inl f ↦ rw (e, f, skip_current_receiving_chain) (settled_ok tt w)
      | inr (remote, f) ↦
          let l : Skipping = record { chain = chain; keys = w.session.skipped_keys } in
          rw (e, f, skip_current_receiving_chain)
            (record { calm = (skip_until-Settles until (c.public_bytes remote) l).calm })
    ]
  ]

  dh_ratchet_step-calm : (root_key out : Bytes) → dh_ratchet_step c root_key out ≢ panic
  dh_ratchet_step-calm root_key out bad =
      let (root, chain, e) = dh_ratchet_step_total c kdf root_key out in cc (e, bad)

  ratchet_to-Settles :
      (header : MessageHeader) (key : c.PublicKey) (w : World c)
      → Settles (ratchet_to c header key w)
  unfolding ratchet_to generate_dh_keypair
  ratchet_to-Settles header key w =
      let (r, w₁) = skip_current_receiving_chain c header.previous_chain_length w in
      continue-Settles r _ w₁ (skip_current-Settles header.previous_chain_length w).calm (λ _.
        let out = dh c w₁.session.dh_secret key in
        continue-Settles (dh_ratchet_step c w₁.session.root_key out) _ w₁
          (dh_ratchet_step-calm w₁.session.root_key out)
          (λ (root, chain).
            let secret = (c.random_secret w₁.rng).0 in
            continue-Settles (dh_ratchet_step c root (dh c secret key)) _ _
              (dh_ratchet_step-calm root (dh c secret key)) (λ next. settled_ok tt _)))

  turn-Settles :
      (b : Bool) (header : MessageHeader) (key : c.PublicKey) (w : World c)
      → Settles ((if b then ratchet_to c header key else pure tt) w)
  turn-Settles true header key w = ratchet_to-Settles header key w
  turn-Settles false header key w = settled_ok tt w

  -- On a header key of 32 bytes and a nonce of 12 bytes, `decrypt` does not panic, whatever the
  -- session and the rest of the message, where hkdf and hmac give the lengths asked for.
  pub decrypt-calm :
      (header : MessageHeader) (sealed : Encrypted) (w : World c)
      → length header.dh_public_key ≡ 32
      → length sealed.nonce ≡ 12
      → (decrypt c header sealed w).0 ≢ panic
  unfolding decrypt decrypt_skipped decrypt_next to_public_key
  decrypt-calm header sealed w l n =
      elim (Option-cases
        (stored w.session.skipped_keys header.dh_public_key header.message_number)) [
          | inl e ↦
              let key = c.public_from_bytes header.dh_public_key in
              let b = need_ratchet c w.session.remote_dh_public key in
              let (r, w') = (if b then ratchet_to c header key else pure tt) w in
              rw (e, decrypt, l)
                (continue-Settles r _ w' (turn-Settles b header key w).calm
                  (λ _. receive-Settles header sealed w' n)).calm
          | inr (mk, e) ↦
              rw (e, decrypt)
                (continue-Settles (skipped_key_array mk) _ _ (skipped_key_array-calm mk)
                  (λ key. record { calm = aead-calm c key (to_bytes c header) sealed n })).calm
        ]
