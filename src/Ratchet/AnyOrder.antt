-- ===== src/Ratchet/AnyOrder.antt =====
-- The messages of one sending chain reach the receiver in any order, some of them late.
use ghostcrypt_crypto_core.Common.{
  ℕ, suc, ◌+◌, ◌-◌, ◌≤◌, ◌<◌, ◌≡◌, ◌≢◌, ◌⊎◌, inl, inr, refl, sym, ap, ◌∙◌, Bool-cases, Bytes, none,
  some, ltb, arith,
}
use ghostcrypt_crypto_core.Error.{Result, ok}
use ghostcrypt_crypto_core.Crates.{Crates, KdfLaws, X25519Laws, AeadLaws}
use ghostcrypt_crypto_core.Aead
use ghostcrypt_crypto_core.Aead.{Encrypted}
use ghostcrypt_crypto_core.Aead.RoundTrip.{decrypt-encrypt}
use ghostcrypt_crypto_core.Ratchet.SkippedKeys.{
  SkippedKeys, stored, count, stored-forget, count-forget-stored, same_entry_iff,
}
use ghostcrypt_crypto_core.Ratchet.Chain.{
  ChainKey, advance, chain_after, message_key, u32_mod, chain_after-suc, chain_after-add,
  index-chain_after, length-message_key,
}
use ghostcrypt_crypto_core.Ratchet.Header.{MessageHeader, to_bytes}
use ghostcrypt_crypto_core.Ratchet.State.{
  Session, World, Skipping, max_skip, skipped_key_array, skip_until,
}
use ghostcrypt_crypto_core.Ratchet.Session.{decrypt, decrypt_skipped}
use ghostcrypt_crypto_core.Ratchet.Stored.{Skips, skip_until-Skips}
use ghostcrypt_crypto_core.Ratchet.Delivery.{receive_lem, decrypt-receive}

-- What a session sends with, and derives new chains from, is the same.
pub record SameSender {c : Crates} (s s' : Session c) : Type 0 where
  pub root : s'.root_key ≡ s.root_key
  pub secret : s'.dh_secret ≡ s.dh_secret
  pub public : s'.dh_public ≡ s.dh_public
  pub remote : s'.remote_dh_public ≡ s.remote_dh_public
  pub sending : s'.sending_chain ≡ s.sending_chain

module _ (c : Crates) (remote : c.PublicKey) (origin : ChainKey) where
  -- The key of message n of the chain that starts at `origin`
  abbrev pub key_of : ℕ → Bytes
  key_of n = message_key c (chain_after c n origin)

  -- The session follows the chain that `remote` started at `origin`, and expects message m next.
  pub record Tracks (m : ℕ) (s : Session c) : Type 0 where
    pub known : s.remote_dh_public ≡ some remote
    pub following : s.receiving_chain ≡ some (chain_after c m origin)
    pub ahead : (n : ℕ) → m ≤ n → stored s.skipped_keys (c.public_bytes remote) n ≡ none

  -- Message n has not been received yet: it is still to come, or its key was stored.
  abbrev pub Pending : ℕ → ℕ → SkippedKeys → Type 0
  Pending m n keys = (m ≤ n) ⊎ (stored keys (c.public_bytes remote) n ≡ some (key_of n))

  -- A packet that the owner of the chain sealed under the number in its header
  pub record Genuine (plaintext : Bytes) (header : MessageHeader) (sealed : Encrypted)
      : Type 0 where
    pub sender : header.dh_public_key ≡ c.public_bytes remote
    pub rng : c.Rng
    pub rng' : c.Rng
    pub sealing :
        Aead.encrypt c (key_of header.message_number) plaintext (to_bytes c header) rng
        ≡ (ok sealed, rng')

  -- What the delivery of message n does to a session that expects message m next: afterwards it
  -- expects message m' and has at most `held` keys stored.
  pub record Delivers (m n m' held : ℕ) (plaintext : Bytes) (w : World c)
      (r : Result Bytes × World c) : Type 0 where
    pub result : r.0 ≡ ok plaintext
    pub tracks : Tracks m' (r.1).session
    pub pending :
        (k : ℕ)
        → k ≢ n
        → Pending m k w.session.skipped_keys
        → Pending m' k (r.1).session.skipped_keys
    pub unchanged : SameSender w.session (r.1).session
    pub bounded : count (r.1).session.skipped_keys ≤ held

module _ (c : Crates) (kdf : KdfLaws c) (x25519 : X25519Laws c) (aead : AeadLaws c)
    (remote : c.PublicKey) (origin : ChainKey) where
  opened :
      (plaintext : Bytes) (header : MessageHeader) (sealed : Encrypted)
      → Genuine c remote origin plaintext header sealed
      → Aead.decrypt c (key_of c remote origin header.message_number) sealed (to_bytes c header)
        ≡ ok plaintext
  opened plaintext header sealed g =
      decrypt-encrypt c aead (key_of c remote origin header.message_number) plaintext
        (to_bytes c header) g.rng g.rng' sealed g.sealing

  -- What the loop left, seen from the start of the chain
  module _ (m n : ℕ) (keys : SkippedKeys) (l : Skipping) (start : origin.index ≡ 0) (h : m ≤ n)
      (u : n + 1 < u32_mod)
      (s : Skips c
        (c.public_bytes remote)
        n
        (record { chain = chain_after c m origin; keys = keys })
        l) where
    index : (chain_after c m origin).index ≡ m
    index = omega (arith, index-chain_after c kdf m origin (omega arith))

    offset :
        (k : ℕ)
        → m ≤ k
        → chain_after c (k - (chain_after c m origin).index) (chain_after c m origin)
          ≡ chain_after c k origin
    offset k a =
        let e : k - (chain_after c m origin).index ≡ k - m = omega (arith, index) in
        let f : m + (k - m) ≡ k = omega arith in
        ap (λ j. chain_after c j (chain_after c m origin)) e
        ∙ sym (chain_after-add c m (k - m) origin)
        ∙ ap (λ j. chain_after c j origin) f

    reached : l.chain ≡ chain_after c n origin
    reached = s.chain ∙ offset n h

    Pending-passed :
        (k : ℕ)
        → k ≢ n
        → Pending c remote origin m k keys
        → Pending c remote origin (suc n) k l.keys
    Pending-passed k d p = elim (Bool-cases (ltb k m)) [
      | inl old ↦ elim p [
        | inl a ↦ absurd (ground arith)
        | inr st ↦ inr (s.kept (c.public_bytes remote) k (inr (inl (ground (arith, index)))) ∙ st)
      ]
      | inr new ↦ elim (Bool-cases (ltb k n)) [
        | inr beyond ↦ inl (ground arith)
        | inl passed ↦ inr (
            s.passed k (ground (arith, index)) (ground arith)
            ∙ ap (λ ch. some (message_key c ch)) (offset k (ground arith)))
      ]
    ]

  -- A message at or beyond the expected one
  pub deliver_ahead :
      (m : ℕ) (plaintext : Bytes) (header : MessageHeader) (sealed : Encrypted) (w : World c)
      → origin.index ≡ 0
      → Tracks c remote origin m w.session
      → Genuine c remote origin plaintext header sealed
      → m ≤ header.message_number
      → header.message_number + 1 < u32_mod
      → count w.session.skipped_keys + (header.message_number - m) ≤ max_skip
      → Delivers c remote origin m header.message_number
          (suc header.message_number)
          (count w.session.skipped_keys + (header.message_number - m))
          plaintext
          w
          (decrypt c header sealed w)
  deliver_ahead m plaintext header sealed w start t g h u b =
      let n = header.message_number in
      let keys = w.session.skipped_keys in
      let l₀ : Skipping = record { chain = chain_after c m origin; keys = keys } in
      let i = index-chain_after c kdf m origin (omega arith) in
      let (l, run, s) =
        skip_until-Skips c kdf n (c.public_bytes remote) l₀ (omega arith) (omega arith) in
      let absent = ap (λ d. stored keys d n) g.sender ∙ t.ahead n h in
      let e =
        decrypt-receive c x25519 header sealed w remote absent t.known g.sender
        ∙ receive_lem c kdf header sealed w (chain_after c m origin) l t.following
            (ap (λ d. skip_until c n d l₀) g.sender ∙ run) in
      rw e (record {
        result =
            ap (λ ch. Aead.decrypt c (message_key c ch) sealed (to_bytes c header))
              (reached m n keys l start h u s)
            ∙ opened plaintext header sealed g;
        tracks = record {
          known = t.known;
          following =
              ap (λ ch. some (advance c ch).1) (reached m n keys l start h u s)
              ∙ ap (λ ch. some ch) (sym (chain_after-suc c n origin));
          ahead = λ k a.
              s.kept (c.public_bytes remote) k (inr (inr (omega arith))) ∙ t.ahead k (omega arith);
        };
        pending = λ k d p. Pending-passed m n keys l start h u s k d p;
        unchanged = record {
          root = refl;
          secret = refl;
          public = refl;
          remote = refl;
          sending = refl;
        };
        bounded = omega (arith, s.bounded, i);
      })

  -- A message whose key was stored
  pub deliver_stored :
      (m : ℕ) (plaintext : Bytes) (header : MessageHeader) (sealed : Encrypted) (w : World c)
      → Tracks c remote origin m w.session
      → Genuine c remote origin plaintext header sealed
      → stored w.session.skipped_keys (c.public_bytes remote) header.message_number
        ≡ some (key_of c remote origin header.message_number)
      → Delivers c remote origin m header.message_number m
          (count w.session.skipped_keys - 1)
          plaintext
          w
          (decrypt c header sealed w)
  unfolding decrypt decrypt_skipped skipped_key_array
  deliver_stored m plaintext header sealed w t g h =
      let n = header.message_number in
      let keys = w.session.skipped_keys in
      let dh = header.dh_public_key in
      let at : stored keys dh n ≡ some (key_of c remote origin n) =
        ap (λ d. stored keys d n) g.sender ∙ h in
      rw (at, decrypt, length-message_key c kdf (chain_after c n origin))
        (record {
          result = opened plaintext header sealed g;
          tracks = record {
            known = t.known;
            following = t.following;
            ahead = λ k a.
                ground (arith, stored-forget keys dh (c.public_bytes remote) n k, t.ahead k a);
          };
          pending = λ k d p. ground (
            arith,
            stored-forget keys dh (c.public_bytes remote) n k,
            same_entry_iff dh n (c.public_bytes remote) k,
          );
          unchanged = record {
            root = refl;
            secret = refl;
            public = refl;
            remote = refl;
            sending = refl;
          };
          bounded = omega (arith, count-forget-stored keys dh n (key_of c remote origin n) at);
        })
