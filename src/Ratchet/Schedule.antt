-- ===== src/Ratchet/Schedule.antt =====
-- A whole batch of messages of one sending chain, received in an order that the network chose.
use ghostcrypt_crypto_core.Common.{
  ℕ, suc, ◌+◌, ◌-◌, ◌≤◌, ◌<◌, ◌≡◌, ◌≢◌, inl, inr, refl, ap₂, Bytes, List, [], ◌∷◌, map, arith,
}
use ghostcrypt_crypto_core.Error.{Result, ok}
use ghostcrypt_crypto_core.Crates.{Crates, KdfLaws, X25519Laws, AeadLaws}
use ghostcrypt_crypto_core.Aead.{Encrypted}
use ghostcrypt_crypto_core.Ratchet.SkippedKeys.{SkippedKeys, count}
use ghostcrypt_crypto_core.Ratchet.Chain.{ChainKey, u32_mod}
use ghostcrypt_crypto_core.Ratchet.Header.{MessageHeader}
use ghostcrypt_crypto_core.Ratchet.State.{World, max_skip}
use ghostcrypt_crypto_core.Ratchet.Session.{decrypt}
use ghostcrypt_crypto_core.Ratchet.AnyOrder.{
  Tracks, Pending, Genuine, Delivers, deliver_ahead, deliver_stored,
}

-- A packet on the wire, with the plaintext that went into it
pub record Packet : Type 0 where
  pub header : MessageHeader
  pub sealed : Encrypted
  pub plaintext : Bytes

abbrev pub number : Packet → ℕ
number p = p.header.message_number

abbrev pub All : (Packet → Type 0) → List Packet → Type 0
All P [] = Unit
All P (p ∷ ps) = P p × All P ps

-- No packet has the number n.
abbrev pub Differ : ℕ → List Packet → Type 0
Differ n = All (λ p. number p ≢ n)

abbrev pub Distinct : List Packet → Type 0
Distinct [] = Unit
Distinct (p ∷ ps) = Differ (number p) ps × Distinct ps

-- Packets arrive at a session that expects message m next and holds k keys at most. One at or beyond
-- m must leave room for the keys that it skips; one behind m gives its key's room back.
pub data Fits : ℕ → ℕ → List Packet → Type 0 where
  done : (m k : ℕ) → Fits m k []
  ahead :
      (m k : ℕ) (p : Packet) (ps : List Packet)
      → m ≤ number p
      → number p + 1 < u32_mod
      → k + (number p - m) ≤ max_skip
      → Fits (suc (number p)) (k + (number p - m)) ps
      → Fits m k (p ∷ ps)
  late :
      (m k : ℕ) (p : Packet) (ps : List Packet)
      → number p < m
      → Fits m (k - 1) ps
      → Fits m k (p ∷ ps)

module _ (c : Crates) where
  -- The calls of `decrypt`, in the order of arrival
  unfoldable pub decrypt_all : List Packet → World c → List (Result Bytes) × World c
  decrypt_all [] w = ([], w)
  decrypt_all (p ∷ ps) w =
      let (r, w₁) = decrypt c p.header p.sealed w in
      let (rs, w₂) = decrypt_all ps w₁ in (r ∷ rs, w₂)

  module _ (remote : c.PublicKey) (origin : ChainKey) where
    abbrev pub AllGenuine : List Packet → Type 0
    AllGenuine = All (λ p. Genuine c remote origin p.plaintext p.header p.sealed)

    -- No packet has been received yet.
    abbrev pub AllPending : ℕ → SkippedKeys → List Packet → Type 0
    AllPending m keys = All (λ p. Pending c remote origin m (number p) keys)

    AllPending-after :
        (m n m' held : ℕ) (plaintext : Bytes) (w : World c) (r : Result Bytes × World c)
        (ps : List Packet)
        → Delivers c remote origin m n m' held plaintext w r
        → Differ n ps
        → AllPending m w.session.skipped_keys ps
        → AllPending m' (r.1).session.skipped_keys ps
    AllPending-after m n m' held plaintext w r [] d x a = tt
    AllPending-after m n m' held plaintext w r (p ∷ ps) d x a =
        (d.pending (number p) x.0 a.0, AllPending-after m n m' held plaintext w r ps d x.1 a.1)

module _ (c : Crates) (kdf : KdfLaws c) (x25519 : X25519Laws c) (aead : AeadLaws c)
    (remote : c.PublicKey) (origin : ChainKey) (start : origin.index ≡ 0) where
  deliver_late :
      (m : ℕ) (p : Packet) (w : World c)
      → Tracks c remote origin m w.session
      → Genuine c remote origin p.plaintext p.header p.sealed
      → number p < m
      → Pending c remote origin m (number p) w.session.skipped_keys
      → Delivers c remote origin m
          (number p)
          m
          (count w.session.skipped_keys - 1)
          p.plaintext
          w
          (decrypt c p.header p.sealed w)
  deliver_late m p w t g h (inl a) = absurd (omega arith)
  deliver_late m p w t g h (inr b) =
      deliver_stored c kdf x25519 aead remote origin m p.plaintext p.header p.sealed w t g b

  decrypt_all-Fits :
      (m k : ℕ) (ps : List Packet) (w : World c)
      → Tracks c remote origin m w.session
      → count w.session.skipped_keys ≤ k
      → Fits m k ps
      → AllGenuine c remote origin ps
      → Distinct ps
      → AllPending c remote origin m w.session.skipped_keys ps
      → (decrypt_all c ps w).0 ≡ map (λ p. ok p.plaintext) ps
  unfolding decrypt_all
  decrypt_all-Fits m k [] w t room (done _ _) g x a = refl
  decrypt_all-Fits m k (p ∷ ps) w t room (ahead _ _ _ _ h u fits rest) g x a =
      let r = decrypt c p.header p.sealed w in
      let held = count w.session.skipped_keys + (number p - m) in
      let d =
        deliver_ahead c kdf x25519 aead remote origin m p.plaintext p.header p.sealed w start t g.0
          h u (omega arith) in
      ap₂ ◌∷◌ d.result (
        decrypt_all-Fits (suc (number p)) (k + (number p - m)) ps (r.1) d.tracks
          (omega (arith, d.bounded)) rest g.1 x.1
          (AllPending-after c remote origin m (number p) (suc (number p)) held p.plaintext w r ps d
            x.0 a.1))
  decrypt_all-Fits m k (p ∷ ps) w t room (late _ _ _ _ h rest) g x a =
      let r = decrypt c p.header p.sealed w in
      let held = count w.session.skipped_keys - 1 in
      let d = deliver_late m p w t g.0 h a.0 in
      ap₂ ◌∷◌ d.result (
        decrypt_all-Fits m (k - 1) ps (r.1) d.tracks (omega (arith, d.bounded)) rest g.1 x.1
          (AllPending-after c remote origin m (number p) m held p.plaintext w r ps d x.0 a.1))

  -- A session follows a chain, counted from its start at number 0, and expects message m of it next,
  -- with no key of a message from m on stored. It decrypts genuine packets of the chain to their
  -- plaintexts, in whatever order they arrive, if their numbers are different and below 2^32 - 1,
  -- each of them is m or later or has its key stored, and they fit: whenever a packet arrives that
  -- is not behind, the keys stored then and those of the messages it skips are at most 100 together.
  pub decrypt_all-any_order :
      (m : ℕ) (ps : List Packet) (w : World c)
      → Tracks c remote origin m w.session
      → Fits m (count w.session.skipped_keys) ps
      → AllGenuine c remote origin ps
      → Distinct ps
      → AllPending c remote origin m w.session.skipped_keys ps
      → (decrypt_all c ps w).0 ≡ map (λ p. ok p.plaintext) ps
  decrypt_all-any_order m ps w t fits g x a =
      decrypt_all-Fits m (count w.session.skipped_keys) ps w t (omega arith) fits g x a
