-- ===== src/Ratchet/Batch.antt =====
-- A batch that one session sends on its chain, and the network shuffles.
use ghostcrypt_crypto_core.Common.{
  ℕ, suc, ◌+◌, ◌≤◌, ◌<◌, ◌≡◌, ◌≢◌, inl, refl, sym, subst, ap, ◌∙◌, Bytes, List, [], ◌∷◌, map,
  length, some, arith,
}
use ghostcrypt_crypto_core.Error.{ok}
use ghostcrypt_crypto_core.Crates.{Crates, KdfLaws, X25519Laws, AeadLaws}
use ghostcrypt_crypto_core.Aead.{Encrypted}
use ghostcrypt_crypto_core.Ratchet.SkippedKeys.{count}
use ghostcrypt_crypto_core.Ratchet.Chain.{
  ChainKey, u32_mod, chain_after, index-chain_after, chain_after-suc,
}
use ghostcrypt_crypto_core.Ratchet.Header.{MessageHeader}
use ghostcrypt_crypto_core.Ratchet.State.{Session, World}
use ghostcrypt_crypto_core.Ratchet.Session.{encrypt}
use ghostcrypt_crypto_core.Ratchet.Delivery.{encrypt-Sends}
use ghostcrypt_crypto_core.Ratchet.AnyOrder.{Tracks, Genuine}
use ghostcrypt_crypto_core.Ratchet.Exchange.{Sends-header, Sends-Genuine}
use ghostcrypt_crypto_core.Ratchet.Schedule.{
  Packet, number, All, Differ, Distinct, Fits, AllGenuine, decrypt_all, decrypt_all-any_order,
}

-- The second list is the first one with the packet put in somewhere.
pub data Puts (p : Packet) : List Packet → List Packet → Type 0 where
  here : (ps : List Packet) → Puts p ps (p ∷ ps)
  there : (q : Packet) (ps qs : List Packet) → Puts p ps qs → Puts p (q ∷ ps) (q ∷ qs)

-- The second list has the packets of the first one in some order.
pub data Shuffled : List Packet → List Packet → Type 0 where
  none_sent : Shuffled [] []
  put : (p : Packet) (ps qs rs : List Packet) → Shuffled ps qs → Puts p qs rs → Shuffled (p ∷ ps) rs

All-Puts :
    (P : Packet → Type 0) (p : Packet) (ps qs : List Packet)
    → Puts p ps qs
    → P p
    → All P ps
    → All P qs
All-Puts P p ps _ (here _) h a = (h, a)
All-Puts P p _ _ (there q ps qs i) h a = (a.0, All-Puts P p ps qs i h a.1)

Distinct-Puts :
    (p : Packet) (ps qs : List Packet)
    → Puts p ps qs
    → Differ (number p) ps
    → Distinct ps
    → Distinct qs
Distinct-Puts p ps _ (here _) d x = (d, x)
Distinct-Puts p _ _ (there q ps qs i) d x = (
  All-Puts (λ o. number o ≢ number q) p ps qs i (λ same. d.0 (sym same)) x.0,
  Distinct-Puts p ps qs i d.1 x.1,
)

All-Shuffled : (P : Packet → Type 0) (ps qs : List Packet) → Shuffled ps qs → All P ps → All P qs
All-Shuffled P _ _ none_sent a = tt
All-Shuffled P _ _ (put p ps qs rs s i) a = All-Puts P p qs rs i a.0 (All-Shuffled P ps qs s a.1)

Distinct-Shuffled : (ps qs : List Packet) → Shuffled ps qs → Distinct ps → Distinct qs
Distinct-Shuffled _ _ none_sent x = tt
Distinct-Shuffled _ _ (put p ps qs rs s i) x =
    Distinct-Puts p qs rs i (All-Shuffled (λ o. number o ≢ number p) ps qs s x.0)
      (Distinct-Shuffled ps qs s x.1)

-- The packets have the numbers from n on, in this order.
abbrev Numbered : ℕ → List Packet → Type 0
Numbered n [] = Unit
Numbered n (p ∷ ps) = (number p ≡ n) × Numbered (suc n) ps

Numbered-All :
    (P : Packet → Type 0) (m n : ℕ) (ps : List Packet)
    → ((p : Packet) → m ≤ number p → P p)
    → m ≤ n
    → Numbered n ps
    → All P ps
Numbered-All P m n [] f h x = tt
Numbered-All P m n (p ∷ ps) f h x =
    (f p (omega (arith, x.0)), Numbered-All P m (suc n) ps f (omega arith) x.1)

Numbered-Distinct : (n : ℕ) (ps : List Packet) → Numbered n ps → Distinct ps
Numbered-Distinct n [] x = tt
Numbered-Distinct n (p ∷ ps) x = (
  Numbered-All (λ q. number q ≢ number p) (suc n) (suc n) ps (λ q h same. omega (arith, x.0, same))
      (omega arith) x.1,
  Numbered-Distinct (suc n) ps x.1,
)

module _ (c : Crates) where
  -- Calls of `encrypt` that succeed, and the packets that they give, first to last
  pub data Sending : World c → World c → List Packet → Type 0 where
    silent : (w : World c) → Sending w w []
    sends :
        (plaintext : Bytes) (w w' w'' : World c) (header : MessageHeader) (sealed : Encrypted)
        (ps : List Packet)
        → encrypt c plaintext w ≡ (ok (header, sealed), w')
        → Sending w' w'' ps
        → Sending w w'' (record { header = header; sealed = sealed; plaintext = plaintext } ∷ ps)

module _ (c : Crates) (kdf : KdfLaws c) (remote : c.PublicKey) (origin : ChainKey)
    (start : origin.index ≡ 0) where
  Sending-Numbered :
      (n : ℕ) (w w' : World c) (ps : List Packet)
      → w.session.sending_chain ≡ some (chain_after c n origin)
      → w.session.dh_public ≡ remote
      → n + length ps < u32_mod
      → Sending c w w' ps
      → AllGenuine c remote origin ps × Numbered n ps
  Sending-Numbered n w _ _ e k u (silent _) = (tt, tt)
  Sending-Numbered n w _ _ e k u (sends plaintext _ w' w'' header sealed ps h rest) =
      let chain = chain_after c n origin in
      let i : chain.index ≡ n = omega (arith, index-chain_after c kdf n origin (omega arith)) in
      let s = encrypt-Sends c kdf chain plaintext w w' header sealed e (omega arith) h in
      let (_, at) = Sends-header c kdf chain plaintext w w' header sealed s in
      let genuine = Sends-Genuine c kdf n origin chain plaintext w w' header sealed refl i s in
      let next =
        ap (λ (t : Session c). t.sending_chain) s.after
        ∙ ap (λ ch. some ch) (sym (chain_after-suc c n origin)) in
      let key = ap (λ (t : Session c). t.dh_public) s.after ∙ k in
      let (gs, ns) = Sending-Numbered (suc n) w' w'' ps next key (omega arith) rest in
      ((subst (λ d. Genuine c d origin plaintext header sealed) k genuine, gs), (at ∙ i, ns))

module _ (c : Crates) (kdf : KdfLaws c) (x25519 : X25519Laws c) (aead : AeadLaws c) where
  -- One session sends a batch of messages on its sending chain, as messages m, m + 1 and so on of
  -- it, below 2^32; another follows that chain, expects message m next and stores no key of it from
  -- m on. The packets reach it in some order in which they fit: whenever one arrives that is not
  -- behind, the keys stored then and those of the messages it skips are at most 100 together. Then
  -- each is decrypted to the plaintext that was encrypted.
  pub decrypt_all-Sending :
      (m : ℕ) (origin : ChainKey) (sender sender' receiver : World c) (ps qs : List Packet)
      → origin.index ≡ 0
      → sender.session.sending_chain ≡ some (chain_after c m origin)
      → Tracks c sender.session.dh_public origin m receiver.session
      → m + length ps < u32_mod
      → Sending c sender sender' ps
      → Shuffled ps qs
      → Fits m (count receiver.session.skipped_keys) qs
      → (decrypt_all c qs receiver).0 ≡ map (λ q. ok q.plaintext) qs
  decrypt_all-Sending m origin sender sender' receiver ps qs start e t u run order fits =
      let remote = sender.session.dh_public in
      let (gs, ns) = Sending-Numbered c kdf remote origin start m sender sender' ps e refl u run in
      decrypt_all-any_order c kdf x25519 aead remote origin start m qs receiver t fits
        (All-Shuffled _ ps qs order gs) (Distinct-Shuffled ps qs order (Numbered-Distinct m ps ns))
        (All-Shuffled _ ps qs order (Numbered-All _ m m ps (λ p h. inl h) (omega arith) ns))
