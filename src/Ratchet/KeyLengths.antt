-- ===== src/Ratchet/KeyLengths.antt =====
-- The keys of a session of src/ratchet/state.rs have 32 bytes.
use ghostcrypt_crypto_core.Common.{
  ℕ, zero, suc, ◌-◌, ◌≡◌, refl, subst, ap, ◌∙◌, inl, inr, Option, some, Bytes, Bool-cases, length,
  take, drop, length-take, length-drop, ltb, arith,
}
use ghostcrypt_crypto_core.Error.{Result, ok, err, panic, ratchet}
use ghostcrypt_crypto_core.Exec.{continue-leaves, if-leaves, pure, ◌>>=◌}
use ghostcrypt_crypto_core.Crates.{Crates, KdfLaws}
use ghostcrypt_crypto_core.Kdf.{chain_step_total, derive_total}
use ghostcrypt_crypto_core.Ratchet.SkippedKeys.{
  SkippedKeys, stored, store, count, same_entry, stored-store, stored-forget, forget,
}
use ghostcrypt_crypto_core.Ratchet.Chain
use ghostcrypt_crypto_core.Ratchet.Chain.{ChainKey, advance, advance_total, u32_pred}
use ghostcrypt_crypto_core.Ratchet.DhRatchet.{dh_ratchet_step, ratchet_info}
use ghostcrypt_crypto_core.Ratchet.State.{
  Session, Skipping, max_skip, keep_key, store_skipped, skip_rounds, skip_until,
}
use ghostcrypt_crypto_core.Ratchet.Session.{start_receiving, start_sending}

-- The stored message keys
abbrev pub AllKeys : SkippedKeys → Type 0
AllKeys keys = (dh : Bytes) (n : ℕ) (mk : Bytes) → stored keys dh n ≡ some mk → length mk ≡ 32

-- The key of a chain, if there is one
abbrev pub ChainKeyed : Option ChainKey → Type 0
ChainKeyed chain = (ch : ChainKey) → chain ≡ some ch → length ch.key ≡ 32

pub record Keyed {c : Crates} (s : Session c) : Type 0 where
  pub root : length s.root_key ≡ 32
  pub sending : ChainKeyed s.sending_chain
  pub receiving : ChainKeyed s.receiving_chain
  pub skipped : AllKeys s.skipped_keys

pub some-ChainKeyed : (ch : ChainKey) → length ch.key ≡ 32 → ChainKeyed (some ch)
some-ChainKeyed ch l other h =
    let same : ch ≡ other = cc h in subst (λ (k : ChainKey). length k.key ≡ 32) same l

store-AllKeys :
    (keys : SkippedKeys) (dh : Bytes) (n : ℕ) (mk : Bytes)
    → AllKeys keys
    → length mk ≡ 32
    → AllKeys (store keys dh n mk)
store-AllKeys keys dh n mk all l dh' n' mk' h = elim (Bool-cases (same_entry dh n dh' n')) [
  | inl t ↦ subst (λ k. length k ≡ 32) (ground (arith, stored-store keys dh dh' n n' mk)) l
  | inr f ↦ all dh' n' mk' (ground (arith, stored-store keys dh dh' n n' mk))
]

pub forget-AllKeys :
    (keys : SkippedKeys) (dh : Bytes) (n : ℕ) → AllKeys keys → AllKeys (forget keys dh n)
forget-AllKeys keys dh n all dh' n' mk h =
    all dh' n' mk (ground (arith, stored-forget keys dh dh' n n'))

-- A session that has taken a key from its map
pub forgotten-Keyed :
    {c : Crates} (s : Session c) (dh : Bytes) (n : ℕ)
    → Keyed s
    → Keyed (record s { skipped_keys = forget s.skipped_keys dh n })
forgotten-Keyed s dh n k = record {
  root = k.root;
  sending = k.sending;
  receiving = k.receiving;
  skipped = forget-AllKeys s.skipped_keys dh n k.skipped;
}

-- What the skipping loop works on
abbrev pub SkippingKeyed : Skipping → Type 0
SkippingKeyed l = (length l.chain.key ≡ 32) × AllKeys l.keys

-- A session whose receiving chain and skipped keys a loop has replaced
pub received-Keyed :
    {c : Crates} (s : Session c) (l : Skipping)
    → Keyed s
    → SkippingKeyed l
    → Keyed (record s { receiving_chain = some l.chain; skipped_keys = l.keys })
received-Keyed s l k q = record {
  root = k.root;
  sending = k.sending;
  receiving = some-ChainKeyed l.chain q.0;
  skipped = q.1;
}

-- The two halves of a ratchet step
pub started_receiving-Keyed :
    {c : Crates} (s : Session c) (root chain : Bytes) (remote : c.PublicKey)
    → Keyed s
    → (length root ≡ 32) × (length chain ≡ 32)
    → Keyed (start_receiving c root chain remote s)
started_receiving-Keyed s root chain remote k (l, m) = record {
  root = l;
  sending = k.sending;
  receiving = some-ChainKeyed (Chain.new chain 0) m;
  skipped = k.skipped;
}

pub started_sending-Keyed :
    {c : Crates} (s : Session c) (root chain : Bytes) (secret : c.StaticSecret)
    (public_key : c.PublicKey)
    → Keyed s
    → (length root ≡ 32) × (length chain ≡ 32)
    → Keyed (start_sending c root chain secret public_key s)
started_sending-Keyed s root chain secret public_key k (l, m) = record {
  root = l;
  sending = some-ChainKeyed (Chain.new chain 0) m;
  receiving = k.receiving;
  skipped = k.skipped;
}

module _ (c : Crates) (kdf : KdfLaws c) where
  pub length-advance : (ch : ChainKey) → length (advance c ch).1.key ≡ 32
  unfolding advance
  length-advance ch = let (next, message, e, l, _) = chain_step_total c kdf ch.key in rw e l

  keep_key-Keyed :
      (dh : Bytes) (keys : SkippedKeys) (r : Result Bytes) (chain : ChainKey)
      → AllKeys keys
      → length chain.key ≡ 32
      → ((mk : Bytes) → r ≡ ok mk → length mk ≡ 32)
      → SkippingKeyed (keep_key c dh keys r chain).1
  unfolding keep_key
  keep_key-Keyed dh keys (ok mk) chain all l message =
      let keys' = store keys dh (u32_pred chain.index) mk in
      let l' : Skipping = record { chain = chain; keys = keys' } in
      let keyed : SkippingKeyed l' =
        (l, store-AllKeys keys dh (u32_pred chain.index) mk all (message mk refl)) in
      if-leaves SkippingKeyed (ltb max_skip (count keys'))
        (err (ratchet "Too many skipped messages"), l') (ok tt, l') (λ t. keyed) (λ f. keyed)
  keep_key-Keyed dh keys (err e) chain all l message = (l, all)
  keep_key-Keyed dh keys panic chain all l message = (l, all)

  -- A key that the chain gives
  pub advance-length : (ch : ChainKey) (mk : Bytes) → (advance c ch).0 ≡ ok mk → length mk ≡ 32
  advance-length ch mk h =
      let (message, next, e, l) = advance_total c kdf ch in
      let same : mk ≡ message = cc (h, ap (λ r. r.0) e) in ap length same ∙ l

  store_skipped-Keyed :
      (dh : Bytes) (l : Skipping) → SkippingKeyed l → SkippingKeyed (store_skipped c dh l).1
  unfolding store_skipped
  store_skipped-Keyed dh l k =
      let (r, chain) = advance c l.chain in
      keep_key-Keyed dh l.keys r chain k.1 (length-advance l.chain) (advance-length l.chain)

  skip_rounds-Keyed :
      (fuel until : ℕ) (dh : Bytes) (l : Skipping)
      → SkippingKeyed l
      → SkippingKeyed (skip_rounds c fuel until dh l).1
  unfolding skip_rounds
  skip_rounds-Keyed zero until dh l k = k
  skip_rounds-Keyed (suc fuel) until dh l k =
      if-leaves SkippingKeyed (ltb l.chain.index until)
        ((store_skipped c dh >>= λ _. skip_rounds c fuel until dh) l) (pure tt l)
        (λ t.
          continue-leaves SkippingKeyed (store_skipped c dh l).0 (λ _. skip_rounds c fuel until dh)
            (store_skipped c dh l).1 (store_skipped-Keyed dh l k)
            λ _ h.
              skip_rounds-Keyed fuel until dh (store_skipped c dh l).1 (store_skipped-Keyed dh l k))
        (λ f. k)

  pub skip_until-Keyed :
      (until : ℕ) (dh : Bytes) (l : Skipping)
      → SkippingKeyed l
      → SkippingKeyed (skip_until c until dh l).1
  unfolding skip_until
  skip_until-Keyed until dh l k = skip_rounds-Keyed (until - l.chain.index) until dh l k

  pub length-dh_ratchet_step :
      (root_key dh_output root chain : Bytes)
      → dh_ratchet_step c root_key dh_output ≡ ok (root, chain)
      → (length root ≡ 32) × (length chain ≡ 32)
  unfolding dh_ratchet_step
  length-dh_ratchet_step root_key dh_output root chain h =
      let (t, e, l) = derive_total c kdf dh_output root_key ratchet_info 64 (omega arith) in
      let step : dh_ratchet_step c root_key dh_output ≡ ok (take 32 t, drop 32 t) =
        rw e (ground arith) in
      let first : root ≡ take 32 t = cc (h, step) in
      let second : chain ≡ drop 32 t = cc (h, step) in
      (
        ap length first ∙ length-take 32 t (omega arith),
        ap length second ∙ length-drop 32 t ∙ omega arith,
      )
