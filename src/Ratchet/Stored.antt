-- ===== src/Ratchet/Stored.antt =====
-- What the skipping loop leaves behind: the chain at the number that was asked for, the key of each
-- message that was passed, and all other keys as they were.
use ghostcrypt_crypto_core.Common.{
  ℕ, zero, suc, ◌+◌, ◌-◌, ◌≤◌, ◌<◌, ◌≡◌, ◌≢◌, ◌⊎◌, inl, inr, refl, sym, ap, ◌∙◌, Bool-cases, Bytes,
  some, ltb, arith,
}
use ghostcrypt_crypto_core.Error.{ok}
use ghostcrypt_crypto_core.Crates.{Crates, KdfLaws}
use ghostcrypt_crypto_core.Ratchet.SkippedKeys.{
  store, stored, count, count-store, stored-store, same_entry_iff,
}
use ghostcrypt_crypto_core.Ratchet.Chain.{
  ChainKey, advance, chain_after, message_key, u32_mod, u32_suc-small, u32_pred-suc,
  advance-message_key, index-advance,
}
use ghostcrypt_crypto_core.Ratchet.State.{
  Skipping, max_skip, keep_key, store_skipped, skip_rounds, skip_until,
}

module _ (c : Crates) where
  -- From `l` to `l'` the loop passed the messages up to `until`.
  pub record Skips (dh : Bytes) (until : ℕ) (l l' : Skipping) : Type 0 where
    pub chain : l'.chain ≡ chain_after c (until - l.chain.index) l.chain
    pub passed :
        (n : ℕ)
        → l.chain.index ≤ n
        → n < until
        → stored l'.keys dh n ≡ some (message_key c (chain_after c (n - l.chain.index) l.chain))
    pub kept :
        (b : Bytes) (n : ℕ)
        → (dh ≢ b) ⊎ (n < l.chain.index) ⊎ (until ≤ n)
        → stored l'.keys b n ≡ stored l.keys b n
    pub bounded : count l'.keys ≤ count l.keys + (until - l.chain.index)

  -- What one round leaves
  abbrev pub after_store : Bytes → Skipping → Skipping
  after_store dh l = record {
    chain = (advance c l.chain).1;
    keys = store l.keys dh l.chain.index (message_key c l.chain);
  }

module _ (c : Crates) (laws : KdfLaws c) where
  store_skipped-ok :
      (dh : Bytes) (l : Skipping)
      → l.chain.index + 1 < u32_mod
      → count l.keys + 1 ≤ max_skip
      → store_skipped c dh l ≡ (ok tt, after_store c dh l)
  unfolding store_skipped keep_key
  store_skipped-ok dh l i n =
      rw
        (
          advance-message_key c laws l.chain,
          index-advance c laws l.chain,
          u32_pred-suc l.chain.index (omega arith),
        )
        (ground (arith, count-store l.keys dh l.chain.index (message_key c l.chain)))

  pub Skips-refl :
      (dh : Bytes) (until : ℕ) (l : Skipping) → until ≤ l.chain.index → Skips c dh until l l
  unfolding chain_after
  Skips-refl dh until l h = record {
    chain =
        let z : until - l.chain.index ≡ 0 = omega arith in
        sym (ap (λ k. chain_after c k l.chain) z);
    passed = λ n a b. absurd (omega arith);
    kept = λ b n _. refl;
    bounded = omega arith;
  }

  pub index-next : (ch : ChainKey) → ch.index + 1 < u32_mod → (advance c ch).1.index ≡ ch.index + 1
  index-next ch h = index-advance c laws ch ∙ u32_suc-small ch.index h

  -- Counting on from the next chain is counting on from this one.
  chain_after-next :
      (n : ℕ) (ch : ChainKey)
      → ch.index < n
      → n < u32_mod
      → chain_after c (n - (advance c ch).1.index) (advance c ch).1
        ≡ chain_after c (n - ch.index) ch
  unfolding chain_after
  chain_after-next n ch h w =
      let e : n - (advance c ch).1.index ≡ n - ch.index - 1 =
        omega (arith, index-next ch (omega arith)) in
      let f : n - ch.index ≡ suc (n - ch.index - 1) = omega arith in
      ap (λ k. chain_after c k (advance c ch).1) e ∙ sym (ap (λ k. chain_after c k ch) f)

  first_passed :
      (dh : Bytes) (until n : ℕ) (l l' : Skipping)
      → n ≡ l.chain.index
      → n + 1 < u32_mod
      → Skips c dh until (after_store c dh l) l'
      → stored l'.keys dh n ≡ some (message_key c (chain_after c (n - l.chain.index) l.chain))
  unfolding chain_after
  first_passed dh until n l l' e w s =
      let z : n - l.chain.index ≡ 0 = omega arith in
      s.kept dh n (inr (inl (omega (arith, index-next l.chain (omega arith)))))
      ∙ stored-store l.keys dh dh l.chain.index n (message_key c l.chain)
      ∙ rw ((same_entry_iff dh l.chain.index dh n).1 (refl, sym e))
          (sym (ap (λ k. some (message_key c (chain_after c k l.chain))) z))

  other_kept :
      (dh b : Bytes) (until n : ℕ) (l : Skipping)
      → l.chain.index < until
      → (dh ≢ b) ⊎ (n < l.chain.index) ⊎ (until ≤ n)
      → stored (after_store c dh l).keys b n ≡ stored l.keys b n
  other_kept dh b until n l h o = ground (
    arith,
    stored-store l.keys dh b l.chain.index n (message_key c l.chain),
    same_entry_iff dh l.chain.index b n,
  )

  later_kept :
      (dh b : Bytes) (until n : ℕ) (l : Skipping)
      → l.chain.index + 1 < u32_mod
      → (dh ≢ b) ⊎ (n < l.chain.index) ⊎ (until ≤ n)
      → (dh ≢ b) ⊎ (n < (advance c l.chain).1.index) ⊎ (until ≤ n)
  later_kept dh b until n l w (inl d) = inl d
  later_kept dh b until n l w (inr (inl d)) = inr (inl (omega (arith, index-next l.chain w)))
  later_kept dh b until n l w (inr (inr d)) = inr (inr d)

  pub Skips-step :
      (dh : Bytes) (until : ℕ) (l l' : Skipping)
      → l.chain.index < until
      → until < u32_mod
      → Skips c dh until (after_store c dh l) l'
      → Skips c dh until l l'
  Skips-step dh until l l' h w s = record {
    chain = s.chain ∙ chain_after-next until l.chain h w;
    passed = λ n a b. elim (Bool-cases (ltb l.chain.index n)) [
      | inr first ↦ first_passed dh until n l l' (ground arith) (omega arith) s
      | inl later ↦
          s.passed n (ground (arith, index-next l.chain (omega arith))) b
          ∙ ap (λ ch. some (message_key c ch))
              (chain_after-next n l.chain (ground arith) (omega arith))
    ];
    kept = λ b n o.
        s.kept b n (later_kept dh b until n l (omega arith) o) ∙ other_kept dh b until n l h o;
    bounded = omega (
      arith,
      s.bounded,
      index-next l.chain (omega arith),
      count-store l.keys dh l.chain.index (message_key c l.chain),
    );
  }

  -- With room for the keys and within a u32, the loop ends by its test and has passed the messages
  -- up to `until`.
  skip_rounds-Skips :
      (fuel until : ℕ) (dh : Bytes) (l : Skipping)
      → until - l.chain.index ≤ fuel
      → until < u32_mod
      → count l.keys + (until - l.chain.index) ≤ max_skip
      → (l' : Skipping) × (skip_rounds c fuel until dh l ≡ (ok tt, l')) × Skips c dh until l l'
  unfolding skip_rounds
  skip_rounds-Skips zero until dh l f w n = (l, refl, Skips-refl dh until l (omega arith))
  skip_rounds-Skips (suc fuel) until dh l f w n = elim (Bool-cases (ltb l.chain.index until)) [
    | inr done ↦ (l, rw done, Skips-refl dh until l (ground arith))
    | inl more ↦
        let i : l.chain.index < until = ground arith in
        let e = index-next l.chain (omega arith) in
        let (l', run, s) =
          skip_rounds-Skips fuel until dh (after_store c dh l) (omega arith) w
            (omega (arith, count-store l.keys dh l.chain.index (message_key c l.chain))) in
        (
          l',
          rw (more, store_skipped-ok dh l (omega arith) (omega arith)) run,
          Skips-step dh until l l' i w s,
        )
  ]

  pub skip_until-Skips :
      (until : ℕ) (dh : Bytes) (l : Skipping)
      → until < u32_mod
      → count l.keys + (until - l.chain.index) ≤ max_skip
      → (l' : Skipping) × (skip_until c until dh l ≡ (ok tt, l')) × Skips c dh until l l'
  unfolding skip_until
  skip_until-Skips until dh l w n =
      skip_rounds-Skips (until - l.chain.index) until dh l (omega arith) w n
