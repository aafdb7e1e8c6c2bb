-- ===== src/Ratchet/Loop.antt =====
-- How the loop that skips ahead ends, with room for the keys or without.
use ghostcrypt_crypto_core.Common.{
  ℕ, zero, suc, ◌+◌, ◌-◌, ◌≤◌, ◌<◌, ◌≡◌, refl, inl, inr, Bool-cases, Bytes, ltb, if◌then◌else◌,
  arith,
}
use ghostcrypt_crypto_core.Error.{Result, ok, err, ratchet}
use ghostcrypt_crypto_core.Crates.{Crates, KdfLaws}
use ghostcrypt_crypto_core.Ratchet.SkippedKeys.{count}
use ghostcrypt_crypto_core.Ratchet.Chain.{u32_mod, u32_pred-suc, advance-message_key, index-advance}
use ghostcrypt_crypto_core.Ratchet.State.{
  Skipping, max_skip, keep_key, store_skipped, skip_rounds, skip_until,
}
use ghostcrypt_crypto_core.Ratchet.Stored.{Skips, Skips-refl, Skips-step, index-next, after_store}

-- The loop has passed the messages up to `until`, and if there were any, their keys are within the
-- limit; or it has stopped with its error after those up to n, with the limit passed.
pub data Ends (c : Crates) (dh : Bytes) (until : ℕ) (l : Skipping)
    : Result (Unit {0}) × Skipping → Type 0 where
  reached :
      (l' : Skipping)
      → Skips c dh until l l'
      → (l.chain.index < until → count l'.keys ≤ max_skip)
      → Ends c dh until l (ok tt, l')
  full :
      (n : ℕ) (l' : Skipping)
      → l.chain.index < n
      → n ≤ until
      → Skips c dh n l l'
      → max_skip < count l'.keys
      → Ends c dh until l (err (ratchet "Too many skipped messages"), l')

module _ (c : Crates) (laws : KdfLaws c) where
  store_skipped-run :
      (dh : Bytes) (l : Skipping)
      → l.chain.index + 1 < u32_mod
      → store_skipped c dh l ≡ (
          if ltb max_skip (count (after_store c dh l).keys)
          then (err (ratchet "Too many skipped messages"), after_store c dh l)
          else (ok tt, after_store c dh l))
  unfolding store_skipped keep_key
  store_skipped-run dh l i =
      rw
        (
          advance-message_key c laws l.chain,
          index-advance c laws l.chain,
          u32_pred-suc l.chain.index (omega arith),
        )
        refl

  Ends-step :
      (dh : Bytes) (until : ℕ) (l : Skipping) (out : Result (Unit {0}) × Skipping)
      → l.chain.index < until
      → until < u32_mod
      → count (after_store c dh l).keys ≤ max_skip
      → Ends c dh until (after_store c dh l) out
      → Ends c dh until l out
  Ends-step dh until l out h w room (reached l' s within) =
      reached l' (Skips-step c laws dh until l l' h w s) (λ _. ground (arith, s.bounded, within))
  Ends-step dh until l out h w room (full n l' before le s over) =
      let at = index-next c laws l.chain (omega arith) in
      full n l' (omega arith) le (Skips-step c laws dh n l l' (omega arith) (omega arith) s) over

  -- One round, and what it passed
  Skips-once :
      (dh : Bytes) (l : Skipping)
      → l.chain.index + 1 < u32_mod
      → Skips c dh (l.chain.index + 1) l (after_store c dh l)
  Skips-once dh l w =
      Skips-step c laws dh (l.chain.index + 1) l (after_store c dh l) (omega arith) w (
        Skips-refl c laws dh (l.chain.index + 1) (after_store c dh l)
          (omega (arith, index-next c laws l.chain w)))

  skip_rounds-Ends :
      (fuel until : ℕ) (dh : Bytes) (l : Skipping)
      → until - l.chain.index ≤ fuel
      → until < u32_mod
      → Ends c dh until l (skip_rounds c fuel until dh l)
  unfolding skip_rounds
  skip_rounds-Ends zero until dh l f w =
      reached l (Skips-refl c laws dh until l (omega arith)) (λ h. absurd (omega arith))
  skip_rounds-Ends (suc fuel) until dh l f w = elim (Bool-cases (ltb l.chain.index until)) [
    | inr done ↦
        rw done
          (reached l (Skips-refl c laws dh until l (ground arith)) (λ h. absurd (ground arith)))
    | inl more ↦
        let h : l.chain.index < until = ground arith in
        let run = store_skipped-run dh l (omega arith) in
        elim (Bool-cases (ltb max_skip (count (after_store c dh l).keys))) [
          | inl over ↦
              rw (more, run, over)
                (full (l.chain.index + 1) (after_store c dh l) (omega arith) (omega arith)
                  (Skips-once dh l (omega arith)) (ground arith))
          | inr within ↦
              let e = index-next c laws l.chain (omega arith) in
              rw (more, run, within)
                (Ends-step dh until l _ h w (ground arith)
                  (skip_rounds-Ends fuel until dh (after_store c dh l) (omega arith) w))
        ]
  ]

  -- For a target below 2^32 the loop ends in one of two ways. It returns with the chain at the
  -- target, unless it was there or beyond already, and if there was anything to skip, then at most
  -- 100 keys are stored. Or it stops with its error after one of the rounds, with more than 100 keys
  -- stored. Either way the key of each message that it passed is stored under its number, and all
  -- other entries are as they were. hkdf and hmac are taken to give the lengths asked for.
  pub skip_until-Ends :
      (until : ℕ) (dh : Bytes) (l : Skipping)
      → until < u32_mod
      → Ends c dh until l (skip_until c until dh l)
  unfolding skip_until
  skip_until-Ends until dh l w = skip_rounds-Ends (until - l.chain.index) until dh l (omega arith) w
