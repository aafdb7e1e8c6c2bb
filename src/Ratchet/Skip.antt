-- ===== src/Ratchet/Skip.antt =====
-- The loop that skips ahead in a receiving chain, and the number of keys that it stores.
use Prim.Native.Nat.{max}
use ghostcrypt_crypto_core.Common.{
  ℕ, zero, suc, ◌+◌, ◌-◌, ◌≤◌, ◌≡◌, inl, inr, ap, Bool-cases, Bytes, ltb, arith,
}
use ghostcrypt_crypto_core.Error.{Result, ok, err, panic}
use ghostcrypt_crypto_core.Exec.{Exec, continue}
use ghostcrypt_crypto_core.Crates.{Crates}
use ghostcrypt_crypto_core.Ratchet.SkippedKeys.{SkippedKeys, count, count-store}
use ghostcrypt_crypto_core.Ratchet.Chain.{ChainKey, advance, u32_pred}
use ghostcrypt_crypto_core.Ratchet.State.{
  Skipping, max_skip, keep_key, store_skipped, skip_rounds, skip_until,
}

-- What a step may have done to the number of stored keys that was m: it grew by one at most, and
-- if the step succeeded it is within the limit.
abbrev Stored : ℕ → Result (Unit {0}) × Skipping → Type 0
Stored m (r, l) = (count l.keys ≤ m + 1) × (r ≡ ok tt → count l.keys ≤ max_skip)

-- The same of a whole loop.
abbrev pub StoredAll : ℕ → Result (Unit {0}) × Skipping → Type 0
StoredAll m (r, l) =
    (count l.keys ≤ max max_skip m + 1) × (r ≡ ok tt → count l.keys ≤ max max_skip m)

module _ (c : Crates) where
  count-keep_key :
      (dh : Bytes) (keys : SkippedKeys) (r : Result Bytes) (chain : ChainKey)
      → Stored (count keys) (keep_key c dh keys r chain)
  unfolding keep_key
  count-keep_key dh keys (ok mk) chain =
      ground (arith, count-store keys dh (u32_pred chain.index) mk)
  count-keep_key dh keys (err e) chain = ground arith
  count-keep_key dh keys panic chain = ground arith

  count-store_skipped : (dh : Bytes) (l : Skipping) → Stored (count l.keys) (store_skipped c dh l)
  unfolding store_skipped
  count-store_skipped dh l = count-keep_key dh l.keys (advance c l.chain).0 (advance c l.chain).1

  StoredAll-continue :
      (m : ℕ) (f : Exec Skipping (Unit {0})) (r : Result (Unit {0})) (l : Skipping)
      → Stored m (r, l)
      → ((l' : Skipping) → StoredAll (count l'.keys) (f l'))
      → StoredAll m (continue r (λ _. f) l)
  StoredAll-continue m f (ok tt) l h rest = ground (arith, rest l)
  StoredAll-continue m f (err e) l h rest = ground arith
  StoredAll-continue m f panic l h rest = ground arith

  -- Whatever the message numbers are, the loop stores at most one key beyond the limit or beyond
  -- what was stored before; if it succeeds, it does not pass the limit.
  pub count-skip_rounds :
      (fuel until : ℕ) (dh : Bytes) (l : Skipping)
      → StoredAll (count l.keys) (skip_rounds c fuel until dh l)
  unfolding skip_rounds
  count-skip_rounds zero until dh l = ground arith
  count-skip_rounds (suc fuel) until dh l = elim (Bool-cases (ltb l.chain.index until)) [
    | inr done ↦ rw done (ground arith)
    | inl more ↦ rw more (
        StoredAll-continue (count l.keys) (skip_rounds c fuel until dh) (store_skipped c dh l).0
          (store_skipped c dh l).1 (count-store_skipped dh l) (count-skip_rounds fuel until dh))
  ]

  pub count-skip_until :
      (until : ℕ) (dh : Bytes) (l : Skipping) → StoredAll (count l.keys) (skip_until c until dh l)
  unfolding skip_until
  count-skip_until until dh l = count-skip_rounds (until - l.chain.index) until dh l

  -- At or before the index there is nothing to skip.
  pub skip_until-done :
      (until : ℕ) (dh : Bytes) (l : Skipping)
      → until ≤ l.chain.index
      → skip_until c until dh l ≡ (ok tt, l)
  unfolding skip_until skip_rounds
  skip_until-done until dh l h =
      let z : until - l.chain.index ≡ 0 = omega arith in ap (λ k. skip_rounds c k until dh l) z
