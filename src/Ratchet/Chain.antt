-- ===== src/Ratchet/Chain.antt =====
-- src/ratchet/chain.rs: a symmetric chain. `u32` counters wrap, as in a release build.
use ghostcrypt_crypto_core.Common.{
  ℕ, zero, suc, [], refl, ◌+◌, ◌-◌, ◌%◌, ◌^◌, ◌<◌, ◌≡◌, Bytes, length, arith,
}
use native.Mathlib.Nat.{zero-add, suc-add}
use ghostcrypt_crypto_core.Error.{Result, ok, err, panic}
use ghostcrypt_crypto_core.Exec.{Exec}
use ghostcrypt_crypto_core.Crates.{Crates, KdfLaws}
use ghostcrypt_crypto_core.Kdf.{derive_chain_and_message_key, chain_step_total}

abbrev pub u32_mod : ℕ
u32_mod = 2 ^ 32

-- `i += 1` and `i - 1` on a u32
unfoldable pub u32_suc : ℕ → ℕ
u32_suc i = (i + 1) % u32_mod

unfoldable pub u32_pred : ℕ → ℕ
u32_pred i = (i + u32_mod - 1) % u32_mod

pub u32_suc-small : (i : ℕ) → i + 1 < u32_mod → u32_suc i ≡ i + 1
unfolding u32_suc
u32_suc-small i h = omega arith

-- The number that a message gets is the index before the chain advanced.
pub u32_pred-suc : (i : ℕ) → i < u32_mod → u32_pred (u32_suc i) ≡ i
unfolding u32_suc u32_pred
u32_pred-suc i h = omega arith

pub record ChainKey : Type 0 where
  pub key : Bytes
  pub index : ℕ

-- ChainKey::new
abbrev pub new : Bytes → ℕ → ChainKey
new key index = record { key = key; index = index }

module _ (c : Crates) where
  advance_by : ChainKey → Result (Bytes × Bytes) → Result Bytes × ChainKey
  advance_by chain (ok (new_chain_key, message_key)) =
      (ok message_key, record { key = new_chain_key; index = u32_suc chain.index })
  advance_by chain (err e) = (err e, chain)
  advance_by chain panic = (panic, chain)

  -- ChainKey::advance: on an error the chain stays as it was.
  unfoldable pub advance : Exec ChainKey Bytes
  unfolding advance_by
  advance chain = advance_by chain (derive_chain_and_message_key c chain.key)

  -- The chain after n messages, and the key of the next message: what the counters stand for.
  unfoldable pub chain_after : ℕ → ChainKey → ChainKey
  chain_after zero chain = chain
  chain_after (suc n) chain = chain_after n (advance chain).1

  key_or_nil : Result Bytes → Bytes
  key_or_nil (ok k) = k
  key_or_nil _ = []

  unfoldable pub message_key : ChainKey → Bytes
  unfolding key_or_nil
  message_key chain = key_or_nil (advance chain).0

  pub chain_after-zero : (chain : ChainKey) → chain ≡ chain_after zero chain
  unfolding chain_after
  chain_after-zero chain = refl

  pub chain_after-suc :
      (n : ℕ) (chain : ChainKey) → chain_after (suc n) chain ≡ (advance (chain_after n chain)).1
  unfolding chain_after
  chain_after-suc zero chain = refl
  chain_after-suc (suc n) chain = chain_after-suc n (advance chain).1

  pub chain_after-add :
      (m n : ℕ) (chain : ChainKey) → chain_after (m + n) chain ≡ chain_after n (chain_after m chain)
  unfolding chain_after
  chain_after-add zero n chain = rw zero-add
  chain_after-add (suc m) n chain = rw suc-add (chain_after-add m n (advance chain).1)

module _ (c : Crates) (laws : KdfLaws c) where
  -- Advancing never fails: it gives a 32-byte key, and moves the index on by one.
  pub advance_total :
      (chain : ChainKey)
      → (message next : Bytes) × (advance c chain
          ≡ (ok message, record { key = next; index = u32_suc chain.index }))
        × (length message ≡ 32)
  unfolding advance
  advance_total chain =
      let (next, message, e, _, l) = chain_step_total c laws chain.key in (message, next, rw e, l)

  -- The same, with the key named.
  pub advance-message_key : (chain : ChainKey) → (advance c chain).0 ≡ ok (message_key c chain)
  unfolding message_key
  advance-message_key chain = let (m, n, e, _) = advance_total chain in rw e

  pub length-message_key : (chain : ChainKey) → length (message_key c chain) ≡ 32
  unfolding message_key
  length-message_key chain = let (m, n, e, l) = advance_total chain in rw e l

  pub index-advance : (chain : ChainKey) → (advance c chain).1.index ≡ u32_suc chain.index
  index-advance chain = let (m, n, e, l) = advance_total chain in rw e

  -- Below the wrap the index counts the messages.
  pub index-chain_after :
      (n : ℕ) (chain : ChainKey)
      → chain.index + n < u32_mod
      → (chain_after c n chain).index ≡ chain.index + n
  unfolding chain_after
  index-chain_after zero chain h = omega arith
  index-chain_after (suc n) chain h = omega (
    arith,
    index-advance chain,
    u32_suc-small chain.index (omega arith),
    index-chain_after n (advance c chain).1
        (omega (arith, index-advance chain, u32_suc-small chain.index (omega arith))),
  )
