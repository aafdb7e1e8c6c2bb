-- ===== src/Ratchet/State.antt =====
-- src/ratchet/state.rs: the session's state, and the loop that stores skipped message keys.
use ghostcrypt_crypto_core.Common.{
  ℕ, zero, suc, ◌-◌, Bytes, Option, length, nat_eqb, ltb, nat_eq, list_eq, pair_eq, if◌then◌else◌,
}
use ghostcrypt_crypto_core.Error.{Result, ok, err, panic, ratchet}
use ghostcrypt_crypto_core.Exec.{Exec, pure, ◌>>=◌}
use ghostcrypt_crypto_core.Crates.{Crates}
use ghostcrypt_crypto_core.Ratchet.Chain.{ChainKey, advance, u32_pred}
use ghostcrypt_crypto_core.Ratchet.SkippedKeys.{SkippedKeys, store, count}

abbrev pub max_skip : ℕ
max_skip = 100

pub record Session (c : Crates) : Type 0 where
  pub root_key : Bytes
  pub dh_secret : c.StaticSecret
  pub dh_public : c.PublicKey
  pub remote_dh_public : Option c.PublicKey
  pub sending_chain : Option ChainKey
  pub receiving_chain : Option ChainKey
  pub previous_sending_chain_length : ℕ
  pub skipped_keys : SkippedKeys

-- What a method works on: the session, and the random source that it draws from.
pub record World (c : Crates) : Type 0 where
  pub session : Session c
  pub rng : c.Rng

-- The chain and the map that a skipping loop advances.
pub record Skipping : Type 0 where
  pub chain : ChainKey
  pub keys : SkippedKeys

-- `bytes.try_into()` into a `[u8; 32]`
unfoldable pub message_key_array : Bytes → Result Bytes
message_key_array key =
    if nat_eqb (length key) 32 then ok key else err (ratchet "Invalid message key length")

unfoldable pub skipped_key_array : Bytes → Result Bytes
skipped_key_array key =
    if nat_eqb (length key) 32 then ok key else err (ratchet "Invalid skipped key length")

module _ (c : Crates) where
  -- The rest of a round, once the chain has advanced
  unfoldable pub keep_key :
      Bytes → SkippedKeys → Result Bytes → ChainKey → Result (Unit {0}) × Skipping
  keep_key dh_bytes keys (ok mk) chain =
      let keys' = store keys dh_bytes (u32_pred chain.index) mk in
      let l' : Skipping = record { chain = chain; keys = keys' } in
      if ltb max_skip (count keys')
      then (err (ratchet "Too many skipped messages"), l')
      else (ok tt, l')
  keep_key dh_bytes keys (err e) chain = (err e, record { chain = chain; keys = keys })
  keep_key dh_bytes keys panic chain = (panic, record { chain = chain; keys = keys })

  -- Advance the chain, and store the message key under the chain's public key.
  unfoldable pub store_skipped : Bytes → Exec Skipping (Unit {0})
  unfolding keep_key
  store_skipped dh_bytes l =
      let (r, chain') = advance c l.chain in keep_key dh_bytes l.keys r chain'

  -- `while chain.index() < until`, with one unit of fuel for each round that is left.
  unfoldable pub skip_rounds : ℕ → ℕ → Bytes → Exec Skipping (Unit {0})
  unfolding store_skipped
  skip_rounds zero until dh_bytes l = pure tt l
  skip_rounds (suc fuel) until dh_bytes l =
      let rest = (store_skipped dh_bytes >>= λ _. skip_rounds fuel until dh_bytes) l in
      if ltb l.chain.index until then rest else pure tt l

  -- The index grows by one a round, so that many rounds are enough.
  unfoldable pub skip_until : ℕ → Bytes → Exec Skipping (Unit {0})
  skip_until until dh_bytes l = skip_rounds (until - l.chain.index) until dh_bytes l
