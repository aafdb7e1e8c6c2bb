-- ===== src/Ratchet/DhRatchet.antt =====
-- src/ratchet/dh_ratchet.rs: the Diffie-Hellman ratchet step.
use ghostcrypt_crypto_core.Common.{
  ℕ, ◌≡◌, Bytes, length, take, drop, codes, ltb, if◌then◌else◌, arith,
}
use ghostcrypt_crypto_core.Error.{Result, ok, panic, ◌>>=◌}
use ghostcrypt_crypto_core.Exec.{Exec, pure}
use ghostcrypt_crypto_core.Crates.{Crates, KdfLaws}
use ghostcrypt_crypto_core.Kdf.{derive, derive_total}

abbrev pub ratchet_info : Bytes
ratchet_info = codes "GhostCrypt_Ratchet"

-- `derived[..n]` and `derived[n..]`, which panic past the end
split_keys : ℕ → Bytes → Result (Bytes × Bytes)
split_keys n derived = if ltb (length derived) n then panic else ok (take n derived, drop n derived)

module _ (c : Crates) where
  unfoldable pub dh_ratchet_step : Bytes → Bytes → Result (Bytes × Bytes)
  unfolding split_keys
  dh_ratchet_step root_key dh_output = do
    derived ← derive c dh_output root_key ratchet_info 64
    split_keys 32 derived

  unfoldable pub generate_dh_keypair : Exec c.Rng (c.StaticSecret × c.PublicKey)
  generate_dh_keypair r =
      let (secret, r') = c.random_secret r in pure (secret, c.public_from_secret secret) r'

  unfoldable pub dh : c.StaticSecret → c.PublicKey → Bytes
  dh our_secret their_public = c.shared_bytes (c.diffie_hellman our_secret their_public)

module _ (c : Crates) (laws : KdfLaws c) where
  -- The step always succeeds.
  pub dh_ratchet_step_total :
      (root_key dh_output : Bytes)
      → (root chain : Bytes) × (dh_ratchet_step c root_key dh_output ≡ ok (root, chain))
  unfolding dh_ratchet_step
  dh_ratchet_step_total root_key dh_output =
      let (t, e, l) = derive_total c laws dh_output root_key ratchet_info 64 (omega arith) in
      (take 32 t, drop 32 t, rw e (ground arith))
