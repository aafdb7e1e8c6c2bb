-- ===== src/Pqc/Agreement.antt =====
-- Both sides of the hybrid key encapsulation derive the same secret.
use ghostcrypt_crypto_core.Common.{◌≡◌, refl, ap, Bytes, ◌++◌, codes, length, arith}
use ghostcrypt_crypto_core.Error.{ok}
use ghostcrypt_crypto_core.Crates.{Crates, X25519Laws, KdfLaws}
use ghostcrypt_crypto_core.Kdf.{derive_total}
use ghostcrypt_crypto_core.Pqc.Defs.{
  MlKem, MlKemLaws, HybridKeyPair, HybridEncapsulation, generate_kem_keypair,
  generate_hybrid_keypair, encapsulate, decapsulate, hybrid_shared_secret, hybrid_encapsulate,
  hybrid_decapsulate, x25519_shared_bytes,
}

module _ (c : Crates) (kem : MlKem c.Rng) (x25519 : X25519Laws c) (kdf : KdfLaws c)
    (laws : MlKemLaws kem) where
  hybrid_shared_secret_total :
      (a b : Bytes) → (t : Bytes) × (hybrid_shared_secret c kem a b ≡ ok t) × (length t ≡ 32)
  unfolding hybrid_shared_secret
  hybrid_shared_secret_total a b =
      derive_total c kdf (a ++ b) (codes "GhostCrypt_Hybrid_PQ") (codes "hybrid_shared_secret") 32
        (omega arith)

  -- The X25519 parts agree.
  shared_comm :
      (a : Bytes) (b : c.StaticSecret)
      → x25519_shared_bytes c kem
          (c.static_secret_bytes b)
          (c.public_bytes (c.public_from_secret (c.secret_from_bytes a)))
        ≡ x25519_shared_bytes c kem a (c.public_bytes (c.public_from_secret b))
  shared_comm a b = ap c.shared_bytes (
      rw
        (
          x25519.from-secret b,
          x25519.from-public (c.public_from_secret b),
          x25519.from-public (c.public_from_secret (c.secret_from_bytes a)),
        )
        (x25519.exchange b (c.secret_from_bytes a)))

  -- Encapsulation to the public keys of a generated hybrid key pair, with any secret of the sender and any randomness, succeeds with a 32-byte secret; and the owner of the key pair
  -- recovers that secret from the ephemeral key and the ciphertext.
  pub hybrid_decapsulate-hybrid_encapsulate :
      (our_secret : Bytes) (r rng : c.Rng)
      → (kp : HybridKeyPair) × ((generate_hybrid_keypair c kem r).0 ≡ ok kp)
        × (sent : HybridEncapsulation) × ((hybrid_encapsulate c kem our_secret kp.x25519_public
              kp.mlkem_public rng).0
            ≡ ok sent)
        × (length sent.shared_secret ≡ 32)
        × (hybrid_decapsulate c kem kp.x25519_secret sent.x25519_ephemeral_public kp.mlkem_secret
              sent.mlkem_ciphertext
            ≡ ok sent.shared_secret)
  unfolding generate_hybrid_keypair generate_kem_keypair hybrid_encapsulate encapsulate
      hybrid_decapsulate decapsulate
  hybrid_decapsulate-hybrid_encapsulate our_secret r rng =
      let (secret, r₁) = c.random_secret r in
      let (ek, dk) = (kem.generate r₁).0 in
      let (ct, ss, sealing, size, opening) = laws.agree r₁ rng in
      let shared =
        x25519_shared_bytes c kem our_secret (c.public_bytes (c.public_from_secret secret)) in
      let (t, derived, length_t) = hybrid_shared_secret_total shared ss in
      (
        record {
          x25519_public = c.public_bytes (c.public_from_secret secret);
          x25519_secret = c.static_secret_bytes secret;
          mlkem_public = ek;
          mlkem_secret = dk;
        },
        refl,
        record {
          x25519_ephemeral_public =
              c.public_bytes (c.public_from_secret (c.secret_from_bytes our_secret));
          mlkem_ciphertext = ct;
          shared_secret = t;
        },
        rw (laws.length-public r₁, sealing, derived) refl,
        length_t,
        rw (laws.length-secret r₁, size, opening, shared_comm our_secret secret) derived,
      )
