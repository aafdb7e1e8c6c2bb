-- ===== src/Examples/Hybrid.antt =====
-- The hybrid key encapsulation over a stand-in for ML-KEM.
use ghostcrypt_crypto_core.Common.{
  ℕ, suc, ◌+◌, ◌≡◌, refl, [], ◌∷◌, length, replicate, length-replicate,
}
use ghostcrypt_crypto_core.Error.{ok, value}
use ghostcrypt_crypto_core.Pqc
use ghostcrypt_crypto_core.Pqc.{MlKem, MlKemLaws, HybridKeyPair, HybridEncapsulation}
use ghostcrypt_crypto_core.Pqc.Agreement.{hybrid_decapsulate-hybrid_encapsulate}
use ghostcrypt_crypto_core.Examples.Toy.{toy, toy-X25519Laws, toy-KdfLaws, key_bytes, head_or_zero}

abbrev toy_kem : MlKem ℕ
toy_kem = record {
  generate = λ r. ((replicate 1184 r, replicate 2400 r), suc r);
  encapsulate_to = λ ek r. (value (replicate 1088 r, (head_or_zero ek + r) ∷ []), suc r);
  decapsulate_with = λ dk ct. value ((head_or_zero dk + head_or_zero ct) ∷ []);
}

toy-MlKemLaws : MlKemLaws toy_kem
toy-MlKemLaws = record {
  length-public = λ r. length-replicate 1184 r;
  length-secret = λ r. length-replicate 2400 r;
  agree = λ r r'. (
    replicate 1088 r',
    (head_or_zero (replicate 1184 r) + r') ∷ [],
    refl,
    length-replicate 1088 r',
    refl,
  );
}

hybrid_decapsulate-hybrid_encapsulate_example :
    (kp : HybridKeyPair) × ((Pqc.generate_hybrid_keypair toy toy_kem 20).0 ≡ ok kp)
    × (sent : HybridEncapsulation) × ((Pqc.hybrid_encapsulate toy toy_kem
          (key_bytes 7)
          kp.x25519_public
          kp.mlkem_public
          30).0
        ≡ ok sent)
    × (length sent.shared_secret ≡ 32)
    × (Pqc.hybrid_decapsulate toy toy_kem kp.x25519_secret sent.x25519_ephemeral_public
          kp.mlkem_secret sent.mlkem_ciphertext
        ≡ ok sent.shared_secret)
hybrid_decapsulate-hybrid_encapsulate_example =
    hybrid_decapsulate-hybrid_encapsulate toy toy_kem toy-X25519Laws toy-KdfLaws toy-MlKemLaws
      (key_bytes 7) 20 30
