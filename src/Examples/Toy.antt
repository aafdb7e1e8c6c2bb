-- ===== src/Examples/Toy.antt =====
-- A stand-in for the crates, with numbers for keys: the hypotheses on the crates can be met.
use ghostcrypt_crypto_core.Common.{
  ℕ, suc, ◌+◌, ◌≡◌, refl, Bytes, [], ◌∷◌, replicate, length-replicate, nat_eqb, nat_eqb_iff,
  if◌then◌else◌, arith,
}
use ghostcrypt_crypto_core.Error.{Fallible, value, failed}
use ghostcrypt_crypto_core.Crates.{Crates, X25519Laws, KdfLaws, AeadLaws, SignatureLaws}

abbrev sum : Bytes → ℕ
sum [] = 0
sum (x ∷ xs) = x + sum xs

abbrev pub head_or_zero : Bytes → ℕ
head_or_zero [] = 0
head_or_zero (x ∷ xs) = x

abbrev pub key_bytes : ℕ → Bytes
key_bytes x = x ∷ replicate 31 0

abbrev tag : Bytes → Bytes → Bytes → ℕ
tag key nonce aad = sum key + (sum nonce + sum aad)

abbrev toy_open : Bytes → Bytes → Bytes → Bytes → Fallible Bytes
toy_open key nonce [] aad = failed "aead::Error"
toy_open key nonce (t ∷ message) aad =
    if nat_eqb t (tag key nonce aad) then value message else failed "aead::Error"

abbrev pub toy : Crates
toy = record {
  Rng = ℕ;
  fill_bytes = λ n r. (replicate n r, suc r);
  PublicKey = ℕ;
  StaticSecret = ℕ;
  SharedSecret = ℕ;
  public_from_bytes = head_or_zero;
  public_bytes = key_bytes;
  secret_from_bytes = head_or_zero;
  static_secret_bytes = key_bytes;
  random_secret = λ r. (r, suc r);
  public_from_secret = λ s. s;
  diffie_hellman = λ a b. a + b;
  shared_bytes = key_bytes;
  SigningKey = ℕ;
  VerifyingKey = ℕ;
  generate_signing_key = λ r. (r, suc r);
  signing_from_bytes = head_or_zero;
  signing_bytes = key_bytes;
  verifying_key_of = λ k. k;
  sign_with = λ k m. (k + sum m) ∷ replicate 63 0;
  verifying_from_bytes = λ b. value (head_or_zero b);
  verifying_bytes = key_bytes;
  verify_with = λ v m s. nat_eqb (head_or_zero s) (v + sum m);
  hkdf_expand = λ salt ikm info n. value (replicate n (sum salt + sum ikm));
  hmac = λ key m. value (replicate 32 (head_or_zero key + sum m));
  Cipher = Bytes;
  cipher_new = λ k. value k;
  generate_nonce = λ r. (replicate 12 r, suc r);
  cipher_encrypt = λ k nonce m aad. value (tag k nonce aad ∷ m);
  cipher_decrypt = toy_open;
  header_json = λ dh n p. value (n ∷ p ∷ dh);
}

pub toy-X25519Laws : X25519Laws toy
toy-X25519Laws = record {
  length-public = λ k. refl;
  from-public = λ k. refl;
  from-secret = λ s. refl;
  exchange = λ a b. omega arith;
}

pub toy-KdfLaws : KdfLaws toy
toy-KdfLaws = record {
  hmac_total = λ key m. (replicate 32 (head_or_zero key + sum m), refl, refl);
  hkdf_total = λ salt ikm info n h.
      (replicate n (sum salt + sum ikm), refl, length-replicate n (sum salt + sum ikm));
}

toy_open-seal :
    (k nonce m aad sealed : Bytes)
    → value (tag k nonce aad ∷ m) ≡ value sealed
    → toy_open k nonce sealed aad ≡ value m
toy_open-seal k nonce m aad [] h = cc
toy_open-seal k nonce m aad (t ∷ rest) h = ground arith

pub toy-AeadLaws : AeadLaws toy
toy-AeadLaws = record { length-nonce = λ r. refl; decrypt-encrypt = toy_open-seal }

pub toy-SignatureLaws : SignatureLaws toy
toy-SignatureLaws = record {
  length-signature = λ k m. refl;
  verify-sign = λ k m. (nat_eqb_iff (k + sum m) (k + sum m)).1 refl;
}
