-- ===== src/Examples/Keys.antt =====
-- Keys and sealed messages at concrete values.
use ghostcrypt_crypto_core.Common.{◌≡◌, ◌%◌, ◌^◌, refl, [], ◌∷◌, some, get_elem?, true, arith}
use ghostcrypt_crypto_core.Error.{Result, ok}
use ghostcrypt_crypto_core.Aead
use ghostcrypt_crypto_core.Aead.{Encrypted}
use ghostcrypt_crypto_core.Aead.RoundTrip
use ghostcrypt_crypto_core.Identity
use ghostcrypt_crypto_core.Identity.{IdentityKeyPair, SignedPreKey, OneTimePreKey}
use ghostcrypt_crypto_core.Identity.Laws.{
  IsIdentity, IsSigned, IsOneTime, from_bytes-ok_iff, generate_batch_lem, generate_signed_lem,
}
use ghostcrypt_crypto_core.Examples.Toy.{toy, toy-AeadLaws, toy-SignatureLaws, key_bytes}

abbrev sealed_of : Result Encrypted → Encrypted
sealed_of (ok e) = e
sealed_of _ = record { nonce = []; ciphertext = [] }

abbrev sealed : Encrypted
sealed = sealed_of (Aead.encrypt toy (key_bytes 5) (42 ∷ 43 ∷ []) (7 ∷ []) 9).0

seals : Aead.encrypt toy (key_bytes 5) (42 ∷ 43 ∷ []) (7 ∷ []) 9 ≡ (ok sealed, 10)
unfolding Aead.encrypt
seals = refl

decrypt-encrypt_example : Aead.decrypt toy (key_bytes 5) sealed (7 ∷ []) ≡ ok (42 ∷ 43 ∷ [])
decrypt-encrypt_example =
    RoundTrip.decrypt-encrypt toy toy-AeadLaws (key_bytes 5) (42 ∷ 43 ∷ []) (7 ∷ []) 9 10 sealed
      seals

from_bytes-ok_iff_example :
    (k : IdentityKeyPair toy) × (Identity.from_bytes toy (key_bytes 3) (key_bytes 4) ≡ ok k)
    × (Identity.secret_bytes toy k ≡ key_bytes 3)
    × IsIdentity k
from_bytes-ok_iff_example = (from_bytes-ok_iff toy (key_bytes 3) (key_bytes 4)).1 (refl, refl)

generate_batch_lem_example :
    (k : OneTimePreKey toy) × (get_elem? (Identity.generate_batch toy 5 20).0 3 ≡ some k)
    × (k.id ≡ 3 % 2 ^ 32)
    × IsOneTime k
generate_batch_lem_example = (generate_batch_lem toy 5 20).1 3 (omega arith)

generate_signed_lem_example :
    (k : SignedPreKey toy) × ((Identity.generate_signed toy
        (Identity.from_seed toy (key_bytes 3) 4)
        8).0
      ≡ ok k)
    × IsSigned k
    × (Identity.verify_signature toy k (Identity.from_seed toy (key_bytes 3) 4) ≡ true)
generate_signed_lem_example =
    generate_signed_lem toy toy-SignatureLaws (Identity.from_seed toy (key_bytes 3) 4) 8
