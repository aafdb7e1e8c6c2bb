-- ===== src/Examples/ToyText.antt =====
-- A stand-in for base64, which writes a byte in unary, and one for serde.
use Prim.Native.Char.{code}
use ghostcrypt_crypto_core.Common.{
  ℕ, zero, suc, ◌+◌, ◌≡◌, refl, sym, ap, ◌∙◌, Bool, true, false, Bytes, String, [], ◌∷◌, nat_eqb,
  if◌then◌else◌, arith, nat_eq, list_eq, Eq, ◌==◌,
}
use ghostcrypt_crypto_core.Error.{Fallible, value, failed}
use ghostcrypt_crypto_core.Encoding.Base64.{Base64, Base64Laws}
use ghostcrypt_crypto_core.Encoding.Serde.{Codec, ReadsBack}

abbrev pub units : ℕ → String → String
units zero s = s
units (suc n) s = String.◌∷◌ "a" (units n s)

abbrev unary : Bytes → String
unary [] = String.[]
unary (n ∷ bytes) = units n (String.◌∷◌ "b" (unary bytes))

abbrev put_byte : ℕ → Fallible Bytes → Fallible Bytes
put_byte n (value bytes) = value (n ∷ bytes)
put_byte n (failed e) = failed e

abbrev count_units : ℕ → String → Fallible Bytes
count_units zero String.[] = value []
count_units (suc n) String.[] = failed "Invalid padding"
count_units n (String.◌∷◌ c s) = elim (nat_eqb (code c) b'b') [
  | true ↦ put_byte n (count_units 0 s)
  | false ↦ count_units (suc n) s
]

abbrev pub toy_base64 : Base64
toy_base64 = record { encode = unary; decode = count_units 0 }

count_units-units : (k n : ℕ) (s : String) → count_units k (units n s) ≡ count_units (n + k) s
count_units-units k zero s = ap (λ m. count_units m s) (omega arith)
count_units-units k (suc n) s =
    count_units-units (suc k) n s ∙ ap (λ m. count_units m s) (omega arith)

count_units-unary : (bytes : Bytes) → count_units 0 (unary bytes) ≡ value bytes
count_units-unary [] = refl
count_units-unary (n ∷ bytes) =
    count_units-units 0 n (String.◌∷◌ "b" (unary bytes))
    ∙ ap (put_byte (n + 0)) (count_units-unary bytes)
    ∙ ap (λ m. value (m ∷ bytes)) (omega arith)

pub toy_base64-Base64Laws : Base64Laws toy_base64
toy_base64-Base64Laws = record { decode-encode = count_units-unary }

written :
    (same : Bool) (b bytes : Bytes)
    → (if same then value b else failed "Error") ≡ value bytes
    → (same ≡ true) × (b ≡ bytes)
written true b bytes h = (refl, cc)
written false b bytes h = cc

-- Writes what `rebuild` reads again, and fails on all else
module _ {A : Type 0} {Parts : Type 0} ⦃e : Eq Parts⦄ (parts : A → Parts) (make : Parts → A)
    (guess : A → Bytes) (rebuild : Bytes → A) where
  abbrev pub toy_codec : Codec A
  toy_codec = record {
    to_vec = λ a. if parts (rebuild (guess a)) == parts a then value (guess a) else failed "Error";
    from_slice = λ bytes. value (rebuild bytes);
  }

  pub toy_codec-ReadsBack : ((a : A) → make (parts a) ≡ a) → ReadsBack toy_codec
  toy_codec-ReadsBack back a bytes h =
      let (t, same) = written (parts (rebuild (guess a)) == parts a) (guess a) bytes h in
      let read = (e.same_iff (parts (rebuild (guess a))) (parts a)).0 t in
      rw (sym same) (ap (λ r. value r) (sym (back (rebuild (guess a))) ∙ ap make read ∙ back a))
