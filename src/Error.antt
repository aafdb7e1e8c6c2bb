-- ===== src/Error.antt =====
-- src/error.rs: the error type and its messages; and what a call of the program may end in.
use ghostcrypt_crypto_core.Common.{String, text_append, ◌≡◌, refl, ◌⊎◌, inl, inr, Bool, true, false}

-- CryptoError
pub data CryptoError : Type 0 where
  key_generation key_exchange encryption decryption invalid_signature invalid_key :
      String → CryptoError
  ratchet serialization mls mls_group_not_found : String → CryptoError

-- The `Display` that the `#[error]` attributes derive.
unfoldable pub to_string : CryptoError → String
to_string (key_generation m) = text_append "Key generation failed: " m
to_string (key_exchange m) = text_append "Key exchange failed: " m
to_string (encryption m) = text_append "Encryption failed: " m
to_string (decryption m) = text_append "Decryption failed: " m
to_string (invalid_signature m) = text_append "Invalid signature: " m
to_string (invalid_key m) = text_append "Invalid key: " m
to_string (ratchet m) = text_append "Ratchet error: " m
to_string (serialization m) = text_append "Serialization error: " m
to_string (mls m) = text_append "MLS error: " m
to_string (mls_group_not_found m) = text_append "MLS group not found: " m

-- A `Result<A, E>` of the program, or a panic in place of a result.
pub data Outcome {ℓ κ} (E : Type ℓ) (A : Type κ) : Type (ℓ ⊔ κ) where
  ok : A → Outcome E A
  err : E → Outcome E A
  panic : Outcome E A

-- `Result<A>` of error.rs.
abbrev pub Result {ℓ} : Type ℓ → Type ℓ
Result A = Outcome CryptoError A

-- A `Result` of a third-party function, its error given by the text that `Display` prints.
pub data Fallible {ℓ} (A : Type ℓ) : Type ℓ where
  value : A → Fallible A
  failed : String → Fallible A

infixl 5 ◌>>=◌ ◌>>◌
abbrev pub ◌>>=◌ {ℓ κ μ} :
    {E : Type ℓ} {A : Type κ} {B : Type μ} → Outcome E A → (A → Outcome E B) → Outcome E B
ok a >>= f = f a
err e >>= f = err e
panic >>= f = panic

abbrev pub ◌>>◌ {ℓ κ} : {E : Type ℓ} {B : Type κ} → Outcome E (Unit {0}) → Outcome E B → Outcome E B
m >> k = m >>= λ _. k

-- `if !b { return Err(e) }`
abbrev pub guard {ℓ} : {E : Type ℓ} → Bool → E → Outcome E (Unit {0})
guard true e = ok tt
guard false e = err e

-- `result.map_err(|e| wrap(format!("prefix{e}")))?`
abbrev pub wrap_err {ℓ} : {A : Type ℓ} → (String → CryptoError) → String → Fallible A → Result A
wrap_err wrap prefix (value a) = ok a
wrap_err wrap prefix (failed e) = err (wrap (text_append prefix e))

-- Inversion of a chain of two calls that succeeded, for proofs where the parts stay shut.
pub >>=-eq-ok {ℓ κ μ} :
    {E : Type ℓ} {A : Type κ} {B : Type μ} (call : Outcome E A) (next : A → Outcome E B) {out : B}
    → (call >>= next) ≡ ok out
    → (mid : A) × (call ≡ ok mid) × (next mid ≡ ok out)
>>=-eq-ok panic next done = cc
>>=-eq-ok (err e) next done = cc
>>=-eq-ok (ok mid) next done = (mid, refl, done)

pub Fallible-cases {ℓ} :
    {A : Type ℓ} (f : Fallible A) → ((a : A) × (f ≡ value a)) ⊎ ((e : String) × (f ≡ failed e))
Fallible-cases (value a) = inl (a, refl)
Fallible-cases (failed e) = inr (e, refl)
