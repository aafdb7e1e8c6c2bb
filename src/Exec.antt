-- ===== src/Exec.antt =====
-- Methods that mutate their object and may return an error or panic. What was written before the
-- error stays written, so the state comes back beside it.
use ghostcrypt_crypto_core.Common.{String, ◌≡◌, refl, subst, Bool, true, false, if◌then◌else◌}
use ghostcrypt_crypto_core.Error.{
  Outcome, ok, err, panic, Result, CryptoError, Fallible, wrap_err, to_string,
}

-- With the errors of src/error.rs
abbrev pub Exec {ℓ κ} : Type ℓ → Type κ → Type (ℓ ⊔ κ)
Exec S A = S → Result A × S

-- With the texts that the API gives for errors
abbrev pub Call {ℓ κ} : Type ℓ → Type κ → Type (ℓ ⊔ κ)
Call S A = S → Outcome String A × S

module _ {ℓ κ μ} {E : Type μ} {S : Type ℓ} {A : Type κ} where
  abbrev pub pure : A → S → Outcome E A × S
  pure a s = (ok a, s)

  abbrev pub lift : Outcome E A → S → Outcome E A × S
  lift r s = (r, s)

  abbrev pub gets : (S → A) → S → Outcome E A × S
  gets f s = (ok (f s), s)

module _ {ℓ μ} {E : Type μ} {S : Type ℓ} where
  abbrev pub modify : (S → S) → S → Outcome E (Unit {0}) × S
  modify f s = (ok tt, f s)

module _ {ℓ κ μ ν} {E : Type ν} {S : Type ℓ} {A : Type κ} {B : Type μ} where
  abbrev pub continue : Outcome E A → (A → S → Outcome E B × S) → S → Outcome E B × S
  continue (ok a) f s = f a s
  continue (err e) f s = (err e, s)
  continue panic f s = (panic, s)

  infixl 5 ◌>>=◌
  abbrev pub ◌>>=◌ : (S → Outcome E A × S) → (A → S → Outcome E B × S) → S → Outcome E B × S
  ◌>>=◌ m f s = continue (m s).0 f (m s).1

module _ {ℓ μ ν} {E : Type ν} {S : Type ℓ} {B : Type μ} where
  infixl 5 ◌>>◌
  abbrev pub ◌>>◌ : (S → Outcome E (Unit {0}) × S) → (S → Outcome E B × S) → S → Outcome E B × S
  m >> n = m >>= λ _. n

module _ {ℓ κ μ} {S : Type ℓ} {A : Type κ} {B : Type μ} where
  -- A step that succeeds hands its result and its state on.
  pub >>=-ok :
      (m : Exec S A) (f : A → Exec S B) (s : S) {a : A} {t : S}
      → m s ≡ (ok a, t)
      → (m >>= f) s ≡ f a t
  >>=-ok m f s h = rw h

module _ {ℓ μ ν} {E : Type ν} {S : Type ℓ} {B : Type μ} where
  -- A property of the state after either branch of a test
  pub if-leaves {ρ} :
      (P : S → Type ρ) (b : Bool) (x y : Outcome E B × S)
      → (b ≡ true → P x.1)
      → (b ≡ false → P y.1)
      → P (if b then x else y).1
  if-leaves P true x y whole other = whole refl
  if-leaves P false x y whole other = other refl

-- `result.map_err(map_err)`, which prints the error.
abbrev pub print_err {ℓ} : {A : Type ℓ} → Result A → Outcome String A
print_err (ok a) = ok a
print_err (err e) = err (to_string e)
print_err panic = panic

module _ {ℓ κ μ ν} {E : Type ν} {S : Type ℓ} {A : Type κ} {B : Type μ} where
  -- A property of the state after a chain of calls, from the state between them
  pub continue-after {ρ} :
      (P : S → Type ρ) (r : Outcome E A) (f : A → S → Outcome E B × S) (t : S)
      → P t
      → ((a : A) → P (f a t).1)
      → P (continue r f t).1
  continue-after P (ok a) f t between after = after a
  continue-after P (err e) f t between after = between
  continue-after P panic f t between after = between

  -- The same as `continue-after`, where the rest needs to know what the first call gave
  pub continue-leaves {ρ} :
      (P : S → Type ρ) (r : Outcome E A) (f : A → S → Outcome E B × S) (t : S)
      → P t
      → ((a : A) → r ≡ ok a → P (f a t).1)
      → P (continue r f t).1
  continue-leaves P (ok a) f t between after = after a refl
  continue-leaves P (err e) f t between after = between
  continue-leaves P panic f t between after = between

  -- A chain of calls that succeeds is one whose first call succeeds.
  pub continue-ok :
      (r : Outcome E A) (f : A → S → Outcome E B × S) (t : S) {b : B} {u : S}
      → continue r f t ≡ (ok b, u)
      → (a : A) × (r ≡ ok a) × (f a t ≡ (ok b, u))
  continue-ok (ok a) f t h = (a, refl, h)
  continue-ok (err e) f t h = cc
  continue-ok panic f t h = cc

pub print_err-ok {ℓ} : {A : Type ℓ} (r : Result A) {a : A} → print_err r ≡ ok a → r ≡ ok a
print_err-ok (ok b) h = cc
print_err-ok (err e) h = cc
print_err-ok panic h = cc

pub ok-injective {ℓ κ μ} :
    {E : Type μ} {S : Type ℓ} {A : Type κ} {x y : A} {s t : S}
    → Path (Outcome E A × S) (ok x, s) (ok y, t)
    → x ≡ y
ok-injective h = cc

-- `call.map_err(|e| wrap(format!("prefix{e}")))?` of a third-party call that changes its state
abbrev pub attempt {ℓ κ} :
    {S : Type ℓ} {A : Type κ} → (String → CryptoError) → String → (S → Fallible A × S) → Exec S A
attempt wrap prefix call s = let (r, s') = call s in (wrap_err wrap prefix r, s')

-- A property of the result, where the call has one
pub record WhenOk {ℓ κ μ ν} {E : Type μ} {S : Type ν} {A : Type ℓ} (P : A → Type κ)
    (out : Outcome E A × S) : Type (ℓ ⊔ κ ⊔ μ) where
  pub holds : (a : A) → out.0 ≡ ok a → P a

module _ {ℓ κ μ ν} {E : Type ν} {S : Type ℓ} {A : Type κ} {B : Type μ} where
  -- The rule for a chain of calls: the rest is looked at where the first one succeeds.
  pub continue-WhenOk {ρ} :
      (P : B → Type ρ) (r : Outcome E A) (f : A → S → Outcome E B × S) (t : S)
      → ((a : A) → r ≡ ok a → WhenOk P (f a t))
      → WhenOk P (continue r f t)
  continue-WhenOk P (ok a) f t h = h a refl
  continue-WhenOk P (err e) f t h = record { holds = λ a bad. cc }
  continue-WhenOk P panic f t h = record { holds = λ a bad. cc }

pub pure-WhenOk {ℓ κ μ ν} :
    {E : Type μ} {S : Type ν} {A : Type ℓ} (P : A → Type κ) (a : A) (s : S)
    → P a
    → WhenOk {E = E} P (ok a, s)
pure-WhenOk P a s h = record { holds = λ b e. subst P (cc e) h }
