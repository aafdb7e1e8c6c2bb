-- ===== src/Common/Keys.antt =====
-- Equality of keys as an interface, with instances for numbers, byte strings and pairs.
use Prim.Native.Nat.{ℕ}
use Prim.Native.String.{String}
use text.Mathlib.Text
use text.Mathlib.TextEquality.{eq_iff}
use mathlib.Core.Path.{◌≡◌, refl}
use mathlib.Core.Logic.{◌↔◌}
use mathlib.Core.Bool.{Bool, true, false, ◌&&◌}
use mathlib.Core.List.{List, [], ◌∷◌}
use native.Mathlib.Omega.{arith}
use ghostcrypt_crypto_core.Common.Tests.{nat_eqb, nat_eqb_iff}

pub record Eq {ℓ} (Key : Type ℓ) : Type ℓ where
  pub same : Key → Key → Bool
  pub same_iff : (x y : Key) → (same x y ≡ true) ↔ (x ≡ y)

module _ {ℓ} {Key : Type ℓ} ⦃keys : Eq Key⦄ where
  infix 50 ◌==◌
  abbrev pub ◌==◌ : Key → Key → Bool
  x == y = keys.same x y

  pub same_refl : (x : Key) → (x == x) ≡ true
  same_refl x = (keys.same_iff x x).1 refl

instance abbrev pub string_eq : Eq String
string_eq = record { same = Text.◌==◌; same_iff = eq_iff }

instance abbrev pub nat_eq : Eq ℕ
nat_eq = record { same = nat_eqb; same_iff = nat_eqb_iff }

module _ {ℓ} {A : Type ℓ} ⦃e : Eq A⦄ where
  unfoldable pub list_eqb : List A → List A → Bool
  list_eqb [] [] = true
  list_eqb (x ∷ xs) (y ∷ ys) = x == y && list_eqb xs ys
  list_eqb _ _ = false

  pub list_eqb_iff : (xs ys : List A) → (list_eqb xs ys ≡ true) ↔ (xs ≡ ys)
  unfolding list_eqb
  list_eqb_iff [] [] = ground arith
  list_eqb_iff [] (y ∷ ys) = ground arith
  list_eqb_iff (x ∷ xs) [] = ground arith
  list_eqb_iff (x ∷ xs) (y ∷ ys) = ground (arith, e.same_iff x y, list_eqb_iff xs ys)

  instance abbrev pub list_eq : Eq (List A)
  list_eq = record { same = list_eqb; same_iff = list_eqb_iff }

module _ {ℓ κ} {A : Type ℓ} {B : Type κ} ⦃e : Eq A⦄ ⦃f : Eq B⦄ where
  unfoldable pub pair_eqb : A × B → A × B → Bool
  pair_eqb p q = p.0 == q.0 && p.1 == q.1

  pub pair_eqb_iff : (p q : A × B) → (pair_eqb p q ≡ true) ↔ (p ≡ q)
  unfolding pair_eqb
  pair_eqb_iff p q = ground (arith, e.same_iff p.0 q.0, f.same_iff p.1 q.1)

  instance abbrev pub pair_eq : Eq (A × B)
  pair_eq = record { same = pair_eqb; same_iff = pair_eqb_iff }
