-- ===== src/Common/Dict.antt =====
-- `HashMap` as an association list with one entry a key. Where the program iterates over a map, the
-- order is that of the list; no theorem rests on which order it is.
pub mod Entries
use Prim.Native.Nat.{ℕ, ◌+◌, ◌≤◌}
use mathlib.Core.Path.{◌≡◌, refl}
use mathlib.Core.List.{List, [], ◌∷◌}
use mathlib.Core.Option.{Option, none, some}
use native.Mathlib.Omega.{arith}
use ghostcrypt_crypto_core.Common.Tests.{if◌then◌else◌}
use ghostcrypt_crypto_core.Common.Lists.{length}
use ghostcrypt_crypto_core.Common.Keys.{Eq, ◌==◌}

pub record Dict {ℓ κ} (K : Type ℓ) (V : Type κ) : Type (ℓ ⊔ κ) where
  pub entries : List (K × V)

module _ {ℓ κ} {K : Type ℓ} {V : Type κ} ⦃e : Eq K⦄ where
  lookup : K → List (K × V) → Option V
  lookup k [] = none
  lookup k ((j, v) ∷ m) = if j == k then some v else lookup k m

  assign : K → V → List (K × V) → List (K × V)
  assign k v [] = (k, v) ∷ []
  assign k v ((j, w) ∷ m) = if j == k then (k, v) ∷ m else (j, w) ∷ assign k v m

  without : K → List (K × V) → List (K × V)
  without k [] = []
  without k ((j, v) ∷ m) = let rest = without k m in if j == k then rest else (j, v) ∷ rest

  -- map.get(&k)
  unfoldable pub get : Dict K V → K → Option V
  unfolding lookup
  get d k = lookup k d.entries

  -- map.insert(k, v)
  unfoldable pub insert : Dict K V → K → V → Dict K V
  unfolding assign
  insert d k v = record { entries = assign k v d.entries }

  -- map.remove(&k)
  unfoldable pub remove : Dict K V → K → Dict K V
  unfolding without
  remove d k = record { entries = without k d.entries }

  lookup-assign :
      (k j : K) (v : V) (m : List (K × V))
      → lookup j (assign k v m) ≡ (if k == j then some v else lookup j m)
  unfolding lookup assign
  lookup-assign k j v [] = refl
  lookup-assign k j v ((i, w) ∷ m) =
      ground (arith, e.same_iff k j, e.same_iff i k, e.same_iff i j, lookup-assign k j v m)

  lookup-without :
      (k j : K) (m : List (K × V)) → lookup j (without k m) ≡ (if k == j then none else lookup j m)
  unfolding lookup without
  lookup-without k j [] = ground arith
  lookup-without k j ((i, w) ∷ m) =
      ground (arith, e.same_iff k j, e.same_iff i k, e.same_iff i j, lookup-without k j m)

  length-assign : (k : K) (v : V) (m : List (K × V)) → length (assign k v m) ≤ length m + 1
  unfolding assign
  length-assign k v [] = omega arith
  length-assign k v ((i, w) ∷ m) = ground (arith, length-assign k v m)

  length-without : (k : K) (m : List (K × V)) → length (without k m) ≤ length m
  unfolding without
  length-without k [] = omega arith
  length-without k ((i, w) ∷ m) = ground (arith, length-without k m)

  length-without-in :
      (k : K) (v : V) (m : List (K × V)) → lookup k m ≡ some v → length (without k m) + 1 ≤ length m
  unfolding lookup without
  length-without-in k v [] h = cc
  length-without-in k v ((i, w) ∷ m) h = ground (arith, length-without k m, length-without-in k v m)

  pub get-insert :
      (d : Dict K V) (k j : K) (v : V) → get (insert d k v) j ≡ (if k == j then some v else get d j)
  unfolding get insert
  get-insert d k j v = lookup-assign k j v d.entries

  pub get-remove :
      (d : Dict K V) (k j : K) → get (remove d k) j ≡ (if k == j then none else get d j)
  unfolding get remove
  get-remove d k j = lookup-without k j d.entries

  -- map.len()
  unfoldable pub size : Dict K V → ℕ
  size d = length d.entries

  pub size-insert-le : (d : Dict K V) (k : K) (v : V) → size (insert d k v) ≤ size d + 1
  unfolding size insert
  size-insert-le d k v = length-assign k v d.entries

  pub size-remove-le : (d : Dict K V) (k : K) → size (remove d k) ≤ size d
  unfolding size remove
  size-remove-le d k = length-without k d.entries

  -- Removing a key that is there makes the map smaller.
  pub size-remove-lt :
      (d : Dict K V) (k : K) (v : V) → get d k ≡ some v → size (remove d k) + 1 ≤ size d
  unfolding size remove get
  size-remove-lt d k v h = length-without-in k v d.entries h

-- HashMap::new()
abbrev pub empty {ℓ κ} : {K : Type ℓ} {V : Type κ} → Dict K V
empty = record { entries = [] }
