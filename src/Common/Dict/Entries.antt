-- ===== src/Common/Dict/Entries.antt =====
-- Maps built from their entries: `iter().collect()`, and inserting one after the other.
use mathlib.Core.Path.{◌≡◌, refl, sym, ap, subst, ◌∙◌}
use mathlib.Core.Logic.{◌≢◌, inl, inr}
use mathlib.Core.List.{List, [], ◌∷◌, ◌++◌, append-nil, append_assoc}
use native.Mathlib.Omega.{arith}
use ghostcrypt_crypto_core.Common.Tests.{Bool-cases}
use ghostcrypt_crypto_core.Common.Keys.{Eq, ◌==◌}
use ghostcrypt_crypto_core.Common.Dict.{Dict, assign, insert, empty}

module _ {ℓ κ} {K : Type ℓ} {V : Type κ} ⦃e : Eq K⦄ where
  -- No entry of the list has the key.
  abbrev pub Absent : K → List (K × V) → Type ℓ
  Absent k [] = Unit
  Absent k ((j, v) ∷ m) = (j ≢ k) × Absent k m

  -- The keys of a list of entries are different, as those of a `HashMap` are.
  abbrev pub DistinctKeys : List (K × V) → Type ℓ
  DistinctKeys [] = Unit
  DistinctKeys ((k, v) ∷ m) = Absent k m × DistinctKeys m

  -- for (k, v) in entries { map.insert(k, v); }
  unfoldable pub insert_all : List (K × V) → Dict K V → Dict K V
  insert_all [] d = d
  insert_all ((k, v) ∷ m) d = insert_all m (insert d k v)

  assign-Absent : (k : K) (v : V) (m : List (K × V)) → Absent k m → assign k v m ≡ m ++ (k, v) ∷ []
  unfolding assign
  assign-Absent k v [] h = refl
  assign-Absent k v ((j, w) ∷ m) h = ground (arith, e.same_iff j k, assign-Absent k v m h.1)

  Absent-append :
      (k j : K) (v : V) (m : List (K × V)) → Absent k m → j ≢ k → Absent k (m ++ (j, v) ∷ [])
  Absent-append k j v [] h n = (n, tt)
  Absent-append k j v ((i, w) ∷ m) h n = (h.0, Absent-append k j v m h.1 n)

  -- None of the keys of the second list is in the first one.
  abbrev Apart : List (K × V) → List (K × V) → Type ℓ
  Apart m [] = Unit
  Apart m ((k, v) ∷ n) = Absent k m × Apart m n

  Apart-append :
      (m n : List (K × V)) (k : K) (v : V) → Apart m n → Absent k n → Apart (m ++ (k, v) ∷ []) n
  Apart-append m [] k v h a = tt
  Apart-append m ((j, w) ∷ n) k v h a =
      (Absent-append j k v m h.0 (λ same. a.0 (sym same)), Apart-append m n k v h.1 a.1)

  Apart-nil : (n : List (K × V)) → Apart [] n
  Apart-nil [] = tt
  Apart-nil ((k, v) ∷ n) = (tt, Apart-nil n)

  insert_all-append :
      (n m : List (K × V))
      → DistinctKeys n
      → Apart m n
      → insert_all n (record { entries = m }) ≡ record { entries = m ++ n }
  unfolding insert_all insert
  insert_all-append [] m d h =
      ap (λ (es : List (K × V)). record { entries = es }) (sym (append-nil m))
  insert_all-append ((k, v) ∷ n) m d h =
      ap (λ (es : List (K × V)). insert_all n (record { entries = es })) (assign-Absent k v m h.0)
      ∙ insert_all-append n (m ++ (k, v) ∷ []) d.1 (Apart-append m n k v h.1 d.0)
      ∙ ap (λ (es : List (K × V)). record { entries = es }) (append_assoc m ((k, v) ∷ []) n)

  -- Entries with different keys are put into an empty map as they stand.
  pub insert_all-empty :
      (n : List (K × V)) → DistinctKeys n → insert_all n empty ≡ record { entries = n }
  insert_all-empty n d = insert_all-append n [] d (Apart-nil n)

  Absent-assign :
      (j k : K) (v : V) (m : List (K × V)) → Absent j m → k ≢ j → Absent j (assign k v m)
  unfolding assign
  Absent-assign j k v [] h n = (n, tt)
  Absent-assign j k v ((i, w) ∷ m) h n = elim (Bool-cases (i == k)) [
    | inl t ↦ rw t (n, h.1)
    | inr f ↦ rw f (h.0, Absent-assign j k v m h.1 n)
  ]

  assign-DistinctKeys :
      (k : K) (v : V) (m : List (K × V)) → DistinctKeys m → DistinctKeys (assign k v m)
  unfolding assign
  assign-DistinctKeys k v [] h = (tt, tt)
  assign-DistinctKeys k v ((i, w) ∷ m) h = elim (Bool-cases (i == k)) [
    | inl t ↦ rw t (subst (λ j. Absent j m) ((e.same_iff i k).0 t) h.0, h.1)
    | inr f ↦ rw f (
      Absent-assign i k v m h.0 (λ same. ground (arith, e.same_iff i k, sym same)),
      assign-DistinctKeys k v m h.1,
    )
  ]

  -- Inserting keeps the keys different.
  pub insert-DistinctKeys :
      (d : Dict K V) (k : K) (v : V) → DistinctKeys d.entries → DistinctKeys (insert d k v).entries
  unfolding insert
  insert-DistinctKeys d k v h = assign-DistinctKeys k v d.entries h
