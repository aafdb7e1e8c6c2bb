-- ===== src/Api/Handles.antt =====
-- What the operations of a handle store do to its entries.
use ghostcrypt_crypto_core.Common.{
  ℕ, ◌+◌, ◌≤◌, ◌<◌, ◌≡◌, ◌≢◌, refl, ◌∙◌, ◌↔◌, String, true, false, Option-cases, none, some, inl,
  inr, nat_eqb, nat_eq, if◌then◌else◌, arith,
}
use ghostcrypt_crypto_core.Common.Dict.{get-insert, get-remove}
use ghostcrypt_crypto_core.Error.{ok, err}
use ghostcrypt_crypto_core.Ratchet.Chain.{u32_mod, u32_suc, u32_suc-small}
use ghostcrypt_crypto_core.Api.Store.{
  Store, entry, set_entry, insert_new, find, destroy, is_some, lock_error,
}

module _ {A : Type 0} where
  -- No handle from `next` on is in use.
  abbrev pub Fresh : Store A → Type 0
  Fresh s = (handle : ℕ) → s.next ≤ handle → entry s handle ≡ none

  pub entry-set_entry :
      (handle other : ℕ) (a : A) (s : Store A)
      → entry (set_entry handle a s) other
        ≡ (if nat_eqb handle other then some a else entry s other)
  unfolding entry set_entry
  entry-set_entry handle other a s = get-insert s.slots handle other a

  pub entry-set_entry-same :
      (handle : ℕ) (a : A) (s : Store A) → entry (set_entry handle a s) handle ≡ some a
  entry-set_entry-same handle a s = ground (arith, entry-set_entry handle handle a s)

  pub entry-set_entry-other :
      (handle other : ℕ) (a : A) (s : Store A)
      → other ≢ handle
      → entry (set_entry handle a s) other ≡ entry s other
  entry-set_entry-other handle other a s h = ground (arith, entry-set_entry handle other a s)

  -- What storing a value under a new handle does
  pub record Inserts (a : A) (s s' : Store A) : Type 0 where
    pub unused : entry s s.next ≡ none
    pub stored : entry s' s.next ≡ some a
    pub others : (handle : ℕ) → handle ≢ s.next → entry s' handle ≡ entry s handle
    pub fresh : Fresh s'
    pub healthy : s'.poisoned ≡ false

  pub insert_new-Inserts :
      (prefix : String) (a : A) (s : Store A)
      → Fresh s
      → s.poisoned ≡ false
      → s.next + 1 < u32_mod
      → (s' : Store A) × (insert_new prefix a s ≡ (ok s.next, s')) × Inserts a s s'
  unfolding insert_new entry set_entry
  insert_new-Inserts prefix a s fresh healthy room =
      let s₁ : Store A = record s { next = u32_suc s.next } in
      let others : (h : ℕ) → h ≢ s.next → entry (set_entry s.next a s₁) h ≡ entry s h =
        λ h differ. entry-set_entry-other s.next h a s₁ differ in
      (
        set_entry s.next a s₁,
        rw healthy refl,
        record {
          unused = fresh s.next (omega arith);
          stored = entry-set_entry-same s.next a s₁;
          others = others;
          fresh = λ h le.
              let above : s.next < h = omega (arith, u32_suc-small s.next room) in
              others h (omega arith) ∙ fresh h (omega arith);
          healthy = healthy;
        },
      )

  pub find-some :
      (prefix missing : String) (handle : ℕ) (a : A) (s : Store A)
      → s.poisoned ≡ false
      → entry s handle ≡ some a
      → find prefix missing handle s ≡ ok a
  unfolding find
  find-some prefix missing handle a s healthy at = rw (healthy, at) refl

  pub find-poisoned :
      (prefix missing : String) (handle : ℕ) (s : Store A)
      → s.poisoned ≡ true
      → find prefix missing handle s ≡ err (lock_error prefix)
  unfolding find
  find-poisoned prefix missing handle s bad = rw bad refl

  -- A poisoned store gives nothing up.
  pub destroy-poisoned : (handle : ℕ) (s : Store A) → s.poisoned ≡ true → (destroy handle s).1 ≡ s
  unfolding destroy
  destroy-poisoned handle s bad = rw bad refl

  pub entry-destroy :
      (handle : ℕ) (s : Store A)
      → s.poisoned ≡ false
      → let (removed, s') = destroy handle s in
        ((removed ≡ true) ↔ (entry s handle ≢ none))
        × (entry s' handle ≡ none)
        × ((other : ℕ) → other ≢ handle → entry s' other ≡ entry s other)
  unfolding destroy entry is_some
  entry-destroy handle s healthy = elim (Option-cases (entry s handle)) [
    | inl e ↦ rw healthy (
      (λ h. absurd (ground (arith, h, e)), λ h. absurd (h e)),
      ground (arith, get-remove s.slots handle handle),
      λ other differ. ground (arith, get-remove s.slots handle other),
    )
    | inr (a, e) ↦ rw healthy (
      (λ h none_there. cc (e, none_there), λ h. rw e refl),
      ground (arith, get-remove s.slots handle handle),
      λ other differ. ground (arith, get-remove s.slots handle other),
    )
  ]
