-- ===== src/Mls/Panics.antt =====
-- src/mls/mod.rs on a group state with an entry that is not base64.
use ghostcrypt_crypto_core.Common.{
  ℕ, ◌≡◌, ◌⊎◌, inl, inr, refl, Bytes, String, List, [], ◌∷◌, ◌++◌, nat_eq, list_eq,
}
use ghostcrypt_crypto_core.Common.Dict
use ghostcrypt_crypto_core.Common.Dict.{Dict}
use ghostcrypt_crypto_core.Error.{ok, panic, failed, Fallible-cases}
use ghostcrypt_crypto_core.Encoding.Base64.{Base64}
use ghostcrypt_crypto_core.Mls.Bundle.{
  MlsCrates, GroupBundle, open_state, deserialize_bundle, load_group, restore_entries,
  restore_store,
}
use ghostcrypt_crypto_core.Mls.Groups.{add_member, remove_member}
use ghostcrypt_crypto_core.Mls.Messages.{encrypt_message, decrypt_message, process_commit}

module _ (b : Base64) where
  -- The key or the value does not decode.
  abbrev pub NotBase64 : String → String → Type 0
  NotBase64 k v = (e : String) × ((b.decode k ≡ failed e) ⊎ (b.decode v ≡ failed e))

  restore_entries-head :
      (k v : String) (rest : List (String × String)) (d : Dict Bytes Bytes)
      → NotBase64 k v
      → restore_entries b ((k, v) ∷ rest) d ≡ panic
  unfolding restore_entries
  restore_entries-head k v rest d (e, inl h) = rw h refl
  restore_entries-head k v rest d (e, inr h) = elim (Fallible-cases (b.decode k)) [
    | inl (key, h') ↦ rw (h', h) refl
    | inr (e', h') ↦ rw h' refl
  ]

  pub restore_entries-panic :
      (before : List (String × String)) (k v : String) (after : List (String × String))
      (d : Dict Bytes Bytes)
      → NotBase64 k v
      → restore_entries b (before ++ (k, v) ∷ after) d ≡ panic
  unfolding restore_entries
  restore_entries-panic [] k v after d h = restore_entries-head k v after d h
  restore_entries-panic ((j, w) ∷ before) k v after d h = elim (Fallible-cases (b.decode j)) [
    | inr (e', h') ↦ rw h' refl
    | inl (key, h') ↦ elim (Fallible-cases (b.decode w)) [
      | inr (e, h'') ↦ rw (h', h'') refl
      | inl (val, h'') ↦
          rw (h', h'') (restore_entries-panic before k v after (Dict.insert d key val) h)
    ]
  ]

module _ {Rng : Type 0} (x : MlsCrates Rng) where
  -- On a group state whose stored key store has an entry that is not base64, wherever it stands,
  -- the operations that take a group state panic; none of them returns an error.
  pub operations-panic :
      (state : Bytes) (bundle : GroupBundle) (before : List (String × String)) (k v : String)
      (after : List (String × String)) (rng : Rng)
      → deserialize_bundle x state ≡ ok bundle
      → bundle.store.entries ≡ before ++ (k, v) ∷ after
      → NotBase64 x.base64 k v
      → ((key_package : Bytes) → add_member x state key_package rng ≡ (panic, rng))
        × ((leaf_index : ℕ) → remove_member x state leaf_index rng ≡ (panic, rng))
        × ((plaintext : Bytes) → encrypt_message x state plaintext rng ≡ (panic, rng))
        × ((message : Bytes) → decrypt_message x state message rng ≡ (panic, rng))
        × ((commit : Bytes) → process_commit x state commit rng ≡ (panic, rng))
  unfolding open_state load_group restore_store add_member remove_member encrypt_message
      decrypt_message process_commit
  operations-panic state bundle before k v after rng h same bad =
      let e₀ = restore_entries-panic x.base64 before k v after Dict.empty bad in
      let e : open_state x state ≡ panic = rw (h, same, e₀) refl in
      (
        (λ key_package. rw e refl),
        (λ leaf_index. rw e refl),
        (λ plaintext. rw e refl),
        (λ message. rw e refl),
        λ commit. rw e refl,
      )
