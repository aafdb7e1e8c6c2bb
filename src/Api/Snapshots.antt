-- ===== src/Api/Snapshots.antt =====
-- A group's states are snapshots: no operation on groups changes the state behind a handle in use.
use ghostcrypt_crypto_core.Common.{
  ℕ, ◌≡◌, ◌≢◌, refl, ap, ◌∙◌, Bytes, Bool-cases, false, none, some, inl, inr, arith,
}
use ghostcrypt_crypto_core.Exec.{Exec, Call, print_err, pure, continue-after, ◌>>=◌}
use ghostcrypt_crypto_core.Crates.{Crates}
use ghostcrypt_crypto_core.Mls.Types.{MlsOps}
use ghostcrypt_crypto_core.Ratchet.Chain.{u32_suc}
use ghostcrypt_crypto_core.Api.Store.{entry, set_entry, insert_new, destroy}
use ghostcrypt_crypto_core.Api.State.{Statics, on_core}
use ghostcrypt_crypto_core.Api.Groups.{
  read_state, store_state, mls_create_group, mls_add_member, mls_remove_member, mls_encrypt_message,
  mls_decrypt_message, mls_process_welcome, mls_process_commit, mls_generate_key_package,
  mls_destroy_state,
}
use ghostcrypt_crypto_core.Api.Handles.{
  Fresh, entry-set_entry-other, entry-destroy, destroy-poisoned,
}

module _ {c : Crates} where
  -- Every group state is still behind its handle, and the sessions are as they were.
  pub record Keeps (g g' : Statics c) : Type 0 where
    pub states :
        (handle : ℕ) (state : Bytes)
        → entry g.mls_states handle ≡ some state
        → entry g'.mls_states handle ≡ some state
    pub sessions : g'.sessions ≡ g.sessions

  -- The state of one handle is gone, unless the store is poisoned, and all others are as they were.
  pub record Drops (handle : ℕ) (g g' : Statics c) : Type 0 where
    pub gone : g.mls_states.poisoned ≡ false → entry g'.mls_states handle ≡ none
    pub others : (other : ℕ) → other ≢ handle → entry g'.mls_states other ≡ entry g.mls_states other
    pub sessions : g'.sessions ≡ g.sessions

  destroy-Drops :
      (handle : ℕ) (g : Statics c)
      → Drops handle g (record g { mls_states = (destroy handle g.mls_states).1 })
  destroy-Drops handle g = elim (Bool-cases g.mls_states.poisoned) [
    | inl bad ↦ record {
      gone = λ good. cc (good, bad);
      others = λ other differ. ap (λ s. entry s other) (destroy-poisoned handle g.mls_states bad);
      sessions = refl;
    }
    | inr good ↦
        let (_, gone, others) = entry-destroy handle g.mls_states good in
        record { gone = λ _. gone; others = others; sessions = refl }
  ]

  -- The same for a computation, started where no handle from the next one on is in use.
  abbrev Keeping {ℓ} : {A : Type ℓ} → Call (Statics c) A → Statics c → Type 0
  Keeping m g = Fresh g.mls_states → Keeps g (m g).1

  store_state-Keeps : (state : Bytes) (g : Statics c) → Keeping (store_state state) g
  unfolding store_state insert_new entry set_entry
  store_state-Keeps state g fresh = elim (Bool-cases g.mls_states.poisoned) [
    | inl bad ↦ rw bad (record { states = λ h s at. at; sessions = refl })
    | inr good ↦ rw good (record {
      states = λ h s at.
          entry-set_entry-other g.mls_states.next h state
            (record (g.mls_states) { next = u32_suc g.mls_states.next })
            (λ same. cc (fresh h (omega arith), at))
          ∙ at;
      sessions = refl;
    })
  ]

  -- A call of the core, the new state stored, and a result made of the two
  store_result-Keeps {ℓ κ} :
      {A : Type ℓ} {B : Type κ} (m : Exec c.Rng A) (state : A → Bytes) (f : A → ℕ → B)
      (g : Statics c)
      → Keeping
          (on_core m >>= λ result. store_state (state result) >>= λ handle. pure (f result handle))
          g
  store_result-Keeps m state f g fresh =
      let (r, rng') = m g.rng in
      continue-after (Keeps g) (print_err r) _ (record g { rng = rng' })
        (record { states = λ h s at. at; sessions = refl })
        (λ result.
          let q = store_state-Keeps (state result) (record g { rng = rng' }) fresh in
          continue-after (Keeps g) (store_state (state result) (record g { rng = rng' })).0 _ _
            (record { states = q.states; sessions = q.sessions })
            (λ handle. record { states = q.states; sessions = q.sessions }))

  -- A call of the core that stores nothing
  result-Keeps {ℓ κ} :
      {A : Type ℓ} {B : Type κ} (m : Exec c.Rng A) (f : A → B) (g : Statics c)
      → Keeps g ((on_core m >>= λ result. pure (f result)) g).1
  result-Keeps m f g =
      let (r, rng') = m g.rng in
      let kept : Keeps g (record g { rng = rng' }) = record {
        states = λ h s at. at;
        sessions = refl;
      } in
      continue-after (Keeps g) (print_err r) _ (record g { rng = rng' }) kept (λ result. kept)

  -- The same after the group's state was read
  read_result-Keeps {ℓ κ} :
      {A : Type ℓ} {B : Type κ} (handle : ℕ) (m : Bytes → Exec c.Rng A) (state : A → Bytes)
      (f : A → ℕ → B) (g : Statics c)
      → Keeping
          (read_state handle >>= λ old.
            on_core (m old) >>= λ result. store_state (state result) >>= λ new. pure (f result new))
          g
  unfolding read_state
  read_result-Keeps handle m state f g fresh =
      continue-after (Keeps g) (read_state handle g).0 _ g
        (record { states = λ h s at. at; sessions = refl })
        (λ old. store_result-Keeps (m old) state f g fresh)

module _ (c : Crates) (mls : MlsOps c.Rng) where
  -- If no handle from the next one on is in use, then none of the operations on groups but
  -- `mls_destroy_state`, whether it succeeds or fails, changes a group state behind a handle, or a
  -- session: an old state can be used again, whatever was done with it. `mls_destroy_state` leaves
  -- the states of all other handles and the sessions as they were, and takes its own away unless
  -- the store is poisoned.
  pub mls-Keeps :
      (g : Statics c) (group_handle leaf_index : ℕ) (bytes secret_bundle : Bytes)
      → Fresh g.mls_states
      → Keeps g (mls_create_group c mls bytes g).1
        × Keeps g (mls_add_member c mls group_handle bytes g).1
        × Keeps g (mls_remove_member c mls group_handle leaf_index g).1
        × Keeps g (mls_encrypt_message c mls group_handle bytes g).1
        × Keeps g (mls_decrypt_message c mls group_handle bytes g).1
        × Keeps g (mls_process_welcome c mls bytes secret_bundle g).1
        × Keeps g (mls_process_commit c mls group_handle bytes g).1
        × Keeps g (mls_generate_key_package c mls bytes g).1
        × Drops group_handle g (mls_destroy_state group_handle g).1
  unfolding mls_create_group mls_add_member mls_remove_member mls_encrypt_message
      mls_decrypt_message mls_process_welcome mls_process_commit mls_generate_key_package
      mls_destroy_state
  mls-Keeps g group_handle leaf_index bytes secret_bundle fresh = (
    store_result-Keeps (mls.create_group bytes) _ _ g fresh,
    read_result-Keeps group_handle (λ old. mls.add_member old bytes) _ _ g fresh,
    read_result-Keeps group_handle (λ old. mls.remove_member old leaf_index) _ _ g fresh,
    read_result-Keeps group_handle (λ old. mls.encrypt_message old bytes) _ _ g fresh,
    read_result-Keeps group_handle (λ old. mls.decrypt_message old bytes) _ _ g fresh,
    store_result-Keeps (mls.process_welcome bytes secret_bundle) _ _ g fresh,
    read_result-Keeps group_handle (λ old. mls.process_commit old bytes) _ _ g fresh,
    result-Keeps (mls.generate_key_package bytes) _ g,
    destroy-Drops group_handle g,
  )
