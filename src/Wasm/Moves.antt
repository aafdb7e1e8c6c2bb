-- ===== src/Wasm/Moves.antt =====
-- What one call of src/wasm.rs may do to the stores.
use ghostcrypt_crypto_core.Common.{ℕ, ◌≡◌, Bytes, Bool, false, some, nat_eq}
use ghostcrypt_crypto_core.Common.Dict
use ghostcrypt_crypto_core.Error.{ok}
use ghostcrypt_crypto_core.Crates.{Crates}
use ghostcrypt_crypto_core.Identity.{IdentityKeyPair, SignedPreKey}
use ghostcrypt_crypto_core.Ratchet.Chain.{u32_suc}
use ghostcrypt_crypto_core.Ratchet.State.{Session}
use ghostcrypt_crypto_core.Mls.Types.{
  MlsOps, CreateGroupResult, AddMemberResult, RemoveMemberResult, MlsEncrypted, MlsDecrypted,
  ProcessCommitResult, ProcessWelcomeResult,
}
use ghostcrypt_crypto_core.Wasm.State.{Instance}

module _ {c : Crates} (mls : MlsOps c.Rng) where
  -- The group states that one operation writes, on a state behind a handle where it takes one
  pub data Wrote (i : Instance c) : Bytes → Type 0 where
    created :
        (identity : Bytes) (rng : c.Rng) (r : CreateGroupResult)
        → (mls.create_group identity rng).0 ≡ ok r
        → Wrote i r.group_state
    joined :
        (welcome secret_bundle : Bytes) (rng : c.Rng) (r : ProcessWelcomeResult)
        → (mls.process_welcome welcome secret_bundle rng).0 ≡ ok r
        → Wrote i r.group_state
    added :
        (handle : ℕ) (state key_package : Bytes) (rng : c.Rng) (r : AddMemberResult)
        → Dict.get i.mls_states handle ≡ some state
        → (mls.add_member state key_package rng).0 ≡ ok r
        → Wrote i r.group_state
    removed :
        (handle : ℕ) (state : Bytes) (leaf_index : ℕ) (rng : c.Rng) (r : RemoveMemberResult)
        → Dict.get i.mls_states handle ≡ some state
        → (mls.remove_member state leaf_index rng).0 ≡ ok r
        → Wrote i r.group_state
    encrypted :
        (handle : ℕ) (state plaintext : Bytes) (rng : c.Rng) (r : MlsEncrypted)
        → Dict.get i.mls_states handle ≡ some state
        → (mls.encrypt_message state plaintext rng).0 ≡ ok r
        → Wrote i r.group_state
    decrypted :
        (handle : ℕ) (state message : Bytes) (rng : c.Rng) (r : MlsDecrypted)
        → Dict.get i.mls_states handle ≡ some state
        → (mls.decrypt_message state message rng).0 ≡ ok r
        → Wrote i r.group_state
    committed :
        (handle : ℕ) (state commit : Bytes) (rng : c.Rng) (r : ProcessCommitResult)
        → Dict.get i.mls_states handle ≡ some state
        → (mls.process_commit state commit rng).0 ≡ ok r
        → Wrote i r.group_state

  -- A call draws at random, and does one of: nothing else; use up a handle; store a key, a session
  -- or a group state under the next handle; change the session of a handle; remove a group state.
  pub data Moves (i : Instance c) : Instance c → Type 0 where
    drew : (rng : c.Rng) → Moves i (record i { rng = rng })
    used_up : (rng : c.Rng) → Moves i (record i { rng = rng; next = u32_suc i.next })
    new_identity :
        (rng : c.Rng) (kp : IdentityKeyPair c)
        → Moves i (record i {
          rng = rng;
          next = u32_suc i.next;
          identity_keys = Dict.insert i.identity_keys i.next kp;
        })
    new_pre_key :
        (rng : c.Rng) (spk : SignedPreKey c)
        → Moves i (record i {
          rng = rng;
          next = u32_suc i.next;
          spk_keys = Dict.insert i.spk_keys i.next spk;
        })
    new_session :
        (rng : c.Rng) (session : Session c)
        → i.sessions_borrowed ≡ false
        → Moves i (record i {
          rng = rng;
          next = u32_suc i.next;
          sessions = Dict.insert i.sessions i.next session;
        })
    changed_session :
        (rng : c.Rng) (handle : ℕ) (session session' : Session c) (borrowed : Bool)
        → i.sessions_borrowed ≡ false
        → Dict.get i.sessions handle ≡ some session
        → Moves i (record i {
          rng = rng;
          sessions = Dict.insert i.sessions handle session';
          sessions_borrowed = borrowed;
        })
    new_group :
        (rng : c.Rng) (state : Bytes)
        → Wrote i state
        → Moves i (record i {
          rng = rng;
          next = u32_suc i.next;
          mls_states = Dict.insert i.mls_states i.next state;
        })
    removed_group :
        (handle : ℕ) → Moves i (record i { mls_states = Dict.remove i.mls_states handle })
