-- ===== src/Mls/Made.antt =====
-- The group states that a device can hold: those that the operations of src/mls/mod.rs write.
use ghostcrypt_crypto_core.Common.{ℕ, ◌≡◌, Bytes, nat_eq, list_eq}
use ghostcrypt_crypto_core.Error.{ok}
use ghostcrypt_crypto_core.Mls.Types.{
  CreateGroupResult, AddMemberResult, RemoveMemberResult, MlsEncrypted, MlsDecrypted,
  ProcessCommitResult, ProcessWelcomeResult,
}
use ghostcrypt_crypto_core.Mls.Bundle.{MlsCrates}
use ghostcrypt_crypto_core.Mls.Groups.{create_group, add_member, remove_member}
use ghostcrypt_crypto_core.Mls.Messages.{
  encrypt_message, decrypt_message, process_commit, process_welcome,
}
use ghostcrypt_crypto_core.Mls.Laws.{MlsLaws}
use ghostcrypt_crypto_core.Mls.Usable.{Usable, Saved}
use ghostcrypt_crypto_core.Mls.Sent.{encrypt_message-Saved, add_member-Saved, remove_member-Saved}
use ghostcrypt_crypto_core.Mls.Received.{
  decrypt_message-Saved, process_commit-Saved, create_group-Saved, process_welcome-Saved,
}

module _ {Rng : Type 0} (x : MlsCrates Rng) where
  -- The group states that operations have written, each from one that was there before
  pub data Made : Bytes → Type 0 where
    created :
        (identity : Bytes) (rng : Rng) (r : CreateGroupResult)
        → (create_group x identity rng).0 ≡ ok r
        → Made r.group_state
    joined :
        (welcome secret_bundle : Bytes) (rng : Rng) (r : ProcessWelcomeResult)
        → (process_welcome x welcome secret_bundle rng).0 ≡ ok r
        → Made r.group_state
    added :
        (state key_package : Bytes) (rng : Rng) (r : AddMemberResult)
        → Made state
        → (add_member x state key_package rng).0 ≡ ok r
        → Made r.group_state
    removed :
        (state : Bytes) (leaf_index : ℕ) (rng : Rng) (r : RemoveMemberResult)
        → Made state
        → (remove_member x state leaf_index rng).0 ≡ ok r
        → Made r.group_state
    encrypted :
        (state plaintext : Bytes) (rng : Rng) (r : MlsEncrypted)
        → Made state
        → (encrypt_message x state plaintext rng).0 ≡ ok r
        → Made r.group_state
    decrypted :
        (state mls_message : Bytes) (rng : Rng) (r : MlsDecrypted)
        → Made state
        → (decrypt_message x state mls_message rng).0 ≡ ok r
        → Made r.group_state
    committed :
        (state commit : Bytes) (rng : Rng) (r : ProcessCommitResult)
        → Made state
        → (process_commit x state commit rng).0 ≡ ok r
        → Made r.group_state

  module _ (laws : MlsLaws x) where
    usable :
        (state : Bytes) (n : ℕ) → Saved x state n → (group : x.openmls.Group) × Usable x state group
    usable state n s = (s.0, s.1)

    -- Every group state that an operation wrote, starting from states that operations wrote, can be
    -- opened, and gives a group that its key store holds.
    pub Made-Usable :
        (state : Bytes) → Made state → (group : x.openmls.Group) × Usable x state group
    Made-Usable state (created identity rng r h) =
        usable r.group_state r.epoch ((create_group-Saved x laws identity rng).holds r h)
    Made-Usable state (joined welcome secret_bundle rng r h) =
        usable r.group_state r.epoch
          ((process_welcome-Saved x laws welcome secret_bundle rng).holds r h)
    Made-Usable state (added before key_package rng r m h) =
        let (group, u) = Made-Usable before m in
        usable r.group_state r.epoch
          ((add_member-Saved x laws before key_package group rng u).holds r h)
    Made-Usable state (removed before leaf_index rng r m h) =
        let (group, u) = Made-Usable before m in
        usable r.group_state r.epoch
          ((remove_member-Saved x laws before leaf_index group rng u).holds r h)
    Made-Usable state (encrypted before plaintext rng r m h) =
        let (group, u) = Made-Usable before m in
        usable r.group_state r.epoch
          ((encrypt_message-Saved x laws before plaintext group rng u).holds r h)
    Made-Usable state (decrypted before mls_message rng r m h) =
        let (group, u) = Made-Usable before m in
        let (n, s) = (decrypt_message-Saved x laws before mls_message group rng u).holds r h in
        usable r.group_state n s
    Made-Usable state (committed before commit rng r m h) =
        let (group, u) = Made-Usable before m in
        usable r.group_state r.epoch
          ((process_commit-Saved x laws before commit group rng u).holds r h)
