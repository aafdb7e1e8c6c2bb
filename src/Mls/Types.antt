-- ===== src/Mls/Types.antt =====
-- The result types of src/mls/mod.rs, and the signatures of its operations. Group states, messages
-- and bundles are byte strings to the rest of the program.
use ghostcrypt_crypto_core.Common.{ℕ, Bytes}
use ghostcrypt_crypto_core.Exec.{Exec}

pub record KeyPackageResult : Type 0 where
  pub key_package : Bytes
  pub secret_bundle : Bytes

pub record CreateGroupResult : Type 0 where
  pub group_state : Bytes
  pub group_id : Bytes
  pub epoch : ℕ

pub record AddMemberResult : Type 0 where
  pub commit : Bytes
  pub welcome : Bytes
  pub group_state : Bytes
  pub epoch : ℕ

pub record RemoveMemberResult : Type 0 where
  pub commit : Bytes
  pub group_state : Bytes
  pub epoch : ℕ

pub record MlsEncrypted : Type 0 where
  pub mls_ciphertext : Bytes
  pub group_state : Bytes
  pub epoch : ℕ

pub record MlsDecrypted : Type 0 where
  pub plaintext : Bytes
  pub group_state : Bytes

pub record ProcessCommitResult : Type 0 where
  pub group_state : Bytes
  pub epoch : ℕ

pub record ProcessWelcomeResult : Type 0 where
  pub group_state : Bytes
  pub group_id : Bytes
  pub epoch : ℕ

-- The operations, over a random source
pub record MlsOps (Rng : Type 0) : Type 0 where
  pub generate_key_package : Bytes → Exec Rng KeyPackageResult
  pub create_group : Bytes → Exec Rng CreateGroupResult
  pub add_member : Bytes → Bytes → Exec Rng AddMemberResult
  pub remove_member : Bytes → ℕ → Exec Rng RemoveMemberResult
  pub encrypt_message : Bytes → Bytes → Exec Rng MlsEncrypted
  pub decrypt_message : Bytes → Bytes → Exec Rng MlsDecrypted
  pub process_commit : Bytes → Bytes → Exec Rng ProcessCommitResult
  pub process_welcome : Bytes → Bytes → Exec Rng ProcessWelcomeResult
