-- ===== src/Mls/OpenMls.antt =====
-- The openmls crates, as far as src/mls/mod.rs calls them.
use ghostcrypt_crypto_core.Common.{ℕ, Bytes, Bool, String, Option, list_eq, nat_eq}
use ghostcrypt_crypto_core.Common.Dict.{Dict}
use ghostcrypt_crypto_core.Error.{Fallible}
use ghostcrypt_crypto_core.Encoding.Serde.{Codec}

-- `OpenMlsRustCrypto`: the values of its `MemoryStorage`, and a random source
pub record Provider (Rng : Type 0) : Type 0 where
  pub values : Dict Bytes Bytes
  pub rng : Rng

-- `ProcessedMessageContent`, an application message as its bytes
pub data ProcessedContent (StagedCommit Proposal : Type 0) : Type 0 where
  application : Bytes → ProcessedContent StagedCommit Proposal
  staged_commit : StagedCommit → ProcessedContent StagedCommit Proposal
  proposal : Proposal → ProcessedContent StagedCommit Proposal
  external_join_proposal : Proposal → ProcessedContent StagedCommit Proposal

-- What `MlsGroupCreateConfig` and `MlsGroupJoinConfig` are built with
pub record GroupCreateConfig : Type 0 where
  pub ciphersuite : String
  pub use_ratchet_tree_extension : Bool

pub record GroupJoinConfig : Type 0 where
  pub use_ratchet_tree_extension : Bool

-- A method that takes `&mut MlsGroup` returns the group after it; on an error the callers drop it.
pub record OpenMls (Rng : Type 0) : Type 1 where
  pub Signer : Type 0
  pub CredentialWithKey : Type 0
  pub KeyPackage : Type 0
  pub KeyPackageIn : Type 0
  pub GroupId : Type 0
  pub Group : Type 0
  pub MessageOut : Type 0
  pub MessageIn : Type 0
  pub ProtocolMessage : Type 0
  pub StagedCommit : Type 0
  pub Proposal : Type 0
  pub Welcome : Type 0
  pub StagedWelcome : Type 0
  -- SignatureKeyPair::new(suite.signature_algorithm()) and store
  pub new_signer : String → Rng → Fallible Signer × Rng
  pub store_signer : Signer → Provider Rng → Fallible (Unit {0}) × Provider Rng
  -- CredentialWithKey { BasicCredential::new(identity).into(), signer.to_public_vec().into() }
  pub credential_with_key : Bytes → Signer → CredentialWithKey
  -- KeyPackage::builder().build(suite, provider, signer, credential), tls_serialize_detached
  pub build_key_package :
      String → Signer → CredentialWithKey → Provider Rng → Fallible KeyPackage × Provider Rng
  pub key_package_bytes : KeyPackage → Fallible Bytes
  -- KeyPackageIn::tls_deserialize_exact and validate
  pub key_package_in : Bytes → Fallible KeyPackageIn
  pub validate : KeyPackageIn → Fallible KeyPackage
  -- MlsGroup::new, load, group_id, epoch
  pub new_group :
      GroupCreateConfig → Signer → CredentialWithKey → Provider Rng → Fallible Group × Provider Rng
  pub load : Dict Bytes Bytes → GroupId → Fallible (Option Group)
  pub group_id : Group → GroupId
  pub id_bytes : GroupId → Bytes
  pub epoch : Group → ℕ
  -- The commit, the welcome and the group
  pub add_members :
      Group
      → Signer
      → KeyPackage
      → Provider Rng
      → Fallible (MessageOut × MessageOut × Group) × Provider Rng
  -- The commit and the group
  pub remove_members :
      Group → Signer → ℕ → Provider Rng → Fallible (MessageOut × Group) × Provider Rng
  pub merge_pending_commit : Group → Provider Rng → Fallible Group × Provider Rng
  pub create_message :
      Group → Signer → Bytes → Provider Rng → Fallible (MessageOut × Group) × Provider Rng
  -- tls_serialize_detached, tls_deserialize_exact, try_into_protocol_message
  pub message_bytes : MessageOut → Fallible Bytes
  pub message_in : Bytes → Fallible MessageIn
  pub protocol_message : MessageIn → Fallible ProtocolMessage
  pub process_message :
      Group
      → ProtocolMessage
      → Provider Rng
      → Fallible (ProcessedContent StagedCommit Proposal × Group) × Provider Rng
  -- The `Debug` text of a content
  pub debug_content : ProcessedContent StagedCommit Proposal → String
  pub merge_staged_commit : Group → StagedCommit → Provider Rng → Fallible Group × Provider Rng
  pub store_pending_proposal : Group → Proposal → Provider Rng → Fallible Group × Provider Rng
  -- The body of a message that is a `Welcome`
  pub extract_welcome : MessageIn → Option Welcome
  -- StagedWelcome::new_from_welcome(provider, config, welcome, None) and into_group
  pub new_from_welcome :
      GroupJoinConfig → Welcome → Provider Rng → Fallible StagedWelcome × Provider Rng
  pub into_group : StagedWelcome → Provider Rng → Fallible Group × Provider Rng
  -- Their serde implementations
  pub signer_codec : Codec Signer
  pub credential_codec : Codec CredentialWithKey
  pub group_id_codec : Codec GroupId
