-- ===== src/Mls/Messages.antt =====
-- src/mls/mod.rs: messages, received commits and welcomes.
use ghostcrypt_crypto_core.Common.{Bytes, String, text_append, Option, none, some, true, []}
use ghostcrypt_crypto_core.Error.{
  CryptoError, Result, ok, err, Fallible, serialization, mls, encryption, decryption, wrap_err,
}
use ghostcrypt_crypto_core.Error
use ghostcrypt_crypto_core.Exec.{Exec, attempt, pure, lift, ◌>>=◌}
use ghostcrypt_crypto_core.Mls.Types.{
  MlsEncrypted, MlsDecrypted, ProcessCommitResult, ProcessWelcomeResult, MlsOps,
}
use ghostcrypt_crypto_core.Mls.OpenMls.{
  Provider, ProcessedContent, application, staged_commit, proposal, external_join_proposal,
  GroupJoinConfig,
}
use ghostcrypt_crypto_core.Mls.Bundle.{MlsCrates, Loaded, restore_store}
use ghostcrypt_crypto_core.Mls.Groups.{
  in_provider, in_group, save, generate_key_package, create_group, add_member, remove_member,
}

abbrev pub default_group_join_config : GroupJoinConfig
default_group_join_config = record { use_ratchet_tree_extension = true }

module _ {Rng : Type 0} (x : MlsCrates Rng) where
  open x.openmls use {
    Signer, CredentialWithKey, Group, StagedCommit, Proposal, Welcome, ProtocolMessage, group_id,
    id_bytes, epoch, create_message, message_bytes, message_in, protocol_message, process_message,
    debug_content, merge_staged_commit, store_pending_proposal, extract_welcome, new_from_welcome,
    into_group, signer_codec, credential_codec,
  }

  -- `encrypt_message` once the group is loaded
  unfoldable pub encrypt_message_in : Bytes → Loaded x → Exec (Provider Rng) MlsEncrypted
  encrypt_message_in plaintext g = do
    (msg, group) ← attempt encryption "create_message: " (create_message g.group g.signer plaintext)
    state ← save x group g.signer g.credential_with_key
    ciphertext ← lift (wrap_err serialization "tls_serialize: " (message_bytes msg))
    pure (record { mls_ciphertext = ciphertext; group_state = state; epoch = epoch group })

  unfoldable pub encrypt_message : Bytes → Bytes → Exec Rng MlsEncrypted
  encrypt_message group_state plaintext = in_group x group_state (encrypt_message_in plaintext)

  -- `deserialize_mls_message(bytes)?` and `try_into_protocol_message()?`
  abbrev pub parse_protocol_message : (String → CryptoError) → Bytes → Result ProtocolMessage
  parse_protocol_message wrap bytes =
      Error.◌>>=◌ (wrap_err serialization "tls_deserialize MlsMessageIn: " (message_in bytes))
        (λ m. wrap_err wrap "not a protocol message: " (protocol_message m))

  -- The last steps of each arm of `decrypt_message`
  unfoldable pub decrypted : Loaded x → Bytes → Group → Exec (Provider Rng) MlsDecrypted
  decrypted g plaintext group = do
    state ← save x group g.signer g.credential_with_key
    pure (record { plaintext = plaintext; group_state = state })

  -- `match processed.into_content()` of `decrypt_message`
  unfoldable pub take_content :
      Loaded x → Group → ProcessedContent StagedCommit Proposal → Exec (Provider Rng) MlsDecrypted
  take_content g group (application plaintext) = decrypted g plaintext group
  take_content g group (staged_commit commit) =
      attempt mls "merge_staged_commit: " (merge_staged_commit group commit) >>= decrypted g []
  take_content g group (proposal p) =
      attempt mls "store_pending_proposal: " (store_pending_proposal group p) >>= decrypted g []
  take_content g group (external_join_proposal p) =
      attempt mls "store_pending_proposal: " (store_pending_proposal group p) >>= decrypted g []

  -- `decrypt_message` once the group is loaded
  unfoldable pub decrypt_message_in : Bytes → Loaded x → Exec (Provider Rng) MlsDecrypted
  decrypt_message_in mls_message g = do
    protocol ← lift (parse_protocol_message decryption mls_message)
    (content, group) ← attempt decryption "process_message: " (process_message g.group protocol)
    take_content g group content

  unfoldable pub decrypt_message : Bytes → Bytes → Exec Rng MlsDecrypted
  decrypt_message group_state mls_message = in_group x group_state (decrypt_message_in mls_message)

  -- `match processed.into_content()` of `process_commit`
  unfoldable pub merge_commit :
      Group → ProcessedContent StagedCommit Proposal → Exec (Provider Rng) Group
  merge_commit group (staged_commit commit) =
      attempt mls "merge_staged_commit: " (merge_staged_commit group commit)
  merge_commit group (application plaintext) = lift (
      err (
        mls
          (text_append "expected a commit message, got: " (debug_content (application plaintext)))))
  merge_commit group (proposal p) =
      lift (err (mls (text_append "expected a commit message, got: " (debug_content (proposal p)))))
  merge_commit group (external_join_proposal p) = lift (
      err (
        mls (
          text_append "expected a commit message, got: "
            (debug_content (external_join_proposal p)))))

  -- `process_commit` once the group is loaded
  unfoldable pub process_commit_in : Bytes → Loaded x → Exec (Provider Rng) ProcessCommitResult
  process_commit_in commit g = do
    protocol ← lift (parse_protocol_message mls commit)
    (content, group) ← attempt mls "process_message: " (process_message g.group protocol)
    merged ← merge_commit group content
    state ← save x merged g.signer g.credential_with_key
    pure (record { group_state = state; epoch = epoch merged })

  unfoldable pub process_commit : Bytes → Bytes → Exec Rng ProcessCommitResult
  process_commit group_state commit = in_group x group_state (process_commit_in commit)

  -- `match mls_message_in.extract()`
  abbrev pub expect_welcome : Option Welcome → Result Welcome
  expect_welcome none = err (mls "expected a Welcome message")
  expect_welcome (some w) = ok w

  -- `process_welcome` once the bundle and the welcome are read
  unfoldable pub process_welcome_in :
      Welcome → Signer → CredentialWithKey → Exec (Provider Rng) ProcessWelcomeResult
  process_welcome_in welcome signer credential = do
    staged ← attempt mls "staged welcome: " (new_from_welcome default_group_join_config welcome)
    group ← attempt mls "welcome into_group: " (into_group staged)
    state ← save x group signer credential
    pure (record { group_state = state; group_id = id_bytes (group_id group); epoch = epoch group })

  unfoldable pub process_welcome : Bytes → Bytes → Exec Rng ProcessWelcomeResult
  process_welcome welcome_bytes secret_bundle_bytes = do
    secret_bundle ←
        lift
          (wrap_err serialization "secret bundle: " (x.secret_codec.from_slice secret_bundle_bytes))
    values ← lift (restore_store x.base64 secret_bundle.store)
    signer ← lift (wrap_err serialization "signer: " (signer_codec.from_slice secret_bundle.signer))
    credential ← lift (
        wrap_err serialization "credential: "
          (credential_codec.from_slice secret_bundle.credential_with_key))
    message ←
        lift (wrap_err serialization "tls_deserialize MlsMessageIn: " (message_in welcome_bytes))
    welcome ← lift (expect_welcome (extract_welcome message))
    in_provider values (process_welcome_in welcome signer credential)

  -- The operations as the API uses them
  abbrev pub mls_ops : MlsOps Rng
  mls_ops = record {
    generate_key_package = generate_key_package x;
    create_group = create_group x;
    add_member = add_member x;
    remove_member = remove_member x;
    encrypt_message = encrypt_message;
    decrypt_message = decrypt_message;
    process_commit = process_commit;
    process_welcome = process_welcome;
  }
