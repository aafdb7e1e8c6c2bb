-- ===== src/Mls/Received.antt =====
-- The group states that new members and the receivers of messages write.
use ghostcrypt_crypto_core.Common.{ℕ, ◌≡◌, subst, Bytes, String, [], ◌∷◌, nat_eq, list_eq, List}
use ghostcrypt_crypto_core.Common.Dict
use ghostcrypt_crypto_core.Common.Dict.{Dict}
use ghostcrypt_crypto_core.Common.Dict.Entries.{DistinctKeys, insert-DistinctKeys}
use ghostcrypt_crypto_core.Error.{
  ok, wrap_err, serialization, mls, decryption, key_generation, >>=-eq-ok,
}
use ghostcrypt_crypto_core.Exec.{Exec, pure, WhenOk, continue-WhenOk, continue-after, pure-WhenOk}
use ghostcrypt_crypto_core.Encoding.Base64.{Base64}
use ghostcrypt_crypto_core.Mls.Types.{
  CreateGroupResult, MlsDecrypted, ProcessCommitResult, ProcessWelcomeResult,
}
use ghostcrypt_crypto_core.Mls.OpenMls.{
  Provider, ProcessedContent, application, staged_commit, proposal, external_join_proposal,
}
use ghostcrypt_crypto_core.Mls.Bundle.{
  MlsCrates, Loaded, restore_entries, restore_store, expect_value,
}
use ghostcrypt_crypto_core.Mls.Groups.{
  ciphersuite, default_group_create_config, in_provider, fresh_signer, create_group,
  create_group_in,
}
use ghostcrypt_crypto_core.Mls.Messages.{
  parse_protocol_message, decrypt_message, decrypt_message_in, decrypted, take_content,
  merge_commit, process_commit, process_commit_in, process_welcome, process_welcome_in,
  expect_welcome, default_group_join_config,
}
use ghostcrypt_crypto_core.Mls.Laws.{MlsLaws, Persisted, IsMap}
use ghostcrypt_crypto_core.Mls.Usable.{Usable, Saved, attempt-WhenOk, wrap_err-ok}
use ghostcrypt_crypto_core.Mls.Sent.{in_group-WhenOk, saving-WhenOk}

restore_entries-DistinctKeys :
    (b : Base64) (store : List (String × String)) (d d' : Dict Bytes Bytes)
    → DistinctKeys d.entries
    → restore_entries b store d ≡ ok d'
    → DistinctKeys d'.entries
unfolding restore_entries
restore_entries-DistinctKeys b [] d d' h e =
    subst (λ (q : Dict Bytes Bytes). DistinctKeys q.entries) (cc e) h
restore_entries-DistinctKeys b ((k, v) ∷ store) d d' h e =
    let (key, h₀, h₁) = >>=-eq-ok (expect_value (b.decode k)) _ e in
    let (val, h₂, h₃) = >>=-eq-ok (expect_value (b.decode v)) _ h₁ in
    restore_entries-DistinctKeys b store (Dict.insert d key val) d'
      (insert-DistinctKeys d key val h) h₃

module _ {Rng : Type 0} (x : MlsCrates Rng) (laws : MlsLaws x) where
  open x.openmls use {
    Signer, CredentialWithKey, Group, ProtocolMessage, StagedCommit, Proposal, group_id, id_bytes,
    epoch, new_signer, store_signer, credential_with_key, new_group, process_message,
    merge_staged_commit, store_pending_proposal, message_in, extract_welcome, new_from_welcome,
    into_group, Welcome, signer_codec, credential_codec,
  }

  decrypted-Saved :
      (l : Loaded x) (plaintext : Bytes) (group : Group) (p : Provider Rng)
      → Persisted x.openmls group p
      → WhenOk (λ r. (n : ℕ) × Saved x r.group_state n) (decrypted x l plaintext group p)
  unfolding decrypted
  decrypted-Saved l plaintext group p k =
      let P = λ (r : MlsDecrypted). (n : ℕ) × Saved x r.group_state n in
      saving-WhenOk x laws P group l.signer l.credential_with_key p _ k
        λ s saved. pure-WhenOk P _ _ (epoch group, saved)

  take_content-Saved :
      (l : Loaded x) (group : Group) (content : ProcessedContent StagedCommit Proposal)
      (p : Provider Rng)
      → Persisted x.openmls group p
      → WhenOk (λ r. (n : ℕ) × Saved x r.group_state n) (take_content x l group content p)
  unfolding take_content
  take_content-Saved l group (application plaintext) p k = decrypted-Saved l plaintext group p k
  take_content-Saved l group (staged_commit commit) p k =
      let P = λ (r : MlsDecrypted). (n : ℕ) × Saved x r.group_state n in
      attempt-WhenOk P mls "merge_staged_commit: " (merge_staged_commit group commit p) _
        λ g h. decrypted-Saved l [] g _ (laws.merges_staged group g commit p k h)
  take_content-Saved l group (proposal q) p k =
      let P = λ (r : MlsDecrypted). (n : ℕ) × Saved x r.group_state n in
      attempt-WhenOk P mls "store_pending_proposal: " (store_pending_proposal group q p) _
        λ g h. decrypted-Saved l [] g _ (laws.stores_proposal group g q p k h)
  take_content-Saved l group (external_join_proposal q) p k =
      let P = λ (r : MlsDecrypted). (n : ℕ) × Saved x r.group_state n in
      attempt-WhenOk P mls "store_pending_proposal: " (store_pending_proposal group q p) _
        λ g h. decrypted-Saved l [] g _ (laws.stores_proposal group g q p k h)

  pub decrypt_message-Saved :
      (state mls_message : Bytes) (group : Group) (rng : Rng)
      → Usable x state group
      → WhenOk (λ r. (n : ℕ) × Saved x r.group_state n) (decrypt_message x state mls_message rng)
  unfolding decrypt_message decrypt_message_in
  decrypt_message-Saved state mls_message group rng u =
      let P = λ (r : MlsDecrypted). (n : ℕ) × Saved x r.group_state n in
      in_group-WhenOk x laws P state group (decrypt_message_in x mls_message) rng u λ l k.
        let p : Provider Rng = record { values = l.values; rng = rng } in
        continue-WhenOk P (parse_protocol_message x decryption mls_message) _ p λ m h₀.
          attempt-WhenOk P decryption "process_message: " (process_message l.group m p) _ λ out h₁.
            take_content-Saved l out.1 out.0 _ (laws.processes l.group out.1 m p out.0 k h₁)

  merge_commit-Persisted :
      (group : Group) (content : ProcessedContent StagedCommit Proposal) (p : Provider Rng)
      (merged : Group)
      → Persisted x.openmls group p
      → (merge_commit x group content p).0 ≡ ok merged
      → Persisted x.openmls merged (merge_commit x group content p).1
  unfolding merge_commit
  merge_commit-Persisted group (staged_commit commit) p merged k h =
      laws.merges_staged group merged commit p k
        (wrap_err-ok mls "merge_staged_commit: " (merge_staged_commit group commit p).0 h)
  merge_commit-Persisted group (application plaintext) p merged k h = cc
  merge_commit-Persisted group (proposal q) p merged k h = cc
  merge_commit-Persisted group (external_join_proposal q) p merged k h = cc

  pub process_commit-Saved :
      (state commit : Bytes) (group : Group) (rng : Rng)
      → Usable x state group
      → WhenOk (λ r. Saved x r.group_state r.epoch) (process_commit x state commit rng)
  unfolding process_commit process_commit_in
  process_commit-Saved state commit group rng u =
      let P = λ (r : ProcessCommitResult). Saved x r.group_state r.epoch in
      in_group-WhenOk x laws P state group (process_commit_in x commit) rng u λ l k.
        let p : Provider Rng = record { values = l.values; rng = rng } in
        continue-WhenOk P (parse_protocol_message x mls commit) _ p λ m h₀.
          attempt-WhenOk P mls "process_message: " (process_message l.group m p) _ λ out h₁.
            let p₁ = (process_message l.group m p).1 in
            continue-WhenOk P (merge_commit x out.1 out.0 p₁).0 _ (merge_commit x out.1 out.0 p₁).1
              λ merged h₂.
                saving-WhenOk x laws P merged l.signer l.credential_with_key _ _
                  (merge_commit-Persisted out.1 out.0 p₁ merged
                    (laws.processes l.group out.1 m p out.0 k h₁) h₂)
                  λ s saved. pure-WhenOk P _ _ saved

  in_provider-WhenOk :
      {A : Type 0} (P : A → Type 0) (m : Exec (Provider Rng) A) (values : Dict Bytes Bytes)
      (rng : Rng)
      → WhenOk P (m (record { values = values; rng = rng }))
      → WhenOk P (in_provider values m rng)
  in_provider-WhenOk P m values rng w = record { holds = w.holds }

  fresh_signer-IsMap : (p : Provider Rng) → IsMap p → IsMap (fresh_signer x p).1
  unfolding fresh_signer
  fresh_signer-IsMap p k =
      let P = λ (q : Provider Rng). IsMap q in
      let p₀ : Provider Rng = record p { rng = (new_signer ciphersuite p.rng).1 } in
      continue-after P
        (wrap_err key_generation "signature keypair: " (new_signer ciphersuite p.rng).0) _ p₀ k
        λ signer.
          let kept = laws.stores_signer signer p₀ k in
          continue-after P (wrap_err key_generation "store signer: " (store_signer signer p₀).0)
            (λ _. pure signer) (store_signer signer p₀).1 kept λ stored. kept

  pub create_group-Saved :
      (identity : Bytes) (rng : Rng)
      → WhenOk (λ r. Saved x r.group_state r.epoch) (create_group x identity rng)
  unfolding create_group create_group_in
  create_group-Saved identity rng =
      let P = λ (r : CreateGroupResult). Saved x r.group_state r.epoch in
      let p : Provider Rng = record { values = Dict.empty; rng = rng } in
      in_provider-WhenOk P (create_group_in x identity) Dict.empty rng (
        continue-WhenOk P (fresh_signer x p).0 _ (fresh_signer x p).1 λ signer h₀.
          let credential = credential_with_key identity signer in
          let p₁ = (fresh_signer x p).1 in
          attempt-WhenOk P mls "create group: "
            (new_group default_group_create_config signer credential p₁) _
            λ group h₁.
              saving-WhenOk x laws P group signer credential _ _
                (laws.creates default_group_create_config signer credential p₁ group
                  (fresh_signer-IsMap p tt) h₁)
                λ s saved. pure-WhenOk P _ _ saved)

  process_welcome_in-Saved :
      (welcome : Welcome) (signer : Signer) (credential : CredentialWithKey) (p : Provider Rng)
      → IsMap p
      → WhenOk
          (λ r. Saved x r.group_state r.epoch)
          (process_welcome_in x welcome signer credential p)
  unfolding process_welcome_in
  process_welcome_in-Saved welcome signer credential p k =
      let P = λ (r : ProcessWelcomeResult). Saved x r.group_state r.epoch in
      attempt-WhenOk P mls "staged welcome: " (new_from_welcome default_group_join_config welcome p)
        _
        λ staged h₀.
          let p₁ = (new_from_welcome default_group_join_config welcome p).1 in
          attempt-WhenOk P mls "welcome into_group: " (into_group staged p₁) _ λ group h₁.
            saving-WhenOk x laws P group signer credential _ _
              (laws.joins staged p₁ group (laws.stages default_group_join_config welcome p k) h₁)
              λ s saved. pure-WhenOk P _ _ saved

  pub process_welcome-Saved :
      (welcome secret_bundle : Bytes) (rng : Rng)
      → WhenOk (λ r. Saved x r.group_state r.epoch) (process_welcome x welcome secret_bundle rng)
  unfolding process_welcome restore_store
  process_welcome-Saved welcome secret_bundle rng =
      let P = λ (r : ProcessWelcomeResult). Saved x r.group_state r.epoch in
      continue-WhenOk P
        (wrap_err serialization "secret bundle: " (x.secret_codec.from_slice secret_bundle)) _ rng
        λ b h₀. continue-WhenOk P (restore_store x.base64 b.store) _ rng λ values h₁.
          continue-WhenOk P (wrap_err serialization "signer: " (signer_codec.from_slice b.signer)) _
            rng
            λ signer h₂.
              continue-WhenOk P
                (wrap_err serialization "credential: "
                  (credential_codec.from_slice b.credential_with_key))
                _ rng
                λ credential h₃.
                  continue-WhenOk P
                    (wrap_err serialization "tls_deserialize MlsMessageIn: " (message_in welcome)) _
                    rng
                    λ m h₄. continue-WhenOk P (expect_welcome x (extract_welcome m)) _ rng λ w h₅.
                      in_provider-WhenOk P (process_welcome_in x w signer credential) values rng (
                        process_welcome_in-Saved w signer credential _ (
                          restore_entries-DistinctKeys x.base64 b.store.entries Dict.empty values tt
                            h₁))
