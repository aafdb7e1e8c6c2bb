-- ===== src/Mls/Commits.antt =====
-- The two operations of src/mls/mod.rs that take a received commit.
use ghostcrypt_crypto_core.Common.{◌≡◌, refl, ap, Bytes, String, []}
use ghostcrypt_crypto_core.Error.{
  CryptoError, ok, wrap_err, serialization, mls, decryption, >>=-eq-ok,
}
use ghostcrypt_crypto_core.Mls.Usable.{wrap_err-ok}
use ghostcrypt_crypto_core.Exec.{continue-ok, ok-injective}
use ghostcrypt_crypto_core.Mls.Types.{ProcessCommitResult}
use ghostcrypt_crypto_core.Mls.OpenMls.{
  Provider, ProcessedContent, application, staged_commit, proposal, external_join_proposal,
}
use ghostcrypt_crypto_core.Mls.Bundle.{MlsCrates, Loaded, open_state}
use ghostcrypt_crypto_core.Mls.Groups.{save}
use ghostcrypt_crypto_core.Mls.Messages.{
  parse_protocol_message, decrypt_message, decrypt_message_in, decrypted, take_content,
  merge_commit, process_commit, process_commit_in,
}

module _ {Rng : Type 0} (x : MlsCrates Rng) where
  open x.openmls use {
    Group, ProtocolMessage, StagedCommit, Proposal, epoch, message_in, protocol_message,
    process_message, merge_staged_commit,
  }

  -- Which error a message is rejected with does not decide whether it is.
  parse_protocol_message-ok :
      (w w' : String → CryptoError) (bytes : Bytes) {m : ProtocolMessage}
      → parse_protocol_message x w bytes ≡ ok m
      → parse_protocol_message x w' bytes ≡ ok m
  parse_protocol_message-ok w w' bytes h =
      let (m, e₀, e₁) =
        >>=-eq-ok (wrap_err serialization "tls_deserialize MlsMessageIn: " (message_in bytes)) _
          h in
      let e₂ = wrap_err-ok w "not a protocol message: " (protocol_message m) e₁ in rw (e₀, e₂) refl

  take_content-merge_commit :
      (l : Loaded x) (group merged : Group) (content : ProcessedContent StagedCommit Proposal)
      (p p' : Provider Rng)
      → merge_commit x group content p ≡ (ok merged, p')
      → take_content x l group content p ≡ decrypted x l [] merged p'
  unfolding merge_commit take_content
  take_content-merge_commit l group merged (application plaintext) p p' h = cc
  take_content-merge_commit l group merged (staged_commit commit) p p' h =
      let e₀ : wrap_err mls "merge_staged_commit: " (merge_staged_commit group commit p).0
          ≡ ok merged =
        ap (λ q. q.0) h in
      let e₁ : (merge_staged_commit group commit p).1 ≡ p' = ap (λ q. q.1) h in rw (e₀, e₁) refl
  take_content-merge_commit l group merged (proposal q) p p' h = cc
  take_content-merge_commit l group merged (external_join_proposal q) p p' h = cc

  decrypt_message_in-process_commit_in :
      (commit : Bytes) (l : Loaded x) (p p' : Provider Rng) (r : ProcessCommitResult)
      → process_commit_in x commit l p ≡ (ok r, p')
      → decrypt_message_in x commit l p
        ≡ (ok (record { plaintext = []; group_state = r.group_state }), p')
  unfolding process_commit_in decrypt_message_in decrypted
  decrypt_message_in-process_commit_in commit l p p' r h =
      let (m, h₀, k₀) = continue-ok (parse_protocol_message x mls commit) _ p h in
      let (out, h₁, k₁) =
        continue-ok (wrap_err mls "process_message: " (process_message l.group m p).0) _
          (process_message l.group m p).1 k₀ in
      let p₁ = (process_message l.group m p).1 in
      let (merged, h₂, k₂) =
        continue-ok (merge_commit x out.1 out.0 p₁).0 _ (merge_commit x out.1 out.0 p₁).1 k₁ in
      let p₂ = (merge_commit x out.1 out.0 p₁).1 in
      let (state, h₃, k₃) =
        continue-ok (save x merged l.signer l.credential_with_key p₂).0 _
          (save x merged l.signer l.credential_with_key p₂).1 k₂ in
      let e₀ = parse_protocol_message-ok mls decryption commit h₀ in
      let e₁ = wrap_err-ok mls "process_message: " (process_message l.group m p).0 h₁ in
      let e₂ : merge_commit x out.1 out.0 p₁ ≡ (ok merged, p₂) = ap (λ r. (r, p₂)) h₂ in
      let e₃ = take_content-merge_commit l out.1 merged out.0 p₁ p₂ e₂ in
      let same : state ≡ r.group_state =
        ap (λ (q : ProcessCommitResult). q.group_state) (ok-injective k₃) in
      let end : (save x merged l.signer l.credential_with_key p₂).1 ≡ p' = ap (λ q. q.1) k₃ in
      rw (e₀, e₁, e₃, h₃, same, end) refl

  -- Where `process_commit` accepts a commit, `decrypt_message` accepts it too, on the same group
  -- state: with no plaintext, and the same new group state.
  pub decrypt_message-process_commit :
      (state commit : Bytes) (rng rng' : Rng) (r : ProcessCommitResult)
      → process_commit x state commit rng ≡ (ok r, rng')
      → decrypt_message x state commit rng
        ≡ (ok (record { plaintext = []; group_state = r.group_state }), rng')
  unfolding process_commit decrypt_message
  decrypt_message-process_commit state commit rng rng' r h =
      let (l, h₀, k₀) = continue-ok (open_state x state) _ rng h in
      let p : Provider Rng = record { values = l.values; rng = rng } in
      let e₀ : (process_commit_in x commit l p).0 ≡ ok r = ap (λ q. q.0) k₀ in
      let e₁ : (process_commit_in x commit l p).1.rng ≡ rng' = ap (λ q. q.1) k₀ in
      let e₂ =
        decrypt_message_in-process_commit_in commit l p (process_commit_in x commit l p).1 r
          (ap (λ s. (s, (process_commit_in x commit l p).1)) e₀) in
      rw (h₀, e₂, e₁) refl
