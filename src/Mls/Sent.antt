-- ===== src/Mls/Sent.antt =====
-- The group states that the operations on messages and members write.
use ghostcrypt_crypto_core.Common.{ℕ, ◌≡◌, refl, sym, subst, Bytes, nat_eq, list_eq}
use ghostcrypt_crypto_core.Error.{ok, wrap_err, serialization, mls, encryption}
use ghostcrypt_crypto_core.Exec.{Exec, continue, WhenOk, continue-WhenOk, pure-WhenOk}
use ghostcrypt_crypto_core.Mls.Types.{AddMemberResult, RemoveMemberResult, MlsEncrypted}
use ghostcrypt_crypto_core.Mls.OpenMls.{Provider}
use ghostcrypt_crypto_core.Mls.Bundle.{MlsCrates, Loaded}
use ghostcrypt_crypto_core.Mls.Groups.{
  in_group, save, add_member, add_member_in, remove_member, remove_member_in,
}
use ghostcrypt_crypto_core.Mls.Messages.{encrypt_message, encrypt_message_in}
use ghostcrypt_crypto_core.Mls.Laws.{MlsLaws, Persisted}
use ghostcrypt_crypto_core.Mls.Usable.{Usable, Saved, save_group-Usable, attempt-WhenOk}

module _ {Rng : Type 0} (x : MlsCrates Rng) (laws : MlsLaws x) where
  open x.openmls use {
    Signer, CredentialWithKey, Group, ProtocolMessage, StagedCommit, Proposal, epoch, new_group,
    add_members, remove_members, merge_pending_commit, create_message, process_message,
    merge_staged_commit, store_pending_proposal, key_package_in, validate, message_bytes,
  }

  pub save-Saved :
      (group : Group) (signer : Signer) (credential : CredentialWithKey) (p : Provider Rng)
      (state : Bytes)
      → Persisted x.openmls group p
      → (save x group signer credential p).0 ≡ ok state
      → Saved x state (epoch group)
  unfolding save
  save-Saved group signer credential p state k h =
      (group, save_group-Usable x laws group p signer credential state k h, refl)

  -- An operation on a usable state starts with its group, persisted in its provider.
  pub in_group-WhenOk :
      {A : Type 0} (P : A → Type 0) (state : Bytes) (group : Group)
      (rest : Loaded x → Exec (Provider Rng) A) (rng : Rng)
      → Usable x state group
      → ((l : Loaded x)
          → Persisted x.openmls l.group (record { values = l.values; rng = rng })
          → WhenOk P (rest l (record { values = l.values; rng = rng })))
      → WhenOk P (in_group x state rest rng)
  in_group-WhenOk P state group rest rng u h =
      let k = h u.loaded (
        subst (λ g. Persisted x.openmls g (record { values = u.loaded.values; rng = rng }))
          (sym u.has) (u.persisted rng)) in
      rw u.opens (record { holds = k.holds })

  -- The last steps of an operation: save, and build the result.
  pub saving-WhenOk :
      {A : Type 0} (P : A → Type 0) (group : Group) (signer : Signer)
      (credential : CredentialWithKey) (p : Provider Rng) (f : Bytes → Exec (Provider Rng) A)
      → Persisted x.openmls group p
      → ((state : Bytes)
          → Saved x state (epoch group)
          → WhenOk P (f state (save x group signer credential p).1))
      → WhenOk P
          (continue (save x group signer credential p).0 f (save x group signer credential p).1)
  saving-WhenOk P group signer credential p f k h =
      continue-WhenOk P (save x group signer credential p).0 f (save x group signer credential p).1
        λ s run. h s (save-Saved group signer credential p s k run)

  pub encrypt_message-Saved :
      (state plaintext : Bytes) (group : Group) (rng : Rng)
      → Usable x state group
      → WhenOk (λ r. Saved x r.group_state r.epoch) (encrypt_message x state plaintext rng)
  unfolding encrypt_message encrypt_message_in
  encrypt_message-Saved state plaintext group rng u =
      let P = λ (r : MlsEncrypted). Saved x r.group_state r.epoch in
      in_group-WhenOk P state group (encrypt_message_in x plaintext) rng u λ l k.
        let p : Provider Rng = record { values = l.values; rng = rng } in
        attempt-WhenOk P encryption "create_message: " (create_message l.group l.signer plaintext p)
          _
          λ out h.
            saving-WhenOk P out.1 l.signer l.credential_with_key _ _
              (laws.creates_message l.group out.1 l.signer plaintext p out.0 k h)
              λ s saved.
                continue-WhenOk P (wrap_err serialization "tls_serialize: " (message_bytes out.0)) _
                  (save x out.1 l.signer l.credential_with_key
                    (create_message l.group l.signer plaintext p).1).1
                  λ bytes h'. pure-WhenOk P _ _ saved

  pub add_member-Saved :
      (state key_package : Bytes) (group : Group) (rng : Rng)
      → Usable x state group
      → WhenOk (λ r. Saved x r.group_state r.epoch) (add_member x state key_package rng)
  unfolding add_member add_member_in
  add_member-Saved state key_package group rng u =
      let P = λ (r : AddMemberResult). Saved x r.group_state r.epoch in
      in_group-WhenOk P state group (add_member_in x key_package) rng u λ l k.
        let p : Provider Rng = record { values = l.values; rng = rng } in
        continue-WhenOk P
          (wrap_err serialization "key package tls deser: " (key_package_in key_package)) _ p
          λ kp_in h₀.
            continue-WhenOk P (wrap_err mls "key package validation: " (validate kp_in)) _ p
              λ kp h₁.
                attempt-WhenOk P mls "add_members: " (add_members l.group l.signer kp p) _ λ out h₂.
                  let k₂ = laws.adds l.group out.2 l.signer kp p out.0 out.1 k h₂ in
                  let p₂ = (add_members l.group l.signer kp p).1 in
                  attempt-WhenOk P mls "merge_pending_commit: " (merge_pending_commit out.2 p₂) _
                    λ merged h₃.
                      saving-WhenOk P merged l.signer l.credential_with_key _ _
                        (laws.merges_pending out.2 merged p₂ k₂ h₃)
                        λ s saved.
                          let p₃ =
                            (save x merged l.signer l.credential_with_key
                              (merge_pending_commit out.2 p₂).1).1 in
                          continue-WhenOk P
                            (wrap_err serialization "tls_serialize: " (message_bytes out.0)) _ p₃
                            λ commit h₄.
                              continue-WhenOk P
                                (wrap_err serialization "tls_serialize: " (message_bytes out.1)) _
                                p₃ λ welcome h₅. pure-WhenOk P _ _ saved

  pub remove_member-Saved :
      (state : Bytes) (leaf_index : ℕ) (group : Group) (rng : Rng)
      → Usable x state group
      → WhenOk (λ r. Saved x r.group_state r.epoch) (remove_member x state leaf_index rng)
  unfolding remove_member remove_member_in
  remove_member-Saved state leaf_index group rng u =
      let P = λ (r : RemoveMemberResult). Saved x r.group_state r.epoch in
      in_group-WhenOk P state group (remove_member_in x leaf_index) rng u λ l k.
        let p : Provider Rng = record { values = l.values; rng = rng } in
        attempt-WhenOk P mls "remove_members: " (remove_members l.group l.signer leaf_index p) _
          λ out h₂.
            let k₂ = laws.removes l.group out.1 l.signer leaf_index p out.0 k h₂ in
            let p₂ = (remove_members l.group l.signer leaf_index p).1 in
            attempt-WhenOk P mls "merge_pending_commit: " (merge_pending_commit out.1 p₂) _
              λ merged h₃.
                saving-WhenOk P merged l.signer l.credential_with_key _ _
                  (laws.merges_pending out.1 merged p₂ k₂ h₃)
                  λ s saved.
                    let p₃ =
                      (save x merged l.signer l.credential_with_key
                        (merge_pending_commit out.1 p₂).1).1 in
                    continue-WhenOk P
                      (wrap_err serialization "tls_serialize: " (message_bytes out.0)) _ p₃
                      λ commit h₄. pure-WhenOk P _ _ saved
