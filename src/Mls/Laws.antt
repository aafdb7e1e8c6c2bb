-- ===== src/Mls/Laws.antt =====
-- What the theorems on groups rely on of openmls, base64 and serde: documented behaviour, as
-- hypotheses.
use ghostcrypt_crypto_core.Common.{ℕ, ◌≡◌, Bytes, some, nat_eq, list_eq}
use ghostcrypt_crypto_core.Common.Dict.Entries.{DistinctKeys}
use ghostcrypt_crypto_core.Error.{value}
use ghostcrypt_crypto_core.Encoding.Base64.{Base64Laws}
use ghostcrypt_crypto_core.Encoding.Serde.{ReadsBack}
use ghostcrypt_crypto_core.Mls.OpenMls.{
  OpenMls, Provider, ProcessedContent, GroupCreateConfig, GroupJoinConfig,
}
use ghostcrypt_crypto_core.Mls.Bundle.{MlsCrates}

module _ {Rng : Type 0} where
  -- The provider's map has one value a key, as a map has.
  abbrev pub IsMap : Provider Rng → Type 0
  IsMap p = DistinctKeys p.values.entries

  -- The group is in the provider's storage as it is.
  pub record Persisted (o : OpenMls Rng) (group : o.Group) (p : Provider Rng) : Type 0 where
    pub is_map : IsMap p
    pub stored : o.load p.values (o.group_id group) ≡ value (some group)

module _ {Rng : Type 0} (x : MlsCrates Rng) where
  open x.openmls use {
    Signer, CredentialWithKey, KeyPackage, Group, MessageOut, ProtocolMessage, StagedCommit,
    Proposal, StagedWelcome, Welcome, store_signer, new_group, add_members, remove_members,
    merge_pending_commit, create_message, process_message, merge_staged_commit,
    store_pending_proposal, new_from_welcome, into_group, signer_codec, credential_codec,
    group_id_codec,
  }

  -- Every call that gives or changes a group has written it to the provider's storage when it
  -- returns; what was encoded is decoded again.
  pub record MlsLaws : Type 0 where
    pub base64 : Base64Laws x.base64
    pub reads_bundle : ReadsBack x.bundle_codec
    pub reads_secret : ReadsBack x.secret_codec
    pub reads_signer : ReadsBack signer_codec
    pub reads_credential : ReadsBack credential_codec
    pub reads_group_id : ReadsBack group_id_codec
    pub stores_signer : (s : Signer) (p : Provider Rng) → IsMap p → IsMap (store_signer s p).1
    pub creates :
        (config : GroupCreateConfig) (s : Signer) (c : CredentialWithKey) (p : Provider Rng)
        (g : Group)
        → IsMap p
        → (new_group config s c p).0 ≡ value g
        → Persisted x.openmls g (new_group config s c p).1
    pub adds :
        (g g' : Group) (s : Signer) (k : KeyPackage) (p : Provider Rng)
        (commit welcome : MessageOut)
        → Persisted x.openmls g p
        → (add_members g s k p).0 ≡ value (commit, welcome, g')
        → Persisted x.openmls g' (add_members g s k p).1
    pub removes :
        (g g' : Group) (s : Signer) (leaf : ℕ) (p : Provider Rng) (commit : MessageOut)
        → Persisted x.openmls g p
        → (remove_members g s leaf p).0 ≡ value (commit, g')
        → Persisted x.openmls g' (remove_members g s leaf p).1
    pub merges_pending :
        (g g' : Group) (p : Provider Rng)
        → Persisted x.openmls g p
        → (merge_pending_commit g p).0 ≡ value g'
        → Persisted x.openmls g' (merge_pending_commit g p).1
    pub creates_message :
        (g g' : Group) (s : Signer) (m : Bytes) (p : Provider Rng) (out : MessageOut)
        → Persisted x.openmls g p
        → (create_message g s m p).0 ≡ value (out, g')
        → Persisted x.openmls g' (create_message g s m p).1
    pub processes :
        (g g' : Group) (m : ProtocolMessage) (p : Provider Rng)
        (content : ProcessedContent StagedCommit Proposal)
        → Persisted x.openmls g p
        → (process_message g m p).0 ≡ value (content, g')
        → Persisted x.openmls g' (process_message g m p).1
    pub merges_staged :
        (g g' : Group) (commit : StagedCommit) (p : Provider Rng)
        → Persisted x.openmls g p
        → (merge_staged_commit g commit p).0 ≡ value g'
        → Persisted x.openmls g' (merge_staged_commit g commit p).1
    pub stores_proposal :
        (g g' : Group) (proposal : Proposal) (p : Provider Rng)
        → Persisted x.openmls g p
        → (store_pending_proposal g proposal p).0 ≡ value g'
        → Persisted x.openmls g' (store_pending_proposal g proposal p).1
    pub stages :
        (config : GroupJoinConfig) (w : Welcome) (p : Provider Rng)
        → IsMap p
        → IsMap (new_from_welcome config w p).1
    pub joins :
        (staged : StagedWelcome) (p : Provider Rng) (g : Group)
        → IsMap p
        → (into_group staged p).0 ≡ value g
        → Persisted x.openmls g (into_group staged p).1
