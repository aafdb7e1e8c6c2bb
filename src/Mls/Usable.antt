-- ===== src/Mls/Usable.antt =====
-- A saved group state can be opened again, and has the group that was saved.
use ghostcrypt_crypto_core.Common.{ℕ, ◌≡◌, refl, Bytes, String, nat_eq, list_eq}
use ghostcrypt_crypto_core.Error.{
  CryptoError, ok, Fallible, value, failed, wrap_err, serialization, >>=-eq-ok,
}
use ghostcrypt_crypto_core.Exec.{Exec, WhenOk, continue, continue-WhenOk}
use ghostcrypt_crypto_core.Mls.OpenMls.{Provider}
use ghostcrypt_crypto_core.Mls.Bundle.{
  MlsCrates, Loaded, GroupBundle, open_state, deserialize_bundle, serialize_bundle, load_group,
  save_group, snapshot_store,
}
use ghostcrypt_crypto_core.Mls.Laws.{MlsLaws, Persisted}
use ghostcrypt_crypto_core.Mls.Restore.{restore_store-snapshot_store}

-- A mapped error does not hide a value.
pub wrap_err-ok {ℓ} :
    {A : Type ℓ} (wrap : String → CryptoError) (prefix : String) (r : Fallible A) {a : A}
    → wrap_err wrap prefix r ≡ ok a
    → r ≡ value a
wrap_err-ok wrap prefix (value b) h = cc
wrap_err-ok wrap prefix (failed e) h = cc

-- A third-party call that changes its state, and the rest where it gives a value
pub attempt-WhenOk {ℓ κ μ ρ} :
    {S : Type ℓ} {A : Type κ} {B : Type μ} (P : B → Type ρ) (wrap : String → CryptoError)
    (prefix : String) (call : Fallible A × S) (f : A → Exec S B)
    → ((a : A) → call.0 ≡ value a → WhenOk P (f a call.1))
    → WhenOk P (continue (wrap_err wrap prefix call.0) f call.1)
attempt-WhenOk P wrap prefix call f h =
    continue-WhenOk P (wrap_err wrap prefix call.0) f call.1
      λ a e. h a (wrap_err-ok wrap prefix call.0 e)

module _ {Rng : Type 0} (x : MlsCrates Rng) where
  open x.openmls use {
    Signer, CredentialWithKey, Group, epoch, group_id, signer_codec, credential_codec,
    group_id_codec,
  }

  -- The state opens, and gives this group, which its key store holds.
  pub record Usable (state : Bytes) (group : Group) : Type 0 where
    pub loaded : Loaded x
    pub opens : open_state x state ≡ ok loaded
    pub has : loaded.group ≡ group
    pub persisted :
        (rng : Rng) → Persisted x.openmls group (record { values = loaded.values; rng = rng })

  -- A new state is usable, and its epoch is that of its group.
  abbrev pub Saved : Bytes → ℕ → Type 0
  Saved state n = (group : Group) × Usable state group × (n ≡ epoch group)

  module _ (laws : MlsLaws x) where
    -- A state that `save_group` writes for a group in its provider's storage opens again, to the
    -- same group, key store, signer and credential.
    pub open_state-save_group :
        (group : Group) (p : Provider Rng) (signer : Signer) (credential : CredentialWithKey)
        (state : Bytes)
        → Persisted x.openmls group p
        → save_group x group p.values signer credential ≡ ok state
        → open_state x state
          ≡ ok (record {
            group = group;
            values = p.values;
            signer = signer;
            credential_with_key = credential;
          })
    unfolding save_group open_state deserialize_bundle load_group serialize_bundle
    open_state-save_group group p signer credential state k h =
        let (s, h₀, h₁) = >>=-eq-ok (wrap_err serialization "" (signer_codec.to_vec signer)) _ h in
        let (c, h₂, h₃) =
          >>=-eq-ok (wrap_err serialization "" (credential_codec.to_vec credential)) _ h₁ in
        let (i, h₄, h₅) =
          >>=-eq-ok (wrap_err serialization "" (group_id_codec.to_vec (group_id group))) _ h₃ in
        let bundle : GroupBundle = record {
          store = snapshot_store x.base64 p.values;
          signer = s;
          credential_with_key = c;
          group_id = i;
        } in
        let e₀ =
          laws.reads_bundle bundle state
            (wrap_err-ok serialization "" (x.bundle_codec.to_vec bundle) h₅) in
        let e₁ = restore_store-snapshot_store x.base64 laws.base64 p.values k.is_map in
        let e₂ =
          laws.reads_signer signer s
            (wrap_err-ok serialization "" (signer_codec.to_vec signer) h₀) in
        let e₃ =
          laws.reads_credential credential c
            (wrap_err-ok serialization "" (credential_codec.to_vec credential) h₂) in
        let e₄ =
          laws.reads_group_id (group_id group) i
            (wrap_err-ok serialization "" (group_id_codec.to_vec (group_id group)) h₄) in
        rw (e₀, e₁, e₂, e₃, e₄, k.stored) refl

    pub save_group-Usable :
        (group : Group) (p : Provider Rng) (signer : Signer) (credential : CredentialWithKey)
        (state : Bytes)
        → Persisted x.openmls group p
        → save_group x group p.values signer credential ≡ ok state
        → Usable state group
    save_group-Usable group p signer credential state k h = record {
      loaded = record {
        group = group;
        values = p.values;
        signer = signer;
        credential_with_key = credential;
      };
      opens = open_state-save_group group p signer credential state k h;
      has = refl;
      persisted = λ rng. record { is_map = k.is_map; stored = k.stored };
    }
