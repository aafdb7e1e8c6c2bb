-- ===== src/Mls/Bundle.antt =====
-- The bundles of src/mls/mod.rs: a provider's key store and what goes with it, as bytes.
use ghostcrypt_crypto_core.Common.{
  Bytes, String, text_append, Option, none, some, List, [], ◌∷◌, map, decimal, string_eq, nat_eq,
  list_eq,
}
use ghostcrypt_crypto_core.Common.Dict
use ghostcrypt_crypto_core.Common.Dict.{Dict}
use ghostcrypt_crypto_core.Common.Dict.Entries.{insert_all}
use ghostcrypt_crypto_core.Error.{
  Result, ok, panic, err, Fallible, value, failed, serialization, mls, mls_group_not_found,
  wrap_err, ◌>>=◌,
}
use ghostcrypt_crypto_core.Encoding.Base64.{Base64}
use ghostcrypt_crypto_core.Encoding.Serde.{Codec}
use ghostcrypt_crypto_core.Mls.OpenMls.{OpenMls}

pub record GroupBundle : Type 0 where
  pub store : Dict String String
  pub signer : Bytes
  pub credential_with_key : Bytes
  pub group_id : Bytes

pub record KeyPackageSecretBundle : Type 0 where
  pub store : Dict String String
  pub signer : Bytes
  pub credential_with_key : Bytes

-- `result.expect(..)` of a third-party call
abbrev pub expect_value {ℓ} : {A : Type ℓ} → Fallible A → Result A
expect_value (value a) = ok a
expect_value (failed e) = panic

-- The entries of a slice as `{:?}` prints them, behind the first
debug_rest : Bytes → String
debug_rest [] = "]"
debug_rest (x ∷ xs) = text_append ", " (text_append (decimal x) (debug_rest xs))

-- `{:?}` of a `&[u8]`
unfoldable pub debug_bytes : Bytes → String
unfolding debug_rest
debug_bytes [] = "[]"
debug_bytes (x ∷ xs) = text_append "[" (text_append (decimal x) (debug_rest xs))

module _ (b : Base64) where
  unfoldable pub encode_entry : Bytes × Bytes → String × String
  encode_entry (k, v) = (b.encode k, b.encode v)

  unfoldable pub snapshot_store : Dict Bytes Bytes → Dict String String
  unfolding encode_entry
  snapshot_store values = insert_all (map encode_entry values.entries) Dict.empty

  -- The loop of `restore_store`: a key or value that is not base64 panics.
  unfoldable pub restore_entries :
      List (String × String) → Dict Bytes Bytes → Result (Dict Bytes Bytes)
  restore_entries [] values = ok values
  restore_entries ((k, v) ∷ store) values = expect_value (b.decode k) >>= λ key.
      expect_value (b.decode v) >>= λ val. restore_entries store (Dict.insert values key val)

  -- The key store of `provider_from_store`
  unfoldable pub restore_store : Dict String String → Result (Dict Bytes Bytes)
  restore_store store = restore_entries store.entries Dict.empty

-- What the program is built with: base64, openmls, and serde for the two bundles
pub record MlsCrates (Rng : Type 0) : Type 1 where
  pub base64 : Base64
  pub openmls : OpenMls Rng
  pub bundle_codec : Codec GroupBundle
  pub secret_codec : Codec KeyPackageSecretBundle

module _ {Rng : Type 0} (x : MlsCrates Rng) where
  open x.openmls use {
    Signer, CredentialWithKey, Group, GroupId, load, group_id, id_bytes, signer_codec,
    credential_codec, group_id_codec,
  }

  pub record Loaded : Type 0 where
    pub group : Group
    pub values : Dict Bytes Bytes
    pub signer : Signer
    pub credential_with_key : CredentialWithKey

  unfoldable pub serialize_bundle : GroupBundle → Result Bytes
  serialize_bundle bundle = wrap_err serialization "" (x.bundle_codec.to_vec bundle)

  unfoldable pub deserialize_bundle : Bytes → Result GroupBundle
  deserialize_bundle bytes = wrap_err serialization "" (x.bundle_codec.from_slice bytes)

  -- `.ok_or_else(|| MlsGroupNotFound(..))`
  abbrev pub found : GroupId → Option Group → Result Group
  found id none =
      err (mls_group_not_found (text_append "no group found for id " (debug_bytes (id_bytes id))))
  found id (some group) = ok group

  unfoldable pub load_group : GroupBundle → Result Loaded
  load_group bundle = do
    values ← restore_store x.base64 bundle.store
    signer ← wrap_err serialization "signer: " (signer_codec.from_slice bundle.signer)
    credential_with_key ←
        wrap_err serialization "credential: "
          (credential_codec.from_slice bundle.credential_with_key)
    id ← wrap_err serialization "group_id: " (group_id_codec.from_slice bundle.group_id)
    loaded ← wrap_err mls "storage error loading group: " (load values id)
    group ← found id loaded
    ok (record {
      group = group;
      values = values;
      signer = signer;
      credential_with_key = credential_with_key;
    })

  unfoldable pub save_group : Group → Dict Bytes Bytes → Signer → CredentialWithKey → Result Bytes
  unfolding serialize_bundle
  save_group group values signer credential_with_key = do
    signer_bytes ← wrap_err serialization "" (signer_codec.to_vec signer)
    credential_bytes ← wrap_err serialization "" (credential_codec.to_vec credential_with_key)
    id_json ← wrap_err serialization "" (group_id_codec.to_vec (group_id group))
    serialize_bundle (record {
      store = snapshot_store x.base64 values;
      signer = signer_bytes;
      credential_with_key = credential_bytes;
      group_id = id_json;
    })

  -- `deserialize_bundle(group_state)?` and `load_group(&bundle)?`, with which the operations begin
  unfoldable pub open_state : Bytes → Result Loaded
  open_state group_state = deserialize_bundle group_state >>= load_group
