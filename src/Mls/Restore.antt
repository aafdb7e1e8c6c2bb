-- ===== src/Mls/Restore.antt =====
-- A key store that was saved in a bundle comes back as it was.
use ghostcrypt_crypto_core.Common.{
  ◌≡◌, refl, ap, ◌∙◌, Bytes, String, List, [], ◌∷◌, map, string_eq, nat_eq, list_eq,
}
use ghostcrypt_crypto_core.Common.Dict
use ghostcrypt_crypto_core.Common.Dict.{Dict}
use ghostcrypt_crypto_core.Common.Dict.Entries.{Absent, DistinctKeys, insert_all, insert_all-empty}
use ghostcrypt_crypto_core.Error.{ok}
use ghostcrypt_crypto_core.Encoding.Base64.{Base64, Base64Laws}
use ghostcrypt_crypto_core.Mls.Bundle.{encode_entry, snapshot_store, restore_entries, restore_store}

module _ (b : Base64) (laws : Base64Laws b) where
  encode-injective : (k j : Bytes) → b.encode k ≡ b.encode j → k ≡ j
  encode-injective k j h = cc (ap b.decode h, laws.decode-encode k, laws.decode-encode j)

  Absent-map :
      (k : Bytes) (m : List (Bytes × Bytes))
      → Absent k m
      → Absent (b.encode k) (map (encode_entry b) m)
  unfolding encode_entry
  Absent-map k [] h = tt
  Absent-map k ((j, v) ∷ m) h = ((λ same. h.0 (encode-injective j k same)), Absent-map k m h.1)

  DistinctKeys-map :
      (m : List (Bytes × Bytes)) → DistinctKeys m → DistinctKeys (map (encode_entry b) m)
  unfolding encode_entry
  DistinctKeys-map [] h = tt
  DistinctKeys-map ((k, v) ∷ m) h = (Absent-map k m h.0, DistinctKeys-map m h.1)

  restore_entries-map :
      (m : List (Bytes × Bytes)) (d : Dict Bytes Bytes)
      → restore_entries b (map (encode_entry b) m) d ≡ ok (insert_all m d)
  unfolding restore_entries encode_entry insert_all
  restore_entries-map [] d = refl
  restore_entries-map ((k, v) ∷ m) d =
      rw (laws.decode-encode k, laws.decode-encode v) (restore_entries-map m (Dict.insert d k v))

  -- Restoring the snapshot of a key store, which has one value a key, gives the key store.
  pub restore_store-snapshot_store :
      (values : Dict Bytes Bytes)
      → DistinctKeys values.entries
      → restore_store b (snapshot_store b values) ≡ ok values
  unfolding restore_store snapshot_store
  restore_store-snapshot_store values d =
      ap (λ (s : Dict String String). restore_entries b s.entries Dict.empty)
        (insert_all-empty (map (encode_entry b) values.entries) (DistinctKeys-map values.entries d))
      ∙ restore_entries-map values.entries Dict.empty
      ∙ ap (λ (s : Dict Bytes Bytes). ok s) (insert_all-empty values.entries d)
