-- ===== src/Examples/Mls.antt =====
-- Groups at concrete inputs, over the stand-in for openmls.
use ghostcrypt_crypto_core.Common.{
  ℕ, ◌≡◌, refl, Bytes, [], ◌∷◌, inl, nat_eq, list_eq, pair_eqb, list_eqb, decimal,
}
use ghostcrypt_crypto_core.Common.Dict
use ghostcrypt_crypto_core.Common.Dict.{Dict}
use ghostcrypt_crypto_core.Common.Dict.Entries.{insert_all}
use ghostcrypt_crypto_core.Error.{ok, panic, value}
use ghostcrypt_crypto_core.Mls.Types.{CreateGroupResult, AddMemberResult, ProcessCommitResult}
use ghostcrypt_crypto_core.Mls.Bundle.{
  GroupBundle, MlsCrates, debug_bytes, snapshot_store, restore_store, restore_entries, encode_entry,
  open_state, save_group, serialize_bundle, deserialize_bundle, load_group,
}
use ghostcrypt_crypto_core.Mls.Groups.{
  fresh_signer, save, create_group, create_group_in, add_member, add_member_in, remove_member,
}
use ghostcrypt_crypto_core.Mls.Messages.{
  encrypt_message, decrypt_message, process_commit, process_commit_in, merge_commit,
}
use ghostcrypt_crypto_core.Mls.Restore.{restore_store-snapshot_store}
use ghostcrypt_crypto_core.Mls.Usable.{Usable, open_state-save_group}
use ghostcrypt_crypto_core.Mls.Made.{created, added, Made-Usable}
use ghostcrypt_crypto_core.Mls.Commits.{decrypt_message-process_commit}
use ghostcrypt_crypto_core.Mls.Panics.{operations-panic}
use ghostcrypt_crypto_core.Examples.ToyText.{toy_base64, toy_base64-Base64Laws}
use ghostcrypt_crypto_core.Examples.ToyMls.{toy_mls, toy_mls-MlsLaws, holding}

-- The state of the group at epoch 2, of the signer 4 with the identity 9
abbrev second_epoch : Bytes
second_epoch = 2 ∷ 4 ∷ 9 ∷ []

-- `{:?}` of two bytes
debug_two : debug_bytes (1 ∷ 22 ∷ []) ≡ "[1, 22]"
unfolding debug_bytes decimal
debug_two = refl

restore_store-snapshot_store_example :
    restore_store toy_base64 (snapshot_store toy_base64 (holding 5)) ≡ ok (holding 5)
restore_store-snapshot_store_example =
    restore_store-snapshot_store toy_base64 toy_base64-Base64Laws (holding 5) (tt, tt)

second_epoch-saved : save_group toy_mls 2 (holding 2) 4 (9 ∷ []) ≡ ok second_epoch
unfolding save_group serialize_bundle snapshot_store encode_entry insert_all Dict.insert pair_eqb
    list_eqb
second_epoch-saved = refl

open_state-save_group_example :
    open_state toy_mls second_epoch
    ≡ ok (record { group = 2; values = holding 2; signer = 4; credential_with_key = 9 ∷ [] })
open_state-save_group_example =
    open_state-save_group toy_mls toy_mls-MlsLaws 2 (record { values = holding 2; rng = 0 }) 4
      (9 ∷ []) second_epoch (record { is_map = (tt, tt); stored = refl }) second_epoch-saved

-- A group with the signer 4 and the identity 9 is created, then a member is added.
abbrev new_group : CreateGroupResult
new_group = record { group_state = 0 ∷ 4 ∷ 9 ∷ []; group_id = 7 ∷ []; epoch = 0 }

create_run : create_group toy_mls (9 ∷ []) 4 ≡ (ok new_group, 5)
unfolding create_group create_group_in fresh_signer save save_group serialize_bundle snapshot_store
    encode_entry insert_all Dict.insert pair_eqb list_eqb
create_run = refl

abbrev with_two : AddMemberResult
with_two = record { commit = 0 ∷ []; welcome = 1 ∷ 3 ∷ []; group_state = 1 ∷ 4 ∷ 9 ∷ []; epoch = 1 }

add_run : add_member toy_mls (0 ∷ 4 ∷ 9 ∷ []) (3 ∷ []) 5 ≡ (ok with_two, 5)
unfolding add_member add_member_in open_state deserialize_bundle load_group restore_store
    restore_entries save save_group serialize_bundle snapshot_store encode_entry insert_all
    Dict.insert pair_eqb list_eqb
add_run = refl

-- The state after both has a group that its key store holds.
Made-Usable_example : (group : ℕ) × Usable toy_mls (1 ∷ 4 ∷ 9 ∷ []) group
unfolding create_group create_group_in fresh_signer add_member add_member_in open_state
    deserialize_bundle load_group restore_store restore_entries save save_group serialize_bundle
    snapshot_store encode_entry insert_all Dict.insert pair_eqb list_eqb
Made-Usable_example =
    Made-Usable toy_mls toy_mls-MlsLaws (1 ∷ 4 ∷ 9 ∷ [])
      (added (0 ∷ 4 ∷ 9 ∷ []) (3 ∷ []) 5 with_two (created (9 ∷ []) 4 new_group refl) refl)

abbrev third_epoch : ProcessCommitResult
third_epoch = record { group_state = 3 ∷ 4 ∷ 9 ∷ []; epoch = 3 }

commit_run : process_commit toy_mls second_epoch (0 ∷ []) 5 ≡ (ok third_epoch, 5)
unfolding process_commit process_commit_in merge_commit open_state deserialize_bundle load_group
    restore_store restore_entries save save_group serialize_bundle snapshot_store encode_entry
    insert_all Dict.insert pair_eqb list_eqb
commit_run = refl

decrypt_message-process_commit_example :
    decrypt_message toy_mls second_epoch (0 ∷ []) 5
    ≡ (ok (record { plaintext = []; group_state = 3 ∷ 4 ∷ 9 ∷ [] }), 5)
decrypt_message-process_commit_example =
    decrypt_message-process_commit toy_mls second_epoch (0 ∷ []) 5 5 third_epoch commit_run

-- A bundle whose only key is not base64
abbrev broken : GroupBundle
broken = record {
  store = record { entries = ("a", "") ∷ [] };
  signer = [];
  credential_with_key = [];
  group_id = [];
}

abbrev broken_mls : MlsCrates ℕ
broken_mls = record toy_mls {
  bundle_codec = record { to_vec = λ b. value []; from_slice = λ bytes. value broken };
}

broken_read : deserialize_bundle broken_mls [] ≡ ok broken
unfolding deserialize_bundle
broken_read = refl

operations-panic_example :
    ((key_package : Bytes) → add_member broken_mls [] key_package 0 ≡ (panic, 0))
    × ((leaf_index : ℕ) → remove_member broken_mls [] leaf_index 0 ≡ (panic, 0))
    × ((plaintext : Bytes) → encrypt_message broken_mls [] plaintext 0 ≡ (panic, 0))
    × ((message : Bytes) → decrypt_message broken_mls [] message 0 ≡ (panic, 0))
    × ((commit : Bytes) → process_commit broken_mls [] commit 0 ≡ (panic, 0))
operations-panic_example =
    operations-panic broken_mls [] broken [] "a" "" [] 0 broken_read refl
      ("Invalid padding", inl refl)
