-- ===== src/Examples/Instances.antt =====
-- Runs of calls on an instance, at concrete arguments.
use ghostcrypt_crypto_core.Common.{
  ℕ, ◌≡◌, refl, some, true, List, [], ◌∷◌, nat_eq, string_eq, list_eqb, pair_eqb, arith,
}
use ghostcrypt_crypto_core.Common.Dict
use ghostcrypt_crypto_core.Common.Dict.Entries.{insert_all}
use ghostcrypt_crypto_core.Mls.Bundle.{save_group, serialize_bundle, snapshot_store, encode_entry}
use ghostcrypt_crypto_core.Mls.Groups.{create_group, create_group_in, fresh_signer, save}
use ghostcrypt_crypto_core.Mls.Messages.{mls_ops}
use ghostcrypt_crypto_core.Mls.Usable.{Usable}
use ghostcrypt_crypto_core.Wasm.State.{Instance, new_instance, next_id, from_base64, answer}
use ghostcrypt_crypto_core.Wasm.Groups.{store_state, mls_create_group, mls_destroy_state}
use ghostcrypt_crypto_core.Wasm.Moves.{Moves}
use ghostcrypt_crypto_core.Wasm.Requests
use ghostcrypt_crypto_core.Wasm.Requests.{Request, serve, serve_all}
use ghostcrypt_crypto_core.Wasm.Steps.{serve-Moves}
use ghostcrypt_crypto_core.Wasm.Handles.{Sound, serve_all-Sound}
use ghostcrypt_crypto_core.Wasm.GroupStates.{serve_all-Usable}
use ghostcrypt_crypto_core.Wasm.Refusals.{Refuses, mls_destroy_state-Refuses}
use ghostcrypt_crypto_core.Examples.Toy.{toy}
use ghostcrypt_crypto_core.Examples.ToyText.{toy_base64, toy_base64-Base64Laws}
use ghostcrypt_crypto_core.Examples.ToyMls.{toy_mls, toy_mls-MlsLaws}
use ghostcrypt_crypto_core.Examples.Wasm.{browser}

abbrev start : Instance toy
start = new_instance 4

-- A group, an identity key, a signed pre-key of it, and a call on a handle of another kind
abbrev some_calls : List Request
some_calls =
    Requests.mls_create_group (toy_base64.encode (9 ∷ []))
    ∷ Requests.generate_identity_keypair
    ∷ Requests.generate_signed_pre_key 2
    ∷ Requests.session_encrypt 2 (toy_base64.encode (1 ∷ []))
    ∷ []

serve-Moves_example :
    Moves (mls_ops toy_mls) start (
      serve browser
        (mls_ops toy_mls)
        (Requests.mls_create_group (toy_base64.encode (9 ∷ [])))
        start)
serve-Moves_example =
    serve-Moves browser (mls_ops toy_mls) (Requests.mls_create_group (toy_base64.encode (9 ∷ [])))
      start

serve_all-Sound_example : Sound (serve_all browser (mls_ops toy_mls) some_calls (new_instance 4))
serve_all-Sound_example = serve_all-Sound browser (mls_ops toy_mls) some_calls 4 (omega arith)

abbrev one_group : List Request
one_group = Requests.mls_create_group (toy_base64.encode (9 ∷ [])) ∷ []

group_stored :
    Dict.get (serve_all browser (mls_ops toy_mls) one_group (new_instance 4)).mls_states 1
    ≡ some (0 ∷ 4 ∷ 9 ∷ [])
unfolding serve_all serve mls_create_group from_base64 store_state next_id answer create_group
    create_group_in fresh_signer save save_group serialize_bundle snapshot_store encode_entry
    insert_all Dict.insert Dict.get pair_eqb list_eqb
group_stored = refl

serve_all-Usable_example : (group : ℕ) × Usable toy_mls (0 ∷ 4 ∷ 9 ∷ []) group
serve_all-Usable_example =
    serve_all-Usable browser toy_mls one_group 4 1 (0 ∷ 4 ∷ 9 ∷ []) toy_mls-MlsLaws group_stored

-- The group is destroyed, and the calls go on.
mls_destroy_state-Refuses_example :
    let (removed, i) =
      mls_destroy_state 1 (serve_all browser (mls_ops toy_mls) one_group (new_instance 4)) in
    (removed ≡ true)
    × Refuses browser (mls_ops toy_mls) 1 (serve_all browser (mls_ops toy_mls) some_calls i)
mls_destroy_state-Refuses_example =
    mls_destroy_state-Refuses browser (mls_ops toy_mls) toy_base64-Base64Laws one_group some_calls 4
      1 (0 ∷ 4 ∷ 9 ∷ []) (omega arith) group_stored
