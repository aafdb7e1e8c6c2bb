-- ===== src/Wasm/GroupStates.antt =====
-- The group states behind the handles of src/wasm.rs, over src/mls/mod.rs.
use ghostcrypt_crypto_core.Common.{
  ℕ, ◌≡◌, inl, inr, subst, Bytes, some, List, [], ◌∷◌, nat_eqb, nat_eq, list_eq, arith, Bool-cases,
}
use ghostcrypt_crypto_core.Common.Dict
use ghostcrypt_crypto_core.Common.Dict.{Dict, get-insert, get-remove}
use ghostcrypt_crypto_core.Mls.Bundle.{MlsCrates}
use ghostcrypt_crypto_core.Mls.Messages.{mls_ops}
use ghostcrypt_crypto_core.Mls.Laws.{MlsLaws}
use ghostcrypt_crypto_core.Mls.Usable.{Usable}
use ghostcrypt_crypto_core.Mls.Made.{Made, Made-Usable}
use ghostcrypt_crypto_core.Wasm.State.{WasmCrates, Instance, new_instance}
use ghostcrypt_crypto_core.Wasm.Moves
use ghostcrypt_crypto_core.Wasm.Moves.{
  Moves, Wrote, drew, used_up, new_identity, new_pre_key, new_session, changed_session, new_group,
  removed_group,
}
use ghostcrypt_crypto_core.Wasm.Requests.{Request, serve, serve_all}
use ghostcrypt_crypto_core.Wasm.Steps.{serve-Moves}

module _ (x : WasmCrates) (m : MlsCrates x.core.Rng) where
  -- Every group state behind a handle is one that operations made.
  abbrev AllMade : Instance x.core → Type 0
  AllMade i =
      (handle : ℕ) (state : Bytes) → Dict.get i.mls_states handle ≡ some state → Made m state

  Wrote-Made :
      (i : Instance x.core) (state : Bytes) → AllMade i → Wrote (mls_ops m) i state → Made m state
  Wrote-Made i state all (Moves.created identity rng r h) = Made.created identity rng r h
  Wrote-Made i state all (Moves.joined welcome secret rng r h) = Made.joined welcome secret rng r h
  Wrote-Made i state all (Moves.added handle before key_package rng r at h) =
      Made.added before key_package rng r (all handle before at) h
  Wrote-Made i state all (Moves.removed handle before leaf rng r at h) =
      Made.removed before leaf rng r (all handle before at) h
  Wrote-Made i state all (Moves.encrypted handle before text rng r at h) =
      Made.encrypted before text rng r (all handle before at) h
  Wrote-Made i state all (Moves.decrypted handle before message rng r at h) =
      Made.decrypted before message rng r (all handle before at) h
  Wrote-Made i state all (Moves.committed handle before commit rng r at h) =
      Made.committed before commit rng r (all handle before at) h

  insert-AllMade :
      (d : Dict ℕ Bytes) (k : ℕ) (new : Bytes)
      → ((handle : ℕ) (state : Bytes) → Dict.get d handle ≡ some state → Made m state)
      → Made m new
      → (handle : ℕ) (state : Bytes) → Dict.get (Dict.insert d k new) handle ≡ some state
      → Made m state
  insert-AllMade d k new all made handle state h = elim (Bool-cases (nat_eqb k handle)) [
    | inl t ↦ subst (Made m) (ground (arith, get-insert d k handle new)) made
    | inr f ↦ all handle state (ground (arith, get-insert d k handle new))
  ]

  Moves-AllMade : (i i' : Instance x.core) → Moves (mls_ops m) i i' → AllMade i → AllMade i'
  Moves-AllMade i i' (drew rng) all = all
  Moves-AllMade i i' (used_up rng) all = all
  Moves-AllMade i i' (new_identity rng kp) all = all
  Moves-AllMade i i' (new_pre_key rng spk) all = all
  Moves-AllMade i i' (new_session rng session free) all = all
  Moves-AllMade i i' (changed_session rng handle session session' borrowed free at) all = all
  Moves-AllMade i i' (new_group rng state wrote) all =
      insert-AllMade i.mls_states i.next state all (Wrote-Made i state all wrote)
  Moves-AllMade i i' (removed_group handle) all =
      λ other state h. all other state (ground (arith, get-remove i.mls_states handle other))

  serve_all-AllMade :
      (requests : List Request) (i : Instance x.core)
      → AllMade i
      → AllMade (serve_all x (mls_ops m) requests i)
  unfolding serve_all
  serve_all-AllMade [] i all = all
  serve_all-AllMade (request ∷ requests) i all =
      serve_all-AllMade requests (serve x (mls_ops m) request i)
        (Moves-AllMade i (serve x (mls_ops m) request i) (serve-Moves x (mls_ops m) request i) all)

  new_instance-AllMade : (rng : x.core.Rng) → AllMade (new_instance rng)
  unfolding Dict.get
  new_instance-AllMade rng handle state h = cc

  -- Whatever calls a new instance has served, the group state behind each handle can be opened, and
  -- gives a group that its key store holds.
  pub serve_all-Usable :
      (requests : List Request) (rng : x.core.Rng) (handle : ℕ) (state : Bytes)
      → MlsLaws m
      → Dict.get (serve_all x (mls_ops m) requests (new_instance rng)).mls_states handle
        ≡ some state
      → (group : m.openmls.Group) × Usable m state group
  serve_all-Usable requests rng handle state laws at =
      Made-Usable m laws state
        (serve_all-AllMade requests (new_instance rng) (new_instance-AllMade rng) handle state at)
