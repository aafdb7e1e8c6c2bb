-- ===== src/Wasm/Refusals.antt =====
-- Calls of src/wasm.rs on a group state that was destroyed.
use ghostcrypt_crypto_core.Common.{
  ℕ, ◌+◌, ◌<◌, ◌≡◌, refl, Bytes, String, text_append, true, false, none, some, List, [], ◌∷◌,
  length, decimal, nat_eq, arith,
}
use ghostcrypt_crypto_core.Common.Dict
use ghostcrypt_crypto_core.Common.Dict.{get-insert, get-remove}
use ghostcrypt_crypto_core.Crates.{Crates}
use ghostcrypt_crypto_core.Ratchet.Chain.{u32_mod, u32_suc-small}
use ghostcrypt_crypto_core.Error.{err}
use ghostcrypt_crypto_core.Api.Store.{is_some}
use ghostcrypt_crypto_core.Mls.Types.{MlsOps}
use ghostcrypt_crypto_core.Encoding.Base64.{Base64Laws}
use ghostcrypt_crypto_core.Wasm.State.{WasmCrates, Instance, new_instance, find_handle}
use ghostcrypt_crypto_core.Wasm.Groups.{
  read_state, mls_add_member, mls_remove_member, mls_encrypt_message, mls_decrypt_message,
  mls_process_commit, mls_destroy_state,
}
use ghostcrypt_crypto_core.Wasm.Moves.{
  Moves, drew, used_up, new_identity, new_pre_key, new_session, changed_session, new_group,
  removed_group,
}
use ghostcrypt_crypto_core.Wasm.Requests.{Request, serve, serve_all}
use ghostcrypt_crypto_core.Wasm.Steps.{serve-Moves}
use ghostcrypt_crypto_core.Wasm.Handles.{
  Sound, Moves-Sound, removed-Sound, serve_all-Counted, in_use-given,
}
use ghostcrypt_crypto_core.Wasm.Texts.{from_base64-encode}

abbrev pub missing_group : ℕ → String
missing_group handle =
    text_append "MLS group" (text_append " handle " (text_append (decimal handle) " not found"))

-- Every operation that takes a group state returns the error that names the handle, for each
-- argument that is base64, and leaves the instance as it was; destroying answers that there is
-- nothing.
pub record Refuses (x : WasmCrates) (mls : MlsOps x.core.Rng) (handle : ℕ) (i : Instance x.core)
    : Type 0 where
  pub add :
      (bytes : Bytes)
      → mls_add_member x mls handle (x.base64.encode bytes) i ≡ (err (missing_group handle), i)
  pub remove : (leaf : ℕ) → mls_remove_member x mls handle leaf i ≡ (err (missing_group handle), i)
  pub encrypt :
      (bytes : Bytes)
      → mls_encrypt_message x mls handle (x.base64.encode bytes) i ≡ (err (missing_group handle), i)
  pub decrypt :
      (bytes : Bytes)
      → mls_decrypt_message x mls handle (x.base64.encode bytes) i ≡ (err (missing_group handle), i)
  pub commit :
      (bytes : Bytes)
      → mls_process_commit x mls handle (x.base64.encode bytes) i ≡ (err (missing_group handle), i)
  pub destroy : (mls_destroy_state handle i).0 ≡ false

-- The handle was given out, and no group state is behind it.
record Gone {c : Crates} (handle : ℕ) (i : Instance c) : Type 0 where
  pub empty : Dict.get i.mls_states handle ≡ none
  pub given : handle < i.next

module _ {c : Crates} (mls : MlsOps c.Rng) where
  -- No move puts anything behind a handle that was given out, before the counter wraps.
  Moves-Gone :
      (handle : ℕ) (i i' : Instance c)
      → Moves mls i i'
      → i.next + 1 < u32_mod
      → Gone handle i
      → Gone handle i'
  Moves-Gone handle i i' (drew rng) room g = record { empty = g.empty; given = g.given }
  Moves-Gone handle i i' (used_up rng) room g = record {
    empty = g.empty;
    given = omega (arith, g.given, u32_suc-small i.next room);
  }
  Moves-Gone handle i i' (new_identity rng kp) room g = record {
    empty = g.empty;
    given = omega (arith, g.given, u32_suc-small i.next room);
  }
  Moves-Gone handle i i' (new_pre_key rng spk) room g = record {
    empty = g.empty;
    given = omega (arith, g.given, u32_suc-small i.next room);
  }
  Moves-Gone handle i i' (new_session rng session free) room g = record {
    empty = g.empty;
    given = omega (arith, g.given, u32_suc-small i.next room);
  }
  Moves-Gone handle i i' (changed_session rng other s s' borrowed free at) room g = record {
    empty = g.empty;
    given = g.given;
  }
  Moves-Gone handle i i' (new_group rng state wrote) room g = record {
    empty = ground (arith, get-insert i.mls_states i.next handle state, g.empty, g.given);
    given = omega (arith, g.given, u32_suc-small i.next room);
  }
  Moves-Gone handle i i' (removed_group other) room g = record {
    empty = ground (arith, get-remove i.mls_states other handle, g.empty);
    given = g.given;
  }

module _ (x : WasmCrates) (mls : MlsOps x.core.Rng) where
  serve_all-Gone :
      (requests : List Request) (handle : ℕ) (i : Instance x.core)
      → i.next + length requests < u32_mod
      → Sound i
      → Gone handle i
      → Gone handle (serve_all x mls requests i)
  unfolding serve_all
  serve_all-Gone [] handle i room s g = g
  serve_all-Gone (request ∷ requests) handle i room s g =
      let i' = serve x mls request i in
      let m = serve-Moves x mls request i in
      let (s', le) = Moves-Sound mls i i' m (omega arith) s in
      serve_all-Gone requests handle i' (omega arith) s'
        (Moves-Gone mls handle i i' m (omega arith) g)

  destroyed-Gone :
      (handle : ℕ) (i : Instance x.core)
      → handle < i.next
      → Gone handle (mls_destroy_state handle i).1
  unfolding mls_destroy_state
  destroyed-Gone handle i h = record {
    empty = ground (arith, get-remove i.mls_states handle handle);
    given = h;
  }

  module _ (base64 : Base64Laws x.base64) where
    Gone-Refuses : (handle : ℕ) (i : Instance x.core) → Gone handle i → Refuses x mls handle i
    unfolding mls_add_member mls_remove_member mls_encrypt_message mls_decrypt_message
        mls_process_commit mls_destroy_state read_state find_handle is_some
    Gone-Refuses handle i g = record {
      add = λ bytes. rw (from_base64-encode x base64 "key_package" bytes, g.empty) refl;
      remove = λ leaf. rw g.empty refl;
      encrypt = λ bytes. rw (from_base64-encode x base64 "plaintext" bytes, g.empty) refl;
      decrypt = λ bytes. rw (from_base64-encode x base64 "mls_message" bytes, g.empty) refl;
      commit = λ bytes. rw (from_base64-encode x base64 "commit" bytes, g.empty) refl;
      destroy = rw g.empty refl;
    }

    -- Take a handle that has a group state after some calls on a new instance. Destroying it
    -- answers true; and then, whatever calls come next, fewer than 2^32 - 1 in all, every operation
    -- that takes a group state refuses the handle, for each argument that is base64, and destroying
    -- it again answers false: a handle is not given out a second time.
    pub mls_destroy_state-Refuses :
        (before later : List Request) (rng : x.core.Rng) (handle : ℕ) (state : Bytes)
        → 1 + length before + length later < u32_mod
        → Dict.get (serve_all x mls before (new_instance rng)).mls_states handle ≡ some state
        → let (removed, i) = mls_destroy_state handle (serve_all x mls before (new_instance rng)) in
          (removed ≡ true) × Refuses x mls handle (serve_all x mls later i)
    unfolding mls_destroy_state is_some
    mls_destroy_state-Refuses before later rng handle state room at =
        let i = serve_all x mls before (new_instance rng) in
        let (s, le) = serve_all-Counted x mls before rng (omega arith) in
        let i' = (mls_destroy_state handle i).1 in
        let given = in_use-given handle i state s at in
        (
          rw at refl,
          Gone-Refuses handle (serve_all x mls later i') (
              serve_all-Gone later handle i' (omega arith) (removed-Sound handle i s)
                (destroyed-Gone handle i given)),
        )
