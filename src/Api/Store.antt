-- ===== src/Api/Store.antt =====
-- The global stores of src/api.rs: a `RwLock<HashMap<u32, _>>` and the counter of its handles.
use ghostcrypt_crypto_core.Common.{
  ℕ, String, text_append, Bool, true, false, Option, none, some, nat_eq, if◌then◌else◌, decimal,
}
use ghostcrypt_crypto_core.Common.Dict
use ghostcrypt_crypto_core.Common.Dict.{Dict}
use ghostcrypt_crypto_core.Error.{Outcome, ok, err}
use ghostcrypt_crypto_core.Exec.{Call}
use ghostcrypt_crypto_core.Ratchet.Chain.{u32_suc}

-- The lock is poisoned once a call has panicked while it held the lock for writing.
pub record Store (A : Type 0) : Type 0 where
  pub next : ℕ
  pub slots : Dict ℕ A
  pub poisoned : Bool

-- The error of `lock()` on a poisoned lock, behind the text of the caller
abbrev pub lock_error : String → String
lock_error prefix = text_append prefix "poisoned lock: another task failed inside"

module _ {A : Type 0} where
  abbrev pub new_store : Store A
  new_store = record { next = 1; slots = Dict.empty; poisoned = false }

  unfoldable pub entry : Store A → ℕ → Option A
  unfolding Dict.get
  entry s handle = Dict.get s.slots handle

  unfoldable pub set_entry : ℕ → A → Store A → Store A
  unfolding Dict.insert
  set_entry handle a s = record s { slots = Dict.insert s.slots handle a }

  -- `fetch_add(1)`, and then `write()?.insert(handle, a)`: the handle is used up in any case.
  unfoldable pub insert_new : String → A → Call (Store A) ℕ
  unfolding set_entry
  insert_new prefix a s =
      let s' : Store A = record s { next = u32_suc s.next } in
      if s.poisoned then (err (lock_error prefix), s') else (ok s.next, set_entry s.next a s')

  -- `lock()?.get(&handle).ok_or_else(..)?`
  unfoldable pub find : String → String → ℕ → Store A → Outcome String A
  unfolding entry
  find prefix missing handle s =
      if s.poisoned then err (lock_error prefix) else elim (entry s handle) [
        | none ↦ err (text_append missing (decimal handle))
        | some a ↦ ok a
      ]

  unfoldable pub is_some : Option A → Bool
  is_some none = false
  is_some (some a) = true

  -- `match STORE.write() { Ok(mut s) => s.remove(&handle).is_some(), Err(_) => false }`
  unfoldable pub destroy : ℕ → Store A → Bool × Store A
  unfolding entry Dict.remove is_some
  destroy handle s =
      if s.poisoned
      then (false, s)
      else (is_some (entry s handle), record s { slots = Dict.remove s.slots handle })
