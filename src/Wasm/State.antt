-- ===== src/Wasm/State.antt =====
-- The thread-local stores of src/wasm.rs, and what its functions share: handles, base64 arguments,
-- and answers as JSON text. An answer is a `JsValue` that is a string, and an error the text of
-- its `JsError`.
use ghostcrypt_crypto_core.Common.{
  ℕ, ◌≡◌, Bytes, String, text_append, Option, none, some, Bool, false, nat_eq, decimal, length,
  nat_eqb,
}
use ghostcrypt_crypto_core.Common.Dict
use ghostcrypt_crypto_core.Common.Dict.{Dict}
use ghostcrypt_crypto_core.Error.{
  Outcome, ok, err, panic, Result, Fallible, value, failed, to_string, guard,
}
use ghostcrypt_crypto_core.Exec.{Exec, Call, lift}
use ghostcrypt_crypto_core.Crates.{Crates}
use ghostcrypt_crypto_core.Encoding.Base64.{Base64}
use ghostcrypt_crypto_core.Encoding.Json.{Json}
use ghostcrypt_crypto_core.Identity.{IdentityKeyPair, SignedPreKey}
use ghostcrypt_crypto_core.Ratchet.Chain.{u32_suc}
use ghostcrypt_crypto_core.Ratchet.State.{Session}

-- The crates of the core, with base64 and serde_json
pub record WasmCrates : Type 1 where
  pub core : Crates
  pub base64 : Base64
  pub json : Json

-- A panic while `SESSIONS` is mutably borrowed leaves it borrowed: a trap unwinds nothing.
pub record Instance (c : Crates) : Type 0 where
  pub identity_keys : Dict ℕ (IdentityKeyPair c)
  pub spk_keys : Dict ℕ (SignedPreKey c)
  pub sessions : Dict ℕ (Session c)
  pub sessions_borrowed : Bool
  pub mls_states : Dict ℕ Bytes
  pub next : ℕ
  pub rng : c.Rng

abbrev pub new_instance : {c : Crates} → c.Rng → Instance c
new_instance rng = record {
  identity_keys = Dict.empty;
  spk_keys = Dict.empty;
  sessions = Dict.empty;
  sessions_borrowed = false;
  mls_states = Dict.empty;
  next = 1;
  rng = rng;
}

-- `result.map_err(|e| JsError::new(&format!("<prefix>{e}")))`, of a third-party call
abbrev pub js_error {ℓ} : {A : Type ℓ} → String → Fallible A → Outcome String A
js_error prefix (value a) = ok a
js_error prefix (failed e) = err (text_append prefix e)

pub js_error-ok {ℓ} :
    {A : Type ℓ} (prefix : String) (r : Fallible A) {a : A} → js_error prefix r ≡ ok a → r ≡ value a
js_error-ok prefix (value b) h = cc
js_error-ok prefix (failed e) h = cc

-- `map_err` as above, of a call of the core
abbrev pub core_error {ℓ} : {A : Type ℓ} → String → Result A → Outcome String A
core_error prefix (ok a) = ok a
core_error prefix (err e) = err (text_append prefix (to_string e))
core_error prefix panic = panic

pub core_error-ok {ℓ} :
    {A : Type ℓ} (prefix : String) (r : Result A) {a : A} → core_error prefix r ≡ ok a → r ≡ ok a
core_error-ok prefix (ok b) h = cc
core_error-ok prefix (err e) h = cc
core_error-ok prefix panic h = cc

-- `option.ok_or_else(|| JsError::new(missing))`
abbrev pub or_missing {ℓ} : {A : Type ℓ} → String → Option A → Outcome String A
or_missing missing none = err missing
or_missing missing (some a) = ok a

pub or_missing-ok {ℓ} :
    {A : Type ℓ} (missing : String) (o : Option A) {a : A}
    → or_missing missing o ≡ ok a
    → o ≡ some a
or_missing-ok missing none h = cc
or_missing-ok missing (some b) h = cc

-- `map.get(&handle).ok_or_else(..)?`
unfoldable pub find_handle {ℓ} : {A : Type ℓ} → String → ℕ → Dict ℕ A → Outcome String A
find_handle kind handle d =
    or_missing
      (text_append kind (text_append " handle " (text_append (decimal handle) " not found")))
      (Dict.get d handle)

-- `if bytes.len() != 32 { return Err(JsError::new(message)) }`
abbrev pub check_32 : String → Bytes → Outcome String (Unit {0})
check_32 message bytes = guard (nat_eqb (length bytes) 32) message

pub find_handle-ok {ℓ} :
    {A : Type ℓ} (kind : String) (handle : ℕ) (d : Dict ℕ A) {a : A}
    → find_handle kind handle d ≡ ok a
    → Dict.get d handle ≡ some a
unfolding find_handle
find_handle-ok kind handle d h = or_missing-ok _ (Dict.get d handle) h

module _ {c : Crates} where
  -- next_id: `current + 1` wraps in a release build.
  unfoldable pub next_id : Call (Instance c) ℕ
  next_id i = (ok i.next, record i { next = u32_suc i.next })

  -- A call of the core that draws from the random source
  abbrev pub on_core {ℓ} : {A : Type ℓ} → String → Exec c.Rng A → Call (Instance c) A
  on_core prefix m i = let (r, rng') = m i.rng in (core_error prefix r, record i { rng = rng' })

module _ (x : WasmCrates) where
  open x.json use {Value}

  -- `BASE64.decode(text).map_err(..)?`
  unfoldable pub from_base64 : String → String → Outcome String Bytes
  from_base64 name text =
      js_error (text_append "Invalid " (text_append name " base64: ")) (x.base64.decode text)

  -- `value[key].as_str().ok_or_else(..)?`
  unfoldable pub str_field : String → Value → String → Outcome String String
  str_field owner v key =
      or_missing (text_append owner (text_append "." (text_append key " missing or not a string")))
        (x.json.as_str (x.json.index v key))

  unfoldable pub u64_field : String → Value → String → Outcome String ℕ
  u64_field owner v key =
      or_missing (text_append owner (text_append "." (text_append key " missing or not a number")))
        (x.json.as_u64 (x.json.index v key))

  -- The bytes of a value as a JSON string
  abbrev pub base64_value : Bytes → Value
  base64_value bytes = x.json.string (x.base64.encode bytes)

  -- `serde_json::to_string(&result).map(..).map_err(..)`
  unfoldable pub answer : {S : Type 0} → Value → Call S String
  answer v = lift (js_error "Serialization failed: " (x.json.to_string v))
