-- ===== src/Encoding/Json.antt =====
-- serde_json::Value, as far as src/wasm.rs uses it.
use ghostcrypt_crypto_core.Common.{ℕ, ◌^◌, ◌<◌, ◌≡◌, String, List, [], ◌∷◌, Option, some, string_eq}
use ghostcrypt_crypto_core.Common.Dict
use ghostcrypt_crypto_core.Common.Dict.Entries.{insert_all}
use ghostcrypt_crypto_core.Error.{Fallible, value}

pub record Json : Type 1 where
  pub Value : Type 0
  -- What `json!` writes: a string, a number, an object of these fields; and a `Vec` of values
  pub string : String → Value
  pub number : ℕ → Value
  pub object : List (String × Value) → Value
  pub array : List Value → Value
  -- `value[key]`, which is null where there is no such field
  pub index : Value → String → Value
  pub as_str : Value → Option String
  pub as_u64 : Value → Option ℕ
  -- serde_json::to_string, serde_json::from_str
  pub to_string : Value → Fallible String
  pub from_str : String → Fallible Value

-- Values without floats, whose text loses nothing
mutual
  pub data IsPlain (j : Json) : j.Value → Type 0 where
    plain_string : (s : String) → IsPlain j (j.string s)
    plain_number : (n : ℕ) → n < 2 ^ 64 → IsPlain j (j.number n)
    plain_object :
        (fields : List (String × j.Value)) → ArePlain j fields → IsPlain j (j.object fields)

  pub data ArePlain (j : Json) : List (String × j.Value) → Type 0 where
    no_fields : ArePlain j []
    plain_field :
        (key : String) (v : j.Value) (fields : List (String × j.Value))
        → IsPlain j v
        → ArePlain j fields
        → ArePlain j ((key, v) ∷ fields)

-- What the theorems rely on: the fields of an object, and that printed values are read back
pub record JsonLaws (j : Json) : Type 0 where
  pub as_str-string : (s : String) → j.as_str (j.string s) ≡ some s
  pub as_u64-number : (n : ℕ) → n < 2 ^ 64 → j.as_u64 (j.number n) ≡ some n
  pub index-object :
      (fields : List (String × j.Value)) (key : String) (v : j.Value)
      → Dict.get (insert_all fields Dict.empty) key ≡ some v
      → j.index (j.object fields) key ≡ v
  pub from_str-to_string :
      (v : j.Value) (text : String)
      → IsPlain j v
      → j.to_string v ≡ value text
      → j.from_str text ≡ value v
