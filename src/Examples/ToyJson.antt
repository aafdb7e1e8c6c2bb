-- ===== src/Examples/ToyJson.antt =====
-- A stand-in for serde_json, where a value is its text: an object is its keys and values in a row,
-- each behind its length in unary.
use Prim.Native.Char.{code}
use ghostcrypt_crypto_core.Common.{
  ℕ, zero, suc, ◌+◌, ◌≤◌, ◌≡◌, refl, sym, ap, ◌∙◌, true, false, String, Option, none, some, List,
  [], ◌∷◌, length, nat_eqb, string_eq, arith,
}
use ghostcrypt_crypto_core.Common.Dict
use ghostcrypt_crypto_core.Common.Dict.Entries.{insert_all}
use ghostcrypt_crypto_core.Error.{value}
use ghostcrypt_crypto_core.Encoding.Json.{Json, JsonLaws}
use ghostcrypt_crypto_core.Examples.ToyText.{units}

abbrev chars : String → ℕ
chars String.[] = 0
chars (String.◌∷◌ c s) = suc (chars s)

abbrev join : String → String → String
join String.[] t = t
join (String.◌∷◌ c s) t = String.◌∷◌ c (join s t)

abbrev frame : String → String → String
frame s rest = units (chars s) (String.◌∷◌ "b" (join s rest))

abbrev put_char : Prim.Native.Char.Char → String × String → String × String
put_char c (s, rest) = (String.◌∷◌ c s, rest)

abbrev split : ℕ → String → String × String
split zero s = (String.[], s)
split (suc n) String.[] = (String.[], String.[])
split (suc n) (String.◌∷◌ c s) = put_char c (split n s)

abbrev unframe : ℕ → String → String × String
unframe n String.[] = (String.[], String.[])
unframe n (String.◌∷◌ c s) = elim (nat_eqb (code c) b'b') [
  | true ↦ split n s
  | false ↦ unframe (suc n) s
]

abbrev row : List (String × String) → String
row [] = String.[]
row ((k, v) ∷ fields) = frame k (frame v (row fields))

abbrev read_row : ℕ → String → List (String × String)
read_row zero t = []
read_row (suc n) String.[] = []
read_row (suc n) (String.◌∷◌ c s) =
    let (k, t) = unframe 0 (String.◌∷◌ c s) in
    let (v, rest) = unframe 0 t in (k, v) ∷ read_row n rest

abbrev or_null : Option String → String
or_null none = String.[]
or_null (some v) = v

abbrev field : String → String → String
field t key = or_null (Dict.get (insert_all (read_row (chars t) t) Dict.empty) key)

abbrev text_of : String → Option String
text_of String.[] = none
text_of (String.◌∷◌ c s) = elim (nat_eqb (code c) b's') [ true ↦ some s | false ↦ none ]

abbrev number_of : String → Option ℕ
number_of String.[] = none
number_of (String.◌∷◌ c s) = elim (nat_eqb (code c) b'n') [ true ↦ some (chars s) | false ↦ none ]

abbrev pub toy_json : Json
toy_json = record {
  Value = String;
  string = λ s. String.◌∷◌ "s" s;
  number = λ n. String.◌∷◌ "n" (units n String.[]);
  object = row;
  array = λ vs. "array";
  index = field;
  as_str = text_of;
  as_u64 = number_of;
  to_string = λ v. value v;
  from_str = λ t. value t;
}

split-join : (s rest : String) → split (chars s) (join s rest) ≡ (s, rest)
split-join String.[] rest = refl
split-join (String.◌∷◌ c s) rest = ap (put_char c) (split-join s rest)

unframe-units : (k n : ℕ) (s : String) → unframe k (units n (String.◌∷◌ "b" s)) ≡ split (n + k) s
unframe-units k zero s = ap (λ m. split m s) (omega arith)
unframe-units k (suc n) s = unframe-units (suc k) n s ∙ ap (λ m. split m s) (omega arith)

unframe-frame : (s rest : String) → unframe 0 (frame s rest) ≡ (s, rest)
unframe-frame s rest =
    unframe-units 0 (chars s) (join s rest)
    ∙ ap (λ m. split m (join s rest)) (omega arith)
    ∙ split-join s rest

chars-units : (n : ℕ) (s : String) → chars (units n s) ≡ n + chars s
chars-units zero s = omega arith
chars-units (suc n) s = omega (arith, chars-units n s)

chars-join : (s t : String) → chars (join s t) ≡ chars s + chars t
chars-join String.[] t = omega arith
chars-join (String.◌∷◌ c s) t = omega (arith, chars-join s t)

chars-frame : (s rest : String) → suc (chars rest) ≤ chars (frame s rest)
chars-frame s rest =
    omega (arith, chars-units (chars s) (String.◌∷◌ "b" (join s rest)), chars-join s rest)

length-row : (fields : List (String × String)) → length fields ≤ chars (row fields)
length-row [] = omega arith
length-row ((k, v) ∷ fields) =
    omega
      (arith, length-row fields, chars-frame k (frame v (row fields)), chars-frame v (row fields))

-- A text that is not empty is read field by field.
read_row-step :
    (n : ℕ) (t : String)
    → 1 ≤ chars t
    → read_row (suc n) t
      ≡ ((unframe 0 t).0, (unframe 0 (unframe 0 t).1).0) ∷ read_row n (unframe 0 (unframe 0 t).1).1
read_row-step n String.[] h = absurd (omega arith)
read_row-step n (String.◌∷◌ c s) h = refl

read_row-row :
    (n : ℕ) (fields : List (String × String)) → length fields ≤ n → read_row n (row fields) ≡ fields
read_row-row zero [] h = refl
read_row-row zero ((k, v) ∷ fields) h = absurd (omega arith)
read_row-row (suc n) [] h = refl
read_row-row (suc n) ((k, v) ∷ fields) h =
    let e₀ = unframe-frame k (frame v (row fields)) in
    let e₁ = unframe-frame v (row fields) in
    read_row-step n (row ((k, v) ∷ fields)) (omega (arith, chars-frame k (frame v (row fields))))
    ∙ ap (λ p. (p.0, (unframe 0 p.1).0) ∷ read_row n (unframe 0 p.1).1) e₀
    ∙ ap (λ q. (k, q.0) ∷ read_row n q.1) e₁
    ∙ ap (λ rest. (k, v) ∷ rest) (read_row-row n fields (omega arith))

pub toy_json-JsonLaws : JsonLaws toy_json
toy_json-JsonLaws = record {
  as_str-string = λ s. refl;
  as_u64-number = λ n small. ap (λ m. some m) (omega (arith, chars-units n String.[]));
  index-object = λ fields key v h.
      ap (λ fs. or_null (Dict.get (insert_all fs Dict.empty) key))
        (read_row-row (chars (row fields)) fields (length-row fields))
      ∙ ap or_null h;
  from_str-to_string = λ v text plain h. sym h;
}
