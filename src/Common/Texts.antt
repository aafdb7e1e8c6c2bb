-- ===== src/Common/Texts.antt =====
-- Byte literals and the decimal print of a number, as `b"..."` and `format!` use them.
use Prim.Native.Nat.{ℕ, zero, suc, ◌/◌, ◌%◌}
use Prim.Native.Char.{code}
use Prim.Native.String.{String, ◌++◌}
use mathlib.Core.List.{List, [], ◌∷◌}
use ghostcrypt_crypto_core.Common.Tests.{ltb, nat_eqb, if◌then◌else◌}

-- The bytes of an ASCII text.
abbrev pub codes : String → List ℕ
codes String.[] = []
codes (String.◌∷◌ c s) = code c ∷ codes s

digit : ℕ → String
digit d =
    if nat_eqb d 0
    then "0"
    else if nat_eqb d 1
    then "1"
    else if nat_eqb d 2
    then "2"
    else if nat_eqb d 3
    then "3"
    else if nat_eqb d 4
    then "4"
    else if nat_eqb d 5
    then "5"
    else if nat_eqb d 6
    then "6"
    else if nat_eqb d 7
    then "7"
    else if nat_eqb d 8
    then "8"
    else "9"

decimal_digits : ℕ → ℕ → String
unfolding digit
decimal_digits zero n = ""
decimal_digits (suc f) n =
    let rest = decimal_digits f (n / 10) in if ltb n 10 then digit n else rest ++ digit (n % 10)

-- A number has no more decimal digits than its successor's value, so the fuel suffices.
unfoldable pub decimal : ℕ → String
unfolding decimal_digits
decimal n = decimal_digits (suc n) n
