-- ===== src/Prelude/Numbers.antt =====
-- `Number(text)` of the language, on the texts that the program hands it: white space, a sign,
-- digits and one point. The value is exact: mantissa / 10 ^ scale, and a zero keeps its sign.
-- Other numerals (exponents, hexadecimal, Infinity) are read as NaN here.
use Prim.Native.Nat.{ℕ, suc, ◌+◌, ◌-◌, ◌*◌, ◌^◌}
use mathlib.Core.Bool.{Bool, true, false, ◌&&◌}
use mathlib.Core.List.{[], ◌∷◌, ◌++◌}
use mathlib.Core.Option.{Option, none, some}
use nestlio.Prelude.Tests.{◌==◌, if◌then◌else◌}
use nestlio.Prelude.Lists.{length}
use nestlio.Prelude.Int.{ℤ, pos, negsuc, ◌+ℤ◌, mul_ℕ, sub_ℕ}
use nestlio.Prelude.Texts.{Text, is_digit, is_empty, trim, split_at_char}

pub data Number : Type 0 where
  nan : Number
  decimal : Bool → ℕ → ℕ → Number

-- The value of a text of digits.
unfoldable pub digits_value : ℕ → Text → Option ℕ
digits_value acc [] = some acc
digits_value acc (c ∷ t) = if is_digit c then digits_value (acc * 10 + (c - b'0')) t else none

abbrev pub of_mantissa : Bool → ℕ → Option ℕ → Number
of_mantissa negative scale none = nan
of_mantissa negative scale (some m) = decimal negative m scale

-- A numeral without a sign: digits, a point, digits, and at least one digit.
unfoldable pub unsigned_number : Bool → Text → Number
unfolding digits_value split_at_char
unsigned_number negative t =
    let (int, rest) = split_at_char b'.' t in
    let frac : Text = elim rest [ none ↦ [] | some r ↦ r ] in
    if is_empty int && is_empty frac
    then nan
    else of_mantissa negative (length frac) (digits_value 0 (int ++ frac))

unfoldable pub signed_number : Text → Number
unfolding unsigned_number
signed_number [] = decimal false 0 0
signed_number (c ∷ t) =
    if c == b'-'
    then unsigned_number true t
    else if c == b'+'
    then unsigned_number false t
    else unsigned_number false (c ∷ t)

unfoldable pub number : Text → Number
unfolding signed_number trim
number t = signed_number (trim t)

-- `n === 0`, also of -0.
abbrev pub is_zero : Number → Bool
is_zero nan = false
is_zero (decimal negative m scale) = m == 0

-- The mantissa with its sign, and a number from one.
abbrev pub signed : Bool → ℕ → ℤ
signed false m = pos m
signed true m = sub_ℕ 0 m

abbrev pub of_signed : ℤ → ℕ → Number
of_signed (pos m) s = decimal false m s
of_signed (negsuc m) s = decimal true (suc m) s

-- a + b.
unfoldable pub add_number : Number → Number → Number
add_number nan b = nan
add_number (decimal x m s) nan = nan
add_number (decimal x m s) (decimal y n t) =
    of_signed (mul_ℕ (signed x m) (10 ^ t) +ℤ mul_ℕ (signed y n) (10 ^ s)) (s + t)

-- `n || 0`.
abbrev pub or_zero_number : Number → Number
or_zero_number nan = decimal false 0 0
or_zero_number (decimal x m s) = decimal x m s
