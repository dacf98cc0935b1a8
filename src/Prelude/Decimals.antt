-- ===== src/Prelude/Decimals.antt =====
-- `String(n)` of a whole number, `padStart`, and that they read back.
use Prim.Native.Nat.{ℕ, zero, suc, ◌+◌, ◌-◌, ◌*◌, ◌/◌, ◌%◌, ◌^◌, ◌<◌}
use mathlib.Core.Path.{◌≡◌, refl, ap, ◌∙◌}
use mathlib.Core.Bool.{Bool, true, false, ◌&&◌, not}
use mathlib.Core.List.{[], ◌∷◌, ◌++◌, append-nil}
use mathlib.Core.Option.{none, some}
use mathlib.Core.Logic.{inl, inr}
use native.Mathlib.Omega.{arith}
use nestlio.Prelude.Tests.{ltb, ◌==◌, if◌then◌else◌, Bool-cases}
use nestlio.Prelude.Lists.{length, all, all-append}
use nestlio.Prelude.Texts.{
  Text, codes, is_digit, is_space, is_empty, trim_start, trim_end, trim, split_at_char,
}
use nestlio.Prelude.Numbers.{
  Number, nan, decimal, digits_value, unsigned_number, signed_number, number, add_number,
}
use nestlio.Prelude.Int.{ℤ, pos, negsuc, ◌+ℤ◌, mul_ℕ}

-- The digits of `n`, with at least as much fuel as digits.
unfoldable pub digits_of : ℕ → ℕ → Text
digits_of zero n = []
digits_of (suc fuel) n =
    let front = digits_of fuel (n / 10) in
    if ltb n 10 then (b'0' + n) ∷ [] else front ++ (b'0' + n % 10) ∷ []

-- String(n), of a number that is not negative.
unfoldable pub show_ℕ : ℕ → Text
unfolding digits_of
show_ℕ n = digits_of (suc n) n

-- String(z), of a whole number.
unfoldable pub show_ℤ : ℤ → Text
unfolding show_ℕ
show_ℤ (pos n) = show_ℕ n
show_ℤ (negsuc n) = b'-' ∷ show_ℕ (suc n)

zeros : ℕ → Text
zeros zero = []
zeros (suc n) = b'0' ∷ zeros n

-- t.padStart(width, "0").
unfoldable pub pad_start : ℕ → Text → Text
unfolding zeros
pad_start width t = zeros (width - length t) ++ t

digits_value-snoc :
    (acc v : ℕ) (t : Text) (d : ℕ)
    → d < 10
    → digits_value acc t ≡ some v
    → digits_value acc (t ++ (b'0' + d) ∷ []) ≡ some (v * 10 + d)
unfolding digits_value
digits_value-snoc acc v [] d h e = ground arith
digits_value-snoc acc v (c ∷ t) d h e =
    ground (arith, digits_value-snoc (acc * 10 + (c - b'0')) v t d h)

digits_of-value : (fuel n : ℕ) → n < fuel → digits_value 0 (digits_of fuel n) ≡ some n
unfolding digits_of
digits_of-value zero n h = absurd (omega arith)
digits_of-value (suc fuel) n h = elim (Bool-cases (ltb n 10)) [
  | inl e ↦ rw e (unfold digits_value in ground arith)
  | inr e ↦ rw e (
      digits_value-snoc 0 (n / 10) (digits_of fuel (n / 10)) (n % 10) (omega arith)
        (digits_of-value fuel (n / 10) (ground arith))
      ∙ ap some (omega arith))
]

digits_of-digits : (fuel n : ℕ) → all is_digit (digits_of fuel n) ≡ true
unfolding digits_of
digits_of-digits zero n = refl
digits_of-digits (suc fuel) n = elim (Bool-cases (ltb n 10)) [
  | inl e ↦ rw e (ground arith)
  | inr e ↦ rw (e, all-append, digits_of-digits fuel (n / 10)) (ground arith)
]

-- A printed number consists of digits and reads back.
pub show_ℕ-digits : (n : ℕ) → all is_digit (show_ℕ n) ≡ true
unfolding show_ℕ
show_ℕ-digits n = digits_of-digits (suc n) n

pub digits_value-show_ℕ : (n : ℕ) → digits_value 0 (show_ℕ n) ≡ some n
unfolding show_ℕ
digits_value-show_ℕ n = digits_of-value (suc n) n (omega arith)

digits_value-zeros : (k : ℕ) (t : Text) → digits_value 0 (zeros k ++ t) ≡ digits_value 0 t
unfolding zeros digits_value
digits_value-zeros zero t = refl
digits_value-zeros (suc k) t = digits_value-zeros k t

pub digits_value-pad_start : (w : ℕ) (t : Text) → digits_value 0 (pad_start w t) ≡ digits_value 0 t
unfolding pad_start
digits_value-pad_start w t = digits_value-zeros (w - length t) t

zeros-digits : (k : ℕ) → all is_digit (zeros k) ≡ true
unfolding zeros
zeros-digits zero = refl
zeros-digits (suc k) = zeros-digits k

pub pad_start-digits :
    (w : ℕ) (t : Text) → all is_digit t ≡ true → all is_digit (pad_start w t) ≡ true
unfolding pad_start
pad_start-digits w t h = rw (all-append, zeros-digits, h) refl

-- Digits hold none of the separators.
pub split-digits :
    (sep : ℕ) (t r : Text)
    → is_digit sep ≡ false
    → all is_digit t ≡ true
    → split_at_char sep (t ++ (sep ∷ r)) ≡ (t, some r)
unfolding split_at_char
split-digits sep [] r s h = ground arith
split-digits sep (c ∷ t) r s h = ground (arith, split-digits sep t r)

pub split-digits_only :
    (sep : ℕ) (t : Text)
    → is_digit sep ≡ false
    → all is_digit t ≡ true
    → split_at_char sep t ≡ (t, none)
unfolding split_at_char
split-digits_only sep [] s h = refl
split-digits_only sep (c ∷ t) s h = ground (arith, split-digits_only sep t)

trim_start-digits : (t : Text) → all is_digit t ≡ true → trim_start t ≡ t
unfolding trim_start
trim_start-digits [] h = refl
trim_start-digits (c ∷ t) h = let e : is_space c ≡ false = ground arith in rw e refl

trim_end-digits : (t : Text) → all is_digit t ≡ true → trim_end t ≡ t
unfolding trim_end
trim_end-digits [] h = refl
trim_end-digits (c ∷ t) h =
    let e : is_space c ≡ false = ground arith in
    rw e (ap (λ r. c ∷ r) (trim_end-digits t (ground arith)))

trim-digits : (t : Text) → all is_digit t ≡ true → trim t ≡ t
unfolding trim
trim-digits t h = rw (trim_start-digits t h) (trim_end-digits t h)

trim-minus : (t : Text) → all is_digit t ≡ true → trim (b'-' ∷ t) ≡ b'-' ∷ t
unfolding trim trim_start trim_end
trim-minus t h = ap (λ r. b'-' ∷ r) (trim_end-digits t h)

-- What `show_ℕ` prints is not empty.
digits_of-is_empty : (fuel n : ℕ) → is_empty (digits_of (suc fuel) n) ≡ false
unfolding digits_of
digits_of-is_empty fuel n = elim (Bool-cases (ltb n 10)) [
  | inl e ↦ rw e refl
  | inr e ↦ rw e (snoc_is_empty (digits_of fuel (n / 10)) _)
]
  where
    snoc_is_empty : (t : Text) (c : ℕ) → is_empty (t ++ c ∷ []) ≡ false
    snoc_is_empty [] c = refl
    snoc_is_empty (d ∷ t) c = refl

pub show_ℕ-is_empty : (n : ℕ) → is_empty (show_ℕ n) ≡ false
unfolding show_ℕ
show_ℕ-is_empty n = digits_of-is_empty n n

unsigned_number-show_ℕ : (b : Bool) (n : ℕ) → unsigned_number b (show_ℕ n) ≡ decimal b n 0
unfolding unsigned_number
unsigned_number-show_ℕ b n =
    rw (split-digits_only b'.' (show_ℕ n) refl (show_ℕ-digits n), unsigned_number)
      (rw (show_ℕ-is_empty n, append-nil, digits_value-show_ℕ) refl)

-- Behind the tests on its first character, a numeral of digits is unsigned.
signed-digits :
    (t : Text)
    → all is_digit t ≡ true
    → is_empty t ≡ false
    → signed_number t ≡ unsigned_number false t
unfolding signed_number
signed-digits [] h e = cc
signed-digits (c ∷ t) h e =
    let minus : (c == b'-') ≡ false = ground arith in
    let plus : (c == b'+') ≡ false = ground arith in rw (minus, plus) refl

-- The number that a whole number's text is read as.
abbrev pub whole : ℤ → Number
whole (pos n) = decimal false n 0
whole (negsuc n) = decimal true (suc n) 0

pub number-show_ℤ : (z : ℤ) → number (show_ℤ z) ≡ whole z
unfolding show_ℤ number
number-show_ℤ (pos n) =
    rw
      (
        trim-digits (show_ℕ n) (show_ℕ-digits n),
        signed-digits (show_ℕ n) (show_ℕ-digits n) (show_ℕ-is_empty n),
      )
      (unsigned_number-show_ℕ false n)
number-show_ℤ (negsuc n) =
    ap signed_number (trim-minus (show_ℕ (suc n)) (show_ℕ-digits (suc n)))
    ∙ (unfold signed_number in unsigned_number-show_ℕ true (suc n))

-- A fraction without the zeros at its end.
unfoldable pub strip_trailing : Text → Text
strip_trailing [] = []
strip_trailing (c ∷ t) =
    let rest = strip_trailing t in if (c == b'0') && is_empty rest then [] else c ∷ rest

abbrev with_fraction : Text → Text → Text
with_fraction int [] = int
with_fraction int (c ∷ t) = int ++ (b'.' ∷ c ∷ t)

-- String(n), below the numbers that are written with an exponent. The sign of a zero is not shown.
unfoldable pub show_number : Number → Text
unfolding strip_trailing
show_number nan = codes "NaN"
show_number (decimal x m s) =
    let t =
      with_fraction (show_ℕ (m / 10 ^ s))
        (strip_trailing (if s == 0 then [] else pad_start s (show_ℕ (m % 10 ^ s)))) in
    if x && not (m == 0) then b'-' ∷ t else t

-- Whole numbers add up as integers do.
pub add_number-whole : (a b : ℤ) → add_number (whole a) (whole b) ≡ whole (a +ℤ b)
unfolding add_number mul_ℕ ◌+ℤ◌
add_number-whole (pos a) (pos b) = ground arith
add_number-whole (pos a) (negsuc b) = ground arith
add_number-whole (negsuc a) (pos b) = ground arith
add_number-whole (negsuc a) (negsuc b) = ground arith

pub number-show_ℕ : (n : ℕ) → number (show_ℕ n) ≡ decimal false n 0
unfolding show_ℤ
number-show_ℕ n = number-show_ℤ (pos n)
