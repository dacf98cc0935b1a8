-- ===== src/Months/Texts.antt =====
-- The text of a month reads back as its year and month.
use nestlio.Prelude.{
  ℕ, ◌+◌, ◌/◌, ◌%◌, ◌≡◌, refl, true, false, some, [], ◌∷◌, ◌++◌, Text, all, is_digit, digits_value,
  show_ℕ, show_ℤ, show_ℕ-digits, digits_value-show_ℕ, digits_value-pad_start, pad_start-digits,
  split-digits, split-digits_only, is_empty, ◌∙◌,
}
use nestlio.Prelude.Int.{pos, div_ℤ, mod_ℤ}
use nestlio.Months.{pad2, both, rest_parts, year_month_parts, show_month}

pad2-value : (n : ℕ) → digits_value 0 (pad2 n) ≡ some n
unfolding pad2
pad2-value n = digits_value-pad_start 2 (show_ℕ n) ∙ digits_value-show_ℕ n

pad2-digits : (n : ℕ) → all is_digit (pad2 n) ≡ true
unfolding pad2
pad2-digits n = pad_start-digits 2 (show_ℕ n) (show_ℕ-digits n)

pub parts-show : (y m : ℕ) → year_month_parts (show_ℕ y ++ (b'-' ∷ pad2 m)) ≡ some (y, m)
unfolding year_month_parts rest_parts both
parts-show y m =
    rw (split-digits b'-' (show_ℕ y) (pad2 m) refl (show_ℕ-digits y), digits_value-show_ℕ y)
      (rw (split-digits_only b'-' (pad2 m) refl (pad2-digits m), pad2-value m) refl)

pub parts-show_month : (n : ℕ) → year_month_parts (show_month (pos n)) ≡ some (n / 12, n % 12 + 1)
unfolding show_month div_ℤ mod_ℤ show_ℤ
parts-show_month n = parts-show (n / 12) (n % 12 + 1)

pub is_empty-show_month : (n : ℕ) → is_empty (show_month (pos n)) ≡ false
unfolding show_month div_ℤ show_ℤ
is_empty-show_month n = not_empty (show_ℕ (n / 12)) _
  where
    not_empty : (t r : Text) → is_empty (t ++ (b'-' ∷ r)) ≡ false
    not_empty [] r = refl
    not_empty (c ∷ t) r = refl
