-- ===== src/Calendar/Days.antt =====
-- The calendar that the dates follow (the day helpers of frontend/src/utils/date.ts).
use nestlio.Prelude.{
  ℕ, zero, suc, ◌+◌, ◌-◌, ◌/◌, ◌%◌, ◌≤◌, ◌<◌, ◌≡◌, refl, ap, ◌∙◌, sym, Bool, true, false, ◌==◌, leb,
  if◌then◌else◌, arith, Bool-cases, inl, inr,
}
use nestlio.Calendar.{
  is_leap, month_length, Day, days_in, next_day, previous_day, forward, back, days_before_month,
  days_before_year, day_number,
}

abbrev year_length : Bool → ℕ
year_length leap = if leap then 366 else 365

-- One more where n divides y.
abbrev one_if : Bool → ℕ
one_if b = if b then 1 else 0

fourths : (y : ℕ) → (suc y + 3) / 4 ≡ (y + 3) / 4 + one_if (y % 4 == 0)
fourths y = ground arith

hundredths : (y : ℕ) → (suc y + 99) / 100 ≡ (y + 99) / 100 + one_if (y % 100 == 0)
hundredths y = ground arith

four_hundredths : (y : ℕ) → (suc y + 399) / 400 ≡ (y + 399) / 400 + one_if (y % 400 == 0)
four_hundredths y = ground arith

year_length-is_leap :
    (y : ℕ)
    → year_length (is_leap y) + one_if (y % 100 == 0)
      ≡ 365 + one_if (y % 4 == 0) + one_if (y % 400 == 0)
year_length-is_leap y = ground arith

days_before_year-suc :
    (y : ℕ) → days_before_year (suc y) ≡ days_before_year y + year_length (is_leap y)
unfolding days_before_year
days_before_year-suc y =
    omega (arith, fourths y, hundredths y, four_hundredths y, year_length-is_leap y)

year_length-months : (leap : Bool) → days_before_month leap 12 ≡ year_length leap
unfolding days_before_month
year_length-months true = refl
year_length-months false = refl

month_length-range : (leap : Bool) (m : ℕ) → 28 ≤ month_length leap m
month_length-range leap m = ground arith

-- The days before a month.
abbrev month_start : ℕ → ℕ → ℕ
month_start y m = days_before_year y + days_before_month (is_leap y) m

pub first_of : ℕ → ℕ
first_of k = month_start (k / 12) (k % 12)

pub days_in-range : (k : ℕ) → 28 ≤ days_in k
unfolding days_in
days_in-range k = month_length-range (is_leap (k / 12)) (k % 12)

month_start-next : (y m : ℕ) → month_start y (suc m) ≡ month_start y m + month_length (is_leap y) m
unfolding days_before_month
month_start-next y m = omega arith

month_start-last : (y : ℕ) → month_start (suc y) 0 ≡ month_start y 11 + month_length (is_leap y) 11
unfolding days_before_month
month_start-last y = omega (arith, days_before_year-suc y, year_length-months (is_leap y))

-- A month begins where the one before ends.
pub first_of-suc : (k : ℕ) → first_of (suc k) ≡ first_of k + days_in k
unfolding first_of days_in
first_of-suc k = elim (Bool-cases (k % 12 == 11)) [
  | inl e ↦ last (ground (arith, e))
  | inr e ↦ within (ground (arith, e))
]
  where
    last :
        k % 12 ≡ 11
        → month_start (suc k / 12) (suc k % 12)
          ≡ month_start (k / 12) (k % 12) + month_length (is_leap (k / 12)) (k % 12)
    last e =
        ap (λ y. month_start y (suc k % 12)) (omega (arith, e))
        ∙ ap (λ m. month_start (suc (k / 12)) m) (omega (arith, e))
        ∙ month_start-last (k / 12)
        ∙ ap (λ m. month_start (k / 12) m + month_length (is_leap (k / 12)) m) (sym e)

    within :
        k % 12 < 11
        → month_start (suc k / 12) (suc k % 12)
          ≡ month_start (k / 12) (k % 12) + month_length (is_leap (k / 12)) (k % 12)
    within e =
        ap (λ y. month_start y (suc k % 12)) (omega (arith, e))
        ∙ ap (λ m. month_start (k / 12) m) (omega (arith, e))
        ∙ month_start-next (k / 12) (k % 12)

-- The day of a month, counted.
pub day_number-first_of : (x : Day) → day_number x ≡ first_of x.month + x.day
unfolding day_number first_of
day_number-first_of x = refl

abbrev pub at_day : ℕ → ℕ → Day
at_day k d = record { month = k; day = d }

pub next_day-within : (k d : ℕ) → d < days_in k → next_day (at_day k d) ≡ at_day k (suc d)
unfolding next_day
next_day-within k d h = let inside : leb (days_in k) d ≡ false = ground arith in rw inside refl

pub next_day-last : (k : ℕ) → next_day (at_day k (days_in k)) ≡ at_day (suc k) 1
unfolding next_day
next_day-last k = let over : leb (days_in k) (days_in k) ≡ true = ground arith in rw over refl

previous_day-within : (k d : ℕ) → 1 < d → previous_day (at_day k d) ≡ at_day k (d - 1)
unfolding previous_day
previous_day-within k d h = let inside : leb d 1 ≡ false = ground arith in rw inside refl

-- Days within a month, and before it.
pub forward-within : (n k d : ℕ) → d + n ≤ days_in k → forward n (at_day k d) ≡ at_day k (d + n)
unfolding forward
forward-within zero k d h = ap (at_day k) (omega arith)
forward-within (suc n) k d h =
    ap (forward n) (next_day-within k d (omega (arith, h)))
    ∙ forward-within n k (suc d) (omega (arith, h))
    ∙ ap (at_day k) (omega arith)

pub back-within :
    (n k : ℕ) → n < days_in k → back (suc n) (at_day (suc k) 1) ≡ at_day k (days_in k - n)
unfolding back previous_day
back-within zero k h = ap (λ m. at_day m (days_in m)) (omega arith) ∙ ap (at_day k) (omega arith)
back-within (suc n) k h =
    ap previous_day (back-within n k (omega (arith, h)))
    ∙ previous_day-within k (days_in k - n) (omega (arith, h))
    ∙ ap (at_day k) (omega arith)

-- The day after the last of a month.
pub forward-over : (n k d : ℕ) → d + n ≡ days_in k → forward (suc n) (at_day k d) ≡ at_day (suc k) 1
unfolding forward
forward-over zero k d h = ap (λ e. next_day (at_day k e)) (omega (arith, h)) ∙ next_day-last k
forward-over (suc n) k d h =
    ap (forward (suc n)) (next_day-within k d (omega (arith, h)))
    ∙ forward-over n k (suc d) (omega (arith, h))
