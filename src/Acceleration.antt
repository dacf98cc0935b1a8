-- ===== src/Acceleration.antt =====
-- How soon a goal is reached with more money (frontend/src/utils/goalAcceleration.ts). Months are
-- whole numbers, or NaN where an amount is not a number. The quotient of two amounts, which the
-- program rounds to a floating-point number before it takes its ceiling, is a parameter.
pub mod Rounding
pub mod Least
use nestlio.Prelude.{
  ℕ, zero, suc, ◌+◌, ◌-◌, ◌*◌, ◌/◌, ◌^◌, Bool, true, false, not, ◌&&◌, ◌||◌, Option, none, some,
  ◌==◌, if◌then◌else◌, or_else, Text, codes, Number, nan, decimal, number, add_number,
}
use nestlio.Prelude.Int.{ℤ, pos, negsuc}

abbrev pub negate : Number → Number
negate nan = nan
negate (decimal x m s) = decimal (not x) m s

-- a - b.
unfoldable pub sub_number : Number → Number → Number
sub_number a b = add_number a (negate b)

-- Math.max(0, n).
abbrev pub max_zero : Number → Number
max_zero nan = nan
max_zero (decimal false m s) = decimal false m s
max_zero (decimal true m s) = decimal false 0 0

-- n > 0.
abbrev pub is_positive : Number → Bool
is_positive nan = false
is_positive (decimal false zero s) = false
is_positive (decimal false (suc m) s) = true
is_positive (decimal true m s) = false

-- n <= 0.
abbrev pub not_positive : Number → Bool
not_positive nan = false
not_positive (decimal false zero s) = true
not_positive (decimal false (suc m) s) = false
not_positive (decimal true m s) = true

abbrev pub zero_months : Number
zero_months = decimal false 0 0

pub record GoalAcceleration : Type 0 where
  pub months_saved : Number
  pub new_months_remaining : Number

pub record MonthsToGoal : Type 0 where
  pub base_months : Option Number
  pub new_months : Option Number
  pub months_saved : Number

abbrev pub saved : Option Number → Option Number → Number
saved none new = zero_months
saved (some base) none = zero_months
saved (some base) (some new) = sub_number base new

-- `ceil_quotient a b` is Math.ceil(a / b), the division of the language's floating-point numbers.
module _ (ceil_quotient : Number → Number → Number) where
  -- The last steps of estimateGoalAcceleration, from `remaining` on.
  unfoldable pub accelerate : Number → Number → Number → Number → Option GoalAcceleration
  accelerate remaining extra pace months_remaining =
      let remaining_after_surplus = max_zero (sub_number remaining extra) in
      let new_months_remaining = ceil_quotient remaining_after_surplus pace in
      let months_saved = sub_number months_remaining new_months_remaining in
      if not_positive remaining || not_positive months_saved
      then none
      else some
          (record { months_saved = months_saved; new_months_remaining = new_months_remaining })

  -- estimateGoalAcceleration.
  unfoldable pub estimate_goal_acceleration :
      Text → Text → Option Number → Option Text → Text → Option GoalAcceleration
  estimate_goal_acceleration required_amount current_amount none suggested_monthly_amount surplus =
      none
  estimate_goal_acceleration required_amount current_amount (some months) suggested_monthly_amount
        surplus =
      let pace = number (or_else suggested_monthly_amount (codes "0")) in
      let extra = number surplus in
      if not (is_positive months) || (not_positive pace || not_positive extra)
      then none
      else accelerate (max_zero (sub_number (number required_amount) (number current_amount))) extra
          pace months

  -- Math.ceil(remaining / pace) if pace > 0, otherwise null.
  abbrev pub months_at : Number → Number → Option Number
  months_at remaining pace = if is_positive pace then some (ceil_quotient remaining pace) else none

  -- monthsToGoalWithExtra.
  unfoldable pub months_to_goal_with_extra : Text → Text → Text → Number → MonthsToGoal
  months_to_goal_with_extra required_amount current_amount monthly_amount extra_monthly =
      let remaining = max_zero (sub_number (number required_amount) (number current_amount)) in
      let base = number monthly_amount in
      let with_extra = add_number base (max_zero extra_monthly) in
      if not_positive remaining
      then record {
        base_months = some zero_months;
        new_months = some zero_months;
        months_saved = zero_months;
      }
      else record {
        base_months = months_at remaining base;
        new_months = months_at remaining with_extra;
        months_saved = saved (months_at remaining base) (months_at remaining with_extra);
      }
