-- ===== src/MonthlyGrid.antt =====
-- The grid of monthly amounts in the plan and goal forms
-- (frontend/src/hooks/useMonthlyTargetGrid.ts), with `toAmountInputValue` of
-- frontend/src/utils/format.ts. The hook is the functions that it returns; what a handler hands to
-- `onChange` is its result.
pub mod Totals
pub mod Edits
use nestlio.Prelude.{
  ℕ, ◌≡◌, Bool, Option, none, some, List, [], ◌∷◌, map, if◌then◌else◌, is_empty, Text, text_eq,
  Number, nan, decimal, number, or_zero_number, add_number, show_number,
}
use nestlio.Months.{
  MonthlyTarget, zero_text, map_get, amount_or_zero, build_year_month_range,
  distribute_amount_evenly,
}

-- NaN is shown as "0".
unfoldable pub show_or_zero : Number → Text
show_or_zero nan = zero_text
show_or_zero (decimal x m s) = show_number (decimal x m s)

-- toAmountInputValue of a text or null.
unfoldable pub to_amount_input_value : Option Text → Text
to_amount_input_value none = zero_text
to_amount_input_value (some t) = if is_empty t then zero_text else show_or_zero (number t)

-- `amountByMonth`: the rows with their amounts as the inputs show them.
unfoldable pub amount_by_month : List MonthlyTarget → List MonthlyTarget
amount_by_month targets =
    map {A = MonthlyTarget}
      (λ t. record t { target_amount = to_amount_input_value (some t.target_amount) }) targets

-- `total`, the sum from an accumulator on.
unfoldable pub total_from : Number → List MonthlyTarget → Number
total_from sum [] = sum
total_from sum (t ∷ ts) = total_from (add_number sum (or_zero_number (number t.target_amount))) ts

unfoldable pub total : List MonthlyTarget → Number
total targets = total_from (decimal Bool.false 0 0) targets

unfoldable pub set_amount : Text → Text → List MonthlyTarget → Text → Text → List MonthlyTarget
set_amount start_month end_month targets year_month amount =
    map
      (λ ym. record {
        year_month = ym;
        target_amount =
            if text_eq ym year_month then amount else amount_or_zero (amount_by_month targets) ym;
      })
      (build_year_month_range start_month end_month)

-- The entries of `distributed`, read back for each month.
unfoldable pub read_months : List MonthlyTarget → List Text → List MonthlyTarget
read_months distributed months =
    map (λ ym. record { year_month = ym; target_amount = amount_or_zero distributed ym }) months

unfoldable pub handle_distribute_evenly : Text → Text → Text → List MonthlyTarget
handle_distribute_evenly start_month end_month distribute_amount =
    let months = build_year_month_range start_month end_month in
    read_months (distribute_amount_evenly distribute_amount months) months
