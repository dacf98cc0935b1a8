-- ===== src/Months.antt =====
-- Months as the texts "YYYY-MM" (the month helpers of frontend/src/utils/date.ts, and
-- frontend/src/utils/monthRange.ts): moving by months, the list of months of a period, and the even
-- split of an amount over them. `Date` is the language's: `new Date(y, m, 1)` carries months over
-- into years and reads the years 0 to 99 as 1900 to 1999. The parts of a month's text are texts of
-- digits; any other part counts as NaN.
pub mod Texts
pub mod Shift
pub mod Range
pub mod Distinct
use nestlio.Prelude.{
  ℕ, zero, suc, ◌+◌, ◌-◌, ◌*◌, ◌/◌, ◌%◌, ◌^◌, Bool, true, false, Option, none, some, List, [], ◌∷◌,
  ◌++◌, map, leb, ltb, if◌then◌else◌, length, ◌||◌, Text, codes, text_eq, is_empty, split_at_char,
  digits_value, show_ℕ, show_ℤ, pad_start, Number, nan, decimal, number,
}
use nestlio.Prelude.Int.{ℤ, pos, negsuc, ◌+ℤ◌, ◌-ℤ◌, ltb_ℤ, div_ℤ, mod_ℤ, mul_ℕ, sub_ℕ}

-- pad2(n).
unfoldable pub pad2 : ℕ → Text
pad2 n = pad_start 2 (show_ℕ n)

unfoldable pub both : Option ℕ → Option ℕ → Option (ℕ × ℕ)
both (some year) (some month) = some (year, month)
both _ _ = none

-- The second part ends at the next dash.
unfoldable pub rest_parts : Option ℕ → Option Text → Option (ℕ × ℕ)
rest_parts year none = none
rest_parts year (some r) = both year (digits_value 0 (split_at_char b'-' r).0)

-- The first two parts of split("-").map(Number), if the text has two and both are numbers.
unfoldable pub year_month_parts : Text → Option (ℕ × ℕ)
year_month_parts t = let (y, rest) = split_at_char b'-' t in rest_parts (digits_value 0 y) rest

-- The year that the constructor `Date` reads.
unfoldable pub full_year : ℕ → ℕ
full_year y = if leb y 99 then 1900 + y else y

-- `${d.getFullYear()}-${pad2(d.getMonth() + 1)}` of a first of a month, by the count of months
-- from January of the year 0.
unfoldable pub show_month : ℤ → Text
show_month k = show_ℤ (div_ℤ k 12) ++ (b'-' ∷ pad2 (mod_ℤ k 12 + 1))

-- With a part that is NaN the date is invalid, and its year and month are NaN.
unfoldable pub shift_parts : ℤ → Option (ℕ × ℕ) → Text
shift_parts delta none = codes "NaN-NaN"
shift_parts delta (some (y, m)) = show_month (pos (full_year y * 12 + m) -ℤ pos 1 +ℤ delta)

-- shiftYearMonth.
unfoldable pub shift_year_month : Text → ℤ → Text
shift_year_month year_month delta = shift_parts delta (year_month_parts year_month)

-- The text that the loop of buildYearMonthRange pushes at i = index - 1.
unfoldable pub range_month : ℕ → Text
range_month zero = codes "-1-00"
range_month (suc i) = show_ℕ (i / 12) ++ (b'-' ∷ pad2 (i % 12 + 1))

-- The loop, with as many rounds as are left.
unfoldable pub range_from : ℕ → ℕ → List Text
range_from zero index = []
range_from (suc rounds) index = range_month index ∷ range_from rounds (index + 1)

unfoldable pub range_between : Option (ℕ × ℕ) → Option (ℕ × ℕ) → List Text
range_between (some (start_year, start_month)) (some (end_year, end_month)) =
    let start_index = start_year * 12 + start_month in
    let end_index = end_year * 12 + end_month in
    if ltb end_index start_index then [] else range_from (end_index - start_index + 1) start_index
range_between _ _ = []

-- buildYearMonthRange. The two indices are those of the source plus one, so that they are never
-- negative; with a part that is NaN its loop makes no round.
unfoldable pub build_year_month_range : Text → Text → List Text
build_year_month_range start_year_month end_year_month =
    if is_empty start_year_month || is_empty end_year_month
    then []
    else range_between (year_month_parts start_year_month) (year_month_parts end_year_month)

-- A row of the forms, and `new Map(rows).get(key)`: a later row with the key replaces an earlier.
pub record MonthlyTarget : Type 0 where
  pub year_month : Text
  pub target_amount : Text

unfoldable pub map_get : Text → List MonthlyTarget → Option Text
map_get key [] = none
map_get key (t ∷ ts) = elim (map_get key ts) [
  | some amount ↦ some amount
  | none ↦ if text_eq t.year_month key then some t.target_amount else none
]

abbrev pub zero_text : Text
zero_text = b'0' ∷ []

-- `byMonth.get(ym) ?? "0"`.
unfoldable pub amount_or_zero : List MonthlyTarget → Text → Text
amount_or_zero existing ym = elim (map_get ym existing) [ some amount ↦ amount | none ↦ zero_text ]

-- syncTargetsToPeriod.
unfoldable pub sync_targets_to_period : Text → Text → List MonthlyTarget → List MonthlyTarget
sync_targets_to_period start_year_month end_year_month existing =
    map (λ ym. record { year_month = ym; target_amount = amount_or_zero existing ym })
      (build_year_month_range start_year_month end_year_month)

-- Math.round(n || 0): half a unit rounds up.
unfoldable pub round_or_zero : Number → ℤ
round_or_zero nan = pos 0
round_or_zero (decimal false m s) = div_ℤ (pos (2 * m + 10 ^ s)) (2 * 10 ^ s)
round_or_zero (decimal true m s) = div_ℤ (sub_ℕ (10 ^ s) (2 * m)) (2 * 10 ^ s)

-- months.forEach: the amounts from the month number `i` on.
unfoldable pub shares_from : ℤ → ℤ → ℕ → List Text → List MonthlyTarget
shares_from base remainder i [] = []
shares_from base remainder i (ym ∷ months) =
    record {
      year_month = ym;
      target_amount = show_ℤ (base +ℤ pos (if ltb_ℤ (pos i) remainder then 1 else 0));
    }
    ∷ shares_from base remainder (i + 1) months

-- distributeAmountEvenly: the entries in the order in which they are written.
unfoldable pub distribute_amount_evenly : Text → List Text → List MonthlyTarget
distribute_amount_evenly total [] = []
distribute_amount_evenly total (ym ∷ months) =
    let total_amount = round_or_zero (number total) in
    let n = length (ym ∷ months) in
    let base = div_ℤ total_amount n in
    shares_from base (total_amount -ℤ mul_ℕ base n) 0 (ym ∷ months)
