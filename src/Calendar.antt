-- ===== src/Calendar.antt =====
-- Days (the day helpers of frontend/src/utils/date.ts) and the grid of a month
-- (frontend/src/components/transactions/MonthCalendarGrid.tsx). A day is a month, counted from
-- January of the year 0, and a day of it; `new Date(y, m, d)` carries days over into the months
-- before and after, one day at a time here, by the Gregorian calendar of the language. There are no
-- days before the year 0.
pub mod Days
pub mod Weeks
pub mod Grid
use nestlio.Prelude.{
  ℕ, zero, suc, ◌+◌, ◌-◌, ◌*◌, ◌/◌, ◌%◌, Bool, true, false, not, ◌&&◌, ◌||◌, Option, none, some,
  List, [], ◌∷◌, ◌++◌, ◌==◌, leb, if◌then◌else◌, Text, codes, text_eq, split_at_char, digits_value,
  show_ℕ,
}
use nestlio.Prelude.Int.{ℤ, pos, negsuc, ◌+ℤ◌, ◌-ℤ◌}
use nestlio.Months.{pad2, full_year, year_month_parts}

-- Whether a year has a 29th of February.
abbrev pub is_leap : ℕ → Bool
is_leap y = (y % 4 == 0) && (not (y % 100 == 0) || (y % 400 == 0))

-- The days of a month, from January = 0 on.
abbrev pub month_length : Bool → ℕ → ℕ
month_length leap m =
    if m == 1
    then (if leap then 29 else 28)
    else if (m == 3) || ((m == 5) || ((m == 8) || (m == 10)))
    then 30
    else 31

pub record Day : Type 0 where
  pub month : ℕ
  pub day : ℕ

unfoldable pub days_in : ℕ → ℕ
days_in k = month_length (is_leap (k / 12)) (k % 12)

unfoldable pub next_day : Day → Day
next_day x =
    if leb (days_in x.month) x.day
    then record { month = suc x.month; day = 1 }
    else record { month = x.month; day = suc x.day }

unfoldable pub previous_day : Day → Day
previous_day x =
    if leb x.day 1
    then record { month = x.month - 1; day = days_in (x.month - 1) }
    else record { month = x.month; day = x.day - 1 }

unfoldable pub forward : ℕ → Day → Day
forward zero x = x
forward (suc n) x = forward n (next_day x)

unfoldable pub back : ℕ → Day → Day
back zero x = x
back (suc n) x = previous_day (back n x)

-- new Date(y, m, d), with the months y * 12 + m.
unfoldable pub make_date : ℕ → ℤ → Day
make_date k (pos zero) = back 1 (record { month = k; day = 1 })
make_date k (pos (suc n)) = forward n (record { month = k; day = 1 })
make_date k (negsuc n) = back (suc (suc n)) (record { month = k; day = 1 })

-- The days of a year's first months.
unfoldable pub days_before_month : Bool → ℕ → ℕ
days_before_month leap zero = 0
days_before_month leap (suc m) = days_before_month leap m + month_length leap m

-- The days from the first day of the year 0 to that of a year.
unfoldable pub days_before_year : ℕ → ℕ
days_before_year y = 365 * y + (y + 3) / 4 + (y + 399) / 400 - (y + 99) / 100

unfoldable pub day_number : Day → ℕ
day_number x =
    days_before_year (x.month / 12)
    + days_before_month (is_leap (x.month / 12)) (x.month % 12)
    + x.day

-- getDay(), from Sunday = 0 on.
unfoldable pub weekday : Day → ℕ
weekday x = (day_number x + 5) % 7

-- toDateIso.
unfoldable pub to_date_iso : Day → Text
to_date_iso d = show_ℕ (d.month / 12) ++ (b'-' ∷ (pad2 (d.month % 12 + 1) ++ (b'-' ∷ pad2 d.day)))

-- A cell of the grid, without isToday.
pub record Cell : Type 0 where
  pub date : Text
  pub day : ℕ
  pub in_current_month : Bool

-- What the loop pushes for a day, with m of the month's text.
unfoldable pub cell_of : ℕ → Day → Cell
cell_of m d = record { date = to_date_iso d; day = d.day; in_current_month = d.month % 12 + 1 == m }

-- The loop from i on, with as many rounds as are left.
unfoldable pub cells_from : ℕ → ℕ → ℕ → ℕ → ℕ → List Cell
cells_from k m leading zero i = []
cells_from k m leading (suc rounds) i =
    cell_of m (make_date k (pos i -ℤ pos leading +ℤ pos 1)) ∷ cells_from k m leading rounds (suc i)

-- The grid of the m-th month of the year y, with the months y * 12 + m - 1.
unfoldable pub grid_of : ℕ → ℕ → List Cell
grid_of k m =
    let leading = weekday (make_date k (pos 1)) in
    let last_date = (make_date (suc k) (pos 0)).day in
    cells_from k m leading ((leading + last_date + 6) / 7 * 7) 0

abbrev pub grid_of_parts : Option (ℕ × ℕ) → List Cell
grid_of_parts none = []
grid_of_parts (some (y, m)) = grid_of (full_year y * 12 + m - 1) m

-- buildGrid: with a part that is NaN its loop makes no round.
unfoldable pub build_grid : Text → List Cell
build_grid year_month = grid_of_parts (year_month_parts year_month)

-- monthBounds.
pub record Bounds : Type 0 where
  pub date_from : Text
  pub date_to : Text

abbrev pub last_day_text : Option (ℕ × ℕ) → Text
last_day_text none = codes "NaN"
last_day_text (some (y, m)) = pad2 (make_date (full_year y * 12 + m) (pos 0)).day

unfoldable pub month_bounds : Text → Bounds
month_bounds year_month = record {
  date_from = year_month ++ codes "-01";
  date_to = year_month ++ (b'-' ∷ last_day_text (year_month_parts year_month));
}

-- The three parts of split("-").map(Number), if they are numbers.
unfoldable pub date_parts : Text → Option (ℕ × ℕ × ℕ)
date_parts t =
    let (y, rest) = split_at_char b'-' t in
    elim rest [
      | none ↦ none
      | some r ↦
          let (m, last) = split_at_char b'-' r in
          elim last [
            | none ↦ none
            | some d ↦
                all_three (digits_value 0 y) (digits_value 0 m)
                  (digits_value 0 (split_at_char b'-' d).0)
          ]
    ]
  where
    all_three : Option ℕ → Option ℕ → Option ℕ → Option (ℕ × ℕ × ℕ)
    all_three (some y) (some m) (some d) = some (y, m, d)
    all_three _ _ _ = none

abbrev pub shift_date_parts : ℤ → Option (ℕ × ℕ × ℕ) → Text
shift_date_parts delta_days none = codes "NaN-NaN-NaN"
shift_date_parts delta_days (some (y, m, day)) =
    to_date_iso (make_date (full_year y * 12 + m - 1) (pos day +ℤ delta_days))

-- shiftDateIso.
unfoldable pub shift_date_iso : Text → ℤ → Text
shift_date_iso date_iso delta_days = shift_date_parts delta_days (date_parts date_iso)
