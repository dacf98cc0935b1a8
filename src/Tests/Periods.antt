-- ===== src/Tests/Periods.antt =====
-- Periods of months and their amounts (frontend/src/utils/date.ts, frontend/src/utils/monthRange.ts,
-- frontend/src/hooks/useMonthlyTargetGrid.ts). 24000 is January 2000.
use nestlio.Calendar.{
  day_number, days_before_year, days_before_month, next_day, previous_day, back, days_in, make_date,
  to_date_iso, shift_date_iso, date_parts, build_grid, cell_of, weekday,
}
use nestlio.Calendar.Days.{at_day}
use nestlio.Calendar.Weeks.{consecutive, days_of, cell_count, first_shown}
use nestlio.Calendar.Grid.{build_grid-month}
use nestlio.Prelude.{
  split_at_char, digits_value, pad_start, map, filter, ◌%◌, ◌≤◌, ◌<◌, show_ℕ, ◌≡◌, refl, ◌+◌, ◌-◌,
  none, some, List, [], ◌∷◌, ltb, if◌then◌else◌, length, get_elem?, any, codes, text_eq, number,
  whole, true, arith,
}
use nestlio.Prelude.Int.{pos, negsuc, ◌+ℤ◌}
use nestlio.Months.{
  MonthlyTarget, show_month, shift_year_month, build_year_month_range, map_get,
  sync_targets_to_period, round_or_zero, full_year, pad2, year_month_parts, range_between,
  range_from, range_month, rest_parts, both,
}
use nestlio.Months.Shift.{shift-shift}
use nestlio.Months.Range.{build_year_month_range-get_elem?}
use nestlio.MonthlyGrid.{total, handle_distribute_evenly}
use nestlio.MonthlyGrid.Totals.{total-handle_distribute_evenly}
use nestlio.MonthlyGrid.Edits.{Keeps, map_get-sync_targets_to_period}

shift-shift_example :
    shift_year_month (shift_year_month (show_month (pos 24000)) (negsuc 0)) (pos 1)
    ≡ shift_year_month (show_month (pos 24000)) (negsuc 0 +ℤ pos 1)
shift-shift_example =
    shift-shift 24000 23999 (negsuc 0) (pos 1) (omega arith) (omega arith) (unfold ◌+ℤ◌ in refl)

build_year_month_range-get_elem?_example :
    (length (build_year_month_range (show_month (pos 24000)) (show_month (pos 24013)))
      ≡ 24013 + 1 - 24000)
    × (get_elem? (build_year_month_range (show_month (pos 24000)) (show_month (pos 24013))) 12 ≡ (
        if ltb (24000 + 12) (24013 + 1)
        then some (shift_year_month (show_month (pos 24000)) (pos 12))
        else none))
build_year_month_range-get_elem?_example =
    build_year_month_range-get_elem? 24000 24013 12 (omega arith)

total-handle_distribute_evenly_example :
    total
      (handle_distribute_evenly (show_month (pos 24000)) (show_month (pos 24002)) (codes "100000"))
    ≡ whole (round_or_zero (number (codes "100000")))
total-handle_distribute_evenly_example =
    total-handle_distribute_evenly 24000 24002 (codes "100000") (omega arith)

abbrev rows : List MonthlyTarget
rows = record { year_month = codes "2000-02"; target_amount = codes "300" } ∷ []

in_period :
    any
      (λ ym. text_eq ym (codes "2000-02"))
      (build_year_month_range (codes "2000-01") (codes "2000-03"))
    ≡ true
unfolding build_year_month_range year_month_parts range_between range_from range_month split_at_char
    digits_value show_ℕ pad2 pad_start rest_parts both
in_period = refl

map_get-sync_targets_to_period_example :
    (map (λ t. t.year_month) (sync_targets_to_period (codes "2000-01") (codes "2000-03") rows)
      ≡ build_year_month_range (codes "2000-01") (codes "2000-03"))
    × Keeps (map_get (codes "2000-02") rows) (
        map_get (codes "2000-02") (sync_targets_to_period (codes "2000-01") (codes "2000-03") rows))
map_get-sync_targets_to_period_example =
    map_get-sync_targets_to_period (codes "2000-01") (codes "2000-03") (codes "2000-02") rows
      in_period

-- 26 November 2026 is a Thursday, and February 2024 has a 29th.
thursday : weekday (at_day 24322 26) ≡ 4
unfolding weekday day_number days_before_year days_before_month
thursday = refl

leap_day : next_day (at_day 24289 29) ≡ at_day 24290 1
unfolding next_day days_in
leap_day = refl

shifted : shift_date_iso (codes "2026-01-01") (negsuc 0) ≡ codes "2025-12-31"
unfolding shift_date_iso date_parts make_date back previous_day days_in to_date_iso full_year show_ℕ
    pad2 split_at_char digits_value ◌+ℤ◌ pad_start
shifted = refl

build_grid-month_example :
    (build_grid (show_month (pos 24322))
      ≡ map (cell_of (24322 % 12 + 1)) (consecutive (cell_count 24322) (first_shown 24322)))
    × (weekday (first_shown 24322) ≡ 0)
    × (filter (λ c. c.in_current_month) (build_grid (show_month (pos 24322)))
        ≡ map (cell_of (24322 % 12 + 1)) (days_of 24322))
    × (cell_count 24322 % 7 ≡ 0)
    × (weekday (at_day 24322 1) + days_in 24322 ≤ cell_count 24322)
    × (cell_count 24322 < weekday (at_day 24322 1) + days_in 24322 + 7)
build_grid-month_example = build_grid-month 24322 (omega arith)
