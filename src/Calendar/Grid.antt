-- ===== src/Calendar/Grid.antt =====
-- The grid of a month against its days
-- (frontend/src/components/transactions/MonthCalendarGrid.tsx).
use nestlio.Prelude.{
  ℕ, zero, suc, ◌+◌, ◌-◌, ◌*◌, ◌/◌, ◌%◌, ◌≤◌, ◌<◌, ◌≡◌, refl, ap, ◌∙◌, Bool, true, false, not, ◌++◌,
  map, append-nil, filter, all, filter-append, filter-all, filter-none, filter-map, ◌==◌, arith,
}
use nestlio.Prelude.Int.{pos}
use nestlio.Months.{show_month}
use nestlio.Months.Texts.{parts-show_month}
use nestlio.Months.Shift.{full_year_late}
use nestlio.Calendar.{days_in, forward, weekday, cell_of, grid_of, grid_of_parts, build_grid}
use nestlio.Calendar.Days.{at_day, forward-over, back-within, days_in-range}
use nestlio.Calendar.Weeks.{
  consecutive, days_of, consecutive-add, all-consecutive, date_at, date_at-before, date_at-from,
  first_shown, cell_count, weekday-lt, first_shown-weekday, grid_of-consecutive,
}

module _ (q : ℕ → Bool) where
  -- The days before the month are of the month before, and lead up to the month's first.
  leading-days :
      (k w : ℕ)
      → w ≤ 6
      → q k ≡ true
      → (all (λ x. q x.month) (consecutive w (date_at (suc k) w 0)) ≡ true)
        × (forward w (date_at (suc k) w 0) ≡ at_day (suc k) 1)
  unfolding forward
  leading-days k zero h e = (refl, date_at-from (suc k) 0 0 0 (omega arith))
  leading-days k (suc c) h e =
      let start : date_at (suc k) (suc c) 0 ≡ at_day k (days_in k - c) =
        date_at-before (suc k) (suc c) 0 c (omega arith)
        ∙ back-within c k (omega (arith, h, days_in-range k)) in
      (
        ap (λ x. all (λ y. q y.month) (consecutive (suc c) x)) start
            ∙ all-consecutive q (suc c) k (days_in k - c) e (omega (arith, h, days_in-range k)),
        ap (forward (suc c)) start
            ∙ forward-over c k (days_in k - c) (omega (arith, h, days_in-range k)),
      )

-- A month's days lead to the first of the next.
forward-month : (k : ℕ) → forward (days_in k) (at_day k 1) ≡ at_day (suc k) 1
forward-month k = by_length (days_in k) refl
  where
    by_length : (n : ℕ) → days_in k ≡ n → forward n (at_day k 1) ≡ at_day (suc k) 1
    by_length zero e = ground (arith, e, days_in-range k)
    by_length (suc n) e = forward-over n k 1 (omega (arith, e))

-- Of the days of whole weeks around a month those that pass are its own.
filter-consecutive :
    (q : ℕ → Bool) (k t : ℕ)
    → t ≤ 6
    → q k ≡ false
    → q (suc k) ≡ true
    → q (suc (suc k)) ≡ false
    → filter
        (λ x. q x.month)
        (consecutive (weekday (at_day (suc k) 1) + (days_in (suc k) + t)) (first_shown (suc k)))
      ≡ days_of (suc k)
filter-consecutive q k t h before this after =
    ap (filter (λ x. q x.month)) parts
    ∙ filter-append (λ x. q x.month) (consecutive w (first_shown (suc k)))
        (days_of (suc k) ++ consecutive t (at_day (suc (suc k)) 1))
    ∙ ap
        (λ xs.
          xs ++ filter (λ x. q x.month) (days_of (suc k) ++ consecutive t (at_day (suc (suc k)) 1)))
        (filter-none (λ x. q x.month) (consecutive w (first_shown (suc k))) leading.0)
    ∙ filter-append (λ x. q x.month) (days_of (suc k)) (consecutive t (at_day (suc (suc k)) 1))
    ∙ ap (λ xs. filter (λ x. q x.month) (days_of (suc k)) ++ xs)
        (filter-none (λ x. q x.month) (consecutive t (at_day (suc (suc k)) 1))
          (all-consecutive (λ m. not (q m)) t (suc (suc k)) 1 (rw after refl)
            (omega (arith, h, days_in-range (suc (suc k))))))
    ∙ append-nil (filter (λ x. q x.month) (days_of (suc k)))
    ∙ filter-all (λ x. q x.month) (days_of (suc k))
        (all-consecutive q (days_in (suc k)) (suc k) 1 this (omega arith))
  where
    w : ℕ
    w = weekday (at_day (suc k) 1)

    leading :
        (all (λ x. not (q x.month)) (consecutive w (first_shown (suc k))) ≡ true)
        × (forward w (first_shown (suc k)) ≡ at_day (suc k) 1)
    leading = leading-days (λ m. not (q m)) k w (weekday-lt (at_day (suc k) 1)) (rw before refl)

    parts :
        consecutive (w + (days_in (suc k) + t)) (first_shown (suc k))
        ≡ consecutive w (first_shown (suc k))
          ++ (days_of (suc k) ++ consecutive t (at_day (suc (suc k)) 1))
    parts =
        consecutive-add w (days_in (suc k) + t) (first_shown (suc k))
        ∙ ap (λ x. consecutive w (first_shown (suc k)) ++ consecutive (days_in (suc k) + t) x)
            leading.1
        ∙ ap (λ xs. consecutive w (first_shown (suc k)) ++ xs)
            (consecutive-add (days_in (suc k)) t (at_day (suc k) 1)
              ∙ ap (λ x. days_of (suc k) ++ consecutive t x) (forward-month (suc k)))

-- A month of a year after 99 is shown in whole weeks from a Sunday on, no more of them than its days
-- need, as days that follow one another; the cells marked as the month's are its days, each once
-- and in order.
pub build_grid-month :
    (n : ℕ)
    → 1200 ≤ n
    → (build_grid (show_month (pos n))
        ≡ map (cell_of (n % 12 + 1)) (consecutive (cell_count n) (first_shown n)))
      × (weekday (first_shown n) ≡ 0)
      × (filter (λ c. c.in_current_month) (build_grid (show_month (pos n)))
          ≡ map (cell_of (n % 12 + 1)) (days_of n))
      × (cell_count n % 7 ≡ 0)
      × (weekday (at_day n 1) + days_in n ≤ cell_count n)
      × (cell_count n < weekday (at_day n 1) + days_in n + 7)
unfolding build_grid cell_of
build_grid-month zero h = ground (arith, h)
build_grid-month (suc k) h = (
  cells,
  first_shown-weekday k,
  ap (filter (λ c. c.in_current_month)) cells
      ∙ filter-map (λ c. c.in_current_month) (cell_of m)
          (consecutive (cell_count (suc k)) (first_shown (suc k)))
      ∙ ap (map (cell_of m)) own,
  omega arith,
  omega arith,
  omega arith,
)
  where
    m : ℕ
    m = suc k % 12 + 1

    t : ℕ
    t = cell_count (suc k) - (weekday (at_day (suc k) 1) + days_in (suc k))

    cells :
        build_grid (show_month (pos (suc k)))
        ≡ map (cell_of m) (consecutive (cell_count (suc k)) (first_shown (suc k)))
    cells =
        ap grid_of_parts (parts-show_month (suc k))
        ∙ ap (λ y. grid_of (y * 12 + (suc k % 12 + 1) - 1) m)
            (full_year_late (suc k / 12) (omega (arith, h)))
        ∙ ap (λ j. grid_of j m) (omega arith)
        ∙ grid_of-consecutive k m

    own :
        filter (λ x. x.month % 12 + 1 == m) (consecutive (cell_count (suc k)) (first_shown (suc k)))
        ≡ days_of (suc k)
    own =
        ap (λ c. filter (λ x. x.month % 12 + 1 == m) (consecutive c (first_shown (suc k))))
          (omega arith)
        ∙ filter-consecutive (λ j. j % 12 + 1 == m) k t (omega arith) (ground arith) (ground arith)
            (ground arith)
