-- ===== src/Calendar/Weeks.antt =====
-- The days of the weeks around a month
-- (frontend/src/components/transactions/MonthCalendarGrid.tsx).
use nestlio.Prelude.{
  ℕ, zero, suc, ◌+◌, ◌-◌, ◌*◌, ◌/◌, ◌≤◌, ◌<◌, ◌≡◌, refl, ap, ◌∙◌, sym, Bool, true, List, [], ◌∷◌,
  ◌++◌, map, all, arith, Bool-cases, inl, inr, leb,
}
use nestlio.Prelude.Int.{pos, negsuc, ◌+ℤ◌, ◌-ℤ◌, int_laws}
use nestlio.Calendar.{
  Day, days_in, next_day, forward, back, make_date, weekday, cell_of, cells_from, grid_of,
}
use nestlio.Calendar.Days.{
  at_day, first_of-suc, day_number-first_of, next_day-within, next_day-last, back-within,
  days_in-range,
}

-- A day and the days after it.
abbrev pub consecutive : ℕ → Day → List Day
consecutive zero x = []
consecutive (suc n) x = x ∷ consecutive n (next_day x)

-- The days of a month, from its first on.
abbrev pub days_of : ℕ → List Day
days_of k = consecutive (days_in k) (at_day k 1)

pub consecutive-add :
    (a b : ℕ) (x : Day) → consecutive (a + b) x ≡ consecutive a x ++ consecutive b (forward a x)
unfolding forward
consecutive-add zero b x = let same : 0 + b ≡ b = omega arith in ap (λ n. consecutive n x) same
consecutive-add (suc a) b x =
    let same : suc a + b ≡ suc (a + b) = omega arith in
    ap (λ n. consecutive n x) same ∙ ap (λ xs. x ∷ xs) (consecutive-add a b (next_day x))

forward-next : (n : ℕ) (x : Day) → next_day (forward n x) ≡ forward (suc n) x
unfolding forward
forward-next zero x = refl
forward-next (suc n) x = forward-next n (next_day x)

-- What holds of a month holds of the days that follow within it.
pub all-consecutive :
    (q : ℕ → Bool) (n k d : ℕ)
    → q k ≡ true
    → d + n ≤ days_in k + 1
    → all (λ x. q x.month) (consecutive n (at_day k d)) ≡ true
all-consecutive q zero k d e h = refl
all-consecutive q (suc zero) k d e h = rw e refl
all-consecutive q (suc (suc n)) k d e h = rw e (
    ap (λ y. all (λ x. q x.month) (consecutive (suc n) y)) (next_day-within k d (omega (arith, h)))
    ∙ all-consecutive q (suc n) k (suc d) e (omega (arith, h)))

-- The day of the i-th cell, where the grid begins `leading` days before the month.
abbrev pub date_at : ℕ → ℕ → ℕ → Day
date_at k leading i = make_date k (pos i -ℤ pos leading +ℤ pos 1)

pub date_at-before :
    (k leading i c : ℕ) → i + suc c ≡ leading → date_at k leading i ≡ back (suc c) (at_day k 1)
unfolding make_date
date_at-before k leading i zero h = ap (make_date k) (first h)
  where
    first : i + 1 ≡ leading → pos i -ℤ pos leading +ℤ pos 1 ≡ pos 0
    first e = omega (int_laws, e)
date_at-before k leading i (suc c) h = ap (make_date k) (earlier h)
  where
    earlier : i + suc (suc c) ≡ leading → pos i -ℤ pos leading +ℤ pos 1 ≡ negsuc c
    earlier e = omega (int_laws, e)

pub date_at-from :
    (k leading i j : ℕ) → leading + j ≡ i → date_at k leading i ≡ forward j (at_day k 1)
unfolding make_date
date_at-from k leading i j h = ap (make_date k) (from h)
  where
    from : leading + j ≡ i → pos i -ℤ pos leading +ℤ pos 1 ≡ pos (suc j)
    from e = omega (int_laws, e)

-- The cells' days follow one another.
date_at-next :
    (k leading i : ℕ)
    → leading ≤ 6
    → next_day (date_at (suc k) leading i) ≡ date_at (suc k) leading (suc i)
unfolding forward
date_at-next k leading i h = elim (Bool-cases (leb leading i)) [
  | inl e ↦ after (i - leading) (ground (arith, e))
  | inr e ↦ before (leading - i - 1) (ground (arith, e))
]
  where
    before :
        (c : ℕ)
        → i + suc c ≡ leading
        → next_day (date_at (suc k) leading i) ≡ date_at (suc k) leading (suc i)
    before zero e =
        ap next_day (
          date_at-before (suc k) leading i 0 e
          ∙ back-within 0 k (omega (arith, days_in-range k))
          ∙ ap (at_day k) (omega arith))
        ∙ next_day-last k
        ∙ sym (date_at-from (suc k) leading (suc i) 0 (omega (arith, e)))
    before (suc c) e =
        ap next_day (
          date_at-before (suc k) leading i (suc c) e
          ∙ back-within (suc c) k (omega (arith, e, h, days_in-range k)))
        ∙ next_day-within k (days_in k - suc c) (omega (arith, e, h, days_in-range k))
        ∙ ap (at_day k) (omega (arith, e, h, days_in-range k))
        ∙ sym (back-within c k (omega (arith, e, h, days_in-range k)))
        ∙ sym (date_at-before (suc k) leading (suc i) c (omega (arith, e)))

    after :
        (j : ℕ)
        → leading + j ≡ i
        → next_day (date_at (suc k) leading i) ≡ date_at (suc k) leading (suc i)
    after j e =
        ap next_day (date_at-from (suc k) leading i j e)
        ∙ forward-next j (at_day (suc k) 1)
        ∙ sym (date_at-from (suc k) leading (suc i) (suc j) (omega (arith, e)))

cells_from-consecutive :
    (k m leading rounds i : ℕ)
    → leading ≤ 6
    → cells_from (suc k) m leading rounds i
      ≡ map (cell_of m) (consecutive rounds (date_at (suc k) leading i))
unfolding cells_from
cells_from-consecutive k m leading zero i h = refl
cells_from-consecutive k m leading (suc rounds) i h =
    ap (λ cells. cell_of m (date_at (suc k) leading i) ∷ cells)
      (cells_from-consecutive k m leading rounds (suc i) h
        ∙ ap (λ x. map (cell_of m) (consecutive rounds x)) (sym (date_at-next k leading i h)))

-- The day before the month by as many days as the month's first is in its week.
abbrev pub first_shown : ℕ → Day
first_shown k = date_at k (weekday (at_day k 1)) 0

abbrev pub cell_count : ℕ → ℕ
cell_count k = (weekday (at_day k 1) + days_in k + 6) / 7 * 7

pub weekday-lt : (x : Day) → weekday x ≤ 6
unfolding weekday
weekday-lt x = omega arith

pub first_shown-weekday : (k : ℕ) → weekday (first_shown (suc k)) ≡ 0
unfolding forward weekday
first_shown-weekday k = by_leading (weekday (at_day (suc k) 1)) refl
  where
    by_leading : (w : ℕ) → weekday (at_day (suc k) 1) ≡ w → weekday (date_at (suc k) w 0) ≡ 0
    by_leading zero e = ap weekday (date_at-from (suc k) 0 0 0 (omega arith)) ∙ e
    by_leading (suc c) e =
        let short : c < days_in k =
          omega (arith, e, weekday-lt (at_day (suc k) 1), days_in-range k) in
        ap weekday (date_at-before (suc k) (suc c) 0 c (omega arith) ∙ back-within c k short)
        ∙ omega (
          arith,
          e,
          short,
          day_number-first_of (at_day k (days_in k - c)),
          day_number-first_of (at_day (suc k) 1),
          first_of-suc k,
        )

pub grid_of-consecutive :
    (k m : ℕ)
    → grid_of (suc k) m ≡ map (cell_of m) (consecutive (cell_count (suc k)) (first_shown (suc k)))
unfolding grid_of make_date forward
grid_of-consecutive k m =
    ap (λ d. cells_from (suc k) m w ((w + d + 6) / 7 * 7) 0) last_date
    ∙ cells_from-consecutive k m w (cell_count (suc k)) 0 (weekday-lt (at_day (suc k) 1))
  where
    w : ℕ
    w = weekday (at_day (suc k) 1)

    last_date : (back 1 (at_day (suc (suc k)) 1)).day ≡ days_in (suc k)
    last_date =
        ap (λ x. x.day) (back-within 0 (suc k) (omega (arith, days_in-range (suc k)))) ∙ omega arith
