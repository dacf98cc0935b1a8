-- ===== src/MonthlyGrid/Edits.antt =====
-- What a change of the period, and of one month's amount, leave in every month.
use nestlio.Prelude.{
  ◌≡◌, refl, ap, ◌∙◌, true, Option, codes, some, none, List, [], ◌∷◌, map, arith, if◌then◌else◌,
  any, Text, text_eq, text_eq→eq,
}
use nestlio.Months.{
  MonthlyTarget, map_get, amount_or_zero, build_year_month_range, sync_targets_to_period,
}

same_amount : (f : Text → Text) (s t : Text) → s ≡ t → f s ≡ f t
same_amount f s t e = ap f e

-- The rows of a list of months, read by month.
map_get-map :
    (f : Text → Text) (key : Text) (months : List Text)
    → map_get key
        (map {B = MonthlyTarget} (λ ym. record { year_month = ym; target_amount = f ym }) months)
      ≡ (if any (λ ym. text_eq ym key) months then some (f key) else none)
unfolding map_get
map_get-map f key [] = refl
map_get-map f key (ym ∷ months) =
    ground (arith, map_get-map f key months, text_eq→eq ym key, same_amount f ym key)

rows-months :
    (f : Text → Text) (months : List Text)
    → map {A = MonthlyTarget}
        (λ t. t.year_month)
        (map (λ ym. record { year_month = ym; target_amount = f ym }) months)
      ≡ months
rows-months f [] = refl
rows-months f (ym ∷ months) = ap (λ rest. ym ∷ rest) (rows-months f months)

-- What the row of a month of the period holds, by the row that was there.
abbrev pub Keeps : Option Text → Option Text → Type 0
Keeps none after = after ≡ some (codes "0")
Keeps (some amount) after = after ≡ some amount

-- After a change of the period there is a row for each of its months, in their order, and for no
-- other month. For a month of the period an amount that was entered stays, and a month without one
-- starts at "0".
pub map_get-sync_targets_to_period :
    (start_month end_month key : Text) (existing : List MonthlyTarget)
    → any (λ ym. text_eq ym key) (build_year_month_range start_month end_month) ≡ true
    → (map (λ t. t.year_month) (sync_targets_to_period start_month end_month existing)
        ≡ build_year_month_range start_month end_month)
      × Keeps
          (map_get key existing)
          (map_get key (sync_targets_to_period start_month end_month existing))
unfolding sync_targets_to_period amount_or_zero
map_get-sync_targets_to_period start_month end_month key existing h =
    (rows-months (amount_or_zero existing) months, by_row (map_get key existing) refl)
  where
    months : List Text
    months = build_year_month_range start_month end_month

    after : Option Text
    after = map_get key (
        map {B = MonthlyTarget}
          (λ ym. record { year_month = ym; target_amount = amount_or_zero existing ym }) months)

    found : after ≡ some (amount_or_zero existing key)
    found = map_get-map (amount_or_zero existing) key months ∙ rw h refl

    by_row : (o : Option Text) → map_get key existing ≡ o → Keeps o after
    by_row none e = found ∙ rw (amount_or_zero, e) refl
    by_row (some amount) e = found ∙ rw (amount_or_zero, e) refl
