-- ===== src/Tests/Plans.antt =====
-- Two goals in the form and in the list (frontend/src/components/financialPlan/goalDraft.ts,
-- frontend/src/utils/goalStatus.ts, frontend/src/utils/goalSort.ts).
use nestlio.Acceleration.{sub_number, months_to_goal_with_extra}
use nestlio.Acceleration.Rounding.{ceil_div, pow_pos}
use nestlio.Acceleration.Least.{IsLeast, months_to_goal_with_extra-IsLeast}
use nestlio.Prelude.{
  ◌+◌, ◌-◌, ◌*◌, ◌/◌, ◌^◌, ◌<◌, ap, ◌∙◌, arith, nan, number, add_number, ℕ, ◌≡◌, refl, false, ◌||◌,
  max, none, some, List, [], ◌∷◌, ◌++◌, map, if◌then◌else◌, leb, Text, codes, Number, decimal,
}
use nestlio.Prelude.Int.{◌+ℤ◌, mul_ℕ, ℤ, pos, leb_ℤ}
use native.Mathlib.Nat.{mul-div_cancel}
use nestlio.Prelude.Sort.{IsSortedBy}
use nestlio.Types.Goals.{FundingSourceType, GoalKind, GoalState, FinancialGoalOut}
use nestlio.GoalDraft.{
  draft_from_goal, to_payload, is_challenge, is_net_worth, is_combined, goal_ids, user_ids,
}
use nestlio.GoalDraft.Unchanged.{of_type, to_payload-draft_from_goal}
use nestlio.Goals.{
  is_achieved_status, is_goal_achieved, compute_card_status, GoalSortLabel, sort_goals,
  deadline_rank, pin_household_goals_first,
}
use nestlio.Goals.Achieved.{is_goal_achieved-card}
use nestlio.Goals.Order.{by_rank, sort_goals-listing}
use mathlib.Core.List.{Perm}

abbrev goal_of : ℕ → GoalKind → FinancialGoalOut
goal_of n kind = record {
  id = n;
  kind = kind;
  priority = n;
  name = codes "Home";
  description = none;
  target_age = none;
  target_date = some (codes "2030-01-01");
  required_amount = codes "1000";
  monthly_saving_amount = codes "10";
  planned_monthly_amount = codes "10";
  expected_annual_return_pct = none;
  eta_with_return_year_month = none;
  current_amount = codes "1000";
  progress_pct = codes "100.0";
  sort_order = n;
  funding_sources =
      record { type = FundingSourceType.account; id = 7; name = "a"; amount = codes "5" } ∷ [];
  months_remaining = none;
  suggested_monthly_amount = none;
  eta_year_month = none;
  ahead_behind_months = none;
  start_date = none;
  status = GoalState.active;
  effective_status = none;
  created_by_id = none;
  completed_at = none;
  monthly_targets = [];
  combined_members = [];
  overlap_amount = none;
  exclude_real_estate = false;
}

abbrev home : FinancialGoalOut
home = goal_of 1 GoalKind.goal

abbrev goals : List FinancialGoalOut
goals = home ∷ goal_of 2 GoalKind.combined ∷ []

abbrev midnight : Text → ℤ
midnight t = pos 1893456000000

to_payload-draft_from_goal_example :
    ((to_payload (draft_from_goal (codes "2026-01-01") home)).kind ≡ GoalKind.goal)
    × ((to_payload (draft_from_goal (codes "2026-01-01") home)).name ≡ codes "Home")
    × ((to_payload (draft_from_goal (codes "2026-01-01") home)).target_date
        ≡ some (codes "2030-01-01"))
    × ((to_payload (draft_from_goal (codes "2026-01-01") home)).priority
        ≡ decimal false (max 1 1) 0)
    × ((to_payload (draft_from_goal (codes "2026-01-01") home)).funding_sources ≡ (
        if is_challenge home.kind || is_net_worth home.kind
        then []
        else of_type FundingSourceType.savings_product home.funding_sources
          ++ (of_type FundingSourceType.account home.funding_sources
              ++ of_type FundingSourceType.loan home.funding_sources)))
    × ((to_payload (draft_from_goal (codes "2026-01-01") home)).member_goal_ids ≡ (
        if is_combined home.kind
        then some (map {B = Number} (λ id. decimal false id 0) (goal_ids home.combined_members))
        else none))
    × ((to_payload (draft_from_goal (codes "2026-01-01") home)).growlio_user_ids
        ≡ (if is_combined home.kind then some (user_ids home.combined_members) else none))
to_payload-draft_from_goal_example = to_payload-draft_from_goal (codes "2026-01-01") home refl

is_goal_achieved-card_example :
    is_goal_achieved midnight (pos 1767225600000) home
    ≡ is_achieved_status (compute_card_status midnight (pos 1767225600000) home)
is_goal_achieved-card_example = is_goal_achieved-card midnight (pos 1767225600000) home

sort_goals-listing_example :
    Perm
      (pin_household_goals_first (sort_goals midnight (pos 0) goals GoalSortLabel.by_progress))
      goals
    × IsSortedBy by_rank
        (pin_household_goals_first (sort_goals midnight (pos 0) goals GoalSortLabel.by_progress))
    × IsSortedBy
        (λ a b. leb a.priority b.priority)
        (sort_goals midnight (pos 0) goals GoalSortLabel.by_priority)
    × IsSortedBy
        (λ a b. leb_ℤ (deadline_rank midnight (pos 0) a) (deadline_rank midnight (pos 0) b))
        (sort_goals midnight (pos 0) goals GoalSortLabel.by_deadline)
sort_goals-listing_example = sort_goals-listing midnight (pos 0) goals GoalSortLabel.by_progress

-- The division of whole amounts, and of all others as if they were none.
abbrev exact : Number → Number → Number
exact nan b = nan
exact (decimal x m s) nan = nan
exact (decimal x m s) (decimal y n t) = decimal false (ceil_div (m / 10 ^ s) (n / 10 ^ t)) 0

exact-whole :
    (m n s t : ℕ)
    → m < 2 ^ 53
    → n < 2 ^ 53
    → 0 < n
    → exact (decimal false (m * 10 ^ s) s) (decimal false (n * 10 ^ t) t)
      ≡ decimal false (ceil_div m n) 0
exact-whole m n s t h k l =
    ap (λ a. decimal false (ceil_div a (n * 10 ^ t / 10 ^ t)) 0) (mul-div_cancel m (pow_pos s))
    ∙ ap (λ b. decimal false (ceil_div m b) 0) (mul-div_cancel n (pow_pos t))

-- 1000 are missing: ten months of 100, seven of 150.
seven_months :
    (months_to_goal_with_extra exact
      (codes "1500.00")
      (codes "500")
      (codes "100.00")
      (decimal false 50 0)).new_months
    ≡ some (decimal false 7 0)
unfolding months_to_goal_with_extra sub_number add_number number ◌+ℤ◌ mul_ℕ
seven_months = refl

months_to_goal_with_extra-IsLeast_example :
    IsLeast
      (1500 - 500)
      100
      (months_to_goal_with_extra exact
        (codes "1500.00")
        (codes "500")
        (codes "100.00")
        (decimal false 50 0)).base_months
    × IsLeast
        (1500 - 500)
        (100 + 50)
        (months_to_goal_with_extra exact
          (codes "1500.00")
          (codes "500")
          (codes "100.00")
          (decimal false 50 0)).new_months
    × ((k : ℕ) × ((months_to_goal_with_extra exact
            (codes "1500.00")
            (codes "500")
            (codes "100.00")
            (decimal false 50 0)).months_saved
          ≡ decimal false k 0))
unfolding number
months_to_goal_with_extra-IsLeast_example =
    months_to_goal_with_extra-IsLeast exact exact-whole (codes "1500.00") (codes "500")
      (codes "100.00") (decimal false 50 0) 1500 500 100 50 (refl, refl) (refl, refl) (refl, refl)
      (refl, refl) (omega arith) (omega arith) (omega arith)
