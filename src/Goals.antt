-- ===== src/Goals.antt =====
-- The lists of financial goals (frontend/src/utils/goalStatus.ts, frontend/src/utils/goalSort.ts):
-- the status that a goal's card shows, the achieved goals, and the order of the list. The time of
-- a date's text (`new Date(text).getTime()`) and of today's midnight are parameters.
pub mod Achieved
pub mod Order
use nestlio.Prelude.{
  ℕ, ◌+◌, ◌*◌, ◌^◌, Bool, true, false, not, ◌&&◌, ◌||◌, Option, none, some, List, [], ◌∷◌, ◌++◌,
  filter, if◌then◌else◌, leb, Text, Number, nan, decimal, number, signed,
}
use nestlio.Prelude.Int.{ℤ, pos, negsuc, ◌+ℤ◌, ◌-ℤ◌, ltb_ℤ, leb_ℤ, div_ℤ, mul_ℕ}
use nestlio.Prelude.Sort.{sort_by}
use nestlio.Types.Goals.{GoalKind, EffectiveStatus, FinancialGoalOut}

pub data ProgressStatus : Type 0 where
  on_track behind achieved expired neutral : ProgressStatus

-- a <= b; false if one is NaN.
abbrev pub leb_number : Number → Number → Bool
leb_number nan b = false
leb_number (decimal x m s) nan = false
leb_number (decimal x m s) (decimal y n t) =
    leb_ℤ (mul_ℕ (signed x m) (10 ^ t)) (mul_ℕ (signed y n) (10 ^ s))

-- n * 0.9.
abbrev pub nine_tenths : Number → Number
nine_tenths nan = nan
nine_tenths (decimal x m s) = decimal x (9 * m) (s + 1)

unfoldable pub challenge_status : Option EffectiveStatus → ProgressStatus
challenge_status (some EffectiveStatus.succeeded) = ProgressStatus.achieved
challenge_status (some EffectiveStatus.expired) = ProgressStatus.expired
challenge_status (some EffectiveStatus.active) = ProgressStatus.on_track
challenge_status none = ProgressStatus.on_track

-- computeChallengeStatus.
unfoldable pub compute_challenge_status : FinancialGoalOut → ProgressStatus
compute_challenge_status goal = challenge_status goal.effective_status

abbrev pub day_ms : ℕ
day_ms = 86400000

-- goal.kind === "challenge".
abbrev pub is_challenge : GoalKind → Bool
is_challenge GoalKind.challenge = true
is_challenge _ = false

abbrev pub is_achieved_status : ProgressStatus → Bool
is_achieved_status ProgressStatus.achieved = true
is_achieved_status _ = false

abbrev pub has_succeeded : Option EffectiveStatus → Bool
has_succeeded (some EffectiveStatus.succeeded) = true
has_succeeded _ = false

-- Number.MAX_SAFE_INTEGER.
abbrev pub max_safe_integer : ℤ
max_safe_integer = pos 9007199254740991

abbrev pub rank_without_date : Option ℕ → ℤ
rank_without_date none = max_safe_integer
rank_without_date (some age) = max_safe_integer -ℤ pos 1

module _ (time_of : Text → ℤ) (today : ℤ) where
  -- Math.round of the days between.
  unfoldable pub days_until : Text → ℤ
  days_until target_date = div_ℤ (mul_ℕ (time_of target_date -ℤ today) 2 +ℤ pos day_ms) (2 * day_ms)

  abbrev pub is_past : Option Text → Bool
  is_past none = false
  is_past (some target_date) = ltb_ℤ (days_until target_date) (pos 0)

  unfoldable pub pace_status : Option Text → Text → ProgressStatus
  pace_status none planned = ProgressStatus.neutral
  pace_status (some suggested) planned =
      if leb_number (nine_tenths (number suggested)) (number planned)
      then ProgressStatus.on_track
      else ProgressStatus.behind

  unfoldable pub compute_goal_status : FinancialGoalOut → ProgressStatus
  compute_goal_status goal =
      if leb_number (decimal false 100 0) (number goal.progress_pct)
      then ProgressStatus.achieved
      else if is_past goal.target_date
      then ProgressStatus.behind
      else pace_status goal.suggested_monthly_amount goal.planned_monthly_amount

  unfoldable pub compute_card_status : FinancialGoalOut → ProgressStatus
  compute_card_status goal =
      if is_challenge goal.kind then compute_challenge_status goal else compute_goal_status goal

  unfoldable pub is_goal_achieved : FinancialGoalOut → Bool
  is_goal_achieved goal =
      if is_challenge goal.kind
      then has_succeeded goal.effective_status
      else is_achieved_status (compute_goal_status goal)

  abbrev pub rank_of : Option Text → Option ℕ → ℤ
  rank_of none age = rank_without_date age
  rank_of (some target_date) age = days_until target_date

  unfoldable pub deadline_rank : FinancialGoalOut → ℤ
  deadline_rank goal = rank_of goal.target_date goal.target_age

-- GOAL_SORT_LABELS: by priority, by deadline, by progress.
pub data GoalSortLabel : Type 0 where
  by_priority by_deadline by_progress : GoalSortLabel

-- A difference that is NaN counts as 0 in a sort.
abbrev pub leb_progress : Number → Number → Bool
leb_progress nan b = true
leb_progress (decimal x m s) nan = true
leb_progress (decimal x m s) (decimal y n t) = leb_number (decimal x m s) (decimal y n t)

unfoldable pub goal_order :
    (Text → ℤ) → ℤ → GoalSortLabel → FinancialGoalOut → FinancialGoalOut → Bool
goal_order time_of today by_priority a b = leb a.priority b.priority
goal_order time_of today by_deadline a b =
    leb_ℤ (deadline_rank time_of today a) (deadline_rank time_of today b)
goal_order time_of today by_progress a b =
    leb_progress (number a.progress_pct) (number b.progress_pct)

unfoldable pub sort_goals :
    (Text → ℤ) → ℤ → List FinancialGoalOut → GoalSortLabel → List FinancialGoalOut
sort_goals time_of today goals option = sort_by (goal_order time_of today option) goals

-- The place of a kind among PINNED_KINDS, behind them for the others.
abbrev pub pin_rank : GoalKind → ℕ
pin_rank GoalKind.combined = 0
pin_rank GoalKind.net_worth = 1
pin_rank GoalKind.goal = 2
pin_rank GoalKind.challenge = 2

abbrev pub is_kind : ℕ → FinancialGoalOut → Bool
is_kind n g = leb n (pin_rank g.kind) && leb (pin_rank g.kind) n

-- `pinned.includes(g)` compares objects of `goals`: it holds of those that a filter kept.
unfoldable pub pin_household_goals_first : List FinancialGoalOut → List FinancialGoalOut
pin_household_goals_first goals =
    filter (is_kind 0) goals ++ (filter (is_kind 1) goals ++ filter (is_kind 2) goals)
