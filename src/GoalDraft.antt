-- ===== src/GoalDraft.antt =====
-- The form of a financial goal (frontend/src/components/financialPlan/goalDraft.ts): the draft that
-- the form edits, made from a goal, and the payload that is sent for it. Today's date is an
-- argument. The fields of a draft are texts, also its numbers, as the inputs hold them.
pub mod Unchanged
use nestlio.Prelude.{
  ℕ, Bool, true, false, not, ◌&&◌, ◌||◌, Option, none, some, List, [], ◌∷◌, ◌++◌, map, filter,
  if◌then◌else◌, or_else, String, Text, codes, is_empty, take, trim, Number, nan, decimal, number,
  is_zero, show_number, show_ℕ,
}
use nestlio.Types.Goals.{
  GoalKind, FundingSourceType, FundingSourceOut, CombinedMemberOut, GoalMonthlyTargetOut,
  GoalMonthlyTargetIn, FinancialGoalOut,
}
use nestlio.MonthlyGrid.{to_amount_input_value}

pub record Draft : Type 0 where
  pub kind : GoalKind
  pub priority : Text
  pub name : Text
  pub description : Text
  pub target_age : Text
  pub target_date : Text
  pub start_date : Text
  pub required_amount : Text
  pub monthly_saving_amount : Text
  pub expected_annual_return_pct : Text
  pub current_amount : Text
  pub savings_product_ids : List Text
  pub account_ids : List Text
  pub loan_ids : List Text
  pub monthly_targets : List GoalMonthlyTargetIn
  pub member_goal_ids : List Text
  pub growlio_user_ids : List String
  pub exclude_real_estate : Bool

abbrev zero_text : Text
zero_text = codes "0"

abbrev pub empty_goal_draft : Draft
empty_goal_draft = record {
  kind = GoalKind.goal;
  priority = codes "1";
  name = [];
  description = [];
  target_age = [];
  target_date = [];
  start_date = [];
  required_amount = zero_text;
  monthly_saving_amount = zero_text;
  expected_annual_return_pct = [];
  current_amount = zero_text;
  savings_product_ids = [];
  account_ids = [];
  loan_ids = [];
  monthly_targets = [];
  member_goal_ids = [];
  growlio_user_ids = [];
  exclude_real_estate = false;
}

unfoldable pub empty_challenge_draft : Text → Draft
empty_challenge_draft today = record empty_goal_draft {
  kind = GoalKind.challenge;
  start_date = today;
  target_date = today;
}

unfoldable pub empty_net_worth_draft : Draft
empty_net_worth_draft = record empty_goal_draft {
  kind = GoalKind.net_worth;
  name = codes "우리 순자산 목표";
}

unfoldable pub empty_combined_draft : List String → Draft
empty_combined_draft user_ids = record empty_goal_draft {
  kind = GoalKind.combined;
  name = codes "우리 부부 통합 목표";
  growlio_user_ids = user_ids;
}

-- isoDate.slice(0, 7).
unfoldable pub to_year_month : Text → Text
to_year_month iso_date = take 7 iso_date

-- String(n), and with "" for null.
abbrev pub number_text : Number → Text
number_text nan = codes "NaN"
number_text (decimal x m s) = show_number (decimal x m s)

abbrev pub shown_or_empty : Option ℕ → Text
shown_or_empty none = []
shown_or_empty (some n) = show_ℕ n

abbrev pub percent_or_empty : Option Text → Text
percent_or_empty none = []
percent_or_empty (some t) = number_text (number t)

-- fs.type === ...
abbrev pub same_source : FundingSourceType → FundingSourceType → Bool
same_source FundingSourceType.savings_product FundingSourceType.savings_product = true
same_source FundingSourceType.account FundingSourceType.account = true
same_source FundingSourceType.loan FundingSourceType.loan = true
same_source _ _ = false

unfoldable pub source_ids : FundingSourceType → List FundingSourceOut → List Text
source_ids type sources = map (λ fs. show_ℕ fs.id) (filter (λ fs. same_source fs.type type) sources)

-- combined_members, those with a goal id and those with a user id.
unfoldable pub goal_ids : List CombinedMemberOut → List ℕ
goal_ids [] = []
goal_ids (m ∷ ms) = elim m.goal_id [ none ↦ goal_ids ms | some id ↦ id ∷ goal_ids ms ]

unfoldable pub user_ids : List CombinedMemberOut → List String
user_ids [] = []
user_ids (m ∷ ms) = elim m.user_id [ none ↦ user_ids ms | some id ↦ id ∷ user_ids ms ]

unfoldable pub draft_from_goal : Text → FinancialGoalOut → Draft
draft_from_goal today goal = record {
  kind = goal.kind;
  priority = show_ℕ goal.priority;
  name = goal.name;
  description = or_else goal.description [];
  target_age = shown_or_empty goal.target_age;
  target_date = or_else goal.target_date [];
  start_date = or_else goal.start_date today;
  required_amount = to_amount_input_value (some goal.required_amount);
  monthly_saving_amount = to_amount_input_value (some goal.monthly_saving_amount);
  expected_annual_return_pct = percent_or_empty goal.expected_annual_return_pct;
  current_amount = to_amount_input_value (some goal.current_amount);
  savings_product_ids = source_ids FundingSourceType.savings_product goal.funding_sources;
  account_ids = source_ids FundingSourceType.account goal.funding_sources;
  loan_ids = source_ids FundingSourceType.loan goal.funding_sources;
  monthly_targets =
      map {A = GoalMonthlyTargetOut} {B = GoalMonthlyTargetIn}
        (λ mt. record {
          year_month = mt.year_month;
          target_amount = to_amount_input_value (some mt.target_amount);
        })
        goal.monthly_targets;
  member_goal_ids = map show_ℕ (goal_ids goal.combined_members);
  growlio_user_ids = user_ids goal.combined_members;
  exclude_real_estate = goal.exclude_real_estate;
}

-- An entry of funding_sources with Number(id).
pub record PayloadSource : Type 0 where
  pub type : FundingSourceType
  pub id : Number

pub record Payload : Type 0 where
  pub kind : GoalKind
  pub priority : Number
  pub name : Text
  pub description : Option Text
  pub target_age : Option Number
  pub target_date : Option Text
  pub required_amount : Text
  pub monthly_saving_amount : Text
  pub expected_annual_return_pct : Option Text
  pub current_amount : Text
  pub funding_sources : List PayloadSource
  pub start_date : Option Text
  pub monthly_targets : Option (List GoalMonthlyTargetIn)
  pub member_goal_ids : Option (List Number)
  pub growlio_user_ids : Option (List String)
  pub exclude_real_estate : Bool

-- draft.kind === ...
abbrev pub is_challenge : GoalKind → Bool
is_challenge GoalKind.challenge = true
is_challenge _ = false

abbrev pub is_combined : GoalKind → Bool
is_combined GoalKind.combined = true
is_combined _ = false

abbrev pub is_net_worth_kind : GoalKind → Bool
is_net_worth_kind GoalKind.net_worth = true
is_net_worth_kind _ = false

-- isNetWorth of toPayload: the kinds whose progress comes from elsewhere.
abbrev pub is_net_worth : GoalKind → Bool
is_net_worth kind = is_net_worth_kind kind || is_combined kind

-- Number(...) || 1.
abbrev pub or_one : Number → Number
or_one n =
    if is_zero n
    then decimal false 1 0
    else elim n [ nan ↦ decimal false 1 0 | decimal x m s ↦ decimal x m s ]

abbrev pub unless_empty : Text → Option Text
unless_empty t = if is_empty t then none else some t

unfoldable pub sources_of : FundingSourceType → List Text → List PayloadSource
sources_of type ids = map (λ id. record { type = type; id = number id }) ids

unfoldable pub to_payload : Draft → Payload
to_payload draft = record {
  kind = draft.kind;
  priority = or_one (number draft.priority);
  name = draft.name;
  description =
      if is_challenge draft.kind && not (is_empty (trim draft.description))
      then some draft.description
      else none;
  target_age =
      if is_challenge draft.kind || is_net_worth draft.kind || is_empty draft.target_age
      then none
      else some (number draft.target_age);
  target_date = unless_empty draft.target_date;
  required_amount = draft.required_amount;
  monthly_saving_amount =
      if is_challenge draft.kind || is_net_worth draft.kind
      then zero_text
      else draft.monthly_saving_amount;
  expected_annual_return_pct =
      if is_challenge draft.kind || is_empty (trim draft.expected_annual_return_pct)
      then none
      else some draft.expected_annual_return_pct;
  current_amount = if is_net_worth draft.kind then zero_text else draft.current_amount;
  funding_sources =
      if is_challenge draft.kind || is_net_worth draft.kind
      then []
      else sources_of FundingSourceType.savings_product draft.savings_product_ids
        ++ (sources_of FundingSourceType.account draft.account_ids
            ++ sources_of FundingSourceType.loan draft.loan_ids);
  start_date = if is_challenge draft.kind then some draft.start_date else none;
  monthly_targets =
      if not (is_challenge draft.kind) && not (is_net_worth draft.kind)
      then some draft.monthly_targets
      else none;
  member_goal_ids =
      if is_combined draft.kind then some (map number draft.member_goal_ids) else none;
  growlio_user_ids = if is_combined draft.kind then some draft.growlio_user_ids else none;
  exclude_real_estate = is_net_worth_kind draft.kind && draft.exclude_real_estate;
}
