-- ===== src/GoalForm.antt =====
-- The form of a goal and the list that it opens from
-- (frontend/src/components/financialPlan/GoalFormModal.tsx,
-- frontend/src/components/financialPlan/GoalsTab.tsx): the kinds that can be created, what can be
-- linked, the steps, what growlio's settings fill in, and the milestones that a save celebrates.
-- Today's date is an argument.
pub mod Steps
use nestlio.Prelude.{
  ℕ, ◌+◌, ◌*◌, ◌^◌, Bool, true, false, not, ◌&&◌, ◌||◌, Option, none, some, List, [], ◌∷◌, ◌++◌,
  map, filter, any, length, find, ◌==◌, leb, if◌then◌else◌, or_else, String, str_eq, Text, codes,
  text_eq, is_empty, trim, Number, nan, decimal, number, show_number, show_ℕ, show_ℤ, max,
}
use nestlio.Prelude.Int.{div_ℤ, pos, sub_ℕ}
use nestlio.Prelude.Sort.{sort_by}
use nestlio.Types.Ledger.{SavingsProductType, SavingsProductOut}
use nestlio.Types.Assets.{LoanOut}
use nestlio.Types.Goals.{
  GoalKind, FundingSourceType, FundingSourceOut, MemberType, CombinedMemberOut, GoalMonthlyTargetIn,
  GoalMonthlyTargetOut, EffectiveStatus, FinancialGoalOut,
}
use nestlio.Months.{MonthlyTarget, sync_targets_to_period, round_or_zero}
use nestlio.Ledger.{sum_amounts}
use nestlio.Goals.{leb_number}
use nestlio.GoalDraft.{
  Draft, empty_goal_draft, empty_challenge_draft, empty_net_worth_draft, empty_combined_draft,
  to_year_month, is_challenge, is_combined, is_net_worth_kind, same_source,
}
use nestlio.NetWorth.{is_real_estate, real_estate_mortgages, is_linked, less}

-- GOAL_KIND_TABS with their kinds, in the order of the tabs.
abbrev pub kind_tabs : List GoalKind
kind_tabs = GoalKind.combined ∷ (GoalKind.net_worth ∷ (GoalKind.goal ∷ (GoalKind.challenge ∷ [])))

unfoldable pub offered_kinds : Bool → Bool → List GoalKind
offered_kinds can_create_net_worth can_create_combined =
    filter
      (λ k.
        (not (is_net_worth_kind k) || can_create_net_worth)
        && (not (is_combined k) || can_create_combined))
      kind_tabs

unfoldable pub empty_draft_for : Text → GoalKind → List String → Draft
empty_draft_for today GoalKind.challenge user_ids = empty_challenge_draft today
empty_draft_for today GoalKind.net_worth user_ids = empty_net_worth_draft
empty_draft_for today GoalKind.combined user_ids = empty_combined_draft user_ids
empty_draft_for today GoalKind.goal user_ids = empty_goal_draft

-- DEFAULT_NAMED_KINDS.
abbrev pub is_default_named : GoalKind → Bool
is_default_named k = is_net_worth_kind k || is_combined k

-- A choice of another kind: an empty draft of it, with the name that was entered.
unfoldable pub choose_kind : Text → List String → GoalKind → Draft → Draft
choose_kind today user_ids kind d = record (empty_draft_for today kind user_ids) {
  name =
      if is_default_named d.kind
      then (empty_draft_for today kind user_ids).name
      else if is_empty d.name
      then (empty_draft_for today kind user_ids).name
      else d.name;
}

abbrev pub non_empty {ℓ} : {A : Type ℓ} → List A → Bool
non_empty [] = false
non_empty (x ∷ xs) = true

unfoldable pub is_draft_linked : Draft → Bool
is_draft_linked draft =
    non_empty draft.savings_product_ids || (non_empty draft.account_ids || non_empty draft.loan_ids)

abbrev pub is_goal_id : Option ℕ → Option FinancialGoalOut → Bool
is_goal_id none existing = true
is_goal_id (some id) none = false
is_goal_id (some id) (some goal) = id == goal.id

unfoldable pub available_savings_products :
    Option FinancialGoalOut → List SavingsProductOut → List SavingsProductOut
available_savings_products existing products =
    filter (λ p. not (is_real_estate p.product_type) && is_goal_id p.linked_goal_id existing)
      products

unfoldable pub available_loans : List SavingsProductOut → List LoanOut → List LoanOut
available_loans products loans =
    filter
      (λ loan.
        not (any (λ m. m.id == loan.id) (real_estate_mortgages (some products) (some loans))))
      loans

-- syncMonthlyTargetsToPeriod.
unfoldable pub sync_monthly_targets :
    Text → Text → List GoalMonthlyTargetIn → List GoalMonthlyTargetIn
sync_monthly_targets start_date target_date existing =
    map {A = MonthlyTarget} {B = GoalMonthlyTargetIn}
      (λ t. record { year_month = t.year_month; target_amount = t.target_amount })
      (sync_targets_to_period (to_year_month start_date) (to_year_month target_date) (
        map {A = GoalMonthlyTargetIn} {B = MonthlyTarget}
          (λ t. record { year_month = t.year_month; target_amount = t.target_amount }) existing))

pub record GrowlioGoalSettingsOut : Type 0 where
  pub is_configured : Bool
  pub goal_amount : Option Number
  pub goal_annual_return_pct : Option Number
  pub goal_start_date : Option Text
  pub goal_initial_amount : Option Number
  pub annual_deposit_goal : Option Number
  pub annual_dividend_goal : Option Number

abbrev pub is_investment : SavingsProductType → Bool
is_investment SavingsProductType.investment = true
is_investment _ = false

unfoldable pub is_growlio_linked_investment : SavingsProductOut → Bool
is_growlio_linked_investment product =
    is_investment product.product_type && is_linked product.growlio_account_id

-- findGrowlioInvestmentLink.
abbrev pub account_of : Option SavingsProductOut → Option String
account_of none = none
account_of (some p) = p.growlio_account_id

unfoldable pub find_growlio_investment_link :
    FinancialGoalOut → List SavingsProductOut → Option String
find_growlio_investment_link goal products = account_of (
    find
      (λ p.
        any (λ fs. same_source fs.type FundingSourceType.savings_product && (fs.id == p.id))
          goal.funding_sources
        && is_growlio_linked_investment p)
      products)

-- n / 12, rounded by Math.round.
abbrev pub rounded_twelfth : Number → Text
rounded_twelfth nan = codes "NaN"
rounded_twelfth (decimal false m s) = show_ℤ (div_ℤ (pos (m + 6 * 10 ^ s)) (12 * 10 ^ s))
rounded_twelfth (decimal true m s) = show_ℤ (div_ℤ (sub_ℕ (6 * 10 ^ s) m) (12 * 10 ^ s))

abbrev pub rounded : Number → Text
rounded nan = codes "NaN"
rounded (decimal x m s) = show_ℤ (round_or_zero (decimal x m s))

abbrev pub twelfth_or : Option Number → Text → Text
twelfth_or none old = old
twelfth_or (some n) old = rounded_twelfth n

abbrev pub percent_or : Option Number → Text → Text
percent_or none old = old
percent_or (some n) old = show_number n

unfoldable pub growlio_product_ids : Option FinancialGoalOut → List SavingsProductOut → List Text
growlio_product_ids existing products =
    map (λ p. show_ℕ p.id)
      (filter (λ p. is_growlio_linked_investment p) (available_savings_products existing products))

-- onSuccess of growlioGoalMutation with a goal amount.
unfoldable pub fill_from_growlio : Number → GrowlioGoalSettingsOut → List Text → Draft → Draft
fill_from_growlio goal_amount settings product_ids d = record d {
  name = if is_empty (trim d.name) then codes "growlio 투자목표" else d.name;
  required_amount = rounded goal_amount;
  monthly_saving_amount = twelfth_or settings.annual_deposit_goal d.monthly_saving_amount;
  savings_product_ids =
      if not (is_net_worth_kind d.kind) && non_empty product_ids
      then product_ids
      else d.savings_product_ids;
  expected_annual_return_pct =
      percent_or settings.goal_annual_return_pct d.expected_annual_return_pct;
}

abbrev pub on_growlio_amount :
    Bool → Option Number → GrowlioGoalSettingsOut → List Text → Draft → Draft
on_growlio_amount configured none settings product_ids d = d
on_growlio_amount configured (some amount) settings product_ids d =
    if configured then fill_from_growlio amount settings product_ids d else d

unfoldable pub on_growlio_settings : GrowlioGoalSettingsOut → List Text → Draft → Draft
on_growlio_settings settings product_ids d =
    on_growlio_amount settings.is_configured settings.goal_amount settings product_ids d

-- toggleId on one of the lists of ids.
unfoldable pub toggle_id {ℓ} : {A : Type ℓ} → (A → A → Bool) → A → List A → List A
toggle_id same id ids =
    if any (λ v. same v id) ids then filter (λ v. not (same v id)) ids else ids ++ (id ∷ [])

-- The number of GOAL_STEPS.
abbrev pub goal_steps : ℕ
goal_steps = 3

pub record ModalForm : Type 0 where
  pub draft : Draft
  pub step : ℕ

-- handleSubmit: the form after it, with the draft that goes to onSubmit.
unfoldable pub submit_goal : ModalForm → ModalForm × Option Draft
submit_goal f =
    if is_empty (trim f.draft.name)
    then (record f { step = 0 }, none)
    else if not (is_challenge f.draft.kind)
        && (not (is_net_worth_kind f.draft.kind)
            && (not (is_combined f.draft.kind) && not (f.step + 1 == goal_steps)))
    then (record f { step = f.step + 1 }, none)
    else (f, some f.draft)

abbrev pub is_plain_goal : GoalKind → Bool
is_plain_goal GoalKind.goal = true
is_plain_goal _ = false

unfoldable pub member_candidates : List FinancialGoalOut → List FinancialGoalOut
member_candidates goals = filter (λ g. is_plain_goal g.kind) goals

unfoldable pub selected_goals_total : Draft → List FinancialGoalOut → Number
selected_goals_total draft goals =
    sum_amounts
      (some
        (filter (λ g. any (text_eq (show_ℕ g.id)) draft.member_goal_ids) (member_candidates goals)))
      (λ g. some g.required_amount)

abbrev pub is_growlio_member : MemberType → Bool
is_growlio_member MemberType.growlio = true
is_growlio_member MemberType.goal = false

abbrev pub is_chosen_user : List String → Option String → Bool
is_chosen_user ids none = false
is_chosen_user ids (some id) = any (λ u. str_eq u id) ids

abbrev pub members_of : Option FinancialGoalOut → List CombinedMemberOut
members_of none = []
members_of (some goal) = goal.combined_members

unfoldable pub known_growlio_total : Draft → Option FinancialGoalOut → Number
known_growlio_total draft existing =
    sum_amounts
      (some (
        filter (λ m. is_growlio_member m.type && is_chosen_user draft.growlio_user_ids m.user_id)
          (members_of existing)))
      (λ m. some (or_else m.required_amount (codes "0")))

unfoldable pub has_selection : Draft → Bool
has_selection draft = non_empty draft.member_goal_ids || non_empty draft.growlio_user_ids

abbrev pub goal_milestones : List ℕ
goal_milestones = 25 ∷ (50 ∷ (75 ∷ (100 ∷ [])))

abbrev pub milestones_of : GoalKind → List ℕ
milestones_of kind = if is_challenge kind then 100 ∷ [] else goal_milestones

-- Math.max(...crossed), null for none.
unfoldable pub largest : List ℕ → Option ℕ
largest [] = none
largest (m ∷ ms) = elim (largest ms) [ none ↦ some m | some n ↦ some (max m n) ]

unfoldable pub crossed_milestone : Number → Number → GoalKind → Option ℕ
crossed_milestone old_pct new_pct kind = largest (
    filter (λ m. less old_pct (decimal false m 0) && leb_number (decimal false m 0) new_pct)
      (milestones_of kind))

unfoldable pub priority_ordered : List FinancialGoalOut → List FinancialGoalOut
priority_ordered goals = sort_by (λ a b. leb a.priority b.priority) goals

-- activeMonth: the first month that is not reached.
unfoldable pub active_month : FinancialGoalOut → Option GoalMonthlyTargetOut
active_month goal = find (λ mt. not mt.is_achieved) goal.monthly_targets

abbrev pub is_active_status : Option EffectiveStatus → Bool
is_active_status (some EffectiveStatus.active) = true
is_active_status _ = false

-- showProgressUpdateWidget, with whether the card's status is "achieved".
unfoldable pub shows_progress_update : Bool → FinancialGoalOut → Bool
shows_progress_update achieved goal =
    not (is_net_worth_kind goal.kind)
    && (not (is_combined goal.kind)
        && (not (non_empty goal.funding_sources)
            && (not (non_empty goal.monthly_targets)
                && (if is_challenge goal.kind
                    then is_active_status goal.effective_status
                    else not achieved))))
