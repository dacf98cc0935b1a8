-- ===== src/QuickPicks.antt =====
-- The quick entries over the form of a new transaction
-- (frontend/src/components/transactions/TransactionQuickPicks.tsx): the tab that is remembered, the
-- recent transactions and the month's plan by group, and the tab that shows.
use nestlio.Prelude.{
  ◌≡◌, refl, ℕ, Bool, true, false, not, ◌&&◌, ◌||◌, Option, none, some, List, [], ◌∷◌, filter,
  if◌then◌else◌, or_else, Text, codes, text_eq, take, number,
}
use nestlio.Types.Ledger.{CategoryType, TransactionType, TransactionOut}
use nestlio.Types.Plans.{CashflowSection, CashflowPlanItemOut}
use nestlio.TransactionForm.{UiType, is_savings_ui, is_expense_ui, is_income_ui}
use nestlio.PlanForms.{is_of_section}
use nestlio.GoalForm.{non_empty}
use nestlio.Acceleration.{is_positive}

pub data QuickTab : Type 0 where
  plan recent : QuickTab

-- readStoredQuickTab, from what localStorage holds; none where it cannot be read either.
unfoldable pub read_stored_quick_tab : Option Text → QuickTab
read_stored_quick_tab none = QuickTab.recent
read_stored_quick_tab (some stored) =
    if text_eq stored (codes "계획") then QuickTab.plan else QuickTab.recent

-- The query of the recent transactions.
pub record RecentQuery : Type 0 where
  pub type : TransactionType
  pub is_savings : Bool
  pub limit : ℕ

unfoldable pub recent_query : UiType → RecentQuery
recent_query ui = record {
  type = if is_income_ui ui then TransactionType.income else TransactionType.expense;
  is_savings = is_savings_ui ui;
  limit = if is_expense_ui ui then 12 else 8;
}

-- EXPENSE_TYPE_GROUPS.
abbrev pub expense_type_groups : List CategoryType
expense_type_groups = CategoryType.fixed ∷ (CategoryType.variable ∷ (CategoryType.irregular ∷ []))

abbrev pub is_category_type : CategoryType → CategoryType → Bool
is_category_type CategoryType.fixed CategoryType.fixed = true
is_category_type CategoryType.variable CategoryType.variable = true
is_category_type CategoryType.irregular CategoryType.irregular = true
is_category_type _ _ = false

pub record Group (T : Type 0) : Type 0 where
  pub value : CategoryType
  pub items : List T

-- The groups that have items.
unfoldable pub groups_by :
    {T : Type 0} → (CategoryType → T → Bool) → List T → List CategoryType → List (Group T)
groups_by belongs items [] = []
groups_by belongs items (value ∷ values) =
    let own = filter (belongs value) items in
    let rest = groups_by belongs items values in
    if non_empty own then record { value = value; items = own } ∷ rest else rest

unfoldable pub recent_groups : UiType → Option (List TransactionOut) → List (Group TransactionOut)
recent_groups ui recent_items =
    if is_expense_ui ui
    then groups_by (λ value tx. is_category_type tx.category.type value) (or_else recent_items [])
        expense_type_groups
    else []

unfoldable pub has_recent_content : UiType → Option (List TransactionOut) → Bool
has_recent_content ui recent_items =
    non_empty (recent_groups ui recent_items) || non_empty (or_else recent_items [])

-- The month of the date that the form holds.
unfoldable pub plan_month : Text → Text
plan_month transaction_date = take 7 transaction_date

unfoldable pub plan_items : Option (List CashflowPlanItemOut) → List CashflowPlanItemOut
plan_items data_items = filter (λ item. is_positive (number item.amount)) (or_else data_items [])

unfoldable pub plan_groups : UiType → List CashflowPlanItemOut → List (Group CashflowPlanItemOut)
plan_groups ui items =
    if is_expense_ui ui
    then groups_by (λ value item. is_of_section item.section value) items expense_type_groups
    else []

abbrev pub is_income_section : CashflowSection → Bool
is_income_section CashflowSection.income = true
is_income_section _ = false

unfoldable pub plan_flat_items : UiType → List CashflowPlanItemOut → List CashflowPlanItemOut
plan_flat_items ui items =
    if is_income_ui ui then filter (λ item. is_income_section item.section) items else []

unfoldable pub has_plan_content : UiType → List CashflowPlanItemOut → Bool
has_plan_content ui items = non_empty (plan_groups ui items) || non_empty (plan_flat_items ui items)

-- activeTab: the remembered one, unless it is empty and the other is not.
unfoldable pub active_tab : QuickTab → Bool → Bool → QuickTab
active_tab QuickTab.recent has_recent has_plan =
    if not has_recent && has_plan then QuickTab.plan else QuickTab.recent
active_tab QuickTab.plan has_recent has_plan =
    if not has_plan && has_recent then QuickTab.recent else QuickTab.plan

-- Whether a tab has content.
abbrev pub has_content : QuickTab → Bool → Bool → Bool
has_content QuickTab.recent has_recent has_plan = has_recent
has_content QuickTab.plan has_recent has_plan = has_plan

-- A tab without content shows only where the other has none either.
active_tab-has_content :
    (tab : QuickTab) (has_recent has_plan : Bool)
    → has_content (active_tab tab has_recent has_plan) has_recent has_plan
      ≡ (has_recent || has_plan)
unfolding active_tab
active_tab-has_content QuickTab.recent true has_plan = refl
active_tab-has_content QuickTab.recent false true = refl
active_tab-has_content QuickTab.recent false false = refl
active_tab-has_content QuickTab.plan true true = refl
active_tab-has_content QuickTab.plan true false = refl
active_tab-has_content QuickTab.plan false true = refl
active_tab-has_content QuickTab.plan false false = refl
