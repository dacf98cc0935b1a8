-- ===== src/PlanForms.antt =====
-- The forms of a year's and of a month's plan
-- (frontend/src/components/financialPlan/AnnualPlanItemForm.tsx,
-- frontend/src/components/financialPlan/CashflowPlanItemForm.tsx).
use nestlio.Prelude.{
  ℕ, Bool, true, false, not, ◌&&◌, ◌||◌, Option, none, some, List, [], ◌∷◌, ◌++◌, filter, find, ltb,
  ◌==◌, if◌then◌else◌, or_else, String, Text, codes, text_eq, is_empty, trim, Number, decimal,
  show_ℕ,
}
use nestlio.Types.Ledger.{TransactionType, CategoryType, CategoryOut}
use nestlio.Types.Plans.{CashflowSection}
use nestlio.Months.{MonthlyTarget, build_year_month_range, sync_targets_to_period}
use nestlio.MonthlyGrid.{to_amount_input_value, total_from}
use nestlio.GoalDraft.{number_text}
use nestlio.Acceleration.{is_positive}

pub record AnnualPlanItemFormValues : Type 0 where
  pub name : Text
  pub owner_user_id : String
  pub category_id : Text
  pub start_month : Text
  pub end_month : Text
  pub monthly_targets : List MonthlyTarget

pub record AnnualInitialValues : Type 0 where
  pub name : Option Text
  pub owner_user_id : Option String
  pub category_id : Option Text
  pub start_month : Option Text
  pub end_month : Option Text
  pub monthly_targets : Option (List MonthlyTarget)

-- The state of the form: the values and the amount to be spread evenly.
pub record AnnualForm : Type 0 where
  pub values : AnnualPlanItemFormValues
  pub annual_total_draft : Text

unfoldable pub month_of : ℕ → Text → Text
month_of year rest = show_ℕ year ++ rest

unfoldable pub existing_total : Option (List MonthlyTarget) → Number
existing_total targets = total_from (decimal false 0 0) (or_else targets [])

unfoldable pub annual_form : ℕ → AnnualInitialValues → AnnualForm
annual_form year initial = record {
  values = record {
    name = or_else initial.name [];
    owner_user_id = or_else initial.owner_user_id "";
    category_id = or_else initial.category_id [];
    start_month = or_else initial.start_month (month_of year (codes "-01"));
    end_month = or_else initial.end_month (month_of year (codes "-12"));
    monthly_targets = or_else initial.monthly_targets [];
  };
  annual_total_draft =
      if is_positive (existing_total initial.monthly_targets)
      then number_text (existing_total initial.monthly_targets)
      else [];
}

-- c.type === section; no type is called "income".
abbrev pub is_of_section : CashflowSection → CategoryType → Bool
is_of_section CashflowSection.fixed CategoryType.fixed = true
is_of_section CashflowSection.variable CategoryType.variable = true
is_of_section CashflowSection.irregular CategoryType.irregular = true
is_of_section _ _ = false

abbrev pub is_income : TransactionType → Bool
is_income TransactionType.income = true
is_income TransactionType.expense = false

unfoldable pub section_categories : CashflowSection → List CategoryOut → List CategoryOut
section_categories CashflowSection.income categories = filter (λ c. is_income c.kind) categories
section_categories section categories =
    filter (λ c. not (is_income c.kind) && is_of_section section c.type) categories

-- s <= t on texts.
abbrev pub leb_text : Text → Text → Bool
leb_text [] t = true
leb_text (c ∷ s) [] = false
leb_text (c ∷ s) (d ∷ t) = ltb c d || ((c == d) && leb_text s t)

unfoldable pub month_options : ℕ → List Text
month_options year =
    build_year_month_range (month_of year (codes "-01")) (month_of year (codes "-12"))

unfoldable pub start_options : ℕ → AnnualForm → List Text
start_options year f = filter (λ ym. leb_text ym f.values.end_month) (month_options year)

unfoldable pub end_options : ℕ → AnnualForm → List Text
end_options year f = filter (λ ym. leb_text f.values.start_month ym) (month_options year)

unfoldable pub change_start_month : Text → AnnualForm → AnnualForm
change_start_month next f = record f {
  values = record f.values {
    start_month = next;
    monthly_targets = sync_targets_to_period next f.values.end_month f.values.monthly_targets;
  };
}

unfoldable pub change_end_month : Text → AnnualForm → AnnualForm
change_end_month next f = record f {
  values = record f.values {
    end_month = next;
    monthly_targets = sync_targets_to_period f.values.start_month next f.values.monthly_targets;
  };
}

abbrev pub name_or : Option CategoryOut → Text → Text
name_or none prev = prev
name_or (some c) prev = codes c.name

-- The name after a category is chosen: the category's, where none was entered.
unfoldable pub name_after : List CategoryOut → Text → Text → Text
name_after categories category_id prev =
    if is_empty (trim prev) && not (is_empty category_id)
    then name_or (find (λ c. text_eq (show_ℕ c.id) category_id) categories) prev
    else prev

unfoldable pub choose_category : List CategoryOut → Text → AnnualForm → AnnualForm
choose_category categories category_id f = record f {
  values = record f.values {
    category_id = category_id;
    name = name_after categories category_id f.values.name;
  };
}

unfoldable pub submit_annual : AnnualForm → Option AnnualPlanItemFormValues
submit_annual f = if is_empty (trim f.values.name) then none else some f.values

pub record CashflowPlanItemFormValues : Type 0 where
  pub name : Text
  pub owner_user_id : String
  pub amount : Text
  pub category_id : Text

pub record CashflowInitialValues : Type 0 where
  pub name : Option Text
  pub owner_user_id : Option String
  pub amount : Option Text
  pub category_id : Option Text

unfoldable pub cashflow_values : CashflowInitialValues → CashflowPlanItemFormValues
cashflow_values initial = record {
  name = or_else initial.name [];
  owner_user_id = or_else initial.owner_user_id "";
  amount = to_amount_input_value initial.amount;
  category_id = or_else initial.category_id [];
}

unfoldable pub submit_cashflow : CashflowPlanItemFormValues → Option CashflowPlanItemFormValues
submit_cashflow values = if is_empty (trim values.name) then none else some values

unfoldable pub cashflow_categories : CashflowSection → List CategoryOut → List CategoryOut
cashflow_categories section categories = filter (λ c. is_of_section section c.type) categories

unfoldable pub choose_cashflow_category :
    List CategoryOut → Text → CashflowPlanItemFormValues → CashflowPlanItemFormValues
choose_cashflow_category categories category_id v = record v {
  category_id = category_id;
  name = name_after categories category_id v.name;
}
