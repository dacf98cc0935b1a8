-- ===== src/Types/Plans.antt =====
-- The items of a month's plan (frontend/src/types/index.ts).
use nestlio.Prelude.{ℕ, Bool, Option, String, Text}

pub data CashflowSection : Type 0 where
  income fixed variable irregular : CashflowSection

pub record CashflowPlanItemOut : Type 0 where
  pub id : ℕ
  pub section : CashflowSection
  pub year_month : Text
  pub owner_user_id : Option String
  pub name : String
  pub amount : Text
  pub category_id : Option ℕ
  pub category_name : Option String
  pub category_color : Option String
  pub sort_order : ℕ
  pub installment_no : Option ℕ
  pub installment_total : Option ℕ
  pub installment_total_amount : Option Text
  pub recurring_expense_id : Option ℕ
  pub recurring_active : Option Bool
  pub spans_multiple_months : Bool
