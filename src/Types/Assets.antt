-- ===== src/Types/Assets.antt =====
-- The loans among the assets (frontend/src/types/index.ts).
use nestlio.Prelude.{ℕ, Bool, Option, String, Text}

pub data RepaymentMethod : Type 0 where
  equal_payment equal_principal bullet grace_period other : RepaymentMethod

pub record LoanOut : Type 0 where
  pub id : ℕ
  pub name : String
  pub balance : Text
  pub monthly_payment : Text
  pub origination_year_month : Option Text
  pub term_months : Option ℕ
  pub interest_rate : Option Text
  pub repayment_method : Option RepaymentMethod
  pub sort_order : ℕ
  pub is_active : Bool
  pub growlio_account_id : Option String
  pub auto_sync_enabled : Bool
  pub last_synced_at : Option Text
  pub owner_user_id : Option String
