-- ===== src/Types/Goals.antt =====
-- The responses and payload parts of the financial goals (frontend/src/types/index.ts).
use nestlio.Prelude.{ℕ, Bool, Option, List, String, Text}
use nestlio.Prelude.Int.{ℤ}

pub data FundingSourceType : Type 0 where
  savings_product account loan : FundingSourceType

pub record FundingSourceOut : Type 0 where
  pub type : FundingSourceType
  pub id : ℕ
  pub name : String
  pub amount : Text

pub record FundingSourceIn : Type 0 where
  pub type : FundingSourceType
  pub id : ℕ

pub data GoalKind : Type 0 where
  goal challenge net_worth combined : GoalKind

pub record GrowlioGoalSnapshotOut : Type 0 where
  pub user_id : String
  pub is_configured : Bool
  pub goal_amount : Option Text
  pub investable_assets : Option Text
  pub monthly_deposit_amount : Option Text
  pub annual_deposit_goal : Option Text
  pub annual_deposit_current : Option Text
  pub annual_dividend_goal : Option Text
  pub estimated_annual_dividend : Option Text
  pub goal_annual_return_pct : Option Text
  pub actual_return_pct : Option Text
  pub retirement_target_year : Option ℕ
  pub synced_at : Text

pub data MemberType : Type 0 where
  goal growlio : MemberType

pub record CombinedMemberOut : Type 0 where
  pub type : MemberType
  pub goal_id : Option ℕ
  pub user_id : Option String
  pub name : String
  pub current_amount : Option Text
  pub required_amount : Option Text
  pub progress_pct : Option Text
  pub synced_at : Option Text
  pub growlio : Option GrowlioGoalSnapshotOut

pub record GoalMonthlyTargetOut : Type 0 where
  pub year_month : Text
  pub target_amount : Text
  pub achieved_amount : Text
  pub is_achieved : Bool
  pub is_auto_computed : Bool

pub record GoalMonthlyTargetIn : Type 0 where
  pub year_month : Text
  pub target_amount : Text

pub data GoalState : Type 0 where
  active succeeded : GoalState

pub data EffectiveStatus : Type 0 where
  active succeeded expired : EffectiveStatus

pub record FinancialGoalOut : Type 0 where
  pub id : ℕ
  pub kind : GoalKind
  pub priority : ℕ
  pub name : Text
  pub description : Option Text
  pub target_age : Option ℕ
  pub target_date : Option Text
  pub required_amount : Text
  pub monthly_saving_amount : Text
  pub planned_monthly_amount : Text
  pub expected_annual_return_pct : Option Text
  pub eta_with_return_year_month : Option Text
  pub current_amount : Text
  pub progress_pct : Text
  pub sort_order : ℕ
  pub funding_sources : List FundingSourceOut
  pub months_remaining : Option ℤ
  pub suggested_monthly_amount : Option Text
  pub eta_year_month : Option Text
  pub ahead_behind_months : Option ℤ
  pub start_date : Option Text
  pub status : GoalState
  pub effective_status : Option EffectiveStatus
  pub created_by_id : Option String
  pub completed_at : Option Text
  pub monthly_targets : List GoalMonthlyTargetOut
  pub combined_members : List CombinedMemberOut
  pub overlap_amount : Option Text
  pub exclude_real_estate : Bool
