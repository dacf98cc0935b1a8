-- ===== src/Types/Insurance.antt =====
-- Insurance policies and their riders (frontend/src/types/index.ts).
use nestlio.Prelude.{ℕ, Bool, Option, List, String, Text}

pub data PolicyType : Type 0 where
  indemnity diagnosis life accident auto home savings other : PolicyType

pub data PaymentFrequency : Type 0 where
  monthly yearly : PaymentFrequency

pub data Coverage : Type 0 where
  medical_indemnity cancer stroke heart surgery hospitalization death disability driver driver_legal
        liability dental :
      Coverage

pub data RiderCoverage : Type 0 where
  coverage : Coverage → RiderCoverage
  other : RiderCoverage

pub record InsuranceRiderOut : Type 0 where
  pub id : ℕ
  pub name : Text
  pub coverage : RiderCoverage
  pub coverage_amount : Option Text
  pub premium : Text
  pub monthly_premium : Text
  pub is_renewable : Bool
  pub end_date : Option Text

pub record InsuranceRiderIn : Type 0 where
  pub id : Option ℕ
  pub name : Text
  pub coverage : RiderCoverage
  pub coverage_amount : Option Text
  pub premium : Text
  pub is_renewable : Bool
  pub end_date : Option Text

pub record InsurancePolicyOut : Type 0 where
  pub id : ℕ
  pub name : Text
  pub insurer : Option Text
  pub policy_type : PolicyType
  pub insured_user_id : Option String
  pub insured_name : Option Text
  pub premium_amount : Text
  pub payment_frequency : PaymentFrequency
  pub monthly_premium : Text
  pub is_renewable : Bool
  pub next_renewal_date : Option Text
  pub payment_end_date : Option Text
  pub coverage_end_date : Option Text
  pub coverages : List Coverage
  pub riders : List InsuranceRiderOut
  pub riders_monthly_premium : Text
  pub main_monthly_premium : Text
  pub recurring_expense_id : Option ℕ
  pub memo : Option Text
  pub is_active : Bool
  pub sort_order : ℕ
  pub updated_at : Option Text
