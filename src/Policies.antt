-- ===== src/Policies.antt =====
-- The form of an insurance policy (frontend/src/components/review/insurancePolicyDraft.ts, with the
-- riders' part of frontend/src/components/review/RiderListEditor.tsx and the representative
-- coverages of frontend/src/constants/insurance.ts): the draft of a policy, its payload, and what a
-- change of the policy's type does. The counter behind the riders' keys is passed along.
pub mod Choices
pub mod Unchanged
use nestlio.Prelude.{
  ℕ, suc, ◌+◌, Bool, true, false, not, ◌&&◌, ◌||◌, Option, none, some, List, [], ◌∷◌, map, filter,
  any, all, length, ◌==◌, if◌then◌else◌, or_else, String, str_eq, Text, codes, is_empty, trim,
  text_or_null, Number, number, show_ℕ,
}
use nestlio.Types.Ledger.{UserOut}
use nestlio.Types.Insurance.{
  PolicyType, PaymentFrequency, Coverage, RiderCoverage, InsuranceRiderOut, InsuranceRiderIn,
  InsurancePolicyOut,
}
use nestlio.MonthlyGrid.{to_amount_input_value}

abbrev pub other_insured : String
other_insured = "other"

-- COVERAGE_LABEL and RIDER_COVERAGE_LABEL.
unfoldable pub coverage_label : Coverage → Text
coverage_label Coverage.medical_indemnity = codes "실손의료비"
coverage_label Coverage.cancer = codes "암진단"
coverage_label Coverage.stroke = codes "뇌혈관"
coverage_label Coverage.heart = codes "심장"
coverage_label Coverage.surgery = codes "수술비"
coverage_label Coverage.hospitalization = codes "입원일당"
coverage_label Coverage.death = codes "사망"
coverage_label Coverage.disability = codes "상해후유장해"
coverage_label Coverage.driver = codes "운전자"
coverage_label Coverage.driver_legal = codes "운전자 벌금·합의·변호사비"
coverage_label Coverage.liability = codes "일상배상책임"
coverage_label Coverage.dental = codes "치아"

unfoldable pub rider_coverage_label : RiderCoverage → Text
rider_coverage_label (RiderCoverage.coverage c) = coverage_label c
rider_coverage_label RiderCoverage.other = codes "기타"

-- DEFAULT_COVERAGES[type] ?? [].
unfoldable pub default_coverages : PolicyType → List Coverage
default_coverages PolicyType.indemnity = Coverage.medical_indemnity ∷ []
default_coverages PolicyType.life = Coverage.death ∷ []
default_coverages PolicyType.auto = Coverage.driver ∷ []
default_coverages _ = []

pub record RiderDraft : Type 0 where
  pub key : ℕ
  pub id : Option ℕ
  pub name : Text
  pub coverage : RiderCoverage
  pub coverage_amount : Text
  pub premium : Text
  pub is_renewable : Bool
  pub end_date : Option Text

-- riderDraftFrom, with the key that newKey() makes.
unfoldable pub rider_draft_from : ℕ → InsuranceRiderOut → RiderDraft
rider_draft_from key rider = record {
  key = key;
  id = some rider.id;
  name = rider.name;
  coverage = rider.coverage;
  coverage_amount = or_else rider.coverage_amount [];
  premium = rider.premium;
  is_renewable = rider.is_renewable;
  end_date = rider.end_date;
}

-- riders.map(riderDraftFrom), from the counter on.
unfoldable pub rider_drafts : ℕ → List InsuranceRiderOut → List RiderDraft
rider_drafts next_key [] = []
rider_drafts next_key (r ∷ rs) = rider_draft_from (next_key + 1) r ∷ rider_drafts (next_key + 1) rs

-- `text || otherwise`, and `text || null`.
abbrev pub text_or : Text → Text → Text
text_or [] otherwise = otherwise
text_or (c ∷ t) otherwise = c ∷ t

unfoldable pub rider_payload : RiderDraft → InsuranceRiderIn
rider_payload draft = record {
  id = draft.id;
  name = text_or (trim draft.name) (rider_coverage_label draft.coverage);
  coverage = draft.coverage;
  coverage_amount = if is_empty draft.coverage_amount then none else some draft.coverage_amount;
  premium = if is_empty draft.premium then codes "0" else draft.premium;
  is_renewable = draft.is_renewable;
  end_date = draft.end_date;
}

pub record PolicyDraft : Type 0 where
  pub name : Text
  pub insurer : Text
  pub policy_type : PolicyType
  pub insured : String
  pub insured_name : Text
  pub premium_amount : Text
  pub payment_frequency : PaymentFrequency
  pub is_renewable : Bool
  pub next_renewal_date : Text
  pub payment_end_date : Text
  pub coverage_end_date : Text
  pub coverages : List Coverage
  pub riders : List RiderDraft
  pub recurring_expense_id : Text
  pub memo : Text

-- users?.[0]?.id ?? OTHER_INSURED.
abbrev pub first_insured : Option (List UserOut) → String
first_insured none = other_insured
first_insured (some []) = other_insured
first_insured (some (u ∷ us)) = u.id

abbrev pub shown_id : Option ℕ → Text
shown_id none = []
shown_id (some n) = show_ℕ n

unfoldable pub policy_draft_from :
    ℕ → Option InsurancePolicyOut → Option (List UserOut) → PolicyDraft
policy_draft_from next_key none users = record {
  name = [];
  insurer = [];
  policy_type = PolicyType.indemnity;
  insured = first_insured users;
  insured_name = [];
  premium_amount = [];
  payment_frequency = PaymentFrequency.monthly;
  is_renewable = false;
  next_renewal_date = [];
  payment_end_date = [];
  coverage_end_date = [];
  coverages = default_coverages PolicyType.indemnity;
  riders = [];
  recurring_expense_id = [];
  memo = [];
}
policy_draft_from next_key (some policy) users = record {
  name = policy.name;
  insurer = or_else policy.insurer [];
  policy_type = policy.policy_type;
  insured = or_else policy.insured_user_id other_insured;
  insured_name = or_else policy.insured_name [];
  premium_amount = to_amount_input_value (some policy.premium_amount);
  payment_frequency = policy.payment_frequency;
  is_renewable = policy.is_renewable;
  next_renewal_date = or_else policy.next_renewal_date [];
  payment_end_date = or_else policy.payment_end_date [];
  coverage_end_date = or_else policy.coverage_end_date [];
  coverages = policy.coverages;
  riders = rider_drafts next_key policy.riders;
  recurring_expense_id = shown_id policy.recurring_expense_id;
  memo = or_else policy.memo [];
}

abbrev pub is_auto : PolicyType → Bool
is_auto PolicyType.auto = true
is_auto _ = false

-- InsurancePolicyIn, with Number(recurring_expense_id).
pub record PolicyPayload : Type 0 where
  pub name : Text
  pub insurer : Option Text
  pub policy_type : PolicyType
  pub insured_user_id : Option String
  pub insured_name : Option Text
  pub premium_amount : Text
  pub payment_frequency : PaymentFrequency
  pub is_renewable : Bool
  pub next_renewal_date : Option Text
  pub payment_end_date : Option Text
  pub coverage_end_date : Option Text
  pub coverages : List Coverage
  pub riders : List InsuranceRiderIn
  pub recurring_expense_id : Option Number
  pub memo : Option Text

unfoldable pub policy_payload : PolicyDraft → PolicyPayload
policy_payload draft =
    let is_other = str_eq draft.insured other_insured in
    let renewable = draft.is_renewable || is_auto draft.policy_type in
    record {
      name = trim draft.name;
      insurer = text_or_null (trim draft.insurer);
      policy_type = draft.policy_type;
      insured_user_id = if is_other then none else some draft.insured;
      insured_name = if is_other then text_or_null (trim draft.insured_name) else none;
      premium_amount = draft.premium_amount;
      payment_frequency = draft.payment_frequency;
      is_renewable = renewable;
      next_renewal_date = if renewable then text_or_null draft.next_renewal_date else none;
      payment_end_date = text_or_null draft.payment_end_date;
      coverage_end_date = text_or_null draft.coverage_end_date;
      coverages = draft.coverages;
      riders = map rider_payload draft.riders;
      recurring_expense_id =
          if is_empty draft.recurring_expense_id
          then none
          else some (number draft.recurring_expense_id);
      memo = text_or_null (trim draft.memo);
    }

-- `===` on coverages, by their places in the union.
abbrev pub place : Coverage → ℕ
place Coverage.medical_indemnity = 0
place Coverage.cancer = 1
place Coverage.stroke = 2
place Coverage.heart = 3
place Coverage.surgery = 4
place Coverage.hospitalization = 5
place Coverage.death = 6
place Coverage.disability = 7
place Coverage.driver = 8
place Coverage.driver_legal = 9
place Coverage.liability = 10
place Coverage.dental = 11

unfoldable pub untouched : List Coverage → List Coverage → Bool
untouched coverages defaults =
    length coverages == length defaults
    && all (λ c. any (λ d. place d == place c) defaults) coverages

unfoldable pub with_policy_type : PolicyDraft → PolicyType → PolicyDraft
with_policy_type draft policy_type = record draft {
  policy_type = policy_type;
  coverages =
      if untouched draft.coverages (default_coverages draft.policy_type)
      then default_coverages policy_type
      else draft.coverages;
}
