-- ===== src/Policies/Unchanged.antt =====
-- A policy that is opened in its form and saved unchanged
-- (frontend/src/components/review/insurancePolicyDraft.ts,
-- frontend/src/components/review/RiderListEditor.tsx).
use nestlio.Prelude.{
  ℕ, ◌+◌, ◌≡◌, refl, ap, Bool, true, false, ◌||◌, Option, none, some, List, [], ◌∷◌, map, All,
  or_else, if◌then◌else◌, String, str_eq, Text, is_empty, trim, text_or_null, Number, decimal,
  number, show_ℤ, number-show_ℤ, show_ℕ-is_empty, arith,
}
use nestlio.Prelude.Int.{pos}
use nestlio.Types.Ledger.{UserOut}
use nestlio.Types.Insurance.{InsuranceRiderOut, InsuranceRiderIn, InsurancePolicyOut}
use nestlio.Policies.{
  rider_draft_from, rider_drafts, rider_payload, rider_coverage_label, text_or, policy_draft_from,
  policy_payload, is_auto, other_insured, shown_id,
}

-- A rider as the server has it: a name that `trim` leaves and that is not empty, and no empty
-- amounts.
abbrev pub IsStored : InsuranceRiderOut → Type 0
IsStored r =
    (trim r.name ≡ r.name)
    × (is_empty r.name ≡ false)
    × (is_empty (or_else r.coverage_amount (b'0' ∷ [])) ≡ false)
    × (is_empty r.premium ≡ false)

-- The rider that leaves the server's values as they are.
abbrev pub same_rider : InsuranceRiderOut → InsuranceRiderIn
same_rider r = record {
  id = some r.id;
  name = r.name;
  coverage = r.coverage;
  coverage_amount = r.coverage_amount;
  premium = r.premium;
  is_renewable = r.is_renewable;
  end_date = r.end_date;
}

text_or-full : (t d : Text) → is_empty t ≡ false → text_or t d ≡ t
text_or-full [] d h = ground arith
text_or-full (c ∷ t) d h = refl

amount-full :
    (o : Option Text)
    → is_empty (or_else o (b'0' ∷ [])) ≡ false
    → (if is_empty (or_else o []) then none else some (or_else o [])) ≡ o
amount-full none h = refl
amount-full (some t) h = rw h refl

rider_payload-draft :
    (key : ℕ) (r : InsuranceRiderOut)
    → IsStored r
    → rider_payload (rider_draft_from key r) ≡ same_rider r
unfolding rider_payload rider_draft_from
rider_payload-draft key r (t, n, a, p) =
    rw
      (
        t,
        p,
        text_or-full r.name (rider_coverage_label r.coverage) n,
        amount-full r.coverage_amount a,
      )
      refl

riders-same :
    (next_key : ℕ) (riders : List InsuranceRiderOut)
    → All IsStored riders
    → map rider_payload (rider_drafts next_key riders) ≡ map same_rider riders
unfolding rider_drafts
riders-same next_key [] h = refl
riders-same next_key (r ∷ riders) h =
    rw (rider_payload-draft (next_key + 1) r h.0, riders-same (next_key + 1) riders h.1) refl

abbrev pub read_id : Option ℕ → Option Number
read_id none = none
read_id (some n) = some (decimal false n 0)

id-read :
    (o : Option ℕ)
    → (if is_empty (shown_id o) then none else some (number (shown_id o))) ≡ read_id o
unfolding show_ℤ
id-read none = refl
id-read (some n) = rw (show_ℕ-is_empty n) (ap some (number-show_ℤ (pos n)))

date-read :
    (b : Bool) (o : Option Text)
    → is_empty (or_else o (b'0' ∷ [])) ≡ false
    → (if b then text_or_null (or_else o []) else none) ≡ (if b then o else none)
date-read true none h = refl
date-read true (some []) h = ground arith
date-read true (some (c ∷ t)) h = refl
date-read false o h = refl

-- Saving a policy without an edit, where its riders are as the server stores them, its renewal
-- date is not the empty text and its user is not called "other", sends each rider back with its
-- values, the same type, coverages and payment frequency, the recurring expense as the number that
-- it was and the same insured user. A car policy is sent as renewable in any case, and only a
-- renewable one keeps its renewal date.
pub policy_payload-policy_draft_from :
    (next_key : ℕ) (policy : InsurancePolicyOut) (users : Option (List UserOut))
    → All IsStored policy.riders
    → is_empty (or_else policy.next_renewal_date (b'0' ∷ [])) ≡ false
    → str_eq (or_else policy.insured_user_id "") other_insured ≡ false
    → ((policy_payload (policy_draft_from next_key (some policy) users)).riders
        ≡ map same_rider policy.riders)
      × ((policy_payload (policy_draft_from next_key (some policy) users)).policy_type
          ≡ policy.policy_type)
      × ((policy_payload (policy_draft_from next_key (some policy) users)).coverages
          ≡ policy.coverages)
      × ((policy_payload (policy_draft_from next_key (some policy) users)).payment_frequency
          ≡ policy.payment_frequency)
      × ((policy_payload (policy_draft_from next_key (some policy) users)).recurring_expense_id
          ≡ read_id policy.recurring_expense_id)
      × ((policy_payload (policy_draft_from next_key (some policy) users)).insured_user_id
          ≡ policy.insured_user_id)
      × ((policy_payload (policy_draft_from next_key (some policy) users)).is_renewable
          ≡ (policy.is_renewable || is_auto policy.policy_type))
      × ((policy_payload (policy_draft_from next_key (some policy) users)).next_renewal_date ≡ (
          if policy.is_renewable || is_auto policy.policy_type
          then policy.next_renewal_date
          else none))
unfolding policy_payload policy_draft_from
policy_payload-policy_draft_from next_key policy users stored dated insured = (
  riders-same next_key policy.riders stored,
  refl,
  refl,
  refl,
  id-read policy.recurring_expense_id,
  same_user policy.insured_user_id insured,
  refl,
  date-read (policy.is_renewable || is_auto policy.policy_type) policy.next_renewal_date dated,
)
  where
    same_user :
        (o : Option String)
        → str_eq (or_else o "") other_insured ≡ false
        → (if str_eq (or_else o other_insured) other_insured
            then none
            else some (or_else o other_insured))
          ≡ o
    same_user none h = refl
    same_user (some u) h = rw h refl
