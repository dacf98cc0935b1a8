-- ===== src/Tests/Forms.antt =====
-- A policy in its form (frontend/src/components/review/insurancePolicyDraft.ts) and budget rows by
-- category (frontend/src/utils/categoryGroup.ts).
use nestlio.Prelude.{
  ◌≡◌, refl, true, false, ◌||◌, none, some, List, [], ◌∷◌, map, ℕ, if◌then◌else◌, codes, trim,
}
use nestlio.Types.Insurance.{
  PolicyType, PaymentFrequency, Coverage, RiderCoverage, InsuranceRiderOut, InsurancePolicyOut,
}
use nestlio.CategoryGroups.{Item, group_items_by_category}
use nestlio.CategoryGroups.Complete.{rows_of, group_items_by_category-complete}
use nestlio.Types.Ledger.{CategoryOut, CategoryType, TransactionType}
use mathlib.Core.List.{Perm}
use nestlio.Types.Ledger.{UserOut, TodoFrequency, TodoOut}
use nestlio.Types.Notifications.{NotificationReactionOut, NotifType, NotificationListOut}
use nestlio.Household.{
  TodoAssigneeFilter, filter_todos_by_assignee, latest_partner_cheer, partner_cheers, is_cheer_type,
  is_missing,
}
use nestlio.Household.Todos.{is_own, is_partners, is_shared, filter_todos_by_assignee-length}
use nestlio.Household.Cheers.{overtakes, latest_partner_cheer-latest}
use nestlio.Prelude.Sort.{sort_by, insert_by}
use nestlio.Prelude.{all, any, ◌&&◌, Bool, inr, arith, ◌+◌, length, filter, str_eq}
use nestlio.Policies.{PolicyDraft, policy_draft_from, policy_payload, default_coverages, is_auto}
use nestlio.Policies.Choices.{
  IsEdited, chosen, with_policy_types, last_type, with_policy_types-follows,
}
use nestlio.Policies.Unchanged.{same_rider, read_id, policy_payload-policy_draft_from}

abbrev rider : InsuranceRiderOut
rider = record {
  id = 4;
  name = codes "A";
  coverage = RiderCoverage.coverage Coverage.cancer;
  coverage_amount = some (codes "100");
  premium = codes "5";
  monthly_premium = codes "5";
  is_renewable = false;
  end_date = none;
}

abbrev car : InsurancePolicyOut
car = record {
  id = 1;
  name = codes "Car";
  insurer = none;
  policy_type = PolicyType.auto;
  insured_user_id = some "u1";
  insured_name = none;
  premium_amount = codes "10";
  payment_frequency = PaymentFrequency.yearly;
  monthly_premium = codes "1";
  is_renewable = false;
  next_renewal_date = some (codes "2026-05-01");
  payment_end_date = none;
  coverage_end_date = none;
  coverages = Coverage.driver ∷ [];
  riders = rider ∷ [];
  riders_monthly_premium = codes "5";
  main_monthly_premium = codes "5";
  recurring_expense_id = some 12;
  memo = none;
  is_active = true;
  sort_order = 0;
  updated_at = none;
}

policy_payload-policy_draft_from_example :
    ((policy_payload (policy_draft_from 0 (some car) none)).riders ≡ map same_rider car.riders)
    × ((policy_payload (policy_draft_from 0 (some car) none)).policy_type ≡ car.policy_type)
    × ((policy_payload (policy_draft_from 0 (some car) none)).coverages ≡ car.coverages)
    × ((policy_payload (policy_draft_from 0 (some car) none)).payment_frequency
        ≡ car.payment_frequency)
    × ((policy_payload (policy_draft_from 0 (some car) none)).recurring_expense_id
        ≡ read_id (some 12))
    × ((policy_payload (policy_draft_from 0 (some car) none)).insured_user_id ≡ some "u1")
    × ((policy_payload (policy_draft_from 0 (some car) none)).is_renewable
        ≡ (car.is_renewable || is_auto car.policy_type))
    × ((policy_payload (policy_draft_from 0 (some car) none)).next_renewal_date
        ≡ (if car.is_renewable || is_auto car.policy_type then car.next_renewal_date else none))
policy_payload-policy_draft_from_example =
    policy_payload-policy_draft_from 0 car none ((unfold trim in refl, refl, refl, refl), tt) refl
      refl

-- A policy whose coverages were edited.
abbrev edited_policy : PolicyDraft
edited_policy = record (policy_draft_from 0 none none) {
  coverages = Coverage.cancer ∷ (Coverage.heart ∷ []);
}

edited_policy-IsEdited : IsEdited edited_policy.coverages
unfolding default_coverages
edited_policy-IsEdited PolicyType.indemnity e = ground arith
edited_policy-IsEdited PolicyType.diagnosis e = ground arith
edited_policy-IsEdited PolicyType.life e = ground arith
edited_policy-IsEdited PolicyType.accident e = ground arith
edited_policy-IsEdited PolicyType.auto e = ground arith
edited_policy-IsEdited PolicyType.home e = ground arith
edited_policy-IsEdited PolicyType.savings e = ground arith
edited_policy-IsEdited PolicyType.other e = ground arith

with_policy_types-follows_example :
    with_policy_types edited_policy (PolicyType.auto ∷ PolicyType.home ∷ [])
    ≡ record edited_policy {
      policy_type = last_type edited_policy.policy_type (PolicyType.auto ∷ PolicyType.home ∷ []);
      coverages =
          chosen edited_policy
            (inr edited_policy-IsEdited)
            (last_type edited_policy.policy_type (PolicyType.auto ∷ PolicyType.home ∷ []));
    }
with_policy_types-follows_example =
    with_policy_types-follows edited_policy (PolicyType.auto ∷ PolicyType.home ∷ [])
      (inr edited_policy-IsEdited)

abbrev rows : List (Item ℕ)
rows =
    record { category_id = none; category_name = none; category_color = none; row = 1 }
    ∷ record { category_id = some 5; category_name = some "Food"; category_color = none; row = 2 }
    ∷ []

abbrev food : CategoryOut
food = record {
  id = 5;
  name = "Food";
  kind = TransactionType.expense;
  type = CategoryType.variable;
  color = "#000";
  is_active = true;
  is_discretionary = false;
  is_debt = false;
  is_savings = false;
  sort_order = 0;
  benchmark_group = none;
}

group_items_by_category-complete_example :
    Perm (rows_of (group_items_by_category rows (food ∷ []))) rows
group_items_by_category-complete_example = group_items_by_category-complete rows (food ∷ [])

abbrev person : UserOut
person = record { id = "u1"; email = "a@b.c"; display_name = "A" }

abbrev todos : List TodoOut
todos =
    record {
      id = 1;
      title = "Rent";
      memo = none;
      due_date = none;
      frequency = TodoFrequency.once;
      creator = person;
      assignee = none;
      completed_at = none;
      completer = none;
      created_at = codes "2026-01-01";
    }
    ∷ []

abbrev unfinished : TodoOut → Bool
unfinished t = is_missing t.completed_at

filter_todos_by_assignee-length_example :
    (all
        (λ t. is_own (some "u1") t.assignee)
        (filter_todos_by_assignee todos TodoAssigneeFilter.me (some "u1"))
      ≡ true)
    × (all
          (λ t. is_partners (some "u1") t.assignee)
          (filter_todos_by_assignee todos TodoAssigneeFilter.partner (some "u1"))
        ≡ true)
    × (length (filter unfinished (filter_todos_by_assignee todos TodoAssigneeFilter.me (some "u1")))
          + length (
              filter unfinished
                (filter_todos_by_assignee todos TodoAssigneeFilter.partner (some "u1")))
        ≡ length (filter unfinished todos)
          + length (filter (λ t. unfinished t && is_shared t.assignee) todos))
filter_todos_by_assignee-length_example =
    filter_todos_by_assignee-length unfinished todos (some "u1")

abbrev cheer : NotificationReactionOut
cheer = record {
  user_id = "u2";
  display_name = "B";
  emoji = "x";
  message = none;
  created_at = codes "2026-01-02";
}

abbrev inbox : NotificationListOut
inbox = record {
  items =
      record {
        id = 1;
        notif_type = NotifType.goal_cheer;
        related_type = none;
        related_id = none;
        year_month = none;
        sent_at = codes "2026-01-01";
        detail = none;
        is_read = false;
        reactions = cheer ∷ [];
      }
      ∷ [];
  unread_count = 0;
}

cheered : latest_partner_cheer (some inbox) (some "u1") ≡ some cheer
unfolding latest_partner_cheer partner_cheers is_cheer_type sort_by insert_by
cheered = refl

latest_partner_cheer-latest_example :
    (str_eq cheer.user_id "u1" ≡ false) × (any (overtakes "u1" cheer) inbox.items ≡ false)
latest_partner_cheer-latest_example = latest_partner_cheer-latest inbox "u1" cheer cheered
