-- ===== src/Tests/Entries.antt =====
-- A transaction in its form (frontend/src/components/transactions/TransactionForm.tsx).
use nestlio.Prelude.{show_ℕ, strip_prefix, ◌≡◌, refl, true, false, none, some, List, [], ◌∷◌, codes}
use nestlio.LedgerPage.{Target, transaction_form}
use nestlio.LedgerPage.Unchanged.{Sends, transaction_form-Sends}
use nestlio.Types.Ledger.{
  TransactionOut, CategoryOut, CategoryType, TransactionType, CardOut, CardType,
}
use nestlio.TransactionForm.{
  Props, InitialValues, Event, initial_form, run, step, offers, handle, initial_category,
  handle_payment_change, handle_submit, payment_value,
}
use nestlio.TransactionForm.Consistent.{FitsMode, Submits, submit-Submits}

abbrev groceries : CategoryOut
groceries = record {
  id = 3;
  name = "Food";
  kind = TransactionType.expense;
  type = CategoryType.variable;
  color = "red";
  is_active = true;
  is_discretionary = true;
  is_debt = false;
  is_savings = false;
  sort_order = 0;
  benchmark_group = none;
}

abbrev card : CardOut
card = record {
  id = 7;
  name = "Card";
  card_type = CardType.credit;
  payment_account_id = some 2;
  payment_account = none;
  owner_user_id = none;
  is_active = true;
  sort_order = 0;
}

abbrev blank : InitialValues
blank = record {
  amount = none;
  type = none;
  category_id = none;
  transaction_date = none;
  description = none;
  payment_method = none;
  account_id = none;
  savings_product_id = none;
  owner_user_id = none;
  card_id = none;
}

abbrev props : Props
props = record {
  categories = groceries ∷ (record groceries { id = 9; is_savings = true } ∷ []);
  active_cards = card ∷ [];
  users = [];
  current_user_id = some "me";
  initial_values = blank;
  is_new = true;
  editing_card = none;
  today = codes "2026-01-05";
}

abbrev edits : List Event
edits =
    Event.amount (codes "1200")
    ∷ (Event.payment (codes "card:7") ∷ (Event.category (codes "3") ∷ []))

shown_payment : payment_value (run props (initial_form props) edits).values ≡ codes "card:7"
unfolding payment_value run step offers handle initial_form initial_category show_ℕ
    handle_payment_change strip_prefix
shown_payment = refl

submit-Submits_example :
    FitsMode (run props (initial_form props) edits)
    × Submits
        (run props (initial_form props) edits).ui_type
        (run props (initial_form props) edits).values
        (handle_submit (run props (initial_form props) edits))
unfolding initial_form initial_category show_ℕ
submit-Submits_example = submit-Submits props edits refl

abbrev lunch : TransactionOut
lunch = record {
  id = 5;
  type = TransactionType.expense;
  amount = codes "9000.00";
  transaction_date = codes "2026-01-03";
  description = none;
  payment_method = none;
  account_id = none;
  savings_product_id = none;
  card_id = none;
  category = groceries;
  account = none;
  card = none;
  savings_product = none;
  user = record { id = "me"; email = "a@b.c"; display_name = "A" };
  owner_user_id = none;
  created_at = codes "2026-01-03";
  updated_at = codes "2026-01-03";
}

transaction_form-Sends_example :
    Sends lunch (handle_submit (transaction_form props (Target.edit lunch) (codes "2026-01-05"))).1
transaction_form-Sends_example = transaction_form-Sends props lunch (codes "2026-01-05")
