-- ===== src/LedgerPage.antt =====
-- The page of the ledger (frontend/src/pages/TransactionsPage.tsx): what is open on it, the form of a
-- transaction that it hands its values, the addresses that lead to a day, and what follows a saved,
-- removed or added transaction. Today's date is an argument.
pub mod Unchanged
use nestlio.Prelude.{
  ℕ, Bool, true, false, not, ◌&&◌, Option, none, some, List, [], ◌∷◌, ◌++◌, if◌then◌else◌, or_else,
  String, Text, codes, text_eq, is_digit, take, ◌==◌, show_ℕ,
}
use nestlio.Types.Ledger.{TransactionOut, EventOut, CardOut}
use nestlio.QueryKeys.{transaction_related_keys}
use nestlio.Toasts.{ToastType}
use nestlio.Mutations.{World, Outcome, settle, invalidate, show, transaction_created}
use nestlio.TransactionForm.{
  InitialValues, Props, Form, initial_form, account_text, id_text, method_or_empty,
  TransactionCreateIn,
}

pub data LedgerView : Type 0 where
  entries schedule : LedgerView

-- The form of a transaction or of an event: a new one, or the one that is edited.
pub data Target (T : Type 0) : Type 0 where
  new : Target T
  edit : T → Target T

pub data DayPanel : Type 0 where
  transaction : Target TransactionOut → DayPanel
  event : Target EventOut → DayPanel

pub record Page : Type 0 where
  pub year_month : Text
  pub selected_date : Option Text
  pub day_panel : Option DayPanel
  pub form_target : Option (Target TransactionOut)
  pub create_date : Text
  pub delete_target : Option TransactionOut

-- /^\d{4}-\d{2}-\d{2}$/.
abbrev pub is_iso_date : Text → Bool
is_iso_date (a ∷ b ∷ c ∷ d ∷ e ∷ f ∷ g ∷ h ∷ i ∷ j ∷ []) =
    is_digit a
    && (is_digit b
        && (is_digit c
            && (is_digit d
                && ((e == b'-')
                    && (is_digit f
                        && (is_digit g && ((h == b'-') && (is_digit i && is_digit j))))))))
is_iso_date _ = false

unfoldable pub view_of : Option Text → LedgerView
view_of none = LedgerView.entries
view_of (some t) = if text_eq t (codes "일정") then LedgerView.schedule else LedgerView.entries

unfoldable pub default_date_hint : Text → Text → Text
default_date_hint today year_month =
    if text_eq year_month (take 7 today) then today else year_month ++ codes "-01"

unfoldable pub initial_month : Text → Option Text → Text
initial_month today none = take 7 today
initial_month today (some d) = if is_iso_date d then take 7 d else take 7 today

unfoldable pub initial_page : Text → Option Text → Page
initial_page today date = record {
  year_month = initial_month today date;
  selected_date = none;
  day_panel = none;
  form_target = none;
  create_date = today;
  delete_target = none;
}

-- The callback of useConsumeSearchParam.
unfoldable pub consume_date : Text → Page → Page
consume_date d page =
    if is_iso_date d then record page { year_month = take 7 d; selected_date = some d } else page

unfoldable pub open_create : Text → Option Text → Page → Page
open_create today date_hint page = record page {
  create_date = or_else date_hint (default_date_hint today page.year_month);
  form_target = some Target.new;
}

unfoldable pub close_day : Page → Page
close_day page = record page { selected_date = none; day_panel = none }

-- onSuccess of updateMutation.
unfoldable pub update_saved : {I : Type 0} → Outcome I → World Page → World Page
update_saved outcome w =
    settle outcome
      (λ item v.
        show (codes "내역을 수정했습니다.") ToastType.success
          (record (invalidate transaction_related_keys v) {
            state = record v.state { form_target = none; day_panel = none };
          }))
      w

-- onSuccess of deleteMutation.
unfoldable pub delete_done : {I : Type 0} → Outcome I → World Page → World Page
delete_done outcome w =
    settle outcome
      (λ item v.
        show (codes "내역을 삭제했습니다.") ToastType.success
          (record (invalidate transaction_related_keys v) {
            state = record v.state { delete_target = none; form_target = none; day_panel = none };
          }))
      w

-- createMutation; the toast's action is the removal of what was created.
unfoldable pub create_done : {I : Type 0} → Outcome I → World Page → World Page
create_done outcome w =
    transaction_created
      (λ created v.
        show (codes "내역을 추가했습니다.") ToastType.success
          (record v { state = record v.state { form_target = none; day_panel = none } }))
      outcome w

abbrev pub no_values : InitialValues
no_values = record {
  amount = none;
  type = none;
  category_id = none;
  transaction_date = none;
  description = none;
  payment_method = none;
  account_id = none;
  savings_product_id = none;
  owner_user_id = none;
  card_id = none;
}

unfoldable pub values_of_target : Target TransactionOut → Text → InitialValues
values_of_target Target.new date_hint = record no_values { transaction_date = some date_hint }
values_of_target (Target.edit tx) date_hint = record {
  amount = some tx.amount;
  type = some tx.type;
  category_id = some (show_ℕ tx.category.id);
  transaction_date = some tx.transaction_date;
  description = some (or_else tx.description "");
  payment_method = some (method_or_empty tx.payment_method);
  account_id = some (account_text tx.account);
  savings_product_id = some (id_text tx.savings_product_id);
  owner_user_id = some (or_else tx.owner_user_id "");
  card_id = some (id_text tx.card_id);
}

abbrev pub editing_card_of : Target TransactionOut → Option CardOut
editing_card_of Target.new = none
editing_card_of (Target.edit tx) = tx.card

abbrev pub is_new_target : Target TransactionOut → Bool
is_new_target Target.new = true
is_new_target (Target.edit tx) = false

-- renderTransactionForm: the form with its first values.
unfoldable pub transaction_form : Props → Target TransactionOut → Text → Form
transaction_form props target date_hint = initial_form (record props {
  initial_values = values_of_target target date_hint;
  is_new = is_new_target target;
  editing_card = editing_card_of target;
})
