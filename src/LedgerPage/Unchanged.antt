-- ===== src/LedgerPage/Unchanged.antt =====
-- A transaction that is opened from the ledger and saved unchanged
-- (frontend/src/pages/TransactionsPage.tsx,
-- frontend/src/components/transactions/TransactionForm.tsx).
use mathlib.Core.Path.{subst}
use nestlio.Prelude.{
  ◌≡◌, refl, sym, ap, ◌∙◌, Bool, true, false, not, ◌&&◌, Option, none, some, if◌then◌else◌, Text,
  is_empty, number, decimal, Number, show_ℕ, show_ℕ-is_empty, number-show_ℕ, arith,
}
use nestlio.Types.Ledger.{TransactionOut, AccountOut}
use nestlio.TransactionForm.{
  Props, Form, TransactionCreateIn, handle_submit, build_payload, initial_form, is_savings_ui,
  account_text, id_or_null,
}
use nestlio.LedgerPage.{Target, values_of_target, transaction_form}

-- The id of an account, as it is sent.
abbrev pub account_number : Option AccountOut → Option Number
account_number none = none
account_number (some a) = some (decimal false a.id 0)

account-sent : (a : Option AccountOut) → id_or_null (account_text a) ≡ account_number a
account-sent none = refl
account-sent (some a) =
    ap (λ b. if b then none else some (number (show_ℕ a.id))) (show_ℕ-is_empty a.id)
    ∙ ap some (number-show_ℕ a.id)

-- The payload of a submit, if it sends one, has the fields of a transaction.
abbrev pub Sends : TransactionOut → Option TransactionCreateIn → Type 0
Sends tx none = ⊥
Sends tx (some t) =
    (t.type ≡ tx.type)
    × (t.transaction_date ≡ tx.transaction_date)
    × (t.category_id ≡ decimal false tx.category.id 0)
    × (t.account_id ≡ account_number tx.account)

-- A submit with a category sends its payload.
handle_submit-category :
    (f : Form)
    → is_empty f.values.category_id ≡ false
    → (handle_submit f).1 ≡ some (build_payload f.values (is_savings_ui f.ui_type))
unfolding handle_submit
handle_submit-category f h = by_mode (is_savings_ui f.ui_type) (is_empty f.values.category_id) h
  where
    refused : Form × Option TransactionCreateIn
    refused = (record f { show_category_error = true }, none)

    sent : Form × Option TransactionCreateIn
    sent = (f, some (build_payload f.values (is_savings_ui f.ui_type)))

    by_mode :
        (savings missing : Bool)
        → missing ≡ false
        → (if◌then◌else◌ {A = Form × Option TransactionCreateIn}
            (not savings && missing)
            refused
            sent).1
          ≡ some (build_payload f.values (is_savings_ui f.ui_type))
    by_mode true missing e = refl
    by_mode false true e = ground (arith, e)
    by_mode false false e = refl

-- A transaction that is opened from the ledger and saved unchanged is sent, with its type,
-- its date, and its category and account as the numbers that they were.
pub transaction_form-Sends :
    (props : Props) (tx : TransactionOut) (date_hint : Text)
    → Sends tx (handle_submit (transaction_form props (Target.edit tx) date_hint)).1
unfolding transaction_form initial_form values_of_target build_payload
transaction_form-Sends props tx date_hint =
    subst (Sends tx)
      (sym (
        handle_submit-category (transaction_form props (Target.edit tx) date_hint)
          (show_ℕ-is_empty tx.category.id)))
      (refl, refl, number-show_ℕ tx.category.id, account-sent tx.account)
