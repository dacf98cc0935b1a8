-- ===== src/TransactionForm.antt =====
-- The form of a transaction (frontend/src/components/transactions/TransactionForm.tsx): its state,
-- what each control does with it and the payload that it hands on. The props, with the cards of the
-- cards query, stay the same while the form is open, and today's date is among them. The fields of
-- the form are texts, also the ids and the payment method, as the selects hold them; the note and
-- the owner are only compared.
pub mod Consistent
use nestlio.Prelude.{
  ℕ, Bool, true, false, not, ◌&&◌, ◌||◌, Option, none, some, List, [], ◌∷◌, ◌++◌, any, leb, ◌==◌,
  find, length, if◌then◌else◌, or_else, String, str_eq, Text, codes, text_eq, is_empty,
  strip_prefix, text_or_null, Number, number, show_ℕ,
}
use nestlio.Types.Ledger.{
  TransactionType, PaymentMethod, CategoryOut, CardOut, UserOut, TransactionOut, AccountOut,
}
use nestlio.Types.Plans.{CashflowPlanItemOut}
use nestlio.MonthlyGrid.{to_amount_input_value}

pub data UiType : Type 0 where
  income expense savings : UiType

pub record TransactionFormValues : Type 0 where
  pub amount : Text
  pub type : TransactionType
  pub category_id : Text
  pub transaction_date : Text
  pub description : String
  pub payment_method : Text
  pub account_id : Text
  pub savings_product_id : Text
  pub owner_user_id : String
  pub card_id : Text

-- Partial<TransactionFormValues>.
pub record InitialValues : Type 0 where
  pub amount : Option Text
  pub type : Option TransactionType
  pub category_id : Option Text
  pub transaction_date : Option Text
  pub description : Option String
  pub payment_method : Option Text
  pub account_id : Option Text
  pub savings_product_id : Option Text
  pub owner_user_id : Option String
  pub card_id : Option Text

pub record TransactionCreateIn : Type 0 where
  pub amount : Text
  pub type : TransactionType
  pub category_id : Number
  pub transaction_date : Text
  pub description : Option String
  pub payment_method : Option Text
  pub account_id : Option Number
  pub savings_product_id : Option Number
  pub card_id : Option Number
  pub owner_user_id : Option String

pub record Props : Type 0 where
  pub categories : List CategoryOut
  pub active_cards : List CardOut
  pub users : List UserOut
  pub current_user_id : Option String
  pub initial_values : InitialValues
  pub is_new : Bool
  pub editing_card : Option CardOut
  pub today : Text

-- The state of the form.
pub record Form : Type 0 where
  pub ui_type : UiType
  pub values : TransactionFormValues
  pub show_category_error : Bool
  pub show_details : Bool

abbrev pub card_prefix : Text
card_prefix = codes "card:"

abbrev pub method_prefix : Text
method_prefix = codes "method:"

-- A transaction's payment method as the text that it is.
abbrev pub method_text : PaymentMethod → Text
method_text PaymentMethod.cash = codes "cash"
method_text PaymentMethod.credit_card = codes "credit_card"
method_text PaymentMethod.debit_card = codes "debit_card"
method_text PaymentMethod.transfer = codes "transfer"
method_text PaymentMethod.other = codes "other"

abbrev pub non_card_payment_methods : List Text
non_card_payment_methods =
    method_text PaymentMethod.cash
    ∷ (method_text PaymentMethod.transfer ∷ (method_text PaymentMethod.other ∷ []))

-- `id ? String(id) : ""` of an id or null.
abbrev pub id_text : Option ℕ → Text
id_text none = []
id_text (some id) = if id == 0 then [] else show_ℕ id

-- `t ? Number(t) : null`.
abbrev pub id_or_null : Text → Option Number
id_or_null t = if is_empty t then none else some (number t)

abbrev pub string_or_null : String → Option String
string_or_null s = if str_eq s "" then none else some s

unfoldable pub card_options : Props → List CardOut
card_options p = elim p.editing_card [
  | none ↦ p.active_cards
  | some c ↦
      if any (λ d. d.id == c.id) p.active_cards then p.active_cards else p.active_cards ++ (c ∷ [])
]

unfoldable pub savings_category : Props → Option CategoryOut
savings_category p = find (λ c. c.is_savings) p.categories

unfoldable pub initial_category : Props → Option CategoryOut
initial_category p =
    find (λ c. text_eq (show_ℕ c.id) (or_else p.initial_values.category_id [])) p.categories

abbrev pub ui_of : TransactionType → UiType
ui_of TransactionType.income = UiType.income
ui_of TransactionType.expense = UiType.expense

abbrev pub starts_as_savings : Option CategoryOut → Bool
starts_as_savings none = false
starts_as_savings (some c) = c.is_savings

-- A text that is there and not empty.
abbrev pub given : Option Text → Bool
given none = false
given (some t) = not (is_empty t)

abbrev pub given_string : Option String → Bool
given_string none = false
given_string (some s) = not (str_eq s "")

unfoldable pub initial_form : Props → Form
initial_form p = record {
  ui_type =
      if starts_as_savings (initial_category p)
      then UiType.savings
      else ui_of (or_else p.initial_values.type TransactionType.expense);
  values = record {
    amount =
        if given p.initial_values.amount then to_amount_input_value p.initial_values.amount else [];
    type = or_else p.initial_values.type TransactionType.expense;
    category_id = or_else p.initial_values.category_id [];
    transaction_date = or_else p.initial_values.transaction_date p.today;
    description = or_else p.initial_values.description "";
    payment_method = or_else p.initial_values.payment_method [];
    account_id = or_else p.initial_values.account_id [];
    savings_product_id = or_else p.initial_values.savings_product_id [];
    owner_user_id =
        or_else p.initial_values.owner_user_id
          (if p.is_new then or_else p.current_user_id "" else "");
    card_id = or_else p.initial_values.card_id [];
  };
  show_category_error = false;
  show_details =
      not p.is_new
      || (given p.initial_values.account_id
          || (given_string p.initial_values.owner_user_id || given p.initial_values.card_id));
}

abbrev pub is_savings_ui : UiType → Bool
is_savings_ui UiType.savings = true
is_savings_ui _ = false

abbrev pub is_expense_ui : UiType → Bool
is_expense_ui UiType.expense = true
is_expense_ui _ = false

abbrev pub is_income_ui : UiType → Bool
is_income_ui UiType.income = true
is_income_ui _ = false

unfoldable pub build_payload : TransactionFormValues → Bool → TransactionCreateIn
build_payload v for_savings = record {
  amount = v.amount;
  type = v.type;
  category_id = number v.category_id;
  transaction_date = v.transaction_date;
  description = string_or_null v.description;
  payment_method = text_or_null v.payment_method;
  account_id = id_or_null v.account_id;
  savings_product_id = if for_savings then id_or_null v.savings_product_id else none;
  card_id = id_or_null v.card_id;
  owner_user_id = string_or_null v.owner_user_id;
}

-- The form after a submit, with the payload that goes to onSubmit.
unfoldable pub handle_submit : Form → Form × Option TransactionCreateIn
handle_submit f =
    if not (is_savings_ui f.ui_type) && is_empty f.values.category_id
    then (record f { show_category_error = true }, none)
    else (f, some (build_payload f.values (is_savings_ui f.ui_type)))

abbrev pub account_text : Option AccountOut → Text
account_text none = []
account_text (some a) = show_ℕ a.id

-- The id of a card that is still active.
abbrev pub active_card_text : List CardOut → Option ℕ → Text
active_card_text cards none = []
active_card_text cards (some id) =
    if not (id == 0) && any (λ c. c.id == id) cards then show_ℕ id else []

abbrev pub method_or_empty : Option PaymentMethod → Text
method_or_empty none = []
method_or_empty (some m) = method_text m

-- `Boolean(id)`.
abbrev pub has_id : Option ℕ → Bool
has_id none = false
has_id (some id) = not (id == 0)

unfoldable pub quick_add : Props → TransactionOut → Form → TransactionCreateIn
quick_add p tx f =
    build_payload
      (record f.values {
        amount = to_amount_input_value (some tx.amount);
        type = tx.type;
        category_id = show_ℕ tx.category.id;
        description = or_else tx.description "";
        payment_method = method_or_empty tx.payment_method;
        account_id = account_text tx.account;
        savings_product_id = id_text tx.savings_product_id;
        card_id = active_card_text p.active_cards tx.card_id;
      })
      (has_id tx.savings_product_id)

unfoldable pub apply_plan_item : CashflowPlanItemOut → Form → Form
apply_plan_item item f = record f {
  values = record f.values {
    amount = to_amount_input_value (some item.amount);
    category_id =
        if has_id item.category_id then id_text item.category_id else f.values.category_id;
    description = item.name;
    owner_user_id =
        if is_income_ui f.ui_type then or_else item.owner_user_id "" else f.values.owner_user_id;
  };
}

unfoldable pub payment_value : TransactionFormValues → Text
payment_value v =
    if not (is_empty v.card_id)
    then card_prefix ++ v.card_id
    else if not (is_empty v.payment_method)
    then method_prefix ++ v.payment_method
    else []

unfoldable pub method_options : TransactionFormValues → List Text
method_options v =
    if not (is_empty v.payment_method)
      && (is_empty v.card_id && not (any (text_eq v.payment_method) non_card_payment_methods))
    then non_card_payment_methods ++ (v.payment_method ∷ [])
    else non_card_payment_methods

unfoldable pub selected_card : Props → TransactionFormValues → Option CardOut
selected_card p v =
    if is_empty v.card_id
    then none
    else find (λ c. text_eq (show_ℕ c.id) v.card_id) (card_options p)

abbrev pub payment_account_text : Option CardOut → Text
payment_account_text none = []
payment_account_text (some c) = id_text c.payment_account_id

-- `accountId` of handlePaymentChange.
unfoldable pub account_of_card : Props → Text → Text
account_of_card p card_id =
    if text_eq card_id (or_else p.initial_values.card_id [])
    then or_else p.initial_values.account_id []
    else payment_account_text (find (λ c. text_eq (show_ℕ c.id) card_id) (card_options p))

unfoldable pub handle_payment_change : Props → Text → Form → Form
handle_payment_change p raw f = elim (strip_prefix card_prefix raw) [
  | some card_id ↦ record f {
    values = record f.values { card_id = card_id; account_id = account_of_card p card_id };
  }
  | none ↦ record f {
    values = record f.values {
      card_id = [];
      payment_method = or_else (strip_prefix method_prefix raw) [];
    };
  }
]

-- The buttons of expense and income.
unfoldable pub press_type : TransactionType → Form → Form
press_type t f = record f {
  ui_type = ui_of t;
  values = record f.values {
    type = t;
    category_id = [];
    savings_product_id = [];
    card_id = [];
    payment_method = [];
  };
}

-- The button of savings, of the savings category.
unfoldable pub press_savings : CategoryOut → Form → Form
press_savings c f = record f {
  ui_type = UiType.savings;
  values = record f.values {
    type = TransactionType.expense;
    category_id = show_ℕ c.id;
    savings_product_id = [];
    card_id = [];
    payment_method = [];
  };
}

-- What the user does with the form: an event of each control.
pub data Event : Type 0 where
  submit : Event
  quick : TransactionOut → Event
  plan_item : CashflowPlanItemOut → Event
  payment : Text → Event
  account : Text → Event
  type_button : TransactionType → Event
  savings_button : Event
  amount : Text → Event
  category : Text → Event
  date : Text → Event
  description : String → Event
  owner : String → Event
  savings_product : Text → Event
  details : Event

-- Whether the control of an event is on the screen and can be used: the selects by the mode, the
-- chips for a new transaction, those of the plan outside the savings mode
-- (frontend/src/components/transactions/TransactionQuickPicks.tsx).
unfoldable pub offers : Props → Form → Event → Bool
offers p f (Event.quick tx) = p.is_new
offers p f (Event.plan_item item) = p.is_new && not (is_savings_ui f.ui_type)
offers p f (Event.payment raw) = is_expense_ui f.ui_type
offers p f (Event.account id) = elim (selected_card p f.values) [ none ↦ true | some c ↦ false ]
offers p f (Event.category id) = not (is_savings_ui f.ui_type)
offers p f (Event.owner id) = not (leb (length p.users) 1)
offers p f (Event.savings_product id) = is_savings_ui f.ui_type
offers p f _ = true

abbrev pub press_savings_of : Option CategoryOut → Form → Form
press_savings_of none f = f
press_savings_of (some c) f = press_savings c f

-- The handler of each control: the form after it, with what goes to onSubmit.
unfoldable pub handle : Props → Event → Form → Form × Option TransactionCreateIn
handle p Event.submit f = handle_submit f
handle p (Event.quick tx) f = (f, some (quick_add p tx f))
handle p (Event.plan_item item) f = (apply_plan_item item f, none)
handle p (Event.payment raw) f = (handle_payment_change p raw f, none)
handle p (Event.account id) f = (record f { values = record f.values { account_id = id } }, none)
handle p (Event.type_button t) f = (press_type t f, none)
handle p Event.savings_button f = (press_savings_of (savings_category p) f, none)
handle p (Event.amount t) f = (record f { values = record f.values { amount = t } }, none)
handle p (Event.category id) f = (record f { values = record f.values { category_id = id } }, none)
handle p (Event.date t) f = (record f { values = record f.values { transaction_date = t } }, none)
handle p (Event.description s) f = (record f { values = record f.values { description = s } }, none)
handle p (Event.owner id) f = (record f { values = record f.values { owner_user_id = id } }, none)
handle p (Event.savings_product id) f =
    (record f { values = record f.values { savings_product_id = id } }, none)
handle p Event.details f = (record f { show_details = not f.show_details }, none)

-- An event whose control is not offered does not happen.
unfoldable pub step : Props → Form → Event → Form
step p f e = if offers p f e then (handle p e f).0 else f

unfoldable pub run : Props → Form → List Event → Form
run p f [] = f
run p f (e ∷ es) = run p (step p f e) es
