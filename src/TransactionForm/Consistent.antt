-- ===== src/TransactionForm/Consistent.antt =====
-- The mode of the transaction form against its fields
-- (frontend/src/components/transactions/TransactionForm.tsx).
use nestlio.Prelude.{
  Bool, true, false, not, ◌&&◌, ◌||◌, Option, none, some, List, [], ◌∷◌, strip_prefix, text_or_null,
  ◌≡◌, refl, Text, is_empty, arith, Bool-cases, inl, inr, if◌then◌else◌,
}
use nestlio.Types.Ledger.{TransactionType, CategoryOut}
use nestlio.TransactionForm.{
  UiType, TransactionFormValues, TransactionCreateIn, Props, Form, Event, initial_form,
  is_savings_ui, is_expense_ui, build_payload, handle_submit, apply_plan_item,
  handle_payment_change, press_type, press_savings, id_or_null, press_savings_of, card_prefix,
  offers, handle, step, run, savings_category,
}

-- The type of a transaction that a mode enters.
abbrev pub type_of : UiType → TransactionType
type_of UiType.income = TransactionType.income
type_of _ = TransactionType.expense

abbrev pub is_type : TransactionType → TransactionType → Bool
is_type TransactionType.income TransactionType.income = true
is_type TransactionType.expense TransactionType.expense = true
is_type _ _ = false

-- The fields fit the mode: its type of transaction, no card and no payment method outside the
-- expenses, no savings product outside the savings.
abbrev pub fits : UiType → TransactionFormValues → Bool
fits ui v =
    is_type (type_of ui) v.type
    && ((is_expense_ui ui || (is_empty v.card_id && is_empty v.payment_method))
        && (is_savings_ui ui || is_empty v.savings_product_id))

abbrev pub FitsMode : Form → Type 0
FitsMode f = fits f.ui_type f.values ≡ true

if-fits :
    (b : Bool) (f g : Form) → FitsMode f → (b ≡ true → FitsMode g) → FitsMode (if b then g else f)
if-fits true f g h k = k refl
if-fits false f g h k = h

press_savings_of-fits :
    (c : Option CategoryOut) (f : Form) → FitsMode f → FitsMode (press_savings_of c f)
unfolding press_savings
press_savings_of-fits none f h = h
press_savings_of-fits (some c) f h = refl

handle_submit-fits : (f : Form) → FitsMode f → FitsMode (handle_submit f).0
unfolding handle_submit
handle_submit-fits f h =
    elim (Bool-cases (not (is_savings_ui f.ui_type) && is_empty f.values.category_id)) [
      | inl e ↦ rw e h
      | inr e ↦ rw e h
    ]

payment-fits :
    (p : Props) (raw : Text) (f : Form)
    → FitsMode f
    → is_expense_ui f.ui_type ≡ true
    → FitsMode (handle_payment_change p raw f)
unfolding handle_payment_change
payment-fits p raw f h e = elim (strip_prefix card_prefix raw) [
  | some id ↦ ground arith
  | none ↦ ground arith
]

type-fits : (t : TransactionType) (f : Form) → FitsMode (press_type t f)
unfolding press_type
type-fits TransactionType.income f = refl
type-fits TransactionType.expense f = refl

step-fits : (p : Props) (f : Form) (e : Event) → FitsMode f → FitsMode (step p f e)
unfolding step handle apply_plan_item offers
step-fits p f e h = if-fits (offers p f e) f (handle p e f).0 h (by_event e)
  where
    by_event : (d : Event) → offers p f d ≡ true → FitsMode (handle p d f).0
    by_event Event.submit o = handle_submit-fits f h
    by_event (Event.quick tx) o = h
    by_event (Event.plan_item item) o = h
    by_event (Event.payment raw) o = payment-fits p raw f h o
    by_event (Event.account id) o = h
    by_event (Event.type_button t) o = type-fits t f
    by_event Event.savings_button o = press_savings_of-fits (savings_category p) f h
    by_event (Event.amount t) o = h
    by_event (Event.category id) o = h
    by_event (Event.date t) o = h
    by_event (Event.description s) o = h
    by_event (Event.owner id) o = h
    by_event (Event.savings_product id) o = ground arith
    by_event Event.details o = h

run-fits : (p : Props) (f : Form) (es : List Event) → FitsMode f → FitsMode (run p f es)
unfolding run
run-fits p f [] h = h
run-fits p f (e ∷ es) h = run-fits p (step p f e) es (step-fits p f e h)

-- What a submit does in a mode: it sends the mode's type of transaction with the fields that the
-- mode has, or asks for the category that is missing.
abbrev pub Submits : UiType → TransactionFormValues → Form × Option TransactionCreateIn → Type 0
Submits ui v (f, none) =
    (f.show_category_error ≡ true) × (is_savings_ui ui ≡ false) × (is_empty v.category_id ≡ true)
Submits ui v (f, some t) =
    (t.type ≡ type_of ui)
    × ((is_savings_ui ui || not (is_empty v.category_id)) ≡ true)
    × (t.card_id ≡ (if is_expense_ui ui then id_or_null v.card_id else none))
    × (t.payment_method ≡ (if is_expense_ui ui then text_or_null v.payment_method else none))
    × (t.savings_product_id ≡ (if is_savings_ui ui then id_or_null v.savings_product_id else none))

is_type→eq : (t u : TransactionType) → is_type t u ≡ true → u ≡ t
is_type→eq TransactionType.income TransactionType.income h = refl
is_type→eq TransactionType.income TransactionType.expense h = ground arith
is_type→eq TransactionType.expense TransactionType.income h = ground arith
is_type→eq TransactionType.expense TransactionType.expense h = refl

empty-id_or_null :
    (b : Bool) (t : Text)
    → (b || is_empty t) ≡ true
    → id_or_null t ≡ (if b then id_or_null t else none)
empty-id_or_null true t h = refl
empty-id_or_null false t h = rw h refl

empty-text_or_null :
    (b : Bool) (t : Text)
    → (b || is_empty t) ≡ true
    → text_or_null t ≡ (if b then text_or_null t else none)
empty-text_or_null true t h = refl
empty-text_or_null false [] h = refl
empty-text_or_null false (c ∷ t) h = ground arith

fits-Submits : (f : Form) → FitsMode f → Submits f.ui_type f.values (handle_submit f)
unfolding handle_submit build_payload
fits-Submits f h =
    elim (Bool-cases (not (is_savings_ui f.ui_type) && is_empty f.values.category_id)) [
      | inl e ↦ rw e (refl, ground arith, ground arith)
      | inr e ↦ rw e (
        is_type→eq (type_of f.ui_type) f.values.type (ground arith),
        ground arith,
        empty-id_or_null (is_expense_ui f.ui_type) f.values.card_id (ground arith),
        empty-text_or_null (is_expense_ui f.ui_type) f.values.payment_method (ground arith),
        refl,
      )
    ]

-- However a form whose first values fit its mode is used, it stays so, and a submit
-- either sends the type of its mode, with a category unless it is the savings, a card and a payment
-- method only for an expense and a savings product only for savings, or, where only the category is
-- missing, sends nothing and shows so.
pub submit-Submits :
    (p : Props) (es : List Event)
    → FitsMode (initial_form p)
    → FitsMode (run p (initial_form p) es)
      × Submits
          (run p (initial_form p) es).ui_type
          (run p (initial_form p) es).values
          (handle_submit (run p (initial_form p) es))
submit-Submits p es h = (
  run-fits p (initial_form p) es h,
  fits-Submits (run p (initial_form p) es) (run-fits p (initial_form p) es h),
)
