-- ===== src/Ledger.antt =====
-- The ledger of one month (frontend/src/hooks/useLedgerFilters.ts, useLedgerMonth.ts,
-- frontend/src/types/ledgerFilters.ts and the day groups of
-- frontend/src/components/transactions/DailyTransactionGroups.tsx): the four filters and what each
-- change does to the others, the filtered and sorted list, the groups by category and by day, the
-- options of the category filter and the sums. The hooks' memos are functions of the same inputs;
-- the queries that bring the lists are not modelled. Dates are ISO texts, which `localeCompare`
-- orders as their code units do.
pub mod TextOrder
pub mod Listing
pub mod Tabs
pub mod Options
use nestlio.Prelude.{
  ℕ, Bool, true, false, not, ◌&&◌, ◌||◌, Option, none, some, List, [], ◌∷◌, ltb, leb, ◌==◌,
  if◌then◌else◌, ==_iff, filter, length, map, Text, text_eq, split_at_char, or_else, String, str_eq,
  Number, decimal, number, add_number,
}
use nestlio.Prelude.Sort.{sort_by}
use nestlio.Prelude.Groups.{KeyEq, group_by, nat_key, text_key}
use nestlio.Types.Ledger.{
  CategoryType, CategoryOut, TransactionType, TransactionOut, EventOut, EventListOut, RecurringOut,
}

-- The values of the filters; `CategoryFilter` and `ExpenseTypeFilter` have none for "all".
pub data TopFilter : Type 0 where
  all income expense savings : TopFilter

abbrev pub UserFilter : Type 0
UserFilter = String

pub record Filters : Type 0 where
  pub top_filter : TopFilter
  pub category_filter : Option ℕ
  pub expense_type_filter : Option CategoryType
  pub user_filter : UserFilter

abbrev pub no_filters : Filters
no_filters = record {
  top_filter = TopFilter.all;
  category_filter = none;
  expense_type_filter = none;
  user_filter = "all";
}

-- `===` on the two unions.
abbrev pub same_type : TransactionType → TransactionType → Bool
same_type TransactionType.income TransactionType.income = true
same_type TransactionType.expense TransactionType.expense = true
same_type _ _ = false

abbrev pub same_category_type : CategoryType → CategoryType → Bool
same_category_type CategoryType.fixed CategoryType.fixed = true
same_category_type CategoryType.variable CategoryType.variable = true
same_category_type CategoryType.irregular CategoryType.irregular = true
same_category_type _ _ = false

-- userFilter === "all" || tx.user.id === userFilter.
unfoldable pub matches_user : UserFilter → TransactionOut → Bool
matches_user user_filter tx = str_eq user_filter "all" || str_eq tx.user.id user_filter

abbrev pub matches_category : Option ℕ → ℕ → Bool
matches_category none id = true
matches_category (some wanted) id = id == wanted

abbrev pub matches_category_type : Option CategoryType → CategoryType → Bool
matches_category_type none type = true
matches_category_type (some wanted) type = same_category_type type wanted

-- What matchesFilter asks behind the user filter, by the tab.
unfoldable pub matches_tab : TopFilter → Option ℕ → Option CategoryType → TransactionOut → Bool
matches_tab TopFilter.savings category_filter expense_type_filter tx = tx.category.is_savings
matches_tab TopFilter.all category_filter expense_type_filter tx = true
matches_tab TopFilter.income category_filter expense_type_filter tx =
    same_type tx.type TransactionType.income && matches_category category_filter tx.category.id
matches_tab TopFilter.expense category_filter expense_type_filter tx =
    same_type tx.type TransactionType.expense
    && not tx.category.is_savings
    && matches_category category_filter tx.category.id
    && matches_category_type expense_type_filter tx.category.type

unfoldable pub matches_filter : TransactionOut → Filters → Bool
matches_filter tx f =
    matches_user f.user_filter tx
    && matches_tab f.top_filter f.category_filter f.expense_type_filter tx

-- The four handlers: a wider filter resets the narrower ones.
unfoldable pub on_change_top_filter : TopFilter → Filters → Filters
on_change_top_filter value f = record f {
  top_filter = value;
  category_filter = none;
  expense_type_filter = none;
}

unfoldable pub on_change_expense_type_filter : Option CategoryType → Filters → Filters
on_change_expense_type_filter value f = record f {
  expense_type_filter = value;
  category_filter = none;
}

unfoldable pub on_change_category_filter : Option ℕ → Filters → Filters
on_change_category_filter value f = record f { category_filter = value }

unfoldable pub on_change_user_filter : UserFilter → Filters → Filters
on_change_user_filter value f = record f { user_filter = value; category_filter = none }

unfoldable pub reset_filters : Filters → Filters
reset_filters f = no_filters

-- a.localeCompare(b), as -1, 0 or 1: `before` and `same`.
abbrev pub text_before : Text → Text → Bool
text_before [] [] = false
text_before [] (d ∷ t) = true
text_before (c ∷ s) [] = false
text_before (c ∷ s) (d ∷ t) = ltb c d || ((c == d) && text_before s t)

-- b.transaction_date.localeCompare(a.transaction_date) || b.id - a.id, at most 0.
unfoldable pub newest_first : TransactionOut → TransactionOut → Bool
newest_first a b =
    text_before b.transaction_date a.transaction_date
    || (text_eq b.transaction_date a.transaction_date && leb b.id a.id)

unfoldable pub filtered_transactions : Filters → List TransactionOut → List TransactionOut
filtered_transactions f items = sort_by newest_first (filter (λ tx. matches_filter tx f) items)

unfoldable pub transactions_by_category :
    Filters → List TransactionOut → List (ℕ × List TransactionOut)
transactions_by_category f items =
    group_by nat_key (λ tx. tx.category.id) (filtered_transactions f items)

-- byId.set(c.id, c) in a `Map`: a key that is there keeps its place and takes the new value.
unfoldable pub set_category : CategoryOut → List CategoryOut → List CategoryOut
set_category c [] = c ∷ []
set_category c (d ∷ ds) = let rest = set_category c ds in if d.id == c.id then c ∷ ds else d ∷ rest

-- Whether a transaction offers its category, by the tab "income" or "expense".
unfoldable pub offers_category : TransactionType → UserFilter → TransactionOut → Bool
offers_category type user_filter tx =
    same_type tx.type type && not tx.category.is_savings && matches_user user_filter tx

unfoldable pub collect_categories : List CategoryOut → List TransactionOut → List CategoryOut
collect_categories acc [] = acc
collect_categories acc (tx ∷ txs) = collect_categories (set_category tx.category acc) txs

unfoldable pub options_of_type :
    TransactionType → Option CategoryType → UserFilter → List TransactionOut → List CategoryOut
options_of_type type expense_type user_filter items =
    sort_by (λ a b. leb a.sort_order b.sort_order)
      (filter (λ c. matches_category_type expense_type c.type)
        (collect_categories [] (filter (offers_category type user_filter) items)))

unfoldable pub category_options : Filters → List TransactionOut → List CategoryOut
category_options f items = elim f.top_filter [
  | all ↦ []
  | savings ↦ []
  | income ↦ options_of_type TransactionType.income none f.user_filter items
  | expense ↦ options_of_type TransactionType.expense f.expense_type_filter f.user_filter items
]

abbrev is_none {ℓ} : {A : Type ℓ} → Option A → Bool
is_none none = true
is_none (some a) = false

abbrev is_top : TopFilter → TopFilter → Bool
is_top TopFilter.all TopFilter.all = true
is_top TopFilter.expense TopFilter.expense = true
is_top _ _ = false

unfoldable pub show_expense_groups : Filters → Bool
show_expense_groups f = is_top f.top_filter TopFilter.expense && is_none f.category_filter

unfoldable pub is_filtered : Filters → Bool
is_filtered f =
    not (is_top f.top_filter TopFilter.all)
    || not (is_none f.category_filter)
    || not (is_none f.expense_type_filter)
    || not (str_eq f.user_filter "all")

-- sumAmounts of frontend/src/utils/amount.ts, from an accumulator; a missing amount counts as 0.
unfoldable pub sum_from {ℓ} : {T : Type ℓ} → Number → List T → (T → Option Text) → Number
sum_from total [] pick = total
sum_from total (x ∷ xs) pick =
    sum_from (add_number total (number (or_else (pick x) (b'0' ∷ [])))) xs pick

unfoldable pub sum_amounts {ℓ} : {T : Type ℓ} → Option (List T) → (T → Option Text) → Number
sum_amounts none pick = decimal false 0 0
sum_amounts (some items) pick = sum_from (decimal false 0 0) items pick

-- occurrenceDate: the date in front of the "T".
unfoldable pub occurrence_date : Text → Text
occurrence_date iso = (split_at_char b'T' iso).0

-- What useLedgerMonth derives from the month's transactions and events.
unfoldable pub transactions_by_date : List TransactionOut → List (Text × List TransactionOut)
transactions_by_date items = group_by text_key (λ tx. tx.transaction_date) items

unfoldable pub savings_total : List TransactionOut → Number
savings_total items =
    sum_amounts (some (filter (λ tx. tx.category.is_savings) items)) (λ tx. some tx.amount)

unfoldable pub events_by_date : Option EventListOut → List (Text × List EventOut)
events_by_date none = []
events_by_date (some d) = group_by text_key (λ e. occurrence_date e.occurrence_start) d.items

unfoldable pub recurring_due_by_date : Option EventListOut → List (Text × List RecurringOut)
recurring_due_by_date none = []
recurring_due_by_date (some d) = group_by text_key (λ r. r.next_due_date) d.recurring_due
