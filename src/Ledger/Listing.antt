-- ===== src/Ledger/Listing.antt =====
-- The list of the ledger and its groups (filteredTransactions and transactionsByCategory of
-- frontend/src/hooks/useLedgerFilters.ts, the day groups of frontend/src/hooks/useLedgerMonth.ts).
use nestlio.Prelude.{
  ℕ, Bool, true, false, not, ◌&&◌, ltb, ◌||◌, Option, none, some, All, str_eq, List, [], ◌∷◌,
  append-nil, ◌==◌, filter, text_eq, ◌≡◌, refl, arith,
}
use nestlio.Prelude.Sort.{sort_by, sort_by-perm, sort_by-IsSortedBy, IsSortedBy}
use nestlio.Prelude.Groups.{
  nat_key, items_of, group_by, items_of-group_by, all_items, group_from-perm,
}
use nestlio.Types.Ledger.{CategoryType, TransactionType, TransactionOut}
use nestlio.Ledger.{
  TopFilter, UserFilter, Filters, same_type, same_category_type, matches_user, matches_category,
  matches_category_type, matches_tab, matches_filter, text_before, newest_first,
  filtered_transactions, transactions_by_category,
}
use nestlio.Ledger.TextOrder.{
  text_trichotomy, text_before_trans, text_eq-before, before-text_eq, text_eq_trans, text_eq_symm,
  text_before_irrefl, before-not_after,
}
use mathlib.Core.Path.{subst}
use mathlib.Core.List.{Perm}

newest_first-total : (a b : TransactionOut) → newest_first a b ≡ false → newest_first b a ≡ true
unfolding newest_first
newest_first-total a b h = ground (
  arith,
  text_trichotomy a.transaction_date b.transaction_date,
  text_eq_symm a.transaction_date b.transaction_date,
)

newest_first_trans :
    (a b c : TransactionOut)
    → newest_first a b ≡ true
    → newest_first b c ≡ true
    → newest_first a c ≡ true
unfolding newest_first
newest_first_trans a b c h k = ground (
  arith,
  text_before_trans c.transaction_date b.transaction_date a.transaction_date,
  text_eq-before c.transaction_date b.transaction_date a.transaction_date,
  before-text_eq b.transaction_date a.transaction_date c.transaction_date,
  text_eq_trans c.transaction_date b.transaction_date a.transaction_date,
)

-- No transaction before another has an earlier date or, on the same date, a smaller id.
abbrev pub IsBefore : TransactionOut → TransactionOut → Type 0
IsBefore a b =
    (text_before a.transaction_date b.transaction_date ≡ false)
    × ((text_eq a.transaction_date b.transaction_date && ltb a.id b.id) ≡ false)

abbrev pub IsNewestFirst : List TransactionOut → Type 0
IsNewestFirst [] = Unit
IsNewestFirst (tx ∷ txs) = All (IsBefore tx) txs × IsNewestFirst txs

newest_first-IsBefore : (a b : TransactionOut) → newest_first a b ≡ true → IsBefore a b
unfolding newest_first
newest_first-IsBefore a b h = (
  before-not_after b.transaction_date a.transaction_date (ground arith),
  ground (
    arith,
    text_eq-before a.transaction_date b.transaction_date a.transaction_date,
    before-text_eq a.transaction_date b.transaction_date b.transaction_date,
    text_before_irrefl a.transaction_date,
    text_before_irrefl b.transaction_date,
  ),
)

All-IsBefore :
    (a : TransactionOut) (txs : List TransactionOut)
    → All (λ b. newest_first a b ≡ true) txs
    → All (IsBefore a) txs
All-IsBefore a [] h = tt
All-IsBefore a (b ∷ txs) h = (newest_first-IsBefore a b h.0, All-IsBefore a txs h.1)

sorted-IsNewestFirst : (txs : List TransactionOut) → IsSortedBy newest_first txs → IsNewestFirst txs
sorted-IsNewestFirst [] s = tt
sorted-IsNewestFirst (tx ∷ txs) s = (All-IsBefore tx txs s.0, sorted-IsNewestFirst txs s.1)

-- What hides a transaction: another member's, the wrong side of the ledger for the tab, where the
-- savings are a side of their own, another category, or another kind of expense.
abbrev pub is_of_other : UserFilter → TransactionOut → Bool
is_of_other user tx = not (str_eq user "all") && not (str_eq tx.user.id user)

abbrev pub is_other_category : Option ℕ → TransactionOut → Bool
is_other_category none tx = false
is_other_category (some id) tx = not (tx.category.id == id)

abbrev pub is_other_kind : Option CategoryType → TransactionOut → Bool
is_other_kind none tx = false
is_other_kind (some kind) tx = not (same_category_type tx.category.type kind)

abbrev pub is_off_tab : TopFilter → Option ℕ → Option CategoryType → TransactionOut → Bool
is_off_tab TopFilter.all category kind tx = false
is_off_tab TopFilter.income category kind tx =
    same_type tx.type TransactionType.expense || is_other_category category tx
is_off_tab TopFilter.expense category kind tx =
    same_type tx.type TransactionType.income
    || (tx.category.is_savings || (is_other_category category tx || is_other_kind kind tx))
is_off_tab TopFilter.savings category kind tx = not tx.category.is_savings

abbrev pub is_hidden : Filters → TransactionOut → Bool
is_hidden f tx =
    is_of_other f.user_filter tx
    || is_off_tab f.top_filter f.category_filter f.expense_type_filter tx

other_category :
    (c : Option ℕ) (tx : TransactionOut)
    → matches_category c tx.category.id ≡ not (is_other_category c tx)
other_category none tx = refl
other_category (some id) tx = ground arith

other_kind :
    (k : Option CategoryType) (tx : TransactionOut)
    → matches_category_type k tx.category.type ≡ not (is_other_kind k tx)
other_kind none tx = refl
other_kind (some kind) tx = ground arith

other_side :
    (t : TransactionType)
    → (same_type t TransactionType.income ≡ not (same_type t TransactionType.expense))
      × (same_type t TransactionType.expense ≡ not (same_type t TransactionType.income))
other_side TransactionType.income = (refl, refl)
other_side TransactionType.expense = (refl, refl)

off_tab :
    (top : TopFilter) (c : Option ℕ) (k : Option CategoryType) (tx : TransactionOut)
    → matches_tab top c k tx ≡ not (is_off_tab top c k tx)
unfolding matches_tab
off_tab TopFilter.all c k tx = refl
off_tab TopFilter.income c k tx = ground (arith, other_side tx.type, other_category c tx)
off_tab TopFilter.expense c k tx =
    ground (arith, other_side tx.type, other_category c tx, other_kind k tx)
off_tab TopFilter.savings c k tx = ground arith

matches_filter-hidden :
    (f : Filters) (tx : TransactionOut) → matches_filter tx f ≡ not (is_hidden f tx)
unfolding matches_filter matches_user
matches_filter-hidden f tx =
    ground (arith, off_tab f.top_filter f.category_filter f.expense_type_filter tx)

filter-shown :
    (f : Filters) (items : List TransactionOut)
    → filter (λ tx. matches_filter tx f) items ≡ filter (λ tx. not (is_hidden f tx)) items
filter-shown f [] = refl
filter-shown f (tx ∷ items) = rw (matches_filter-hidden f tx, filter-shown f items) refl

-- The list that is shown holds the transactions that nothing hides (another member's, another tab's,
-- where only the expenses leave out the savings, another category's, another kind's), each as often
-- as the month has it and no other, with no transaction before one of a later date or, on one date,
-- of a larger id.
pub filtered_transactions-listing :
    (f : Filters) (items : List TransactionOut)
    → Perm (filtered_transactions f items) (filter (λ tx. not (is_hidden f tx)) items)
      × IsNewestFirst (filtered_transactions f items)
unfolding filtered_transactions
filtered_transactions-listing f items = (
  subst (Perm (sort_by newest_first (filter (λ tx. matches_filter tx f) items)))
      (filter-shown f items) (sort_by-perm newest_first (filter (λ tx. matches_filter tx f) items)),
  sorted-IsNewestFirst (sort_by newest_first (filter (λ tx. matches_filter tx f) items)) (
      sort_by-IsSortedBy newest_first newest_first-total newest_first_trans
        (filter (λ tx. matches_filter tx f) items)),
)

-- Grouping by category neither loses nor repeats a transaction of the list, and the group of a
-- category holds that category's transactions in the order of the list.
pub transactions_by_category-groups :
    (f : Filters) (items : List TransactionOut) (id : ℕ)
    → Perm (all_items (transactions_by_category f items)) (filtered_transactions f items)
      × items_of nat_key id (transactions_by_category f items)
        ≡ filter (λ tx. tx.category.id == id) (filtered_transactions f items)
unfolding transactions_by_category group_by
transactions_by_category-groups f items id = (
  whole (filtered_transactions f items),
  items_of-group_by nat_key (λ tx. tx.category.id) id (filtered_transactions f items),
)
  where
    whole :
        (xs : List TransactionOut)
        → Perm (all_items (group_by nat_key (λ tx. tx.category.id) xs)) xs
    whole xs =
        subst (λ ys. Perm (all_items (group_by nat_key (λ tx. tx.category.id) xs)) ys)
          (append-nil xs) (group_from-perm nat_key (λ tx. tx.category.id) [] xs)
