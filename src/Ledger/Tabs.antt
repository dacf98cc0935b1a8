-- ===== src/Ledger/Tabs.antt =====
-- The tabs of the ledger (topFilter, isFiltered and resetFilters of
-- frontend/src/hooks/useLedgerFilters.ts).
use nestlio.Prelude.{
  ℕ, Bool, true, false, not, ◌&&◌, ◌||◌, Option, List, [], ◌∷◌, ◌++◌, if◌then◌else◌, filter,
  filter-all, all, and_split, ◌≡◌, refl, arith,
}
use nestlio.Prelude.Sort.{sort_by, sort_by-perm}
use nestlio.Types.Ledger.{CategoryType, TransactionType, TransactionOut}
use nestlio.Ledger.{
  TopFilter, Filters, UserFilter, same_type, matches_user, matches_tab, matches_filter,
  newest_first, on_change_top_filter, filtered_transactions, is_filtered, reset_filters,
}
use mathlib.Core.Path.{subst}
use mathlib.Core.List.{Perm, perm_middle}
use mathlib.Core.List.Perm

module _ {ℓ} {A : Type ℓ} where
  -- Three tests of which one at most holds split the elements that pass any of them.
  filter-split :
      (p q r s ok : A → Bool)
      → ((x : A)
          → ok x ≡ true
          → (s x ≡ (p x || q x || r x)) × ((p x && (q x || r x)) || (q x && r x)) ≡ false)
      → (xs : List A) → all ok xs ≡ true
      → Perm (filter p xs ++ (filter q xs ++ filter r xs)) (filter s xs)
  filter-split p q r s ok h [] k = Perm.refl []
  filter-split p q r s ok h (x ∷ xs) k =
      at (p x) (q x) (r x) (s x) (h x (and_split (ok x) (all ok xs) k).0)
        (filter-split p q r s ok h xs (and_split (ok x) (all ok xs) k).1)
    where
      at :
          (a b c d : Bool)
          → (d ≡ (a || b || c)) × ((a && (b || c)) || (b && c)) ≡ false
          → Perm (filter p xs ++ (filter q xs ++ filter r xs)) (filter s xs)
          → Perm
              ((if a then x ∷ filter p xs else filter p xs)
                ++ ((if b then x ∷ filter q xs else filter q xs)
                    ++ (if c then x ∷ filter r xs else filter r xs)))
              (if d then x ∷ filter s xs else filter s xs)
      at true true c d e rest = ground (arith, e.1)
      at true false true d e rest = ground (arith, e.1)
      at true false false true e rest = Perm.cons x rest
      at true false false false e rest = ground (arith, e.0)
      at false true true d e rest = ground (arith, e.1)
      at false true false true e rest =
          Perm.trans (perm_middle (filter p xs) (filter q xs ++ filter r xs)) (Perm.cons x rest)
      at false true false false e rest = ground (arith, e.0)
      at false false true true e rest =
          Perm.trans (Perm.append_left (filter p xs) (perm_middle (filter q xs) (filter r xs)))
            (Perm.trans (perm_middle (filter p xs) (filter q xs ++ filter r xs)) (Perm.cons x rest))
      at false false true false e rest = ground (arith, e.0)
      at false false false true e rest = ground (arith, e.0)
      at false false false false e rest = rest

-- A savings transaction is no income.
abbrev is_plain : TransactionOut → Bool
is_plain tx = not (same_type tx.type TransactionType.income && tx.category.is_savings)

tabs-tests :
    (user : Bool) (type : TransactionType) (savings : Bool)
    → not (same_type type TransactionType.income && savings) ≡ true
    → ((user && true) ≡ (
        (user && (same_type type TransactionType.income && true))
        || (user && (same_type type TransactionType.expense && not savings && true && true))
        || (user && savings)))
      × ((((user && (same_type type TransactionType.income && true))
              && ((user && (same_type type TransactionType.expense && not savings && true && true))
                  || (user && savings)))
            || ((user && (same_type type TransactionType.expense && not savings && true && true))
                && (user && savings)))
          ≡ false)
tabs-tests user TransactionType.income savings h = (ground arith, ground arith)
tabs-tests user TransactionType.expense savings h = (ground arith, ground arith)

filter-tabs :
    (f : Filters) (items : List TransactionOut)
    → all is_plain items ≡ true
    → Perm
        (filter (λ tx. matches_filter tx (on_change_top_filter TopFilter.income f)) items
          ++ (filter (λ tx. matches_filter tx (on_change_top_filter TopFilter.expense f)) items
              ++ filter (λ tx. matches_filter tx (on_change_top_filter TopFilter.savings f)) items))
        (filter (λ tx. matches_filter tx (on_change_top_filter TopFilter.all f)) items)
unfolding matches_filter matches_tab on_change_top_filter
filter-tabs f items h =
    filter-split _ _ _ _ is_plain
      (λ tx. tabs-tests (matches_user f.user_filter tx) tx.type tx.category.is_savings) items h

-- Where no income is marked as savings, the tabs income, expense and savings split what the tab
-- "all" shows: from any state of the filters, the lists that a change to each of the three shows
-- hold together each transaction of the list of "all" once and no other.
pub filtered_transactions-tabs :
    (f : Filters) (items : List TransactionOut)
    → all (λ tx. not (same_type tx.type TransactionType.income && tx.category.is_savings)) items
      ≡ true
    → Perm
        (filtered_transactions (on_change_top_filter TopFilter.income f) items
          ++ (filtered_transactions (on_change_top_filter TopFilter.expense f) items
              ++ filtered_transactions (on_change_top_filter TopFilter.savings f) items))
        (filtered_transactions (on_change_top_filter TopFilter.all f) items)
unfolding filtered_transactions
filtered_transactions-tabs f items h =
    Perm.trans
      (Perm.append (sorted TopFilter.income)
        (Perm.append (sorted TopFilter.expense) (sorted TopFilter.savings)))
      (Perm.trans (filter-tabs f items h) (Perm.symm (sorted TopFilter.all)))
  where
    shown : TopFilter → List TransactionOut
    shown top = filter (λ tx. matches_filter tx (on_change_top_filter top f)) items

    sorted : (top : TopFilter) → Perm (sort_by newest_first (shown top)) (shown top)
    sorted top = sort_by-perm newest_first (shown top)

not_filtered-matches :
    (top : TopFilter) (c : Option ℕ) (e : Option CategoryType) (u : UserFilter)
    (tx : TransactionOut)
    → is_filtered
        record { top_filter = top; category_filter = c; expense_type_filter = e; user_filter = u }
      ≡ false
    → matches_filter tx
        record { top_filter = top; category_filter = c; expense_type_filter = e; user_filter = u }
      ≡ true
unfolding is_filtered matches_filter matches_user matches_tab
not_filtered-matches TopFilter.all c e u tx h = ground arith
not_filtered-matches TopFilter.income c e u tx h = ground arith
not_filtered-matches TopFilter.expense c e u tx h = ground arith
not_filtered-matches TopFilter.savings c e u tx h = ground arith

all-of :
    (p : TransactionOut → Bool)
    → ((tx : TransactionOut) → p tx ≡ true)
    → (items : List TransactionOut) → all p items ≡ true
all-of p h [] = refl
all-of p h (tx ∷ items) = ground (arith, h tx, all-of p h items)

-- Where the page says that nothing is filtered, the list shows every transaction of the month, and
-- a reset leads there from every state.
pub is_filtered-shows :
    (f : Filters) (items : List TransactionOut)
    → (is_filtered f ≡ false → Perm (filtered_transactions f items) items)
      × is_filtered (reset_filters f) ≡ false
unfolding filtered_transactions is_filtered reset_filters
is_filtered-shows f items = (shows, reset)
  where
    shows :
        is_filtered f ≡ false
        → Perm (sort_by newest_first (filter (λ tx. matches_filter tx f) items)) items
    shows h =
        subst (λ xs. Perm (sort_by newest_first (filter (λ tx. matches_filter tx f) items)) xs)
          (filter-all (λ tx. matches_filter tx f) items
            (all-of _
              (λ tx.
                not_filtered-matches f.top_filter f.category_filter f.expense_type_filter
                  f.user_filter tx h)
              items))
          (sort_by-perm newest_first (filter (λ tx. matches_filter tx f) items))

    reset : is_filtered (reset_filters f) ≡ false
    reset = refl
