-- ===== src/Ledger/Options.antt =====
-- The options of the category filter (categoryOptions of frontend/src/hooks/useLedgerFilters.ts).
use nestlio.Prelude.{
  ℕ, Bool, true, ◌&&◌, ◌||◌, Option, none, some, List, [], ◌∷◌, leb, ◌==◌, filter, any, ◌≡◌, refl,
  sym, ◌∙◌, ap, arith,
}
use nestlio.Prelude.Sort.{sort_by, insert_by}
use nestlio.Types.Ledger.{CategoryType, CategoryOut, TransactionType, TransactionOut}
use nestlio.Ledger.{
  TopFilter, Filters, matches_category_type, matches_tab, matches_filter, filtered_transactions,
  set_category, offers_category, collect_categories, options_of_type, category_options,
  newest_first, on_change_category_filter, UserFilter,
}

module _ {ℓ} {A : Type ℓ} (le : A → A → Bool) (p : A → Bool) where
  any-insert_by : (x : A) (ys : List A) → any p (insert_by le x ys) ≡ (p x || any p ys)
  unfolding insert_by
  any-insert_by x [] = refl
  any-insert_by x (y ∷ ys) = ground (arith, any-insert_by x ys)

  any-sort_by : (xs : List A) → any p (sort_by le xs) ≡ any p xs
  unfolding sort_by
  any-sort_by [] = refl
  any-sort_by (x ∷ xs) = any-insert_by x (sort_by le xs) ∙ ap (λ b. p x || b) (any-sort_by xs)

module _ {ℓ} {A : Type ℓ} where
  any-filter : (p q : A → Bool) (xs : List A) → any q (filter p xs) ≡ any (λ x. p x && q x) xs
  any-filter p q [] = refl
  any-filter p q (x ∷ xs) = ground (arith, any-filter p q xs)

  any_mono :
      (p q : A → Bool)
      → ((x : A) → p x ≡ true → q x ≡ true)
      → (xs : List A) → any p xs ≡ true
      → any q xs ≡ true
  any_mono p q h [] e = e
  any_mono p q h (x ∷ xs) e = ground (arith, h x, any_mono p q h xs)

any-set_category :
    (p : CategoryOut → Bool) (c : CategoryOut) (ds : List CategoryOut)
    → any p (set_category c ds) ≡ true
    → (p c || any p ds) ≡ true
unfolding set_category
any-set_category p c [] h = h
any-set_category p c (d ∷ ds) h = ground (arith, any-set_category p c ds)

-- A collected category is that of a transaction.
any-collect_categories :
    (p : CategoryOut → Bool) (acc : List CategoryOut) (txs : List TransactionOut)
    → any p (collect_categories acc txs) ≡ true
    → (any p acc || any (λ tx. p tx.category) txs) ≡ true
unfolding collect_categories
any-collect_categories p acc [] h = ground arith
any-collect_categories p acc (tx ∷ txs) h = ground (
  arith,
  any-collect_categories p (set_category tx.category acc) txs h,
  any-set_category p tx.category acc,
)

any-options_of_type :
    (type : TransactionType) (e : Option CategoryType) (u : UserFilter)
    (items : List TransactionOut) (id : ℕ)
    → any (λ c. c.id == id) (options_of_type type e u items) ≡ true
    → any
        (λ tx.
          offers_category type u tx
          && (matches_category_type e tx.category.type && tx.category.id == id))
        items
      ≡ true
unfolding options_of_type
any-options_of_type type e u items id h =
    sym (any-filter (offers_category type u) (λ tx. wanted tx.category) items)
    ∙ any-collect_categories wanted [] (filter (offers_category type u) items) (
        sym (any-filter (λ c. matches_category_type e c.type) (λ c. c.id == id) collected)
        ∙ sym (any-sort_by (λ a b. leb a.sort_order b.sort_order) (λ c. c.id == id) scoped)
        ∙ h)
  where
    wanted : CategoryOut → Bool
    wanted c = matches_category_type e c.type && c.id == id

    collected : List CategoryOut
    collected = collect_categories [] (filter (offers_category type u) items)

    scoped : List CategoryOut
    scoped = filter (λ c. matches_category_type e c.type) collected

any-filtered_transactions :
    (f : Filters) (items : List TransactionOut) (q : TransactionOut → Bool)
    → any q (filtered_transactions f items) ≡ any (λ tx. matches_filter tx f && q tx) items
unfolding filtered_transactions
any-filtered_transactions f items q =
    any-sort_by newest_first q (filter (λ tx. matches_filter tx f) items)
    ∙ any-filter (λ tx. matches_filter tx f) q items

-- A transaction that offers a category matches the filters once that category is chosen.
offers-matches_income :
    (c : Option ℕ) (e : Option CategoryType) (u : UserFilter) (id : ℕ) (tx : TransactionOut)
    → (offers_category TransactionType.income u tx
        && (matches_category_type none tx.category.type && tx.category.id == id))
      ≡ true
    → (matches_filter tx record {
      top_filter = TopFilter.income;
      category_filter = some id;
      expense_type_filter = e;
      user_filter = u;
    }
        && tx.category.id == id)
      ≡ true
unfolding offers_category matches_filter matches_tab
offers-matches_income c e u id tx h = ground arith

offers-matches_expense :
    (c : Option ℕ) (e : Option CategoryType) (u : UserFilter) (id : ℕ) (tx : TransactionOut)
    → (offers_category TransactionType.expense u tx
        && (matches_category_type e tx.category.type && tx.category.id == id))
      ≡ true
    → (matches_filter tx record {
      top_filter = TopFilter.expense;
      category_filter = some id;
      expense_type_filter = e;
      user_filter = u;
    }
        && tx.category.id == id)
      ≡ true
unfolding offers_category matches_filter matches_tab
offers-matches_expense c e u id tx h = ground arith

lead :
    (top : TopFilter) (c : Option ℕ) (e : Option CategoryType) (u : UserFilter)
    (items : List TransactionOut) (id : ℕ)
    → any
        (λ c. c.id == id)
        (category_options
          record { top_filter = top; category_filter = c; expense_type_filter = e; user_filter = u }
          items)
      ≡ true
    → any
        (λ tx. tx.category.id == id)
        (filtered_transactions
          record {
            top_filter = top;
            category_filter = some id;
            expense_type_filter = e;
            user_filter = u;
          }
          items)
      ≡ true
unfolding category_options
lead TopFilter.all c e u items id h = ground arith
lead TopFilter.savings c e u items id h = ground arith
lead TopFilter.income c e u items id h =
    any-filtered_transactions _ items (λ tx. tx.category.id == id)
    ∙ any_mono _ _ (offers-matches_income c e u id) items
        (any-options_of_type TransactionType.income none u items id h)
lead TopFilter.expense c e u items id h =
    any-filtered_transactions _ items (λ tx. tx.category.id == id)
    ∙ any_mono _ _ (offers-matches_expense c e u id) items
        (any-options_of_type TransactionType.expense e u items id h)

-- Each category that the filter offers has something to show: choosing it, with the other filters
-- as they are, leaves a transaction of that category in the list.
pub category_options-lead :
    (f : Filters) (items : List TransactionOut) (id : ℕ)
    → any (λ c. c.id == id) (category_options f items) ≡ true
    → any
        (λ tx. tx.category.id == id)
        (filtered_transactions (on_change_category_filter (some id) f) items)
      ≡ true
unfolding on_change_category_filter
category_options-lead f items id h =
    lead f.top_filter f.category_filter f.expense_type_filter f.user_filter items id h
