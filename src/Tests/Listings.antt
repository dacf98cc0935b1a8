-- ===== src/Tests/Listings.antt =====
-- A month of three transactions in the ledger (frontend/src/hooks/useLedgerFilters.ts).
use nestlio.Prelude.{
  ◌≡◌, refl, not, true, false, Bool, none, some, List, [], ◌∷◌, ◌++◌, ◌==◌, filter, any, Text,
  codes, ℕ,
}
use nestlio.Prelude.Sort.{sort_by, insert_by}
use nestlio.Prelude.Groups.{nat_key, items_of, all_items}
use nestlio.Types.Ledger.{UserOut, CategoryType, CategoryOut, TransactionType, TransactionOut}
use nestlio.Ledger.{
  TopFilter, Filters, no_filters, filtered_transactions, transactions_by_category, category_options,
  on_change_top_filter, on_change_category_filter, is_filtered, reset_filters, options_of_type,
  collect_categories, set_category, offers_category, matches_user,
}
use nestlio.Ledger.Listing.{
  is_hidden, IsNewestFirst, filtered_transactions-listing, transactions_by_category-groups,
}
use nestlio.Ledger.Tabs.{filtered_transactions-tabs, is_filtered-shows}
use nestlio.Ledger.Options.{category_options-lead}
use mathlib.Core.List.{Perm}

abbrev user : UserOut
user = record { id = "u1"; email = "a@b.c"; display_name = "A" }

abbrev category : ℕ → TransactionType → Bool → CategoryOut
category n kind savings = record {
  id = n;
  name = "c";
  kind = kind;
  type = CategoryType.fixed;
  color = "#000";
  is_active = true;
  is_discretionary = false;
  is_debt = false;
  is_savings = savings;
  sort_order = n;
  benchmark_group = none;
}

abbrev transaction : ℕ → TransactionType → Text → CategoryOut → TransactionOut
transaction n type date c = record {
  id = n;
  type = type;
  amount = codes "1000";
  transaction_date = date;
  description = none;
  payment_method = none;
  account_id = none;
  savings_product_id = none;
  card_id = none;
  category = c;
  account = none;
  card = none;
  savings_product = none;
  user = user;
  owner_user_id = none;
  created_at = date;
  updated_at = date;
}

abbrev month : List TransactionOut
month =
    transaction 1 TransactionType.income (codes "2026-01-25")
      (category 1 TransactionType.income false)
    ∷ transaction 2 TransactionType.expense (codes "2026-01-26")
        (category 2 TransactionType.expense false)
    ∷ transaction 3 TransactionType.expense (codes "2026-01-26")
        (category 3 TransactionType.expense true)
    ∷ []

abbrev expenses : Filters
expenses = record no_filters { top_filter = TopFilter.expense }

filtered_transactions-listing_example :
    Perm (filtered_transactions expenses month) (filter (λ tx. not (is_hidden expenses tx)) month)
    × IsNewestFirst (filtered_transactions expenses month)
filtered_transactions-listing_example = filtered_transactions-listing expenses month

transactions_by_category-groups_example :
    Perm
      (all_items (transactions_by_category no_filters month))
      (filtered_transactions no_filters month)
    × items_of nat_key 2 (transactions_by_category no_filters month)
      ≡ filter (λ tx. tx.category.id == 2) (filtered_transactions no_filters month)
transactions_by_category-groups_example = transactions_by_category-groups no_filters month 2

filtered_transactions-tabs_example :
    Perm
      (filtered_transactions (on_change_top_filter TopFilter.income no_filters) month
        ++ (filtered_transactions (on_change_top_filter TopFilter.expense no_filters) month
            ++ filtered_transactions (on_change_top_filter TopFilter.savings no_filters) month))
      (filtered_transactions (on_change_top_filter TopFilter.all no_filters) month)
filtered_transactions-tabs_example = filtered_transactions-tabs no_filters month refl

is_filtered-shows_example :
    (is_filtered no_filters ≡ false → Perm (filtered_transactions no_filters month) month)
    × is_filtered (reset_filters no_filters) ≡ false
is_filtered-shows_example = is_filtered-shows no_filters month

offered : any (λ c. c.id == 2) (category_options expenses month) ≡ true
unfolding category_options options_of_type sort_by insert_by collect_categories set_category
    offers_category matches_user
offered = refl

category_options-lead_example :
    any
      (λ tx. tx.category.id == 2)
      (filtered_transactions (on_change_category_filter (some 2) expenses) month)
    ≡ true
category_options-lead_example = category_options-lead expenses month 2 offered
