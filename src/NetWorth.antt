-- ===== src/NetWorth.antt =====
-- Real estate and the loans on it (frontend/src/utils/netWorth.ts), and what two savers put aside
-- (frontend/src/utils/contribution.ts).
use nestlio.Prelude.{
  Bool, true, false, not, ◌&&◌, Option, none, some, List, [], ◌∷◌, map, filter, any, or_else,
  if◌then◌else◌, String, str_eq, Number, decimal, number, add_number,
}
use nestlio.Prelude.Sort.{sort_by}
use nestlio.Types.Ledger.{SavingsProductType, SavingsProductOut, OwnerTotalsOut}
use nestlio.Types.Assets.{LoanOut}
use nestlio.Ledger.{sum_amounts}
use nestlio.Goals.{leb_number}
use nestlio.Acceleration.{sub_number, max_zero, is_positive}

abbrev pub is_real_estate : SavingsProductType → Bool
is_real_estate SavingsProductType.real_estate = true
is_real_estate _ = false

-- products?.filter(...).
unfoldable pub real_estate_products :
    Option (List SavingsProductOut) → Option (List SavingsProductOut)
real_estate_products none = none
real_estate_products (some products) = some (filter (λ p. is_real_estate p.product_type) products)

unfoldable pub real_estate_total : Option (List SavingsProductOut) → Number
real_estate_total products =
    sum_amounts (real_estate_products products) (λ p. some p.current_balance)

pub record SavingsSplit : Type 0 where
  pub savings_investment_total : Number
  pub real_estate_total : Number

unfoldable pub split_savings_and_real_estate :
    Number → Option (List SavingsProductOut) → SavingsSplit
split_savings_and_real_estate savings_total products = record {
  savings_investment_total = sub_number savings_total (real_estate_total products);
  real_estate_total = real_estate_total products;
}

-- The id of a growlio account that is there and not empty.
abbrev pub is_linked : Option String → Bool
is_linked none = false
is_linked (some id) = not (str_eq id "")

unfoldable pub real_estate_growlio_ids : Option (List SavingsProductOut) → List String
real_estate_growlio_ids products =
    map (λ p. or_else p.growlio_account_id "")
      (filter (λ p. is_real_estate p.product_type && is_linked p.growlio_account_id)
        (or_else products []))

unfoldable pub real_estate_mortgages :
    Option (List SavingsProductOut) → Option (List LoanOut) → List LoanOut
real_estate_mortgages products loans =
    filter
      (λ loan.
        is_linked loan.growlio_account_id
        && any (λ id. str_eq id (or_else loan.growlio_account_id ""))
            (real_estate_growlio_ids products))
      (or_else loans [])

unfoldable pub mortgages_total : Option (List SavingsProductOut) → Option (List LoanOut) → Number
mortgages_total products loans =
    sum_amounts (some (real_estate_mortgages products loans)) (λ loan. some loan.balance)

unfoldable pub compute_real_estate_net :
    Number → Option (List SavingsProductOut) → Option (List LoanOut) → Number
compute_real_estate_net total products loans =
    max_zero (sub_number total (mortgages_total products loans))

unfoldable pub real_estate_net_for_goal :
    Option (List SavingsProductOut) → Option (List LoanOut) → Number
real_estate_net_for_goal products loans =
    sub_number (real_estate_total products) (mortgages_total products loans)

pub record CoupleContribution : Type 0 where
  pub total : Number
  pub leader_name : Option String

-- a < b.
abbrev pub less : Number → Number → Bool
less a b = leb_number a b && not (leb_number b a)

-- The larger savings first.
unfoldable pub ranked : List OwnerTotalsOut → List OwnerTotalsOut
ranked owner_totals = sort_by (λ a b. not (less (number a.savings) (number b.savings))) owner_totals

unfoldable pub total_savings : Number → List OwnerTotalsOut → Number
total_savings sum [] = sum
total_savings sum (o ∷ os) = total_savings (add_number sum (max_zero (number o.savings))) os

abbrev pub leader : List OwnerTotalsOut → Option String
leader [] = none
leader (top ∷ []) = none
leader (top ∷ (next ∷ rest)) =
    if is_positive (number top.savings) && less (number next.savings) (number top.savings)
    then some top.display_name
    else none

unfoldable pub couple_contribution : List OwnerTotalsOut → CoupleContribution
couple_contribution owner_totals = record {
  total = total_savings (decimal false 0 0) (ranked owner_totals);
  leader_name = leader (ranked owner_totals);
}
