-- ===== src/QueryKeys/Queries.antt =====
-- The queries of the application with their keys (frontend/src/constants/queryKeys.ts), and the keys
-- that begin with another.
use nestlio.Prelude.{any, ℕ, Bool, true, false, ◌&&◌, Option, List, [], ◌∷◌, String, str_eq, Text}
use nestlio.Types.Ledger.{TransactionType}
use nestlio.QueryKeys
use nestlio.QueryKeys.{Part, text, date, number, filters, QueryKey, FilterEntries, TodoStatus}

-- The queries of the application.
pub data CachedQuery : Type 0 where
  dashboard : Text → CachedQuery
  monthly_retrospective : CachedQuery
  categories : Option TransactionType → CachedQuery
  transactions : FilterEntries → CachedQuery
  recent_transactions : FilterEntries → CachedQuery
  category_breakdown : FilterEntries → CachedQuery
  events : Text → Text → CachedQuery
  todos : TodoStatus → CachedQuery
  accounts : CachedQuery
  cards : CachedQuery
  yearly_report : ℕ → Option String → CachedQuery
  category_trend : ℕ → CachedQuery
  settings : CachedQuery
  dashboard_bootstrap : CachedQuery
  me : CachedQuery
  users : CachedQuery
  invites : CachedQuery
  invite_token : String → CachedQuery
  cashflow_plan : Text → CachedQuery
  financial_goals : CachedQuery
  financial_goal_growlio_insight : ℕ → CachedQuery
  annual_plan : ℕ → CachedQuery
  savings_products : CachedQuery
  savings_products_plan : Text → CachedQuery
  savings_products_annual_plan : ℕ → CachedQuery
  savings_product_annual_plan_detail : ℕ → ℕ → CachedQuery
  growlio_investment_accounts : CachedQuery
  growlio_bank_accounts : CachedQuery
  growlio_real_estate_accounts : CachedQuery
  loans : CachedQuery
  net_worth : Option ℕ → CachedQuery
  net_worth_growlio_unlinked : CachedQuery
  recurring : CachedQuery
  savings_review : Option Text → Option String → CachedQuery
  insurance_policies : CachedQuery
  notifications : CachedQuery

abbrev pub key_of : CachedQuery → QueryKey
key_of (CachedQuery.dashboard m) = QueryKeys.dashboard m
key_of CachedQuery.monthly_retrospective = QueryKeys.monthly_retrospective
key_of (CachedQuery.categories k) = QueryKeys.categories k
key_of (CachedQuery.transactions f) = QueryKeys.transactions f
key_of (CachedQuery.recent_transactions f) = QueryKeys.recent_transactions f
key_of (CachedQuery.category_breakdown f) = QueryKeys.category_breakdown f
key_of (CachedQuery.events date_from date_to) = QueryKeys.events date_from date_to
key_of (CachedQuery.todos status) = QueryKeys.todos status
key_of CachedQuery.accounts = QueryKeys.accounts
key_of CachedQuery.cards = QueryKeys.cards
key_of (CachedQuery.yearly_report year owner) = QueryKeys.yearly_report year owner
key_of (CachedQuery.category_trend months) = QueryKeys.category_trend months
key_of CachedQuery.settings = QueryKeys.settings
key_of CachedQuery.dashboard_bootstrap = QueryKeys.dashboard_bootstrap
key_of CachedQuery.me = QueryKeys.me
key_of CachedQuery.users = QueryKeys.users
key_of CachedQuery.invites = QueryKeys.invites
key_of (CachedQuery.invite_token token) = QueryKeys.invite_token token
key_of (CachedQuery.cashflow_plan m) = QueryKeys.cashflow_plan m
key_of CachedQuery.financial_goals = QueryKeys.financial_goals
key_of (CachedQuery.financial_goal_growlio_insight goal_id) =
    QueryKeys.financial_goal_growlio_insight goal_id
key_of (CachedQuery.annual_plan year) = QueryKeys.annual_plan year
key_of CachedQuery.savings_products = QueryKeys.savings_products
key_of (CachedQuery.savings_products_plan m) = QueryKeys.savings_products_plan m
key_of (CachedQuery.savings_products_annual_plan year) = QueryKeys.savings_products_annual_plan year
key_of (CachedQuery.savings_product_annual_plan_detail product_id year) =
    QueryKeys.savings_product_annual_plan_detail product_id year
key_of CachedQuery.growlio_investment_accounts = QueryKeys.growlio_investment_accounts
key_of CachedQuery.growlio_bank_accounts = QueryKeys.growlio_bank_accounts
key_of CachedQuery.growlio_real_estate_accounts = QueryKeys.growlio_real_estate_accounts
key_of CachedQuery.loans = QueryKeys.loans
key_of (CachedQuery.net_worth months) = QueryKeys.net_worth months
key_of CachedQuery.net_worth_growlio_unlinked = QueryKeys.net_worth_growlio_unlinked
key_of CachedQuery.recurring = QueryKeys.recurring
key_of (CachedQuery.savings_review m owner) = QueryKeys.savings_review m owner
key_of CachedQuery.insurance_policies = QueryKeys.insurance_policies
key_of CachedQuery.notifications = QueryKeys.notifications

-- A key of texts alone, and the keys that begin with it.
abbrev pub is_text : Part → Bool
is_text (text s) = true
is_text (date t) = false
is_text (number n) = false
is_text (filters f) = false

abbrev pub same_text : Part → Part → Bool
same_text (text s) (text t) = str_eq s t
same_text _ _ = false

abbrev pub begins_with : QueryKey → QueryKey → Bool
begins_with [] cached = true
begins_with (p ∷ ps) [] = false
begins_with (p ∷ ps) (q ∷ qs) = same_text p q && begins_with ps qs

-- Whether one of the keys begins the query's key.
abbrev pub covers : List QueryKey → CachedQuery → Bool
covers keys q = any (λ key. begins_with key (key_of q)) keys
