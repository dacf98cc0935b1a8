-- ===== src/QueryKeys.antt =====
-- The keys of the query cache (frontend/src/constants/queryKeys.ts) and the groups of keys that a
-- change invalidates (frontend/src/utils/queryClient.ts). The cache is a library's: which cached
-- keys an invalidated key reaches is a parameter.
pub mod Queries
pub mod Prefixes
use nestlio.Prelude.{ℕ, Bool, Option, none, some, List, [], ◌∷◌, any, String, Text, or_else}
use nestlio.Types.Ledger.{TransactionType}

-- An element of a key. A filter object is known by its entries.
pub data Part : Type 0 where
  text : String → Part
  date : Text → Part
  number : ℕ → Part
  filters : List (String × Option String) → Part

abbrev pub QueryKey : Type 0
QueryKey = List Part

abbrev pub FilterEntries : Type 0
FilterEntries = List (String × Option String)

pub data TodoStatus : Type 0 where
  still_open done : TodoStatus

-- kind ?? "all", and the literal of a status.
abbrev pub kind_or_all : Option TransactionType → String
kind_or_all none = "all"
kind_or_all (some TransactionType.income) = "income"
kind_or_all (some TransactionType.expense) = "expense"

abbrev pub status_name : TodoStatus → String
status_name TodoStatus.still_open = "open"
status_name TodoStatus.done = "done"

-- yearMonth ?? "default".
abbrev pub month_or_default : Option Text → Part
month_or_default none = text "default"
month_or_default (some m) = date m

abbrev pub dashboard : Text → QueryKey
dashboard m = text "dashboard" ∷ date m ∷ []

abbrev pub dashboard_all : QueryKey
dashboard_all = text "dashboard" ∷ []

abbrev pub monthly_retrospective : QueryKey
monthly_retrospective = text "dashboard" ∷ text "retrospective" ∷ []

abbrev pub categories : Option TransactionType → QueryKey
categories k = text "categories" ∷ text (kind_or_all k) ∷ []

abbrev pub categories_all : QueryKey
categories_all = text "categories" ∷ []

abbrev pub transactions : FilterEntries → QueryKey
transactions f = text "transactions" ∷ filters f ∷ []

abbrev pub transactions_all : QueryKey
transactions_all = text "transactions" ∷ []

abbrev pub recent_transactions : FilterEntries → QueryKey
recent_transactions f = text "recent-transactions" ∷ filters f ∷ []

abbrev pub recent_transactions_all : QueryKey
recent_transactions_all = text "recent-transactions" ∷ []

abbrev pub category_breakdown : FilterEntries → QueryKey
category_breakdown f = text "category-breakdown" ∷ filters f ∷ []

abbrev pub category_breakdown_all : QueryKey
category_breakdown_all = text "category-breakdown" ∷ []

abbrev pub events : Text → Text → QueryKey
events date_from date_to = text "events" ∷ date date_from ∷ date date_to ∷ []

abbrev pub events_all : QueryKey
events_all = text "events" ∷ []

abbrev pub todos : TodoStatus → QueryKey
todos status = text "todos" ∷ text (status_name status) ∷ []

abbrev pub todos_all : QueryKey
todos_all = text "todos" ∷ []

abbrev pub accounts : QueryKey
accounts = text "accounts" ∷ []

abbrev pub cards : QueryKey
cards = text "cards" ∷ []

abbrev pub yearly_report : ℕ → Option String → QueryKey
yearly_report year owner = text "yearly-report" ∷ number year ∷ text (or_else owner "all") ∷ []

abbrev pub yearly_report_all : QueryKey
yearly_report_all = text "yearly-report" ∷ []

abbrev pub category_trend : ℕ → QueryKey
category_trend months = text "category-trend" ∷ number months ∷ []

abbrev pub category_trend_all : QueryKey
category_trend_all = text "category-trend" ∷ []

abbrev pub settings : QueryKey
settings = text "settings" ∷ []

abbrev pub dashboard_bootstrap : QueryKey
dashboard_bootstrap = text "dashboard-bootstrap" ∷ []

abbrev pub me : QueryKey
me = text "me" ∷ []

abbrev pub users : QueryKey
users = text "users" ∷ []

abbrev pub invites : QueryKey
invites = text "invites" ∷ []

abbrev pub invite_token : String → QueryKey
invite_token token = text "invite-token" ∷ text token ∷ []

abbrev pub cashflow_plan : Text → QueryKey
cashflow_plan m = text "cashflow-plan" ∷ date m ∷ []

abbrev pub cashflow_plan_all : QueryKey
cashflow_plan_all = text "cashflow-plan" ∷ []

abbrev pub financial_goals : QueryKey
financial_goals = text "financial-goals" ∷ []

abbrev pub financial_goal_growlio_insight : ℕ → QueryKey
financial_goal_growlio_insight goal_id =
    text "financial-goals" ∷ number goal_id ∷ text "growlio-insight" ∷ []

abbrev pub annual_plan : ℕ → QueryKey
annual_plan year = text "annual-plan" ∷ number year ∷ []

abbrev pub annual_plan_all : QueryKey
annual_plan_all = text "annual-plan" ∷ []

abbrev pub savings_products : QueryKey
savings_products = text "savings-products" ∷ []

abbrev pub savings_products_plan : Text → QueryKey
savings_products_plan m = text "savings-products" ∷ text "plan" ∷ date m ∷ []

abbrev pub savings_products_annual_plan : ℕ → QueryKey
savings_products_annual_plan year = text "savings-products" ∷ text "annual-plan" ∷ number year ∷ []

abbrev pub savings_product_annual_plan_detail : ℕ → ℕ → QueryKey
savings_product_annual_plan_detail product_id year =
    text "savings-products" ∷ number product_id ∷ text "annual-plan" ∷ number year ∷ []

abbrev pub growlio_investment_accounts : QueryKey
growlio_investment_accounts = text "growlio-accounts" ∷ text "savings-products" ∷ []

abbrev pub growlio_bank_accounts : QueryKey
growlio_bank_accounts = text "growlio-accounts" ∷ text "accounts" ∷ []

abbrev pub growlio_real_estate_accounts : QueryKey
growlio_real_estate_accounts = text "growlio-accounts" ∷ text "real-estate" ∷ []

abbrev pub loans : QueryKey
loans = text "loans" ∷ []

abbrev pub net_worth : Option ℕ → QueryKey
net_worth months = text "net-worth" ∷ number (or_else months 12) ∷ []

abbrev pub net_worth_all : QueryKey
net_worth_all = text "net-worth" ∷ []

abbrev pub net_worth_growlio_unlinked : QueryKey
net_worth_growlio_unlinked = text "net-worth" ∷ text "growlio-unlinked" ∷ []

abbrev pub recurring : QueryKey
recurring = text "recurring" ∷ []

abbrev pub savings_review : Option Text → Option String → QueryKey
savings_review m owner =
    text "dashboard" ∷ text "savings-review" ∷ month_or_default m ∷ text (or_else owner "all") ∷ []

abbrev pub savings_review_all : QueryKey
savings_review_all = text "dashboard" ∷ text "savings-review" ∷ []

abbrev pub insurance_policies : QueryKey
insurance_policies = text "insurance-policies" ∷ []

abbrev pub notifications : QueryKey
notifications = text "notifications" ∷ []

unfoldable pub asset_related_keys : List QueryKey
asset_related_keys =
    accounts ∷ cards ∷ loans ∷ savings_products ∷ net_worth_all ∷ dashboard_bootstrap
    ∷ financial_goals ∷ dashboard_all ∷ []

unfoldable pub category_related_keys : List QueryKey
category_related_keys =
    categories_all ∷ transactions_all ∷ category_breakdown_all ∷ recent_transactions_all ∷ recurring
    ∷ category_trend_all ∷ cashflow_plan_all ∷ annual_plan_all ∷ yearly_report_all ∷ dashboard_all
    ∷ monthly_retrospective ∷ []

unfoldable pub user_related_keys : List QueryKey
user_related_keys =
    me ∷ users ∷ transactions_all ∷ events_all ∷ todos_all ∷ notifications ∷ dashboard_all
    ∷ dashboard_bootstrap ∷ monthly_retrospective ∷ []

unfoldable pub transaction_related_keys : List QueryKey
transaction_related_keys =
    transactions_all ∷ dashboard_all ∷ category_breakdown_all ∷ savings_products ∷ net_worth_all
    ∷ dashboard_bootstrap ∷ cashflow_plan_all ∷ annual_plan_all ∷ accounts ∷ cards ∷ financial_goals
    ∷ recent_transactions_all ∷ yearly_report_all ∷ category_trend_all ∷ monthly_retrospective ∷ []

unfoldable pub plan_related_keys : List QueryKey
plan_related_keys = cashflow_plan_all ∷ annual_plan_all ∷ dashboard_all ∷ []

-- invalidateKeys: every key is handed to the cache, whose `matches key cached` says whether that
-- reaches a cached query.
unfoldable pub invalidate_keys : (QueryKey → QueryKey → Bool) → List QueryKey → QueryKey → Bool
invalidate_keys matches keys cached = any (λ key. matches key cached) keys
