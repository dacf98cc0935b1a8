-- ===== src/Types/Ledger.antt =====
-- The responses of the ledger, the calendar and the todo list (frontend/src/types/index.ts). Amounts,
-- dates and times are texts that the program walks or reads as numbers; ids and labels are only
-- compared.
use nestlio.Prelude.{ℕ, Bool, Option, List, String, Text}

pub record UserOut : Type 0 where
  pub id : String
  pub email : String
  pub display_name : String

pub data CategoryType : Type 0 where
  fixed variable irregular : CategoryType

pub data BenchmarkGroup : Type 0 where
  food housing communication transport leisure healthcare education insurance other : BenchmarkGroup

pub data TransactionType : Type 0 where
  income expense : TransactionType

pub record CategoryOut : Type 0 where
  pub id : ℕ
  pub name : String
  pub kind : TransactionType
  pub type : CategoryType
  pub color : String
  pub is_active : Bool
  pub is_discretionary : Bool
  pub is_debt : Bool
  pub is_savings : Bool
  pub sort_order : ℕ
  pub benchmark_group : Option BenchmarkGroup

pub data AccountType : Type 0 where
  bank cash : AccountType

pub record AccountOut : Type 0 where
  pub id : ℕ
  pub name : String
  pub account_type : AccountType
  pub initial_balance : Text
  pub is_active : Bool
  pub sort_order : ℕ
  pub growlio_account_id : Option String
  pub last_synced_at : Option Text
  pub owner_user_id : Option String

pub data CardType : Type 0 where
  credit debit : CardType

pub record CardOut : Type 0 where
  pub id : ℕ
  pub name : String
  pub card_type : CardType
  pub payment_account_id : Option ℕ
  pub payment_account : Option AccountOut
  pub owner_user_id : Option String
  pub is_active : Bool
  pub sort_order : ℕ

pub data SavingsProductType : Type 0 where
  savings investment real_estate emergency_fund : SavingsProductType

pub record SavingsProductOut : Type 0 where
  pub id : ℕ
  pub name : String
  pub current_balance : Text
  pub monthly_saving_amount : Text
  pub product_type : SavingsProductType
  pub principal_amount : Option Text
  pub return_amount : Option Text
  pub return_rate_pct : Option Text
  pub sort_order : ℕ
  pub is_active : Bool
  pub growlio_account_id : Option String
  pub auto_sync_enabled : Bool
  pub last_synced_at : Option Text
  pub owner_user_id : Option String
  pub linked_goal_id : Option ℕ
  pub linked_goal_name : Option String

pub data PaymentMethod : Type 0 where
  cash credit_card debit_card transfer other : PaymentMethod

pub record TransactionOut : Type 0 where
  pub id : ℕ
  pub type : TransactionType
  pub amount : Text
  pub transaction_date : Text
  pub description : Option String
  pub payment_method : Option PaymentMethod
  pub account_id : Option ℕ
  pub savings_product_id : Option ℕ
  pub card_id : Option ℕ
  pub category : CategoryOut
  pub account : Option AccountOut
  pub card : Option CardOut
  pub savings_product : Option SavingsProductOut
  pub user : UserOut
  pub owner_user_id : Option String
  pub created_at : Text
  pub updated_at : Text

pub record OwnerTotalsOut : Type 0 where
  pub owner_user_id : Option String
  pub display_name : String
  pub income : Text
  pub expense : Text
  pub savings : Text
  pub savings_investment : Text

pub data RecurringFrequency : Type 0 where
  weekly monthly yearly : RecurringFrequency

pub record RecurringOut : Type 0 where
  pub id : ℕ
  pub name : String
  pub category_id : ℕ
  pub amount : Text
  pub type : TransactionType
  pub frequency : RecurringFrequency
  pub day_of_month : Option ℕ
  pub days_of_month : Option (List ℕ)
  pub start_date : Text
  pub end_date : Option Text
  pub reminder_days_before : ℕ
  pub next_due_date : Text
  pub is_active : Bool
  pub category : CategoryOut

pub data EventFrequency : Type 0 where
  once weekly monthly : EventFrequency

pub record EventOut : Type 0 where
  pub id : ℕ
  pub title : String
  pub description : Option String
  pub location : Option String
  pub all_day : Bool
  pub start_at : Text
  pub end_at : Option Text
  pub frequency : EventFrequency
  pub recurrence_end_date : Option Text
  pub reminder_minutes_before : Option ℕ
  pub creator : UserOut
  pub assignee : Option UserOut
  pub completed_at : Option Text
  pub occurrence_start : Text

pub record EventListOut : Type 0 where
  pub items : List EventOut
  pub recurring_due : List RecurringOut

pub data TodoFrequency : Type 0 where
  once weekly monthly yearly : TodoFrequency

pub record TodoOut : Type 0 where
  pub id : ℕ
  pub title : String
  pub memo : Option String
  pub due_date : Option Text
  pub frequency : TodoFrequency
  pub creator : UserOut
  pub assignee : Option UserOut
  pub completed_at : Option Text
  pub completer : Option UserOut
  pub created_at : Text
