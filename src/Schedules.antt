-- ===== src/Schedules.antt =====
-- The forms of recurring entries and of events (frontend/src/components/transactions/RecurringForm.tsx,
-- frontend/src/components/transactions/EventForm.tsx): their values, made from what the server has,
-- the changes of their controls and the payloads.
pub mod Unchanged
use nestlio.Prelude.{
  ℕ, ◌+◌, Bool, true, false, not, ◌&&◌, ◌||◌, Option, none, some, List, [], ◌∷◌, ◌++◌, filter, any,
  leb, ◌==◌, if◌then◌else◌, or_else, String, str_eq, Text, codes, is_empty, trim, take,
  split_at_char, text_or_null, Number, number, show_ℕ,
}
use nestlio.Prelude.Sort.{sort_by}
use nestlio.Types.Ledger.{TransactionType, RecurringFrequency, EventFrequency, EventOut, UserOut}
use nestlio.MonthlyGrid.{to_amount_input_value}
use nestlio.GoalDraft.{shown_or_empty}
use nestlio.TransactionForm.{id_or_null, string_or_null}

pub record RecurringFormValues : Type 0 where
  pub name : Text
  pub category_id : Text
  pub amount : Text
  pub type : TransactionType
  pub frequency : RecurringFrequency
  pub days_of_month : List ℕ
  pub start_date : Text
  pub end_date : Text
  pub reminder_days_before : Text

pub record RecurringPrefill : Type 0 where
  pub name : Option Text
  pub category_id : Option ℕ
  pub amount : Option Text
  pub type : Option TransactionType
  pub frequency : Option RecurringFrequency
  pub days_of_month : Option (List ℕ)
  pub start_date : Option Text
  pub end_date : Option Text
  pub reminder_days_before : Option ℕ

pub record RecurringCreateIn : Type 0 where
  pub name : Text
  pub category_id : Number
  pub amount : Text
  pub type : TransactionType
  pub frequency : RecurringFrequency
  pub days_of_month : Option (List ℕ)
  pub start_date : Text
  pub end_date : Option Text
  pub reminder_days_before : Number

abbrev pub is_monthly : RecurringFrequency → Bool
is_monthly RecurringFrequency.monthly = true
is_monthly _ = false

abbrev pub days_or_null : List ℕ → Option (List ℕ)
days_or_null [] = none
days_or_null (d ∷ ds) = some (d ∷ ds)

unfoldable pub build_recurring_payload : RecurringFormValues → RecurringCreateIn
build_recurring_payload values = record {
  name = values.name;
  category_id = number values.category_id;
  amount = values.amount;
  type = values.type;
  frequency = values.frequency;
  days_of_month = if is_monthly values.frequency then days_or_null values.days_of_month else none;
  start_date = values.start_date;
  end_date = text_or_null values.end_date;
  reminder_days_before = number values.reminder_days_before;
}

unfoldable pub recurring_values : RecurringPrefill → RecurringFormValues
recurring_values initial = record {
  name = or_else initial.name [];
  category_id = shown_or_empty initial.category_id;
  amount = to_amount_input_value initial.amount;
  type = or_else initial.type TransactionType.expense;
  frequency = or_else initial.frequency RecurringFrequency.monthly;
  days_of_month = or_else initial.days_of_month [];
  start_date = or_else initial.start_date [];
  end_date = or_else initial.end_date [];
  reminder_days_before = show_ℕ (or_else initial.reminder_days_before 3);
}

unfoldable pub toggle_day : ℕ → RecurringFormValues → RecurringFormValues
toggle_day day v = record v {
  days_of_month =
      if any (λ d. d == day) v.days_of_month
      then filter (λ d. not (d == day)) v.days_of_month
      else sort_by leb (v.days_of_month ++ (day ∷ []));
}

-- A change of the type drops the category.
unfoldable pub set_recurring_type : TransactionType → RecurringFormValues → RecurringFormValues
set_recurring_type t v = record v { type = t; category_id = [] }

-- handleSubmit: the values that go to onSubmit.
unfoldable pub submit_recurring : RecurringFormValues → Option RecurringFormValues
submit_recurring values =
    if is_empty (trim values.name) || (is_empty values.category_id || is_empty values.start_date)
    then none
    else some values

pub record EventFormValues : Type 0 where
  pub title : String
  pub description : String
  pub location : String
  pub all_day : Bool
  pub start_date : Text
  pub start_time : Text
  pub end_date : Text
  pub end_time : Text
  pub frequency : EventFrequency
  pub recurrence_end_date : Text
  pub reminder_minutes_before : Text
  pub assignee_id : String

pub record EventCreateIn : Type 0 where
  pub title : String
  pub description : Option String
  pub location : Option String
  pub all_day : Bool
  pub start_at : Text
  pub end_at : Option Text
  pub frequency : EventFrequency
  pub recurrence_end_date : Option Text
  pub reminder_minutes_before : Option Number
  pub assignee_id : Option String

pub record Occurrence : Type 0 where
  pub date : Text
  pub time : Text

-- The second part of split("T") ends at the next "T".
abbrev pub time_part : Option Text → Text
time_part none = []
time_part (some t) = take 5 (split_at_char b'T' t).0

unfoldable pub split_occurrence : Text → Occurrence
split_occurrence iso = record {
  date = (split_at_char b'T' iso).0;
  time = time_part (split_at_char b'T' iso).1;
}

abbrev pub or_text : Text → Text → Text
or_text [] otherwise = otherwise
or_text (c ∷ t) otherwise = c ∷ t

unfoldable pub empty_event_form_values : Text → EventFormValues
empty_event_form_values date_hint = record {
  title = "";
  description = "";
  location = "";
  all_day = false;
  start_date = date_hint;
  start_time = codes "09:00";
  end_date = [];
  end_time = [];
  frequency = EventFrequency.once;
  recurrence_end_date = [];
  reminder_minutes_before = [];
  assignee_id = "";
}

-- `event.end_at ? splitOccurrence(event.end_at) : null`, with "" for what null lacks.
abbrev pub end_of : Option Text → Occurrence
end_of none = record { date = []; time = [] }
end_of (some []) = record { date = []; time = [] }
end_of (some (c ∷ t)) = split_occurrence (c ∷ t)

abbrev pub user_id_or_empty : Option UserOut → String
user_id_or_empty none = ""
user_id_or_empty (some u) = u.id

unfoldable pub event_to_form_values : EventOut → EventFormValues
event_to_form_values event = record {
  title = event.title;
  description = or_else event.description "";
  location = or_else event.location "";
  all_day = event.all_day;
  start_date = (split_occurrence event.start_at).date;
  start_time = or_text (split_occurrence event.start_at).time (codes "09:00");
  end_date = (end_of event.end_at).date;
  end_time = (end_of event.end_at).time;
  frequency = event.frequency;
  recurrence_end_date = or_else event.recurrence_end_date [];
  reminder_minutes_before = shown_or_empty event.reminder_minutes_before;
  assignee_id = user_id_or_empty event.assignee;
}

abbrev pub repeats : EventFrequency → Bool
repeats EventFrequency.once = false
repeats _ = true

abbrev pub midnight : Text
midnight = codes "00:00"

-- `${date}T${time}:00`.
unfoldable pub moment : Text → Text → Text
moment date time = date ++ (b'T' ∷ (time ++ codes ":00"))

unfoldable pub submit_event : EventFormValues → EventCreateIn
submit_event form = record {
  title = form.title;
  description = string_or_null form.description;
  location = string_or_null form.location;
  all_day = form.all_day;
  start_at =
      moment form.start_date (if form.all_day then midnight else or_text form.start_time midnight);
  end_at =
      if is_empty form.end_date
      then none
      else some (
          moment form.end_date (if form.all_day then midnight else or_text form.end_time midnight));
  frequency = form.frequency;
  recurrence_end_date =
      if repeats form.frequency then text_or_null form.recurrence_end_date else none;
  reminder_minutes_before = id_or_null form.reminder_minutes_before;
  assignee_id = string_or_null form.assignee_id;
}
