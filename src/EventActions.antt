-- ===== src/EventActions.antt =====
-- Adding, changing, removing and completing events (frontend/src/hooks/useEventActions.tsx), over the
-- mutations. onSaved is a change of the screen's own state.
use nestlio.Prelude.{Bool, Option, none, some, List, [], ◌∷◌, ℕ, Text, codes, is_empty}
use nestlio.Types.Ledger.{EventOut}
use nestlio.QueryKeys.{QueryKey, events_all}
use nestlio.Toasts.{ToastType}
use nestlio.Ledger.{occurrence_date}
use nestlio.Mutations.{World, Outcome, CrudOptions, settle, invalidate, show}
use nestlio.LedgerPage.{Target}
use nestlio.Schedules.{
  EventFormValues, EventCreateIn, empty_event_form_values, event_to_form_values,
}

-- The hook's state, with the state of the screen that uses it.
pub record EventState (S : Type 0) : Type 0 where
  pub form_target : Option (Target EventOut)
  pub create_date_hint : Text
  pub delete_target : Option EventOut
  pub screen : S

-- What is sent for completing an event.
pub record Completion : Type 0 where
  pub id : ℕ
  pub completed : Bool
  pub occurrence_date : Text

pub data EventRequest : Type 0 where
  create : EventCreateIn → EventRequest
  update : ℕ → EventCreateIn → EventRequest
  delete : ℕ → EventRequest
  complete : Completion → EventRequest

abbrev pub event_keys : List QueryKey
event_keys = events_all ∷ []

module _ {S : Type 0} (on_saved : S → S) where
  abbrev pub saved : EventOut → EventState S → EventState S
  saved item s = record s { form_target = none; screen = on_saved s.screen }

  -- The options that the hook hands to useCrudMutations.
  abbrev pub event_options :
      CrudOptions EventCreateIn EventCreateIn EventOut EventRequest (EventState S)
  event_options = record {
    keys = event_keys;
    create = some (λ payload. EventRequest.create payload);
    update = some (λ target. EventRequest.update target.0 target.1);
    remove = none;
    messages = record {
      create = some (codes "일정을 등록했습니다.");
      update = some (codes "일정을 수정했습니다.");
      remove = none;
    };
    on_create_success = some saved;
    on_update_success = some saved;
    on_remove_success = none;
  }

module _ {S : Type 0} where
  -- onSuccess of deleteMutation.
  unfoldable pub event_deleted :
      {I : Type 0} → Outcome I → World (EventState S) → World (EventState S)
  event_deleted outcome w =
      settle outcome
        (λ item v.
          show (codes "일정을 삭제했습니다.") ToastType.success
            (record (invalidate event_keys v) { state = record v.state { delete_target = none } }))
        w

  unfoldable pub event_completed :
      {I : Type 0} → Outcome I → World (EventState S) → World (EventState S)
  event_completed outcome w = settle outcome (λ item v. invalidate event_keys v) w

  unfoldable pub open_event_create : Text → EventState S → EventState S
  open_event_create date_hint s = record s {
    create_date_hint = date_hint;
    form_target = some Target.new;
  }

-- The form's first values.
unfoldable pub event_form_values : Target EventOut → Text → EventFormValues
event_form_values Target.new date_hint = empty_event_form_values date_hint
event_form_values (Target.edit event) date_hint = event_to_form_values event

-- `!event.completed_at`.
abbrev pub is_open : Option Text → Bool
is_open none = Bool.true
is_open (some t) = is_empty t

-- toggleComplete: the other state, for the occurrence that was pressed.
unfoldable pub toggle_complete : EventOut → EventRequest
toggle_complete event = EventRequest.complete (record {
  id = event.id;
  completed = is_open event.completed_at;
  occurrence_date = occurrence_date event.occurrence_start;
})
