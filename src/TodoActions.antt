-- ===== src/TodoActions.antt =====
-- Adding, changing, removing and completing todos (frontend/src/hooks/useTodoActions.tsx), over the
-- mutations. P stands for the payloads of the form.
use nestlio.Prelude.{ℕ, Bool, Option, none, some, List, [], ◌∷◌, codes}
use nestlio.Types.Ledger.{TodoOut}
use nestlio.QueryKeys.{QueryKey, todos_all}
use nestlio.Toasts.{ToastType}
use nestlio.Mutations.{World, Outcome, CrudOptions, create_fn, update_fn, settle, invalidate, show}
use nestlio.LedgerPage.{Target}
use nestlio.EventActions.{is_open}

pub record TodoState : Type 0 where
  pub form_target : Option (Target TodoOut)
  pub delete_target : Option TodoOut

pub data TodoRequest (P : Type 0) : Type 0 where
  create : P → TodoRequest P
  update : ℕ → P → TodoRequest P
  delete : ℕ → TodoRequest P
  complete : ℕ → Bool → TodoRequest P

abbrev pub todo_keys : List QueryKey
todo_keys = todos_all ∷ []

abbrev pub close_todo_form : TodoOut → TodoState → TodoState
close_todo_form item s = record s { form_target = none }

-- The options that the hook hands to useCrudMutations.
abbrev pub todo_options : (P : Type 0) → CrudOptions P P TodoOut (TodoRequest P) TodoState
todo_options P = record {
  keys = todo_keys;
  create = some (λ payload. TodoRequest.create payload);
  update = some (λ target. TodoRequest.update target.0 target.1);
  remove = none;
  messages = record {
    create = some (codes "할일을 등록했습니다.");
    update = some (codes "할일을 수정했습니다.");
    remove = none;
  };
  on_create_success = some close_todo_form;
  on_update_success = some close_todo_form;
  on_remove_success = none;
}

-- onSubmit of the form.
unfoldable pub submit_todo : {P : Type 0} → Target TodoOut → P → Outcome (TodoRequest P)
submit_todo {P = P} Target.new payload = create_fn (todo_options P) payload
submit_todo {P = P} (Target.edit todo) payload = update_fn (todo_options P) (todo.id, payload)

unfoldable pub todo_deleted : {I : Type 0} → Outcome I → World TodoState → World TodoState
todo_deleted outcome w =
    settle outcome
      (λ item v.
        show (codes "할일을 삭제했습니다.") ToastType.success
          (record (invalidate todo_keys v) { state = record v.state { delete_target = none } }))
      w

unfoldable pub todo_completed : {I : Type 0} → Outcome I → World TodoState → World TodoState
todo_completed outcome w = settle outcome (λ item v. invalidate todo_keys v) w

-- toggleComplete.
unfoldable pub toggle_todo : {P : Type 0} → TodoOut → TodoRequest P
toggle_todo todo = TodoRequest.complete todo.id (is_open todo.completed_at)

-- openCreate, openEdit and openDelete, and onCancel of the question.
abbrev pub open_todo_create : TodoState → TodoState
open_todo_create s = record s { form_target = some Target.new }

abbrev pub open_todo_edit : TodoOut → TodoState → TodoState
open_todo_edit todo s = record s { form_target = some (Target.edit todo) }

abbrev pub open_todo_delete : TodoOut → TodoState → TodoState
open_todo_delete todo s = record s { delete_target = some todo }

abbrev pub cancel_todo_delete : TodoState → TodoState
cancel_todo_delete s = record s { delete_target = none }
