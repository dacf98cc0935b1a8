-- ===== src/Household.antt =====
-- What the two people of a household share: the todo list with its filter by person
-- (frontend/src/utils/todos.ts) and the cheers that one leaves for the other
-- (frontend/src/utils/cheers.ts). A user id that is not there yet is none.
pub mod Todos
pub mod Cheers
use nestlio.Prelude.{
  Bool, true, false, not, ◌&&◌, ◌||◌, Option, none, some, List, [], ◌∷◌, ◌++◌, filter,
  if◌then◌else◌, String, str_eq, Text, text_eq,
}
use nestlio.Prelude.Sort.{sort_by}
use nestlio.Types.Ledger.{UserOut, TodoOut}
use nestlio.Types.Notifications.{
  NotificationReactionOut, NotifType, NotificationOut, NotificationListOut,
}
use nestlio.Ledger.{text_before}

-- TODO_ASSIGNEE_FILTERS.
pub data TodoAssigneeFilter : Type 0 where
  everyone me partner : TodoAssigneeFilter

-- id === myId.
abbrev pub is_me : Option String → String → Bool
is_me none id = false
is_me (some my_id) id = str_eq id my_id

unfoldable pub matches_assignee : TodoAssigneeFilter → Option String → Option UserOut → Bool
matches_assignee everyone my_id assignee = true
matches_assignee me my_id none = true
matches_assignee me my_id (some u) = is_me my_id u.id
matches_assignee partner my_id none = true
matches_assignee partner my_id (some u) = not (is_me my_id u.id)

unfoldable pub filter_todos_by_assignee :
    List TodoOut → TodoAssigneeFilter → Option String → List TodoOut
filter_todos_by_assignee todos everyone my_id = todos
filter_todos_by_assignee todos me my_id = filter (λ t. matches_assignee me my_id t.assignee) todos
filter_todos_by_assignee todos partner my_id =
    filter (λ t. matches_assignee partner my_id t.assignee) todos

abbrev pub is_missing : Option Text → Bool
is_missing none = true
is_missing (some t) = false

abbrev pub is_due_before : Option Text → Text → Bool
is_due_before none today = false
is_due_before (some due_date) today = text_before due_date today

unfoldable pub is_todo_overdue : TodoOut → Text → Bool
is_todo_overdue todo today = is_missing todo.completed_at && is_due_before todo.due_date today

-- CHEER_NOTIF_TYPES.has(type).
unfoldable pub is_cheer_type : NotifType → Bool
is_cheer_type NotifType.goal_milestone = true
is_cheer_type NotifType.challenge_success = true
is_cheer_type NotifType.goal_cheer = true
is_cheer_type NotifType.partner_saving = true
is_cheer_type _ = false

-- flatMap((n) => n.reactions).
abbrev pub reactions_of : List NotificationOut → List NotificationReactionOut
reactions_of [] = []
reactions_of (n ∷ ns) = n.reactions ++ reactions_of ns

-- b.created_at.localeCompare(a.created_at), at most 0.
unfoldable pub latest_first : NotificationReactionOut → NotificationReactionOut → Bool
latest_first a b = text_before b.created_at a.created_at || text_eq b.created_at a.created_at

unfoldable pub partner_cheers : List NotificationOut → String → List NotificationReactionOut
partner_cheers items my_user_id =
    filter (λ r. not (str_eq r.user_id my_user_id))
      (reactions_of (filter (λ n. is_cheer_type n.notif_type) items))

abbrev pub first_of : List NotificationReactionOut → Option NotificationReactionOut
first_of [] = none
first_of (r ∷ rs) = some r

-- `!notifications || !myUserId` first.
unfoldable pub latest_partner_cheer :
    Option NotificationListOut → Option String → Option NotificationReactionOut
latest_partner_cheer none my_user_id = none
latest_partner_cheer (some notifications) none = none
latest_partner_cheer (some notifications) (some my_user_id) =
    if str_eq my_user_id ""
    then none
    else first_of (sort_by latest_first (partner_cheers notifications.items my_user_id))
