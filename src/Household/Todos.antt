-- ===== src/Household/Todos.antt =====
-- The todo list by person (frontend/src/utils/todos.ts).
use nestlio.Prelude.{
  all, not, ◌&&◌, str_eq, ◌+◌, ◌≡◌, refl, Bool, true, false, Option, none, some, List, [], ◌∷◌,
  filter, length, if◌then◌else◌, String, arith,
}
use nestlio.Types.Ledger.{UserOut, TodoOut}
use nestlio.Household.{TodoAssigneeFilter, matches_assignee, filter_todos_by_assignee}

abbrev pub is_shared : Option UserOut → Bool
is_shared none = true
is_shared (some u) = false

counts :
    (my_id : Option String) (o : Option UserOut)
    → ((if matches_assignee TodoAssigneeFilter.me my_id o then 1 else 0)
        + (if matches_assignee TodoAssigneeFilter.partner my_id o then 1 else 0))
      ≡ 1 + (if is_shared o then 1 else 0)
unfolding matches_assignee
counts my_id none = refl
counts my_id (some u) = ground arith

abbrev is_user : Option String → String → Bool
is_user none id = false
is_user (some my_id) id = str_eq id my_id

-- Nobody's todo in particular, or one of the user with the id; and nobody's, or one of another.
abbrev pub is_own : Option String → Option UserOut → Bool
is_own my_id none = true
is_own my_id (some u) = is_user my_id u.id

abbrev pub is_partners : Option String → Option UserOut → Bool
is_partners my_id none = true
is_partners my_id (some u) = not (is_user my_id u.id)

own-matches :
    (my_id : Option String) (o : Option UserOut)
    → (matches_assignee TodoAssigneeFilter.me my_id o ≡ is_own my_id o)
      × (matches_assignee TodoAssigneeFilter.partner my_id o ≡ is_partners my_id o)
unfolding matches_assignee
own-matches none none = (refl, refl)
own-matches (some id) none = (refl, refl)
own-matches none (some u) = (refl, refl)
own-matches (some id) (some u) = (refl, refl)

module _ (my_id : Option String) where
  own-listed :
      (todos : List TodoOut)
      → all
          (λ t. is_own my_id t.assignee)
          (filter_todos_by_assignee todos TodoAssigneeFilter.me my_id)
        ≡ true
  unfolding filter_todos_by_assignee
  own-listed [] = refl
  own-listed (t ∷ todos) = ground (arith, own-matches my_id t.assignee, own-listed todos)

  partners-listed :
      (todos : List TodoOut)
      → all
          (λ t. is_partners my_id t.assignee)
          (filter_todos_by_assignee todos TodoAssigneeFilter.partner my_id)
        ≡ true
  unfolding filter_todos_by_assignee
  partners-listed [] = refl
  partners-listed (t ∷ todos) = ground (arith, own-matches my_id t.assignee, partners-listed todos)

  occurrences :
      (p : TodoOut → Bool) (todos : List TodoOut)
      → length (filter p (filter_todos_by_assignee todos TodoAssigneeFilter.me my_id))
          + length (filter p (filter_todos_by_assignee todos TodoAssigneeFilter.partner my_id))
        ≡ length (filter p todos) + length (filter (λ t. p t && is_shared t.assignee) todos)
  unfolding filter_todos_by_assignee
  occurrences p [] = omega arith
  occurrences p (t ∷ todos) = ground (arith, counts my_id t.assignee, occurrences p todos)

-- The list "me" holds only todos of the own user or of nobody, the list "partner" only todos of
-- another or of nobody, and of the todos that pass any test the two lists hold together each as
-- often as it is there, and those of nobody once more: no todo is in neither list, also while the
-- own user is not known.
pub filter_todos_by_assignee-length :
    (p : TodoOut → Bool) (todos : List TodoOut) (my_id : Option String)
    → (all
          (λ t. is_own my_id t.assignee)
          (filter_todos_by_assignee todos TodoAssigneeFilter.me my_id)
        ≡ true)
      × (all
            (λ t. is_partners my_id t.assignee)
            (filter_todos_by_assignee todos TodoAssigneeFilter.partner my_id)
          ≡ true)
      × (length (filter p (filter_todos_by_assignee todos TodoAssigneeFilter.me my_id))
            + length (filter p (filter_todos_by_assignee todos TodoAssigneeFilter.partner my_id))
          ≡ length (filter p todos) + length (filter (λ t. p t && is_shared t.assignee) todos))
filter_todos_by_assignee-length p todos my_id =
    (own-listed my_id todos, partners-listed my_id todos, occurrences my_id p todos)
