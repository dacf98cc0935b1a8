-- ===== src/GoalForm/Steps.antt =====
-- The steps of the form of a goal and the milestones of a save
-- (frontend/src/components/financialPlan/GoalFormModal.tsx,
-- frontend/src/components/financialPlan/GoalsTab.tsx).
use nestlio.Prelude.{
  ℕ, ◌+◌, ◌==◌, ◌≡◌, refl, ap, ◌∙◌, Bool, true, false, not, ◌&&◌, Option, none, some, List, [], ◌∷◌,
  all, all-filter, leb, filter, if◌then◌else◌, is_empty, trim, max, ◌≤◌, ◌<◌, and_split, Number,
  decimal, Bool-cases, inl, inr, arith,
}
use nestlio.Types.Goals.{GoalKind}
use nestlio.GoalDraft.{Draft, is_challenge, is_combined, is_net_worth_kind}
use nestlio.Goals.{leb_number}
use nestlio.NetWorth.{less}
use nestlio.GoalForm.{ModalForm, submit_goal, goal_steps, largest, crossed_milestone, milestones_of}

abbrev at_step : Draft → ℕ → ModalForm
at_step d n = record { draft = d; step = n }

-- A submit of a long-term goal with a name, by its step.
submit-step :
    (d : Draft) (n : ℕ)
    → is_empty (trim d.name) ≡ false
    → d.kind ≡ GoalKind.goal
    → submit_goal (at_step d n)
      ≡ (if n + 1 == goal_steps then (at_step d n, some d) else (at_step d (n + 1), none))
unfolding submit_goal
submit-step d n h k =
    ap (λ b. outcome b d.kind) h ∙ ap (outcome false) k ∙ by_last (n + 1 == goal_steps)
  where
    outcome : Bool → GoalKind → ModalForm × Option Draft
    outcome unnamed kind =
        if unnamed
        then (at_step d 0, none)
        else if not (is_challenge kind)
            && (not (is_net_worth_kind kind)
                && (not (is_combined kind) && not (n + 1 == goal_steps)))
        then (at_step d (n + 1), none)
        else (at_step d n, some d)

    moves : ModalForm × Option Draft
    moves = (at_step d (n + 1), none)

    sends : ModalForm × Option Draft
    sends = (at_step d n, some d)

    by_last : (last : Bool) → (if not last then moves else sends) ≡ (if last then sends else moves)
    by_last true = refl
    by_last false = refl

-- A long-term goal with a name is sent by the third submit of its form, as it was entered.
pub submit_goal-third :
    (d : Draft)
    → is_empty (trim d.name) ≡ false
    → d.kind ≡ GoalKind.goal
    → (submit_goal (submit_goal (submit_goal (at_step d 0)).0).0).1 ≡ some d
submit_goal-third d h k =
    ap (λ r. (submit_goal (submit_goal r.0).0).1) (submit-step d 0 h k)
    ∙ ap (λ r. (submit_goal r.0).1) (submit-step d 1 h k)
    ∙ ap (λ r. r.1) (submit-step d 2 h k)

max-either : (p : ℕ → Bool) (n m : ℕ) → p n ≡ true → p m ≡ true → p (max n m) ≡ true
max-either p n m h k = elim (Bool-cases (leb n m)) [
  | inl e ↦ ap p (right (ground (arith, e))) ∙ k
  | inr e ↦ ap p (left (ground (arith, e))) ∙ h
]
  where
    right : n ≤ m → max n m ≡ m
    right e = omega (arith, e)

    left : m < n → max n m ≡ n
    left e = omega (arith, e)

-- The largest of some numbers that pass is a number that passes.
abbrev passes : (ℕ → Bool) → Option ℕ → Bool
passes p none = true
passes p (some m) = p m

largest-passes : (p : ℕ → Bool) (ms : List ℕ) → all p ms ≡ true → passes p (largest ms) ≡ true
unfolding largest
largest-passes p [] h = refl
largest-passes p (n ∷ ms) h =
    by_rest (largest ms) (largest-passes p ms (and_split (p n) (all p ms) h).1)
  where
    by_rest :
        (r : Option ℕ)
        → passes p r ≡ true
        → passes p (elim r [ none ↦ some n | some k ↦ some (max n k) ]) ≡ true
    by_rest none e = (and_split (p n) (all p ms) h).0
    by_rest (some k) e = max-either p n k (and_split (p n) (all p ms) h).0 e

-- A milestone that is celebrated was not reached before the save and is reached after it.
pub crossed_milestone-passes :
    (old_pct new_pct : Number) (kind : GoalKind)
    → passes
        (λ m. less old_pct (decimal false m 0) && leb_number (decimal false m 0) new_pct)
        (crossed_milestone old_pct new_pct kind)
      ≡ true
unfolding crossed_milestone
crossed_milestone-passes old_pct new_pct kind =
    largest-passes p (filter p (milestones_of kind)) (all-filter p (milestones_of kind))
  where
    p : ℕ → Bool
    p m = less old_pct (decimal false m 0) && leb_number (decimal false m 0) new_pct
