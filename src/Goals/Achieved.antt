-- ===== src/Goals/Achieved.antt =====
-- The list of achieved goals against the cards (frontend/src/utils/goalStatus.ts).
use nestlio.Prelude.{◌≡◌, refl, Bool, true, false, Option, none, some, if◌then◌else◌, Text}
use nestlio.Prelude.Int.{ℤ}
use nestlio.Types.Goals.{EffectiveStatus, FinancialGoalOut}
use nestlio.Goals.{
  is_challenge, compute_challenge_status, challenge_status, compute_goal_status,
  compute_card_status, is_goal_achieved, is_achieved_status, has_succeeded,
}

by_status : (s : Option EffectiveStatus) → has_succeeded s ≡ is_achieved_status (challenge_status s)
unfolding challenge_status
by_status none = refl
by_status (some EffectiveStatus.active) = refl
by_status (some EffectiveStatus.succeeded) = refl
by_status (some EffectiveStatus.expired) = refl

-- The list of achieved goals and the cards agree: a goal is moved to it exactly when its card
-- shows the status "achieved", for challenges and for the other kinds, whatever the date.
pub is_goal_achieved-card :
    (time_of : Text → ℤ) (today : ℤ) (goal : FinancialGoalOut)
    → is_goal_achieved time_of today goal
      ≡ is_achieved_status (compute_card_status time_of today goal)
unfolding is_goal_achieved compute_card_status compute_challenge_status
is_goal_achieved-card time_of today goal = by_kind (is_challenge goal.kind)
  where
    by_kind :
        (b : Bool)
        → (if b
            then has_succeeded goal.effective_status
            else is_achieved_status (compute_goal_status time_of today goal))
          ≡ is_achieved_status (
              if b
              then challenge_status goal.effective_status
              else compute_goal_status time_of today goal)
    by_kind true = by_status goal.effective_status
    by_kind false = refl
