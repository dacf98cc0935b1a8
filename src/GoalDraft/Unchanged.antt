-- ===== src/GoalDraft/Unchanged.antt =====
-- A goal that is opened in its form and saved unchanged
-- (frontend/src/components/financialPlan/goalDraft.ts).
use nestlio.Prelude.{
  ℕ, zero, suc, ◌≡◌, refl, ap, false, ◌||◌, Option, none, some, List, [], ◌∷◌, ◌++◌, map,
  if◌then◌else◌, or_else, Text, is_empty, Number, decimal, number, ◌==◌, show_ℕ, number-show_ℕ,
  arith, max,
}
use nestlio.Types.Goals.{FundingSourceType, FundingSourceOut, FinancialGoalOut}
use nestlio.GoalDraft.{
  source_ids, goal_ids, user_ids, draft_from_goal, PayloadSource, is_challenge, is_combined,
  is_net_worth, same_source, or_one, unless_empty, sources_of, to_payload,
}

-- The sources of one type, as the payload names them.
abbrev pub of_type : FundingSourceType → List FundingSourceOut → List PayloadSource
of_type type [] = []
of_type type (fs ∷ sources) =
    if same_source fs.type type
    then record { type = type; id = decimal false fs.id 0 } ∷ of_type type sources
    else of_type type sources

sources_of-source_ids :
    (type : FundingSourceType) (sources : List FundingSourceOut)
    → sources_of type (source_ids type sources) ≡ of_type type sources
unfolding sources_of source_ids
sources_of-source_ids type [] = refl
sources_of-source_ids type (fs ∷ sources) =
    ground (arith, number-show_ℕ fs.id, sources_of-source_ids type sources)

map-number :
    (ids : List ℕ) → map number (map show_ℕ ids) ≡ map {B = Number} (λ id. decimal false id 0) ids
map-number [] = refl
map-number (id ∷ ids) = rw (number-show_ℕ id, map-number ids) refl

priority-read : (n : ℕ) → or_one (number (show_ℕ n)) ≡ decimal false (max n 1) 0
priority-read n = rw (number-show_ℕ n) (at n)
  where
    at : (m : ℕ) → or_one (decimal false m 0) ≡ decimal false (max m 1) 0
    at zero = refl
    at (suc m) =
        let some_left : (suc m == 0) ≡ false = ground arith in
        rw some_left (ap (λ k. decimal false k 0) (omega arith))

date-read :
    (d : Option Text) → is_empty (or_else d (b'-' ∷ [])) ≡ false → unless_empty (or_else d []) ≡ d
date-read none h = refl
date-read (some t) h = rw h refl

-- Saving a goal without an edit sends back its kind, name and target date (one that is not the
-- empty text), its priority, though at least 1, and, read as the numbers that they were: for a
-- goal of its own savings each funding source, type by type, and for a combined goal its member
-- goals and users. The kinds whose progress comes from elsewhere send no sources.
pub to_payload-draft_from_goal :
    (today : Text) (goal : FinancialGoalOut)
    → is_empty (or_else goal.target_date (b'-' ∷ [])) ≡ false
    → ((to_payload (draft_from_goal today goal)).kind ≡ goal.kind)
      × ((to_payload (draft_from_goal today goal)).name ≡ goal.name)
      × ((to_payload (draft_from_goal today goal)).target_date ≡ goal.target_date)
      × ((to_payload (draft_from_goal today goal)).priority ≡ decimal false (max goal.priority 1) 0)
      × ((to_payload (draft_from_goal today goal)).funding_sources ≡ (
          if is_challenge goal.kind || is_net_worth goal.kind
          then []
          else of_type FundingSourceType.savings_product goal.funding_sources
            ++ (of_type FundingSourceType.account goal.funding_sources
                ++ of_type FundingSourceType.loan goal.funding_sources)))
      × ((to_payload (draft_from_goal today goal)).member_goal_ids ≡ (
          if is_combined goal.kind
          then some (map {B = Number} (λ id. decimal false id 0) (goal_ids goal.combined_members))
          else none))
      × ((to_payload (draft_from_goal today goal)).growlio_user_ids
          ≡ (if is_combined goal.kind then some (user_ids goal.combined_members) else none))
unfolding to_payload draft_from_goal
to_payload-draft_from_goal today goal h = (
  refl,
  refl,
  date-read goal.target_date h,
  priority-read goal.priority,
  rw (sources_of-source_ids, sources_of-source_ids, sources_of-source_ids) refl,
  ap (λ ids. if is_combined goal.kind then some ids else none)
      (map-number (goal_ids goal.combined_members)),
  refl,
)
