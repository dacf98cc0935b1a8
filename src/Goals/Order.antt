-- ===== src/Goals/Order.antt =====
-- The order of the goals (frontend/src/utils/goalSort.ts).
use nestlio.Prelude.{
  ℕ, zero, suc, ◌≡◌, refl, ◌≤◌, Bool, true, false, ◌&&◌, List, [], ◌∷◌, ◌++◌, filter, All, leb,
  if◌then◌else◌, Text, arith, append-nil, Bool-cases, inl, inr,
}
use nestlio.Prelude.Int.{ℤ, leb_ℤ}
use nestlio.Prelude.Sort.{sort_by, sort_by-perm, sort_by-IsSortedBy, IsSortedBy}
use nestlio.Types.Goals.{GoalKind, FinancialGoalOut}
use nestlio.Goals.{
  GoalSortLabel, goal_order, sort_goals, deadline_rank, pin_rank, is_kind,
  pin_household_goals_first,
}
use mathlib.Core.Path.{subst}
use mathlib.Core.List.{Perm, perm_middle}
use mathlib.Core.List.Perm

leb_ℤ-total : (a b : ℤ) → leb_ℤ a b ≡ false → leb_ℤ b a ≡ true
leb_ℤ-total a b h = ground arith

leb_ℤ-trans : (a b c : ℤ) → leb_ℤ a b ≡ true → leb_ℤ b c ≡ true → leb_ℤ a c ≡ true
leb_ℤ-trans a b c h k = ground arith

pin_rank_bound : (k : GoalKind) → pin_rank k ≤ 2
pin_rank_bound GoalKind.goal = omega arith
pin_rank_bound GoalKind.challenge = omega arith
pin_rank_bound GoalKind.net_worth = omega arith
pin_rank_bound GoalKind.combined = omega arith

-- A list is what its elements of the three ranks hold together.
module _ (g : FinancialGoalOut) (xs ys zs goals : List FinancialGoalOut)
    (rest : Perm (xs ++ (ys ++ zs)) goals) where
  rank_split :
      (n : ℕ)
      → n ≤ 2
      → Perm
          ((if leb 0 n && leb n 0 then g ∷ xs else xs)
            ++ ((if leb 1 n && leb n 1 then g ∷ ys else ys)
                ++ (if leb 2 n && leb n 2 then g ∷ zs else zs)))
          (g ∷ goals)
  rank_split zero h = Perm.cons g rest
  rank_split (suc zero) h = Perm.trans (perm_middle xs (ys ++ zs)) (Perm.cons g rest)
  rank_split (suc (suc zero)) h =
      Perm.trans (Perm.append_left xs (perm_middle ys zs))
        (Perm.trans (perm_middle xs (ys ++ zs)) (Perm.cons g rest))
  rank_split (suc (suc (suc n))) h = ground arith

pin_household_goals_first-perm :
    (goals : List FinancialGoalOut) → Perm (pin_household_goals_first goals) goals
unfolding pin_household_goals_first
pin_household_goals_first-perm [] = Perm.refl []
pin_household_goals_first-perm (g ∷ goals) =
    rank_split g (filter (is_kind 0) goals) (filter (is_kind 1) goals) (filter (is_kind 2) goals)
      goals (pin_household_goals_first-perm goals) (pin_rank g.kind) (pin_rank_bound g.kind)

-- The order of the ranks.
abbrev pub by_rank : FinancialGoalOut → FinancialGoalOut → Bool
by_rank a b = leb (pin_rank a.kind) (pin_rank b.kind)

abbrev HasRank : (ℕ → ℕ → Bool) → ℕ → FinancialGoalOut → Type 0
HasRank test n g = test n (pin_rank g.kind) ≡ true

filter-HasRank :
    (n k : ℕ)
    → leb n k ≡ true
    → (goals : List FinancialGoalOut) → All (HasRank leb n) (filter (is_kind k) goals)
filter-HasRank n k h [] = tt
filter-HasRank n k h (g ∷ goals) = elim (Bool-cases (is_kind k g)) [
  | inl e ↦ rw e (ground arith, filter-HasRank n k h goals)
  | inr e ↦ rw e (filter-HasRank n k h goals)
]

All-append :
    (P : FinancialGoalOut → Type 0) (xs ys : List FinancialGoalOut)
    → All P xs
    → All P ys
    → All P (xs ++ ys)
All-append P [] ys a b = b
All-append P (x ∷ xs) ys a b = (a.0, All-append P xs ys a.1 b)

All-below :
    (g : FinancialGoalOut) (xs : List FinancialGoalOut)
    → All (HasRank leb (pin_rank g.kind)) xs
    → All (λ y. by_rank g y ≡ true) xs
All-below g [] a = tt
All-below g (x ∷ xs) a = (a.0, All-below g xs a.1)

-- The elements of one rank may stand in front of a sorted list of elements of that rank or later.
front-IsSortedBy :
    (n : ℕ) (goals ys : List FinancialGoalOut)
    → All (HasRank leb n) ys
    → IsSortedBy by_rank ys
    → IsSortedBy by_rank (filter (is_kind n) goals ++ ys)
front-IsSortedBy n [] ys a s = s
front-IsSortedBy n (g ∷ goals) ys a s = elim (Bool-cases (is_kind n g)) [
  | inl e ↦
      let same : n ≡ pin_rank g.kind = ground arith in
      let here : All (HasRank leb n) (filter (is_kind n) goals ++ ys) =
        All-append (HasRank leb n) (filter (is_kind n) goals) ys
          (filter-HasRank n n (ground arith) goals) a in
      rw e (
        All-below g (filter (is_kind n) goals ++ ys)
            (subst (λ k. All (HasRank leb k) (filter (is_kind n) goals ++ ys)) same here),
        front-IsSortedBy n goals ys a s,
      )
  | inr e ↦ rw e (front-IsSortedBy n goals ys a s)
]

pin_household_goals_first-IsSortedBy :
    (goals : List FinancialGoalOut) → IsSortedBy by_rank (pin_household_goals_first goals)
unfolding pin_household_goals_first
pin_household_goals_first-IsSortedBy goals =
    front-IsSortedBy 0 goals (filter (is_kind 1) goals ++ filter (is_kind 2) goals)
      (All-append (HasRank leb 0) (filter (is_kind 1) goals) (filter (is_kind 2) goals)
        (filter-HasRank 0 1 refl goals) (filter-HasRank 0 2 refl goals))
      (front-IsSortedBy 1 goals (filter (is_kind 2) goals) (filter-HasRank 1 2 refl goals) (
        subst (IsSortedBy by_rank) (append-nil (filter (is_kind 2) goals))
          (front-IsSortedBy 2 goals [] tt tt)))

-- Under each of the three orders the list of goals, with the household's goals pinned, has each
-- goal as often as it was given and no other, the combined goals first, then the net worth goals,
-- then the rest; before the pinning it is sorted by the priority or by the deadline where that
-- order is chosen.
pub sort_goals-listing :
    (time_of : Text → ℤ) (today : ℤ) (goals : List FinancialGoalOut) (option : GoalSortLabel)
    → Perm (pin_household_goals_first (sort_goals time_of today goals option)) goals
      × IsSortedBy by_rank (pin_household_goals_first (sort_goals time_of today goals option))
      × IsSortedBy
          (λ a b. leb a.priority b.priority)
          (sort_goals time_of today goals GoalSortLabel.by_priority)
      × IsSortedBy
          (λ a b. leb_ℤ (deadline_rank time_of today a) (deadline_rank time_of today b))
          (sort_goals time_of today goals GoalSortLabel.by_deadline)
unfolding sort_goals goal_order
sort_goals-listing time_of today goals option = (
  Perm.trans (pin_household_goals_first-perm (sort_by (goal_order time_of today option) goals))
      (sort_by-perm (goal_order time_of today option) goals),
  pin_household_goals_first-IsSortedBy (sort_by (goal_order time_of today option) goals),
  sort_by-IsSortedBy (λ a b. leb a.priority b.priority) (λ a b h. ground arith)
      (λ a b c h k. ground arith) goals,
  sort_by-IsSortedBy (λ a b. leb_ℤ (deadline_rank time_of today a) (deadline_rank time_of today b))
      (λ a b h. leb_ℤ-total (deadline_rank time_of today a) (deadline_rank time_of today b) h)
      (λ a b c h k.
        leb_ℤ-trans (deadline_rank time_of today a) (deadline_rank time_of today b)
          (deadline_rank time_of today c) h k)
      goals,
)
