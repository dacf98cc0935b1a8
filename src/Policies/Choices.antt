-- ===== src/Policies/Choices.antt =====
-- Choosing the type of a policy (withPolicyType of
-- frontend/src/components/review/insurancePolicyDraft.ts).
use nestlio.Prelude.{
  ◌≡◌, refl, ◌∙◌, ◌⊎◌, inl, inr, ap, ◌==◌, arith, Bool-cases, true, List, [], ◌∷◌,
}
use nestlio.Types.Insurance.{PolicyType, Coverage}
use nestlio.Policies.{PolicyDraft, default_coverages, place, untouched, with_policy_type}

abbrev pub with_policy_types : PolicyDraft → List PolicyType → PolicyDraft
with_policy_types draft [] = draft
with_policy_types draft (t ∷ types) = with_policy_types (with_policy_type draft t) types

abbrev pub last_type : PolicyType → List PolicyType → PolicyType
last_type t [] = t
last_type t (u ∷ types) = last_type u types

defaults-untouched : (t : PolicyType) → untouched (default_coverages t) (default_coverages t) ≡ true
unfolding untouched default_coverages
defaults-untouched PolicyType.indemnity = refl
defaults-untouched PolicyType.diagnosis = refl
defaults-untouched PolicyType.life = refl
defaults-untouched PolicyType.accident = refl
defaults-untouched PolicyType.auto = refl
defaults-untouched PolicyType.home = refl
defaults-untouched PolicyType.savings = refl
defaults-untouched PolicyType.other = refl

same-medical_indemnity :
    (c : Coverage)
    → (place Coverage.medical_indemnity == place c) ≡ true
    → c ≡ Coverage.medical_indemnity
same-medical_indemnity Coverage.medical_indemnity e = refl
same-medical_indemnity Coverage.cancer e = ground arith
same-medical_indemnity Coverage.stroke e = ground arith
same-medical_indemnity Coverage.heart e = ground arith
same-medical_indemnity Coverage.surgery e = ground arith
same-medical_indemnity Coverage.hospitalization e = ground arith
same-medical_indemnity Coverage.death e = ground arith
same-medical_indemnity Coverage.disability e = ground arith
same-medical_indemnity Coverage.driver e = ground arith
same-medical_indemnity Coverage.driver_legal e = ground arith
same-medical_indemnity Coverage.liability e = ground arith
same-medical_indemnity Coverage.dental e = ground arith

same-death : (c : Coverage) → (place Coverage.death == place c) ≡ true → c ≡ Coverage.death
same-death Coverage.medical_indemnity e = ground arith
same-death Coverage.cancer e = ground arith
same-death Coverage.stroke e = ground arith
same-death Coverage.heart e = ground arith
same-death Coverage.surgery e = ground arith
same-death Coverage.hospitalization e = ground arith
same-death Coverage.death e = refl
same-death Coverage.disability e = ground arith
same-death Coverage.driver e = ground arith
same-death Coverage.driver_legal e = ground arith
same-death Coverage.liability e = ground arith
same-death Coverage.dental e = ground arith

same-driver : (c : Coverage) → (place Coverage.driver == place c) ≡ true → c ≡ Coverage.driver
same-driver Coverage.medical_indemnity e = ground arith
same-driver Coverage.cancer e = ground arith
same-driver Coverage.stroke e = ground arith
same-driver Coverage.heart e = ground arith
same-driver Coverage.surgery e = ground arith
same-driver Coverage.hospitalization e = ground arith
same-driver Coverage.death e = ground arith
same-driver Coverage.disability e = ground arith
same-driver Coverage.driver e = refl
same-driver Coverage.driver_legal e = ground arith
same-driver Coverage.liability e = ground arith
same-driver Coverage.dental e = ground arith

-- Coverages that count as untouched are the representative ones.
untouched-none : (cs : List Coverage) → untouched cs [] ≡ true → cs ≡ []
unfolding untouched
untouched-none [] h = refl
untouched-none (c ∷ cs) h = ground arith

untouched-one :
    (d : Coverage)
    → ((c : Coverage) → (place d == place c) ≡ true → c ≡ d)
    → (cs : List Coverage) → untouched cs (d ∷ []) ≡ true
    → cs ≡ d ∷ []
unfolding untouched
untouched-one d same [] h = ground arith
untouched-one d same (c ∷ []) h = ap (λ x. x ∷ []) (same c (ground arith))
untouched-one d same (c ∷ (e ∷ cs)) h = ground arith

untouched-eq :
    (t : PolicyType) (cs : List Coverage)
    → untouched cs (default_coverages t) ≡ true
    → cs ≡ default_coverages t
unfolding default_coverages
untouched-eq PolicyType.indemnity cs h =
    untouched-one Coverage.medical_indemnity same-medical_indemnity cs h
untouched-eq PolicyType.diagnosis cs h = untouched-none cs h
untouched-eq PolicyType.life cs h = untouched-one Coverage.death same-death cs h
untouched-eq PolicyType.accident cs h = untouched-none cs h
untouched-eq PolicyType.auto cs h = untouched-one Coverage.driver same-driver cs h
untouched-eq PolicyType.home cs h = untouched-none cs h
untouched-eq PolicyType.savings cs h = untouched-none cs h
untouched-eq PolicyType.other cs h = untouched-none cs h

one-choice :
    (draft : PolicyDraft) (t : PolicyType)
    → draft.coverages ≡ default_coverages draft.policy_type
    → with_policy_type draft t ≡ record draft { policy_type = t; coverages = default_coverages t }
unfolding with_policy_type
one-choice draft t h =
    let same : untouched draft.coverages (default_coverages draft.policy_type) ≡ true =
      rw h (defaults-untouched draft.policy_type) in
    rw same refl

-- No type's representative coverages.
abbrev pub IsEdited : List Coverage → Type 0
IsEdited coverages = (t : PolicyType) → coverages ≡ default_coverages t → ⊥

edited-choice :
    (draft : PolicyDraft) (t : PolicyType)
    → IsEdited draft.coverages
    → with_policy_type draft t ≡ record draft { policy_type = t }
unfolding with_policy_type
edited-choice draft t h =
    elim (Bool-cases (untouched draft.coverages (default_coverages draft.policy_type))) [
      | inl e ↦ elim (h draft.policy_type (untouched-eq draft.policy_type draft.coverages e)) [ ]
      | inr e ↦ rw e refl
    ]

-- The coverages behind the last choice, of a draft that has its type's or edited ones.
abbrev pub chosen :
    (draft : PolicyDraft)
    → (draft.coverages ≡ default_coverages draft.policy_type) ⊎ IsEdited draft.coverages
    → PolicyType
    → List Coverage
chosen draft (inl h) last = default_coverages last
chosen draft (inr h) last = draft.coverages

-- A draft whose coverages are the representative ones of its type has those of the last choice
-- after any choices of a type, and one whose coverages are no type's representative ones keeps
-- them; nothing else but the type has changed.
pub with_policy_types-follows :
    (draft : PolicyDraft) (types : List PolicyType)
    (k : (draft.coverages ≡ default_coverages draft.policy_type) ⊎ IsEdited draft.coverages)
    → with_policy_types draft types ≡ record draft {
      policy_type = last_type draft.policy_type types;
      coverages = chosen draft k (last_type draft.policy_type types);
    }
with_policy_types-follows draft [] (inl h) = ap (λ cs. record draft { coverages = cs }) h
with_policy_types-follows draft [] (inr h) = refl
with_policy_types-follows draft (t ∷ types) (inl h) =
    ap (λ d. with_policy_types d types) (one-choice draft t h)
    ∙ with_policy_types-follows (record draft { policy_type = t; coverages = default_coverages t })
        types (inl refl)
with_policy_types-follows draft (t ∷ types) (inr h) =
    ap (λ d. with_policy_types d types) (edited-choice draft t h)
    ∙ with_policy_types-follows (record draft { policy_type = t }) types (inr h)
