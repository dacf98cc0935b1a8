-- ===== src/Months/Distinct.antt =====
-- No month stands twice in a period.
use nestlio.Prelude.{
  ℕ, zero, suc, ◌+◌, ◌-◌, ◌/◌, ◌%◌, ◌<◌, ◌≡◌, sym, ap, ◌∙◌, inl, inr, false, Option, some, List, [],
  ◌∷◌, arith, ltb, Bool-cases, All, Text, text_eq, text_eq→eq,
}
use nestlio.Prelude.Int.{pos}
use nestlio.Months.{show_month, range_month, range_from, build_year_month_range, year_month_parts}
use nestlio.Months.Texts.{parts-show_month}
use nestlio.Months.Range.{range_month-show, build-show}

abbrev pub Differs : Text → Text → Type 0
Differs key k = text_eq key k ≡ false

-- Each text differs from all that follow.
abbrev pub Distinct : List Text → Type 0
Distinct [] = Unit
Distinct (k ∷ ks) = All (Differs k) ks × Distinct ks

show_month-injective : (n k : ℕ) → show_month (pos n) ≡ show_month (pos k) → n ≡ k
show_month-injective n k e =
    let parts : ◌≡◌ {A = Option (ℕ × ℕ)} (some (n / 12, n % 12 + 1)) (some (k / 12, k % 12 + 1)) =
      sym (parts-show_month n) ∙ ap year_month_parts e ∙ parts-show_month k in
    ground arith

range_month-Differs : (n k : ℕ) → n < k → Differs (range_month (suc n)) (range_month (suc k))
range_month-Differs n k h =
    rw (range_month-show n, range_month-show k)
      (elim (Bool-cases (text_eq (show_month (pos n)) (show_month (pos k)))) [
        | inl e ↦ absurd (omega (arith, show_month-injective n k (text_eq→eq _ _ e)))
        | inr e ↦ e
      ])

range_from-Differs :
    (rounds n index : ℕ)
    → n < index
    → All (Differs (range_month (suc n))) (range_from rounds (suc index))
unfolding range_from
range_from-Differs zero n index h = tt
range_from-Differs (suc rounds) n index h =
    let next : suc index + 1 ≡ suc (index + 1) = omega arith in
    (range_month-Differs n index h, rw next (range_from-Differs rounds n (index + 1) (omega arith)))

range_from-Distinct : (rounds index : ℕ) → Distinct (range_from rounds (suc index))
unfolding range_from
range_from-Distinct zero index = tt
range_from-Distinct (suc rounds) index =
    let next : suc index + 1 ≡ suc (index + 1) = omega arith in
    rw next (
      range_from-Differs rounds index (index + 1) (omega arith),
      range_from-Distinct rounds (index + 1),
    )

pub build_year_month_range-Distinct :
    (n k : ℕ) → Distinct (build_year_month_range (show_month (pos n)) (show_month (pos k)))
build_year_month_range-Distinct n k = elim (Bool-cases (ltb k n)) [
  | inl e ↦ rw (build-show n k, e) tt
  | inr e ↦
      let next : n + 1 ≡ suc n = omega arith in
      rw (build-show n k, e, next) (range_from-Distinct (k - n + 1) n)
]
