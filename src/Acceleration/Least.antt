-- ===== src/Acceleration/Least.antt =====
-- The months that a goal takes are the fewest (frontend/src/utils/goalAcceleration.ts).
use mathlib.Core.Path.{subst}
use nestlio.Prelude.{
  ℕ, zero, suc, ◌+◌, ◌-◌, ◌*◌, ◌^◌, ◌≤◌, ◌<◌, ◌≡◌, refl, sym, ap, ◌∙◌, true, false, Option, none,
  some, Text, Number, nan, decimal, number, add_number, arith,
}
use nestlio.Acceleration.{
  sub_number, max_zero, is_positive, not_positive, months_at, saved, months_to_goal_with_extra,
}
use nestlio.Acceleration.Rounding.{
  ceil_div, ceil_div-reaches, ceil_div-before, ceil_div-more, pow_pos, mul_pos, sub_number-months,
  add_number-whole, sub_number-whole,
}

-- A whole amount that is not negative, in any scale: 12000.00 too.
abbrev pub IsWhole : ℕ → Number → Type 0
IsWhole n nan = ⊥
IsWhole n (decimal x m s) = (x ≡ false) × (m ≡ n * 10 ^ s)

-- The months in which a monthly amount covers what is missing, and no fewer.
abbrev pub IsLeast : ℕ → ℕ → Option Number → Type 0
IsLeast missing pace none = pace ≡ 0
IsLeast missing pace (some months) =
    (k : ℕ) × (months ≡ decimal false k 0) × (missing ≤ k * pace) × ((k - 1) * pace < missing)

positive-tests :
    (m s : ℕ)
    → 0 < m
    → (is_positive (decimal false m s) ≡ true) × (not_positive (decimal false m s) ≡ false)
positive-tests zero s h = ground arith
positive-tests (suc m) s h = (refl, refl)

is_positive-zero : (m s : ℕ) → m ≡ 0 → is_positive (decimal false m s) ≡ false
is_positive-zero zero s h = refl
is_positive-zero (suc m) s h = ground arith

least : (d n : ℕ) → 0 < d → 0 < n → (ceil_div d n - 1) * n < d
least d n h k = by_months (ceil_div d n) refl
  where
    by_months : (j : ℕ) → ceil_div d n ≡ j → (ceil_div d n - 1) * n < d
    by_months zero e = omega (arith, ceil_div-reaches d n k, ap (λ i. i * n) e, h)
    by_months (suc j) e =
        let one_less : ceil_div d n - 1 ≡ j = omega (arith, e) in
        subst (λ i. i * n < d) (sym one_less) (ceil_div-before d n j k e)

module _ (ceil_quotient : Number → Number → Number)
    (whole_quotient : (m n s t : ℕ)
      → m < 2 ^ 53
      → n < 2 ^ 53
      → 0 < n
      → ceil_quotient (decimal false (m * 10 ^ s) s) (decimal false (n * 10 ^ t) t)
        ≡ decimal false (ceil_div m n) 0)
    (d : ℕ) (some_missing : 0 < d) (small : d < 2 ^ 53) (s : ℕ) where
  months_at-whole :
      (n t : ℕ)
      → 0 < n
      → n < 2 ^ 53
      → months_at ceil_quotient (decimal false (d * 10 ^ s) s) (decimal false (n * 10 ^ t) t)
        ≡ some (decimal false (ceil_div d n) 0)
  months_at-whole n t h k =
      rw ((positive-tests (n * 10 ^ t) t (mul_pos n (10 ^ t) h (pow_pos t))).0)
        (ap some (whole_quotient d n s t small k h))

  months_at-none :
      (t : ℕ)
      → months_at ceil_quotient (decimal false (d * 10 ^ s) s) (decimal false (0 * 10 ^ t) t) ≡ none
  months_at-none t = rw (is_positive-zero (0 * 10 ^ t) t (omega arith)) refl

  months_at-IsLeast :
      (n t : ℕ)
      → n < 2 ^ 53
      → IsLeast d n
          (months_at ceil_quotient (decimal false (d * 10 ^ s) s) (decimal false (n * 10 ^ t) t))
  months_at-IsLeast zero t k = subst (IsLeast d 0) (sym (months_at-none t)) refl
  months_at-IsLeast (suc n) t k =
      let pace : 0 < suc n = omega arith in
      subst (IsLeast d (suc n)) (sym (months_at-whole (suc n) t pace k)) (
        ceil_div d (suc n),
        refl,
        ceil_div-reaches d (suc n) pace,
        least d (suc n) some_missing pace,
      )

  saved-whole :
      (b e t u : ℕ)
      → b + e < 2 ^ 53
      → (k : ℕ) × (saved
            (months_at ceil_quotient (decimal false (d * 10 ^ s) s) (decimal false (b * 10 ^ t) t))
            (months_at ceil_quotient
              (decimal false (d * 10 ^ s) s)
              (decimal false ((b + e) * 10 ^ u) u))
          ≡ decimal false k 0)
  saved-whole zero e t u k = (0, rw (months_at-none t) refl)
  saved-whole (suc b) e t u k =
      let pace : 0 < suc b = omega arith in
      (
        ceil_div d (suc b) - ceil_div d (suc b + e),
        rw
            (
              months_at-whole (suc b) t pace (omega (arith, k)),
              months_at-whole (suc b + e) u (omega arith) k,
            )
            (sub_number-months _ _ (ceil_div-more d (suc b) e pace)),
      )

as_whole : (n : ℕ) (x : Number) → IsWhole n x → (s : ℕ) × (x ≡ decimal false (n * 10 ^ s) s)
as_whole n nan h = elim h [ ]
as_whole n (decimal x m s) h = (s, ap (λ y. decimal y m s) h.0 ∙ ap (λ k. decimal false k s) h.1)

missing_amount :
    (r c s t : ℕ) (a b : Number)
    → c < r
    → a ≡ decimal false (r * 10 ^ s) s
    → b ≡ decimal false (c * 10 ^ t) t
    → max_zero (sub_number a b) ≡ decimal false ((r - c) * 10 ^ (s + t)) (s + t)
missing_amount r c s t a b h e k =
    let parts : r ≡ r - c + c = omega (arith, h) in
    rw (e, k)
      (ap (λ n. max_zero (sub_number (decimal false (n * 10 ^ s) s) (decimal false (c * 10 ^ t) t)))
          parts
        ∙ sub_number-whole (r - c) c s t)

total_pace :
    (b e t u : ℕ) (x y : Number)
    → x ≡ decimal false (b * 10 ^ t) t
    → y ≡ decimal false (e * 10 ^ u) u
    → add_number x (max_zero y) ≡ decimal false ((b + e) * 10 ^ (t + u)) (t + u)
total_pace b e t u x y h k = rw (h, k) (add_number-whole b e t u)

-- Where the amounts are whole, what is missing and the monthly sum stay below 2 ^ 53, and the
-- division of such numbers, rounded up, is exact, both answers are the fewest months in which the
-- monthly amount, without and with the extra money, covers what is missing, none where that amount
-- is zero, and the months saved are a whole number that is not negative.
pub months_to_goal_with_extra-IsLeast :
    (ceil_quotient : Number → Number → Number)
    → ((m n s t : ℕ)
        → m < 2 ^ 53
        → n < 2 ^ 53
        → 0 < n
        → ceil_quotient (decimal false (m * 10 ^ s) s) (decimal false (n * 10 ^ t) t)
          ≡ decimal false (ceil_div m n) 0)
    → (required current monthly : Text) (extra : Number) (r c b e : ℕ) → IsWhole r (number required)
    → IsWhole c (number current)
    → IsWhole b (number monthly)
    → IsWhole e extra
    → c < r
    → r < 2 ^ 53
    → b + e < 2 ^ 53
    → IsLeast
        (r - c)
        b
        (months_to_goal_with_extra ceil_quotient required current monthly extra).base_months
      × IsLeast
          (r - c)
          (b + e)
          (months_to_goal_with_extra ceil_quotient required current monthly extra).new_months
      × ((k : ℕ) × ((months_to_goal_with_extra ceil_quotient required current monthly
              extra).months_saved
            ≡ decimal false k 0))
unfolding months_to_goal_with_extra
months_to_goal_with_extra-IsLeast ceil_quotient whole_quotient required current monthly extra r c b
      e hr hc hb he less small pace_small =
    let (s, er) = as_whole r (number required) hr in
    let (t, ec) = as_whole c (number current) hc in
    let (u, eb) = as_whole b (number monthly) hb in
    let (v, ee) = as_whole e extra he in
    let some_missing : 0 < r - c = omega (arith, less) in
    let bounded : r - c < 2 ^ 53 = omega (arith, small) in
    let missing = missing_amount r c s t (number required) (number current) less er ec in
    let positive =
      (positive-tests ((r - c) * 10 ^ (s + t)) (s + t)
        (mul_pos (r - c) (10 ^ (s + t)) some_missing (pow_pos (s + t)))).1 in
    rw (missing, total_pace b e u v (number monthly) extra eb ee, eb, positive)
      (
        months_at-IsLeast ceil_quotient whole_quotient (r - c) some_missing bounded (s + t) b u
            (omega (arith, pace_small)),
        months_at-IsLeast ceil_quotient whole_quotient (r - c) some_missing bounded (s + t) (b + e)
            (u + v) pace_small,
        saved-whole ceil_quotient whole_quotient (r - c) some_missing bounded (s + t) b e u (u + v)
            pace_small,
      )
