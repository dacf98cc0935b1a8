-- ===== src/MonthlyGrid/Totals.antt =====
-- Splitting an amount evenly over a period adds up to the amount again.
use nestlio.Prelude.{
  ℕ, suc, ◌+◌, ◌-◌, ◌≤◌, ◌<◌, ◌≡◌, refl, ap, sym, ◌∙◌, List, [], ◌∷◌, arith, if◌then◌else◌, length,
  min, Text, text_eq_refl, text_eq_comm, All, none, number, show_ℤ, number-show_ℤ, whole,
  add_number, add_number-whole, or_zero_number,
}
use nestlio.Prelude.Int.{
  ℤ, pos, negsuc, ◌+ℤ◌, ◌-ℤ◌, ltb_ℤ, int_laws, div_ℤ, mod_ℤ, mul_ℕ, mul_ℕ-suc, mul_ℕ-zero,
  div_mod_ℤ, mod_ℤ-lt,
}
use nestlio.Months.{
  MonthlyTarget, map_get, amount_or_zero, show_month, shares_from, round_or_zero,
  build_year_month_range, distribute_amount_evenly,
}
use nestlio.Months.Distinct.{Differs, Distinct, build_year_month_range-Distinct}
use nestlio.Months.Range.{length-show}
use nestlio.MonthlyGrid.{total_from, total, read_months, handle_distribute_evenly}

abbrev extra : ℕ → ℕ → ℕ
extra i r = if ltb_ℤ (pos i) (pos r) then 1 else 0

extra-min : (i r : ℕ) → extra i r + min r i ≡ min r (i + 1)
extra-min i r = ground arith

or_zero-whole : (z : ℤ) → or_zero_number (whole z) ≡ whole z
or_zero-whole (pos n) = refl
or_zero-whole (negsuc n) = refl

nothing : (acc base : ℤ) (r i : ℕ) → acc ≡ acc +ℤ mul_ℕ base 0 +ℤ pos (min r (i + 0) - min r i)
nothing acc base r i = rw (mul_ℕ-zero base) (omega int_laws)

total-step :
    (acc share : ℤ) (ym : Text) (ts : List MonthlyTarget)
    → total_from (whole acc) (record { year_month = ym; target_amount = show_ℤ share } ∷ ts)
      ≡ total_from (whole (acc +ℤ share)) ts
unfolding total_from
total-step acc share ym ts =
    ap (λ x. total_from x ts)
      (ap (λ n. add_number (whole acc) (or_zero_number n)) (number-show_ℤ share)
        ∙ ap (add_number (whole acc)) (or_zero-whole share)
        ∙ add_number-whole acc share)

-- The shares from the month number `i` on add the base for each month, and one for each number
-- below `r` that is left.
total-shares :
    (acc base : ℤ) (r i : ℕ) (months : List Text)
    → total_from (whole acc) (shares_from base (pos r) i months)
      ≡ whole (acc +ℤ mul_ℕ base (length months) +ℤ pos (min r (i + length months) - min r i))
unfolding total_from shares_from
total-shares acc base r i [] = ap whole (nothing acc base r i)
total-shares acc base r i (ym ∷ months) =
    let share : ℤ = base +ℤ pos (extra i r) in
    let rest : acc
          +ℤ share
          +ℤ mul_ℕ base (length months)
          +ℤ pos (min r (i + 1 + length months) - min r (i + 1))
        ≡ acc
          +ℤ mul_ℕ base (suc (length months))
          +ℤ pos (min r (i + suc (length months)) - min r i) =
      rw (mul_ℕ-suc base (length months)) (omega (int_laws, extra-min i r)) in
    total-step acc share ym (shares_from base (pos r) (i + 1) months)
    ∙ total-shares (acc +ℤ share) base r (i + 1) months
    ∙ ap whole rest

-- The shares of `z` over at least one month.
total-shares_from_zero :
    (z : ℤ) (months : List Text)
    → 0 < length months
    → total_from (whole (pos 0)) (
        shares_from
          (div_ℤ z (length months))
          (z -ℤ mul_ℕ (div_ℤ z (length months)) (length months))
          0
          months)
      ≡ whole z
total-shares_from_zero z months h =
    let n = length months in
    let left : z -ℤ mul_ℕ (div_ℤ z n) n ≡ pos (mod_ℤ z n) = div_mod_ℤ z n h in
    let surplus : pos (min (mod_ℤ z n) (0 + n) - min (mod_ℤ z n) 0) ≡ z -ℤ mul_ℕ (div_ℤ z n) n =
      ap pos (omega (arith, mod_ℤ-lt z n h)) ∙ sym left in
    let all_of : pos 0 +ℤ mul_ℕ (div_ℤ z n) n +ℤ pos (min (mod_ℤ z n) (0 + n) - min (mod_ℤ z n) 0)
        ≡ z =
      rw surplus (omega int_laws) in
    rw left (total-shares (pos 0) (div_ℤ z n) (mod_ℤ z n) 0 months ∙ ap whole all_of)

total-distribute :
    (amount : Text) (months : List Text)
    → 0 < length months
    → total (distribute_amount_evenly amount months) ≡ whole (round_or_zero (number amount))
unfolding total distribute_amount_evenly
total-distribute amount [] h = absurd (omega arith)
total-distribute amount (ym ∷ months) h =
    total-shares_from_zero (round_or_zero (number amount)) (ym ∷ months) h

abbrev keys : List MonthlyTarget → List Text
keys [] = []
keys (t ∷ ts) = t.year_month ∷ keys ts

map_get-none :
    (key : Text) (ts : List MonthlyTarget) → All (Differs key) (keys ts) → map_get key ts ≡ none
unfolding map_get
map_get-none key [] h = refl
map_get-none key (t ∷ ts) h =
    ground (arith, map_get-none key ts h.1, text_eq_comm t.year_month key, h.0)

amount-skip :
    (t : MonthlyTarget) (ts : List MonthlyTarget) (k : Text)
    → Differs t.year_month k
    → amount_or_zero (t ∷ ts) k ≡ amount_or_zero ts k
unfolding amount_or_zero map_get
amount-skip t ts k h = ground arith

-- An entry that no key asks for can go.
read-skip :
    (t : MonthlyTarget) (ts : List MonthlyTarget) (ks : List Text)
    → All (Differs t.year_month) ks
    → read_months (t ∷ ts) ks ≡ read_months ts ks
unfolding read_months
read-skip t ts [] h = refl
read-skip t ts (k ∷ ks) h = cc (amount-skip t ts k h.0, read-skip t ts ks h.1)

amount_self :
    (t : MonthlyTarget) (ts : List MonthlyTarget)
    → All (Differs t.year_month) (keys ts)
    → amount_or_zero (t ∷ ts) t.year_month ≡ t.target_amount
unfolding amount_or_zero map_get
amount_self t ts h = ground (arith, map_get-none t.year_month ts h, text_eq_refl t.year_month)

-- Distinct entries are read back as they are.
read_self : (ts : List MonthlyTarget) → Distinct (keys ts) → read_months ts (keys ts) ≡ ts
unfolding read_months
read_self [] h = refl
read_self (t ∷ ts) h = cc (amount_self t ts h.0, read-skip t ts (keys ts) h.0, read_self ts h.1)

keys-shares :
    (base r : ℤ) (i : ℕ) (months : List Text) → keys (shares_from base r i months) ≡ months
unfolding shares_from
keys-shares base r i [] = refl
keys-shares base r i (ym ∷ months) = ap (λ ks. ym ∷ ks) (keys-shares base r (i + 1) months)

keys-distribute :
    (amount : Text) (months : List Text) → keys (distribute_amount_evenly amount months) ≡ months
unfolding distribute_amount_evenly
keys-distribute amount [] = refl
keys-distribute amount (ym ∷ months) = keys-shares _ _ 0 (ym ∷ months)

-- Where k is not before n, the button that splits an amount evenly over the months from n to k
-- writes amounts that add up
-- to the amount, rounded to a whole won: no won is lost or added by the division, also where the
-- amount is negative or no number (then the total is zero).
pub total-handle_distribute_evenly :
    (n k : ℕ) (amount : Text)
    → n ≤ k
    → total (handle_distribute_evenly (show_month (pos n)) (show_month (pos k)) amount)
      ≡ whole (round_or_zero (number amount))
unfolding handle_distribute_evenly
total-handle_distribute_evenly n k amount h =
    rw same (total-distribute amount months (omega (arith, length-show n k)))
  where
    months : List Text
    months = build_year_month_range (show_month (pos n)) (show_month (pos k))

    same :
        read_months (distribute_amount_evenly amount months) months
        ≡ distribute_amount_evenly amount months
    same = rw (keys-distribute amount months) at (
        read_self (distribute_amount_evenly amount months)
          (rw (keys-distribute amount months) (build_year_month_range-Distinct n k)))
