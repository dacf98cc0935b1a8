-- ===== src/Months/Range.antt =====
-- The list of months of a period is the start moved by 0, 1, 2, … up to the end.
use nestlio.Prelude.{
  ℕ, zero, suc, ◌+◌, ◌-◌, ◌*◌, ◌/◌, ◌%◌, ◌≤◌, ◌≡◌, refl, ap, sym, ◌∙◌, false, none, some, [], arith,
  ltb, inl, inr, Bool-cases, if◌then◌else◌, length, get_elem?, show_ℤ,
}
use nestlio.Prelude.Int.{pos, ◌+ℤ◌, div_ℤ, mod_ℤ}
use nestlio.Months.{
  show_month, shift_year_month, range_month, range_from, range_between, build_year_month_range,
}
use nestlio.Months.Texts.{parts-show_month, is_empty-show_month}
use nestlio.Months.Shift.{shift-show_month}

pub range_month-show : (n : ℕ) → range_month (suc n) ≡ show_month (pos n)
unfolding range_month show_month div_ℤ mod_ℤ show_ℤ
range_month-show n = refl

zero_more : (index : ℕ) → index + 0 ≡ index
zero_more index = omega arith

one_more : (index i : ℕ) → index + 1 + i ≡ index + suc i
one_more index i = omega arith

get_elem?-range_from :
    (rounds index i : ℕ)
    → get_elem? (range_from rounds index) i
      ≡ (if ltb i rounds then some (range_month (index + i)) else none)
unfolding range_from
get_elem?-range_from zero index i = ground arith
get_elem?-range_from (suc rounds) index zero = ground (arith, ap range_month (zero_more index))
get_elem?-range_from (suc rounds) index (suc i) =
    ground (arith, get_elem?-range_from rounds (index + 1) i, ap range_month (one_more index i))

length-range_from : (rounds index : ℕ) → length (range_from rounds index) ≡ rounds
unfolding range_from
length-range_from zero index = refl
length-range_from (suc rounds) index = ap suc (length-range_from rounds (index + 1))

index_eq : (n : ℕ) → n / 12 * 12 + (n % 12 + 1) ≡ n + 1
index_eq n = omega arith

rounds_eq : (n k : ℕ) → k + 1 - (n + 1) + 1 ≡ k - n + 1
rounds_eq n k = omega arith

pub build-show :
    (n k : ℕ)
    → build_year_month_range (show_month (pos n)) (show_month (pos k))
      ≡ (if ltb k n then [] else range_from (k - n + 1) (n + 1))
unfolding build_year_month_range range_between
build-show n k =
    rw (is_empty-show_month n, is_empty-show_month k, parts-show_month n, parts-show_month k)
      (rw (index_eq n, index_eq k) (ground (arith, ap (λ r. range_from r (n + 1)) (rounds_eq n k))))

ltb-false : (k n : ℕ) → ltb k n ≡ false → n ≤ k
ltb-false k n h = ground arith

month_at :
    (n i : ℕ) → 1200 ≤ n → range_month (n + 1 + i) ≡ shift_year_month (show_month (pos n)) (pos i)
month_at n i h =
    let here : n + 1 + i ≡ suc (n + i) = omega arith in
    let moved : pos (n + i) ≡ pos n +ℤ pos i = unfold ◌+ℤ◌ in ground arith in
    rw here (range_month-show (n + i) ∙ ap show_month moved ∙ sym (shift-show_month n (pos i) h))

-- A period has as many months as lie between its ends.
pub length-show :
    (n k : ℕ)
    → length (build_year_month_range (show_month (pos n)) (show_month (pos k))) ≡ k + 1 - n
length-show n k = elim (Bool-cases (ltb k n)) [
  | inl e ↦ rw (build-show n k, e) (ground arith)
  | inr e ↦
      rw (build-show n k, e) (omega (arith, ltb-false k n e, length-range_from (k - n + 1) (n + 1)))
]

-- For a period from the month n, in the year 100 or later, to the month k: its months are as many
-- as lie between its ends, none if it ends before it starts, and the i-th of them is the start moved
-- by i months.
pub build_year_month_range-get_elem? :
    (n k i : ℕ)
    → 1200 ≤ n
    → (length (build_year_month_range (show_month (pos n)) (show_month (pos k))) ≡ k + 1 - n)
      × (get_elem? (build_year_month_range (show_month (pos n)) (show_month (pos k))) i ≡ (
          if ltb (n + i) (k + 1)
          then some (shift_year_month (show_month (pos n)) (pos i))
          else none))
build_year_month_range-get_elem? n k i h = elim (Bool-cases (ltb k n)) [
  | inl e ↦ (length-show n k, rw (build-show n k, e) (ground arith))
  | inr e ↦ (
    length-show n k,
    rw (build-show n k, e)
        (ground (arith, get_elem?-range_from (k - n + 1) (n + 1) i, month_at n i h)),
  )
]
