-- ===== src/Months/Shift.antt =====
-- Moving a month by any number of months.
use nestlio.Prelude.{ℕ, ◌+◌, ◌*◌, ◌/◌, ◌%◌, ◌≤◌, ◌≡◌, ap, arith}
use nestlio.Prelude.Int.{ℤ, pos, ◌+ℤ◌, ◌-ℤ◌, int_laws}
use nestlio.Months.{full_year, show_month, shift_parts, shift_year_month}
use nestlio.Months.Texts.{parts-show_month}

pub full_year_late : (y : ℕ) → 100 ≤ y → full_year y ≡ y
unfolding full_year
full_year_late y h = ground arith

-- From the year 100 on, the month `n` counted from January of the year 0, moved by `d`, is the
-- month n + d.
pub shift-show_month :
    (n : ℕ) (d : ℤ) → 1200 ≤ n → shift_year_month (show_month (pos n)) d ≡ show_month (pos n +ℤ d)
unfolding shift_year_month shift_parts
shift-show_month n d h =
    let same : pos (n / 12 * 12 + (n % 12 + 1)) -ℤ pos 1 +ℤ d ≡ pos n +ℤ d = omega int_laws in
    rw (parts-show_month n, full_year_late (n / 12) (omega arith)) (ap show_month same)

-- Two moves are one move by the sum, and a move by -d undoes a move by d, as long as the month in
-- between is in the year 100 or later.
pub shift-shift :
    (n k : ℕ) (a b : ℤ)
    → 1200 ≤ n
    → 1200 ≤ k
    → pos n +ℤ a ≡ pos k
    → shift_year_month (shift_year_month (show_month (pos n)) a) b
      ≡ shift_year_month (show_month (pos n)) (a +ℤ b)
shift-shift n k a b hn hk e =
    let same : pos k +ℤ b ≡ pos n +ℤ (a +ℤ b) = rw (← e) (omega int_laws) in
    rw (shift-show_month n a hn, e, shift-show_month k b hk, shift-show_month n (a +ℤ b) hn)
      (ap show_month same)
