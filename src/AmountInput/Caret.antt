-- ===== src/AmountInput/Caret.antt =====
-- Where the caret lands after the commas are redrawn.
use nestlio.Prelude.{
  ℕ, zero, suc, ◌+◌, ◌≤◌, min, ◌≡◌, [], ◌∷◌, arith, if◌then◌else◌, length, take, Text,
}
use nestlio.AmountInput.{is_amount_char, digits_before, caret_from, caret_after}

-- The first place with `n` amount characters in front of it, or the end.
place : Text → ℕ → ℕ
place [] n = 0
place (c ∷ t) zero = 0
place (c ∷ t) (suc n) = suc (place t (if is_amount_char c then n else suc n))

caret_from-place :
    (t : Text) (n pos seen wanted : ℕ)
    → wanted ≡ seen + n
    → caret_from t pos seen wanted ≡ pos + place t n
unfolding caret_from place
caret_from-place [] n pos seen wanted e = omega arith
caret_from-place (c ∷ t) zero pos seen wanted e = ground arith
caret_from-place (c ∷ t) (suc n) pos seen wanted e = ground (
  arith,
  caret_from-place t n (pos + 1) (seen + 1) wanted,
  caret_from-place t (suc n) (pos + 1) seen wanted,
)

place_end : (t : Text) (n : ℕ) → place t n ≤ length t
unfolding place
place_end [] n = omega arith
place_end (c ∷ t) zero = omega arith
place_end (c ∷ t) (suc n) = omega (arith, place_end t (if is_amount_char c then n else suc n))

digits_before-place :
    (t : Text) (n : ℕ) → digits_before (take (place t n) t) ≡ min n (digits_before t)
unfolding place digits_before
digits_before-place [] n = omega arith
digits_before-place (c ∷ t) zero = omega arith
digits_before-place (c ∷ t) (suc n) =
    ground (arith, digits_before-place t n, digits_before-place t (suc n))

-- The caret stays inside the redrawn text, with as many digits, points and signs in front of it as
-- before the edit was redrawn, or with all of them if fewer are left.
pub caret_after-digits :
    (before formatted : Text)
    → (caret_after before formatted ≤ length formatted)
      × (digits_before (take (caret_after before formatted) formatted)
          ≡ min (digits_before before) (digits_before formatted))
unfolding caret_after
caret_after-digits before formatted =
    let n = digits_before before in
    let e : caret_from formatted 0 0 n ≡ place formatted n =
      omega (arith, caret_from-place formatted n 0 0 n (omega arith)) in
    rw e (place_end formatted n, digits_before-place formatted n)
