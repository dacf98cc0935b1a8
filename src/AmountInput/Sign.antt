-- ===== src/AmountInput/Sign.antt =====
-- The sign button keeps a stored amount a stored amount.
use nestlio.Prelude.{
  ◌≡◌, ◌==◌, ◌∙◌, sym, zero, suc, refl, ap, inl, inr, ℕ, Bool, true, false, not, ◌&&◌, ◌||◌, Option,
  none, some, [], ◌∷◌, ◌++◌, length, all, arith, is_digit, split_at_char, Number, nan, decimal,
  of_mantissa, digits_value, unsigned_number, signed_number, trim_end, trim_start, if◌then◌else◌,
  filter, all-filter, Text, starts_with, is_zero, number, is_empty, Bool-cases, starts_with-trim,
  trim,
}
use mathlib.Core.Path.{subst}
use nestlio.AmountInput.{
  compose, or_zero, is_kept, unsigned_amount, sanitize_amount_input, toggle_amount_sign,
}
use nestlio.AmountInput.Shape.{
  or_none, or_zero-digits, Head, digit_no_space, IsUnsigned, unsigned_amount-IsUnsigned,
  sanitize-eq, minus_dropped, and_false, unsigned-Head, unsigned_amount_self,
  Head-starts_with_plain,
}

module _ (u : Text) (v : IsUnsigned u) where
  sanitize_positive : (n : Bool) → sanitize_amount_input u n ≡ u
  sanitize_positive n =
      rw (sanitize-eq, (Head-starts_with_plain u (unsigned-Head v)).1, and_false)
        (unsigned_amount_self v)

  sanitize_negative : sanitize_amount_input (b'-' ∷ u) true ≡ b'-' ∷ u
  sanitize_negative =
      rw (sanitize-eq, starts_with-trim, minus_dropped)
        (ap (λ t. b'-' ∷ t) (unsigned_amount_self v))

  sanitize-toggle_positive :
      sanitize_amount_input (toggle_amount_sign u) true ≡ toggle_amount_sign u
  sanitize-toggle_positive =
      let (plain, _) = Head-starts_with_plain u (unsigned-Head v) in
      elim (Bool-cases (is_empty u || is_zero (number u))) [
        | inl e ↦ unfold toggle_amount_sign in rw (plain, e) (sanitize_positive true)
        | inr e ↦ unfold toggle_amount_sign in rw (plain, e) sanitize_negative
      ]

  sanitize-toggle_negative :
      sanitize_amount_input (toggle_amount_sign (b'-' ∷ u)) true ≡ toggle_amount_sign (b'-' ∷ u)
  unfolding toggle_amount_sign
  sanitize-toggle_negative = sanitize_positive true

-- Turning the sign over of what the field stores gives a text that is again stored as it is.
pub sanitize-toggle :
    (raw : Text)
    → sanitize_amount_input (toggle_amount_sign (sanitize_amount_input raw true)) true
      ≡ toggle_amount_sign (sanitize_amount_input raw true)
sanitize-toggle raw = rw (sanitize-eq raw true) (by_sign (starts_with b'-' (trim raw)))
  where
    u : Text
    u = unsigned_amount (filter is_kept raw)

    cleaned : IsUnsigned u
    cleaned = unsigned_amount-IsUnsigned (filter is_kept raw) (all-filter is_kept raw)

    by_sign :
        (s : Bool)
        → sanitize_amount_input (toggle_amount_sign (if s then b'-' ∷ u else u)) true
          ≡ toggle_amount_sign (if s then b'-' ∷ u else u)
    by_sign true = sanitize-toggle_negative u cleaned
    by_sign false = sanitize-toggle_positive u cleaned

abbrev negate : Number → Number
negate nan = nan
negate (decimal x m s) = decimal (not x) m s

negate-flip : {x : Bool} {m s : ℕ} (n : Number) → negate n ≡ decimal x m s → n ≡ decimal (not x) m s
negate-flip nan e = ground arith
negate-flip (decimal true m s) e = cc
negate-flip (decimal false m s) e = cc

of_mantissa-negate : (n : ℕ) (o : Option ℕ) → of_mantissa true n o ≡ negate (of_mantissa false n o)
of_mantissa-negate n none = refl
of_mantissa-negate n (some m) = refl

unsigned_number-negate : (u : Text) → unsigned_number true u ≡ negate (unsigned_number false u)
unfolding unsigned_number
unsigned_number-negate u = by_parts (split_at_char b'.' u).0 (fraction (split_at_char b'.' u).1)
  where
    fraction : Option Text → Text
    fraction none = []
    fraction (some r) = r

    by_parts :
        (int frac : Text)
        → (if is_empty int && is_empty frac
            then nan
            else of_mantissa true (length frac) (digits_value 0 (int ++ frac)))
          ≡ negate (
              if is_empty int && is_empty frac
              then nan
              else of_mantissa false (length frac) (digits_value 0 (int ++ frac)))
    by_parts [] [] = refl
    by_parts [] (c ∷ frac) = of_mantissa-negate _ _
    by_parts (c ∷ int) frac = of_mantissa-negate _ _

trim_end_self : (t : Text) → all is_kept t ≡ true → trim_end t ≡ t
unfolding trim_end is_kept
trim_end_self [] h = refl
trim_end_self (c ∷ t) h = ground (arith, trim_end_self t)

signed-digit :
    (c : ℕ) (t : Text) → is_digit c ≡ true → signed_number (c ∷ t) ≡ unsigned_number false (c ∷ t)
unfolding signed_number
signed-digit c t d = ground arith

-- A text of digits and points with a digit in front is read as it is, with a minus as its opposite.
number-minus :
    (c : ℕ) (t : Text)
    → is_digit c ≡ true
    → all is_kept (c ∷ t) ≡ true
    → number (b'-' ∷ (c ∷ t)) ≡ negate (number (c ∷ t))
unfolding number signed_number
number-minus c t d k =
    let kept : trim_end (c ∷ t) ≡ c ∷ t = trim_end_self (c ∷ t) k in
    let trimmed : trim (c ∷ t) ≡ c ∷ t = unfold trim trim_start in rw (digit_no_space c d) kept in
    let minus : trim (b'-' ∷ (c ∷ t)) ≡ b'-' ∷ (c ∷ t) =
      unfold trim trim_start trim_end in ap (λ u. b'-' ∷ u) kept in
    ap signed_number minus
    ∙ unsigned_number-negate (c ∷ t)
    ∙ sym (ap negate (ap signed_number trimmed ∙ signed-digit c t d))

-- How a number that is stored as v turns over: its value is the opposite one and a second press
-- brings the text back, but a zero never gets a minus.
abbrev pub Turns : Text → Number → Type 0
Turns v nan = Unit
Turns v (decimal x zero s) = starts_with b'-' (toggle_amount_sign v) ≡ false
Turns v (decimal x (suc m) s) =
    (number (toggle_amount_sign v) ≡ decimal (not x) (suc m) s)
    × (toggle_amount_sign (toggle_amount_sign v) ≡ v)

not_zero : (m : ℕ) → (suc m == 0) ≡ false
not_zero m = ground arith

module _ (c : ℕ) (t : Text) (d : is_digit c ≡ true) (k : all is_kept (c ∷ t) ≡ true) where
  plain : starts_with b'-' (c ∷ t) ≡ false
  plain = ground arith

  minus_added : is_zero (number (c ∷ t)) ≡ false → toggle_amount_sign (c ∷ t) ≡ b'-' ∷ (c ∷ t)
  minus_added e = unfold toggle_amount_sign in rw (plain, e) refl

  positive-Turns : (n : Number) → number (c ∷ t) ≡ n → Turns (c ∷ t) n
  positive-Turns nan e = tt
  positive-Turns (decimal x zero s) e = unfold toggle_amount_sign in rw (plain, e) plain
  positive-Turns (decimal x (suc m) s) e =
      let added = minus_added (rw e (not_zero m)) in
      (
        ap number added ∙ number-minus c t d k ∙ ap negate e,
        ap toggle_amount_sign added ∙ (unfold toggle_amount_sign in refl),
      )

  negative-Turns : (n : Number) → number (b'-' ∷ (c ∷ t)) ≡ n → Turns (b'-' ∷ (c ∷ t)) n
  negative-Turns nan e = tt
  negative-Turns (decimal x zero s) e = unfold toggle_amount_sign in plain
  negative-Turns (decimal x (suc m) s) e =
      let value : number (c ∷ t) ≡ decimal (not x) (suc m) s =
        negate-flip (number (c ∷ t)) (sym (number-minus c t d k) ∙ e) in
      unfold toggle_amount_sign in (value, minus_added (rw value (not_zero m)))

empty-Turns : Turns [] (number []) × Turns (b'-' ∷ []) (number (b'-' ∷ []))
unfolding number signed_number trim trim_start trim_end unsigned_number split_at_char
    toggle_amount_sign
empty-Turns = (refl, tt)

stored-Turns :
    (negative : Bool) (u : Text)
    → Head u
    → all is_kept u ≡ true
    → Turns (if negative then b'-' ∷ u else u) (number (if negative then b'-' ∷ u else u))
stored-Turns true u (inl e) k = rw e empty-Turns.1
stored-Turns false u (inl e) k = rw e empty-Turns.0
stored-Turns true u (inr (c, t, d, e)) k =
    rw e
      (negative-Turns c t d (subst (λ w. all is_kept w ≡ true) e k) (number (b'-' ∷ (c ∷ t))) refl)
stored-Turns false u (inr (c, t, d, e)) k =
    rw e (positive-Turns c t d (subst (λ w. all is_kept w ≡ true) e k) (number (c ∷ t)) refl)

digits-kept : (t : Text) → all is_digit t ≡ true → all is_kept t ≡ true
unfolding is_kept
digits-kept [] h = refl
digits-kept (c ∷ t) h = ground (arith, digits-kept t)

point-kept :
    (int r : Text)
    → all is_digit int ≡ true
    → all is_digit r ≡ true
    → all is_kept (int ++ (b'.' ∷ r)) ≡ true
unfolding is_kept
point-kept [] r h k = digits-kept r k
point-kept (c ∷ int) r h k = ground (arith, point-kept int r)

unsigned-kept : (u : Text) → IsUnsigned u → all is_kept u ≡ true
unfolding compose
unsigned-kept u v = rw v.is_composed (composed v.int v.frac v.int_digits v.frac_digits)
  where
    composed :
        (int : Text) (frac : Option Text)
        → all is_digit int ≡ true
        → all is_digit (or_none frac) ≡ true
        → all is_kept (compose int frac) ≡ true
    composed int none h k = digits-kept int h
    composed int (some r) h k = point-kept (or_zero int) r (or_zero-digits int h) k

-- Whatever is typed, the sign button turns the stored amount into the opposite number and pressed
-- again brings the text back, unless the amount is a zero, which never gets a minus, or a text that
-- is no number.
pub toggle-toggle :
    (raw : Text) → Turns (sanitize_amount_input raw true) (number (sanitize_amount_input raw true))
toggle-toggle raw = rw (sanitize-eq raw true) (
    stored-Turns (starts_with b'-' (trim raw)) (unsigned_amount (filter is_kept raw))
      (unsigned-Head cleaned) (unsigned-kept (unsigned_amount (filter is_kept raw)) cleaned))
  where
    cleaned : IsUnsigned (unsigned_amount (filter is_kept raw))
    cleaned = unsigned_amount-IsUnsigned (filter is_kept raw) (all-filter is_kept raw)
