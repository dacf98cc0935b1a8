-- ===== src/AmountInput/Shape.antt =====
-- The texts that the amount field stores: what they look like, and that storing them again keeps them.
use nestlio.Prelude.{
  ℕ, ◌≡◌, refl, ap, ◌∙◌, ◌⊎◌, inl, inr, Bool, true, false, ◌&&◌, Option, none, some, [], ◌∷◌, ◌++◌,
  not, arith, ◌==◌, if◌then◌else◌, filter, filter-append, filter-all, all, all_mono, Text, is_digit,
  is_space, starts_with, starts_with-trim, trim, split_at_char,
}
use nestlio.AmountInput.{
  is_kept, strip_zeros, or_zero, compose, without_points, unsigned_amount, sanitize_amount_input,
}

pub strip_zeros_idem : (t : Text) → strip_zeros (strip_zeros t) ≡ strip_zeros t
unfolding strip_zeros
strip_zeros_idem [] = refl
strip_zeros_idem (c ∷ []) = refl
strip_zeros_idem (c ∷ d ∷ t) = ground (arith, strip_zeros_idem (d ∷ t))

pub strip_zeros-digits : (t : Text) → all is_digit t ≡ true → all is_digit (strip_zeros t) ≡ true
unfolding strip_zeros
strip_zeros-digits [] h = refl
strip_zeros-digits (c ∷ []) h = h
strip_zeros-digits (c ∷ d ∷ t) h = ground (arith, strip_zeros-digits (d ∷ t))

-- Digits only, in front of a point or alone, are the first part of the split.
pub split-digits :
    (t r : Text) → all is_digit t ≡ true → split_at_char b'.' (t ++ (b'.' ∷ r)) ≡ (t, some r)
unfolding split_at_char
split-digits [] r h = refl
split-digits (c ∷ t) r h = ground (arith, split-digits t r)

pub split-digits_only : (t : Text) → all is_digit t ≡ true → split_at_char b'.' t ≡ (t, none)
unfolding split_at_char
split-digits_only [] h = refl
split-digits_only (c ∷ t) h = ground (arith, split-digits_only t)

pub filter-digits : (t : Text) → all is_digit t ≡ true → filter is_kept t ≡ t
filter-digits t h =
    filter-all is_kept t (all_mono is_digit is_kept (λ c e. unfold is_kept in ground arith) t h)

pub kept_point :
    (int r : Text)
    → all is_digit int ≡ true
    → all is_digit r ≡ true
    → filter is_kept (int ++ (b'.' ∷ r)) ≡ int ++ (b'.' ∷ r)
unfolding is_kept
kept_point int r hi hr =
    rw (filter-append, filter-digits int hi) (ap (λ t. int ++ (b'.' ∷ t)) (filter-digits r hr))

pub no_point : (t : Text) → all is_digit t ≡ true → filter (λ c. not (c == b'.')) t ≡ t
no_point t h = filter-all _ t (all_mono is_digit (λ c. not (c == b'.')) (λ c e. ground arith) t h)

abbrev pub or_none : Option Text → Text
or_none none = []
or_none (some r) = r

pub kept_without_points :
    (r : Text) → all is_kept r ≡ true → all is_digit (or_none (without_points (some r))) ≡ true
unfolding is_kept
kept_without_points [] h = refl
kept_without_points (c ∷ r) h = ground (arith, kept_without_points r)

pub split-kept :
    (t : Text)
    → all is_kept t ≡ true
    → (all is_digit (split_at_char b'.' t).0 ≡ true)
      × (all is_digit (or_none (without_points (split_at_char b'.' t).1)) ≡ true)
unfolding split_at_char is_kept
split-kept [] h = (refl, refl)
split-kept (c ∷ t) h = ground (arith, split-kept t, kept_without_points t)

-- What a stored amount without a sign looks like.
pub record IsUnsigned (u : Text) : Type 0 where
  pub int : Text
  pub frac : Option Text
  pub int_digits : all is_digit int ≡ true
  pub stripped : strip_zeros int ≡ int
  pub frac_digits : all is_digit (or_none frac) ≡ true
  pub is_composed : u ≡ compose int frac

pub unsigned_amount-IsUnsigned : (t : Text) → all is_kept t ≡ true → IsUnsigned (unsigned_amount t)
unfolding unsigned_amount
unsigned_amount-IsUnsigned t h = record {
  int = strip_zeros (split_at_char b'.' t).0;
  frac = without_points (split_at_char b'.' t).1;
  int_digits = strip_zeros-digits (split_at_char b'.' t).0 (split-kept t h).0;
  stripped = strip_zeros_idem (split_at_char b'.' t).0;
  frac_digits = (split-kept t h).1;
  is_composed = refl;
}

pub or_zero-digits : (t : Text) → all is_digit t ≡ true → all is_digit (or_zero t) ≡ true
or_zero-digits [] h = refl
or_zero-digits (c ∷ t) h = h

pub strip_zeros-or_zero : (t : Text) → strip_zeros t ≡ t → strip_zeros (or_zero t) ≡ or_zero t
unfolding strip_zeros
strip_zeros-or_zero [] h = refl
strip_zeros-or_zero (c ∷ t) h = h

pub or_zero_idem : (t : Text) → or_zero (or_zero t) ≡ or_zero t
or_zero_idem [] = refl
or_zero_idem (c ∷ t) = refl

abbrev pub Head : Text → Type 0
Head u = (u ≡ []) ⊎ ((c : ℕ) × (t : Text) × (is_digit c ≡ true) × (u ≡ c ∷ t))

pub compose-Head :
    (int : Text) (frac : Option Text) → all is_digit int ≡ true → Head (compose int frac)
unfolding compose
compose-Head [] none h = inl refl
compose-Head (c ∷ t) none h = inr (c, t, ground arith, refl)
compose-Head [] (some r) h = inr (b'0', b'.' ∷ r, refl, refl)
compose-Head (c ∷ t) (some r) h = inr (c, t ++ (b'.' ∷ r), ground arith, refl)

pub digit_no_space : (c : ℕ) → is_digit c ≡ true → is_space c ≡ false
digit_no_space c h = ground arith

pub sanitize-eq :
    (raw : Text) (n : Bool)
    → sanitize_amount_input raw n ≡ (
        if n && starts_with b'-' (trim raw)
        then b'-' ∷ unsigned_amount (filter is_kept raw)
        else unsigned_amount (filter is_kept raw))
unfolding sanitize_amount_input
sanitize-eq raw n = refl

pub minus_dropped : (t : Text) → filter is_kept (b'-' ∷ t) ≡ filter is_kept t
unfolding is_kept
minus_dropped t = refl

pub and_false : (n : Bool) → (n && false) ≡ false
and_false true = refl
and_false false = refl

module _ (int : Text) (hi : all is_digit int ≡ true) where
  pub whole-unsigned : strip_zeros int ≡ int → unsigned_amount int ≡ int
  unfolding unsigned_amount
  whole-unsigned hs = rw (split-digits_only int hi) hs

module _ (int r : Text) (hi : all is_digit int ≡ true) (hr : all is_digit r ≡ true) where
  pub point-unsigned :
      strip_zeros int ≡ int → unsigned_amount (int ++ (b'.' ∷ r)) ≡ or_zero int ++ (b'.' ∷ r)
  unfolding unsigned_amount
  point-unsigned hs = rw (split-digits int r hi, hs, no_point r hr) refl

-- A stored amount without a sign is stored as it is.
pub unsigned_amount_self : {u : Text} → IsUnsigned u → unsigned_amount (filter is_kept u) ≡ u
unsigned_amount_self {u} v =
    rw v.is_composed (stored v.int v.frac v.int_digits v.stripped v.frac_digits)
  where
    stored :
        (int : Text) (frac : Option Text)
        → all is_digit int ≡ true
        → strip_zeros int ≡ int
        → all is_digit (or_none frac) ≡ true
        → unsigned_amount (filter is_kept (compose int frac)) ≡ compose int frac
    stored int none hi hs hf =
        unfold compose in rw (filter-digits int hi) (whole-unsigned int hi hs)
    stored int (some r) hi hs hf =
        let zi = or_zero-digits int hi in
        unfold compose in
        rw (kept_point (or_zero int) r zi hf) (
          rw (point-unsigned (or_zero int) r zi hf (strip_zeros-or_zero int hs), or_zero_idem) refl)

pub unsigned-Head : {u : Text} → IsUnsigned u → Head u
unsigned-Head v = rw v.is_composed (compose-Head v.int v.frac v.int_digits)

-- Neither does it begin with a minus.
pub Head-starts_with_plain :
    (u : Text) → Head u → (starts_with b'-' u ≡ false) × (starts_with b'-' (trim u) ≡ false)
Head-starts_with_plain u (inl e) = rw e (refl, unfold trim in refl)
Head-starts_with_plain u (inr (c, t, d, e)) =
    rw e (ground arith, starts_with-trim b'-' c t (digit_no_space c d) ∙ ground arith)
