-- ===== src/AmountInput/RoundTrip.antt =====
-- What the amount field shows reads back as what it stores.
use nestlio.Prelude.{
  ℕ, ◌≡◌, refl, ap, ◌∙◌, inl, inr, Bool, true, false, ◌&&◌, Option, none, some, [], ◌∷◌, ◌++◌,
  arith, ◌==◌, if◌then◌else◌, filter, filter-append, all, all-filter, Text, is_digit, starts_with,
  starts_with-trim, trim, split_at_char,
}
use nestlio.AmountInput.{
  is_kept, strip_zeros, or_zero, compose, is_word, show_parts, unsigned_amount,
  sanitize_amount_input, group_thousands, drop_sign, format_unsigned, format_amount_input,
}
use nestlio.AmountInput.Shape.{
  split-digits, split-digits_only, filter-digits, or_none, IsUnsigned, unsigned_amount-IsUnsigned,
  or_zero-digits, strip_zeros-or_zero, or_zero_idem, Head, digit_no_space, sanitize-eq,
  minus_dropped, and_false, whole-unsigned, point-unsigned, unsigned-Head,
}

filter-comma : (b : Bool) (t : Text) → filter is_kept (if b then b',' ∷ t else t) ≡ filter is_kept t
unfolding is_kept
filter-comma true t = refl
filter-comma false t = refl

-- Commas are all that grouping adds.
filter-group :
    (before : Bool) (t : Text) → filter is_kept (group_thousands before t) ≡ filter is_kept t
unfolding group_thousands
filter-group before [] = refl
filter-group before (c ∷ t) = rw filter-comma (ground (arith, filter-group (is_word c) t))

format_unsigned-eq :
    (u : Text) → format_unsigned u ≡ show_parts (split_at_char b'.' u).0 (split_at_char b'.' u).1
unfolding format_unsigned
format_unsigned-eq u = refl

module _ (int : Text) (hi : all is_digit int ≡ true) where
  -- A whole amount is shown as its grouped digits, and read without its commas.
  whole-format : filter is_kept (format_unsigned int) ≡ int
  unfolding show_parts
  whole-format =
      rw (format_unsigned-eq, split-digits_only int hi, filter-group) (filter-digits int hi)

module _ (int r : Text) (hi : all is_digit int ≡ true) (hr : all is_digit r ≡ true) where
  -- An amount with a point likewise; the digits behind the point are shown as they are.
  point-format : filter is_kept (format_unsigned (int ++ (b'.' ∷ r))) ≡ int ++ (b'.' ∷ r)
  unfolding show_parts is_kept
  point-format =
      rw
        (
          format_unsigned-eq,
          split-digits int r hi,
          split-digits_only r hr,
          filter-append,
          filter-group,
          filter-digits int hi,
        )
        (ap (λ t. int ++ (b'.' ∷ t)) (filter-digits r hr))

-- Reading a shown amount without a sign gives the amount back.
unsigned_amount-format :
    {u : Text} → IsUnsigned u → unsigned_amount (filter is_kept (format_unsigned u)) ≡ u
unsigned_amount-format {u} v =
    rw v.is_composed (shown v.int v.frac v.int_digits v.stripped v.frac_digits)
  where
    shown :
        (int : Text) (frac : Option Text)
        → all is_digit int ≡ true
        → strip_zeros int ≡ int
        → all is_digit (or_none frac) ≡ true
        → unsigned_amount (filter is_kept (format_unsigned (compose int frac))) ≡ compose int frac
    shown int none hi hs hf = unfold compose in rw (whole-format int hi) (whole-unsigned int hi hs)
    shown int (some r) hi hs hf =
        let zi = or_zero-digits int hi in
        unfold compose in
        rw (point-format (or_zero int) r zi hf) (
          rw (point-unsigned (or_zero int) r zi hf (strip_zeros-or_zero int hs), or_zero_idem) refl)

show_parts-head :
    (c : ℕ) (int : Text) (rest : Option Text) → (t : Text) × (show_parts (c ∷ int) rest ≡ c ∷ t)
unfolding show_parts
show_parts-head c int none = (group_thousands (is_word c) int, refl)
show_parts-head c int (some r) =
    (group_thousands (is_word c) int ++ (b'.' ∷ (split_at_char b'.' r).0), refl)

split-head :
    (c : ℕ) (t : Text)
    → is_digit c ≡ true
    → split_at_char b'.' (c ∷ t) ≡ (c ∷ (split_at_char b'.' t).0, (split_at_char b'.' t).1)
unfolding split_at_char
split-head c t h = let point : (c == b'.') ≡ false = ground arith in rw point refl

starts_with-format_unsigned :
    (c : ℕ) (t : Text)
    → is_digit c ≡ true
    → starts_with b'-' (trim (format_unsigned (c ∷ t))) ≡ false
starts_with-format_unsigned c t h =
    let (tail, shown) = show_parts-head c (split_at_char b'.' t).0 (split_at_char b'.' t).1 in
    rw (format_unsigned-eq, split-head c t h, shown)
      (starts_with-trim b'-' c tail (digit_no_space c h) ∙ ground arith)

-- Neither an unsigned amount nor what is shown for it begins with a minus.
Head-starts_with :
    (u : Text)
    → Head u
    → (starts_with b'-' u ≡ false) × (starts_with b'-' (trim (format_unsigned u)) ≡ false)
Head-starts_with u (inl e) = rw e (refl, unfold trim format_unsigned in refl)
Head-starts_with u (inr (c, t, d, e)) = rw e (ground arith, starts_with-format_unsigned c t d)

format-eq :
    (v : Text)
    → format_amount_input v
      ≡ (if starts_with b'-' v then b'-' ∷ format_unsigned (drop_sign v) else format_unsigned v)
unfolding format_amount_input
format-eq v = refl

module _ (u : Text) (v : IsUnsigned u) where
  -- The two shapes of a stored amount, each read back from what is shown.
  shown_positive : (n : Bool) → sanitize_amount_input (format_amount_input u) n ≡ u
  shown_positive n =
      let (plain, shown_plain) = Head-starts_with u (unsigned-Head v) in
      rw (format-eq, plain) (rw (sanitize-eq, shown_plain, and_false) (unsigned_amount-format v))

  shown_negative : sanitize_amount_input (format_amount_input (b'-' ∷ u)) true ≡ b'-' ∷ u
  shown_negative =
      rw (format-eq, sanitize-eq, starts_with-trim, minus_dropped)
        (ap (λ t. b'-' ∷ t) (unsigned_amount-format v))

-- Whatever is typed or pasted, what the field shows for the stored amount reads back as that same
-- stored amount: redrawing the commas never changes the value, with or without a sign.
pub sanitize-format :
    (raw : Text) (allow_negative : Bool)
    → sanitize_amount_input
        (format_amount_input (sanitize_amount_input raw allow_negative))
        allow_negative
      ≡ sanitize_amount_input raw allow_negative
sanitize-format raw n = rw (sanitize-eq raw n) (by_sign n (starts_with b'-' (trim raw)))
  where
    cleaned : IsUnsigned (unsigned_amount (filter is_kept raw))
    cleaned = unsigned_amount-IsUnsigned (filter is_kept raw) (all-filter is_kept raw)

    by_sign :
        (n s : Bool)
        → sanitize_amount_input
            (format_amount_input (
              if n && s
              then b'-' ∷ unsigned_amount (filter is_kept raw)
              else unsigned_amount (filter is_kept raw)))
            n
          ≡ (if n && s
              then b'-' ∷ unsigned_amount (filter is_kept raw)
              else unsigned_amount (filter is_kept raw))
    by_sign true true = shown_negative _ cleaned
    by_sign true false = shown_positive _ cleaned true
    by_sign false s = shown_positive _ cleaned false
