-- ===== src/AmountInput.antt =====
-- The amount field of every form (frontend/src/components/common/AmountInput.tsx), over the text
-- of the field as the list of its code units: what an edit stores (`sanitize_amount_input`), what
-- the field shows for it (`format_amount_input`), the sign button (`toggle_amount_sign`), and where
-- the caret goes after the commas are redrawn. A regular expression is written out as the walk
-- that it stands for. The DOM and JSX around these functions are not modelled.
mod Shape
pub mod RoundTrip
pub mod Caret
pub mod Sign
use nestlio.Prelude.{
  ℕ, suc, ◌+◌, ◌%◌, Bool, true, false, ◌&&◌, ◌||◌, Option, none, some, List, [], ◌∷◌, ◌++◌, not,
  ltb, leb, ◌==◌, if◌then◌else◌, length, filter, Text, is_digit, is_empty, starts_with, trim,
  split_at_char, Number, number, is_zero,
}

-- [0-9.], what `sanitizeAmountInput` keeps of the text.
unfoldable pub is_kept : ℕ → Bool
is_kept c = is_digit c || (c == b'.')

-- replace(/^0+(?=\d)/, ""): a zero goes as long as a digit follows it.
unfoldable pub strip_zeros : Text → Text
strip_zeros [] = []
strip_zeros (c ∷ []) = c ∷ []
strip_zeros (c ∷ d ∷ t) =
    let rest = strip_zeros (d ∷ t) in if (c == b'0') && is_digit d then rest else c ∷ d ∷ t

-- `x || "0"`.
abbrev pub or_zero : Text → Text
or_zero [] = b'0' ∷ []
or_zero (c ∷ t) = c ∷ t

-- The template `${int || "0"}.${fracPart}`, or `int` alone.
unfoldable pub compose : Text → Option Text → Text
compose int none = int
compose int (some frac) = or_zero int ++ (b'.' ∷ frac)

-- cleaned.slice(dot + 1).replace(/\./g, "").
abbrev pub without_points : Option Text → Option Text
without_points none = none
without_points (some r) = some (filter (λ c. not (c == b'.')) r)

-- The digits and points that were typed, as an amount without a sign.
unfoldable pub unsigned_amount : Text → Text
unfolding strip_zeros compose split_at_char
unsigned_amount cleaned =
    let (int_part, frac_part) = split_at_char b'.' cleaned in
    compose (strip_zeros int_part) (without_points frac_part)

unfoldable pub sanitize_amount_input : Text → Bool → Text
unfolding is_kept unsigned_amount trim
sanitize_amount_input raw allow_negative =
    let negative = allow_negative && starts_with b'-' (trim raw) in
    let unsigned = unsigned_amount (filter is_kept raw) in
    if negative then b'-' ∷ unsigned else unsigned

-- `\w` of a regular expression.
unfoldable pub is_word : ℕ → Bool
is_word c = is_digit c || (leb b'A' c && leb c b'Z') || (leb b'a' c && leb c b'z') || (c == b'_')

-- How many digits a text begins with.
unfoldable pub leading_digits : Text → ℕ
leading_digits [] = 0
leading_digits (c ∷ t) = let rest = leading_digits t in if is_digit c then suc rest else 0

-- replace(/\B(?=(\d{3})+(?!\d))/g, ","): a comma goes where a word character stands before and a
-- positive multiple of three digits, and no further digit, behind. `before` says whether the
-- character before the text is a word character.
unfoldable pub group_thousands : Bool → Text → Text
unfolding is_word leading_digits
group_thousands before [] = []
group_thousands before (c ∷ t) =
    let n = leading_digits (c ∷ t) in
    let rest = c ∷ group_thousands (is_word c) t in
    if before && ltb 0 n && (n % 3 == 0) then b',' ∷ rest else rest

-- value.slice(1) behind a sign.
abbrev pub drop_sign : Text → Text
drop_sign [] = []
drop_sign (c ∷ t) = if c == b'-' then t else c ∷ t

-- The grouped digits, and the point with what stands between it and a second one.
unfoldable pub show_parts : Text → Option Text → Text
unfolding group_thousands split_at_char
show_parts int none = group_thousands false int
show_parts int (some r) = group_thousands false int ++ (b'.' ∷ (split_at_char b'.' r).0)

unfoldable pub format_unsigned : Text → Text
unfolding show_parts split_at_char
format_unsigned value = let (int, rest) = split_at_char b'.' value in show_parts int rest

unfoldable pub format_amount_input : Text → Text
unfolding format_unsigned
format_amount_input value =
    if starts_with b'-' value
    then b'-' ∷ format_unsigned (drop_sign value)
    else format_unsigned value

-- Turns the sign over; an empty text and a zero stay.
unfoldable pub toggle_amount_sign : Text → Text
unfolding number
toggle_amount_sign value =
    if starts_with b'-' value
    then drop_sign value
    else if is_empty value || is_zero (number value)
    then value
    else b'-' ∷ value

-- /[0-9.-]/.
unfoldable pub is_amount_char : ℕ → Bool
is_amount_char c = is_digit c || (c == b'.') || (c == b'-')

-- `digitsBeforeCaret`, of the text before the caret.
unfoldable pub digits_before : Text → ℕ
unfolding is_amount_char
digits_before t = length (filter is_amount_char t)

-- The loop that puts the caret back: from `pos` with `seen` amount characters passed, over the
-- rest of the shown text, until `wanted` are passed.
unfoldable pub caret_from : Text → ℕ → ℕ → ℕ → ℕ
unfolding is_amount_char
caret_from [] pos seen wanted = pos
caret_from (c ∷ t) pos seen wanted =
    let onward = caret_from t (pos + 1) (if is_amount_char c then seen + 1 else seen) wanted in
    if ltb seen wanted then onward else pos

-- The caret after an edit that left it behind the text `before`, in the newly shown text.
unfoldable pub caret_after : Text → Text → ℕ
unfolding digits_before caret_from
caret_after before formatted = caret_from formatted 0 0 (digits_before before)
