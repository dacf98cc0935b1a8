-- ===== src/Formats.antt =====
-- Texts that the screens show (frontend/src/utils/format.ts, the labels of frontend/src/utils/date.ts
-- and of frontend/src/components/transactions/TransactionQuickPicks.tsx). `krw` is the number format
-- of the browser for Korean won without decimals.
use nestlio.Prelude.{
  ℕ, zero, suc, ◌+◌, ◌-◌, ◌*◌, not, ◌&&◌, Option, none, some, List, [], ◌∷◌, ◌++◌, map, find,
  length, leb, ◌==◌, if◌then◌else◌, or_else, String, str_eq, Text, codes, take, split_at_char,
  Number, nan, decimal, number, show_ℕ, show_number,
}
use nestlio.Prelude.Int.{ℤ, pos, ◌-ℤ◌}
use nestlio.Types.Ledger.{UserOut, TransactionOut}
use nestlio.Types.Plans.{CashflowPlanItemOut}
use nestlio.Months.{full_year}
use nestlio.Calendar.{Day, make_date, weekday, date_parts}
use nestlio.Toasts.{drop}

module _ (krw : Number → Text) where
  abbrev pub won : Number → Text
  won nan = codes "0원"
  won (decimal x m s) = krw (decimal x m s) ++ codes "원"

  -- formatKrw of a text or null.
  unfoldable pub format_krw : Option Text → Text
  format_krw none = codes "0원"
  format_krw (some value) = won (number value)

  abbrev pub described : Option String → List Text
  described none = []
  described (some d) = if str_eq d "" then [] else codes d ∷ []

  -- parts.join(" · ").
  unfoldable pub join_dots : List Text → Text
  join_dots [] = []
  join_dots (t ∷ []) = t
  join_dots (t ∷ (u ∷ ts)) = t ++ (codes " · " ++ join_dots (u ∷ ts))

  unfoldable pub recent_chip_label : TransactionOut → Text
  recent_chip_label tx =
      join_dots (codes tx.category.name ∷ (format_krw (some tx.amount) ∷ described tx.description))

  abbrev pub number_or_null : Option ℕ → Text
  number_or_null none = codes "null"
  number_or_null (some n) = show_ℕ n

  abbrev pub installment_part : Option ℕ → Option ℕ → List Text
  installment_part index none = []
  installment_part index (some total) =
      if total == 0 then [] else (number_or_null index ++ (b'/' ∷ show_ℕ total)) ∷ []

  abbrev pub owner_name : Option UserOut → List Text
  owner_name none = []
  owner_name (some u) = codes u.display_name ∷ []

  abbrev pub owner_part : Option String → List UserOut → List Text
  owner_part none users = []
  owner_part (some id) users =
      if not (leb (length users) 1) && not (str_eq id "")
      then owner_name (find (λ u. str_eq u.id id) users)
      else []

  unfoldable pub plan_chip_label : CashflowPlanItemOut → List UserOut → Text
  plan_chip_label item users = join_dots (
      codes item.name
      ∷ (format_krw (some item.amount)
          ∷ (installment_part item.installment_no item.installment_total
              ++ owner_part item.owner_user_id users)))

-- isoDate.replaceAll("-", ".").
unfoldable pub format_date : Text → Text
format_date iso_date = map (λ c. if c == b'-' then b'.' else c) iso_date

-- The second part of split("-"), as a number; without one it is NaN.
abbrev pub second_number : Option Text → Number
second_number none = nan
second_number (some r) = number (split_at_char b'-' r).0

unfoldable pub format_year_month : Text → Text
format_year_month year_month =
    (split_at_char b'-' year_month).0
    ++ (codes "년 " ++ (show_number (second_number (split_at_char b'-' year_month).1) ++ codes "월"))

unfoldable pub format_month_only : Text → Text
format_month_only year_month = show_number (number (take 2 (drop 5 year_month))) ++ codes "월"

abbrev pub common_label : String
common_label = "공통"

abbrev pub name_of : Option UserOut → String
name_of none = common_label
name_of (some u) = u.display_name

unfoldable pub resolve_owner_label : Option String → Option (List UserOut) → String
resolve_owner_label none users = common_label
resolve_owner_label (some id) users =
    if str_eq id "" then common_label else name_of (find (λ u. str_eq u.id id) (or_else users []))

unfoldable pub year_of : Text → Number
year_of year_month_or_date = number (take 4 year_month_or_date)

-- monthsBetween, of two dates.
unfoldable pub months_between : Day → Day → ℤ
months_between start end = pos end.month -ℤ pos start.month

abbrev pub weekday_labels : List String
weekday_labels = "일" ∷ ("월" ∷ ("화" ∷ ("수" ∷ ("목" ∷ ("금" ∷ ("토" ∷ []))))))

abbrev pub label_at : ℕ → List String → Text
label_at n [] = codes "undefined"
label_at zero (l ∷ ls) = codes l
label_at (suc n) (l ∷ ls) = label_at n ls

abbrev pub day_header : Option (ℕ × ℕ × ℕ) → Text
day_header none = codes "NaN.NaN (undefined)"
day_header (some (y, m, d)) =
    show_ℕ m
    ++ (b'.'
        ∷ (show_ℕ d
            ++ (codes " ("
                ++ (label_at (weekday (make_date (full_year y * 12 + m - 1) (pos d))) weekday_labels
                    ++ codes ")"))))

-- formatDayHeader.
unfoldable pub format_day_header : Text → Text
format_day_header date_iso = day_header (date_parts date_iso)
