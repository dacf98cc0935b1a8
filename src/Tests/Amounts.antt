-- ===== src/Tests/Amounts.antt =====
-- Amounts typed and pasted into the field of frontend/src/components/common/AmountInput.tsx.
use nestlio.Prelude.{◌≡◌, ◌≤◌, min, true, length, take, codes, number}
use nestlio.AmountInput.{
  sanitize_amount_input, format_amount_input, toggle_amount_sign, caret_after, digits_before,
}
use nestlio.AmountInput.RoundTrip.{sanitize-format}
use nestlio.AmountInput.Caret.{caret_after-digits}
use nestlio.AmountInput.Sign.{Turns, sanitize-toggle, toggle-toggle}

sanitize-format_example :
    sanitize_amount_input
      (format_amount_input (sanitize_amount_input (codes " -01,250,000.5won") true))
      true
    ≡ sanitize_amount_input (codes " -01,250,000.5won") true
sanitize-format_example = sanitize-format (codes " -01,250,000.5won") true

caret_after-digits_example :
    (caret_after (codes "1,25") (codes "12,500") ≤ length (codes "12,500"))
    × (digits_before (take (caret_after (codes "1,25") (codes "12,500")) (codes "12,500"))
        ≡ min (digits_before (codes "1,25")) (digits_before (codes "12,500")))
caret_after-digits_example = caret_after-digits (codes "1,25") (codes "12,500")

sanitize-toggle_example :
    sanitize_amount_input (toggle_amount_sign (sanitize_amount_input (codes "0120") true)) true
    ≡ toggle_amount_sign (sanitize_amount_input (codes "0120") true)
sanitize-toggle_example = sanitize-toggle (codes "0120")

toggle-toggle_example :
    Turns
      (sanitize_amount_input (codes "0120") true)
      (number (sanitize_amount_input (codes "0120") true))
toggle-toggle_example = toggle-toggle (codes "0120")
