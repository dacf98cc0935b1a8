-- ===== src/Schedules/Unchanged.antt =====
-- An event that is opened in its form and saved unchanged
-- (frontend/src/components/transactions/EventForm.tsx).
use nestlio.Prelude.{
  ℕ, ◌≡◌, refl, sym, ap, ◌∙◌, Bool, true, false, not, Option, none, some, [], ◌∷◌, ◌++◌, all, ◌==◌,
  if◌then◌else◌, Text, codes, is_empty, take, split_at_char, arith,
}
use nestlio.Types.Ledger.{EventOut}
use nestlio.Schedules.{
  split_occurrence, time_part, or_text, event_to_form_values, moment, midnight, submit_event,
  end_of, Occurrence,
}

split-without :
    (c : ℕ) (p r : Text)
    → all (λ d. not (d == c)) p ≡ true
    → split_at_char c (p ++ (c ∷ r)) ≡ (p, some r)
unfolding split_at_char
split-without c [] r h = ground arith
split-without c (d ∷ p) r h = ground (arith, split-without c p r)

split-none : (c : ℕ) (p : Text) → all (λ d. not (d == c)) p ≡ true → split_at_char c p ≡ (p, none)
unfolding split_at_char
split-none c [] h = refl
split-none c (d ∷ p) h = ground (arith, split-none c p)

-- A text without a "T", as dates and times are.
abbrev pub without_t : Text → Bool
without_t t = all (λ d. not (d == b'T')) t

-- The five characters of a time.
abbrev pub clock : ℕ → ℕ → ℕ → ℕ → ℕ → Text
clock a b c d e = a ∷ (b ∷ (c ∷ (d ∷ (e ∷ []))))

split_occurrence-moment :
    (date : Text) (a b c d e : ℕ)
    → without_t date ≡ true
    → without_t (clock a b c d e) ≡ true
    → split_occurrence (moment date (clock a b c d e))
      ≡ record { date = date; time = clock a b c d e }
unfolding split_occurrence moment
split_occurrence-moment date a b c d e h k =
    ap (λ parts. record { date = parts.0; time = time_part parts.1 })
      (split-without b'T' date (clock a b c d e ++ codes ":00") h)
    ∙ ap (λ parts. record { date = date; time = take 5 parts.0 })
        (split-none b'T' (clock a b c d e ++ codes ":00") (ground arith))

-- The start of an event that has a time of day is sent back as it was, and so is its end.
pub submit_event-start_at :
    (event : EventOut) (date : Text) (a b c d e : ℕ)
    → without_t date ≡ true
    → without_t (clock a b c d e) ≡ true
    → event.all_day ≡ false
    → event.start_at ≡ moment date (clock a b c d e)
    → (submit_event (event_to_form_values event)).start_at ≡ event.start_at
unfolding submit_event event_to_form_values
submit_event-start_at event date a b c d e h k day start =
    ap
      (λ all_day. moment (split_occurrence event.start_at).date (
        if all_day
        then midnight
        else or_text (or_text (split_occurrence event.start_at).time (codes "09:00")) midnight))
      day
    ∙ ap (λ o. moment o.date (or_text (or_text o.time (codes "09:00")) midnight))
        (ap split_occurrence start ∙ split_occurrence-moment date a b c d e h k)
    ∙ sym start

pub submit_event-end_at :
    (event : EventOut) (x : ℕ) (date : Text) (a b c d e : ℕ)
    → without_t (x ∷ date) ≡ true
    → without_t (clock a b c d e) ≡ true
    → event.all_day ≡ false
    → event.end_at ≡ some (moment (x ∷ date) (clock a b c d e))
    → (submit_event (event_to_form_values event)).end_at ≡ event.end_at
unfolding submit_event event_to_form_values moment
submit_event-end_at event x date a b c d e h k day end =
    ap (λ all_day. sent all_day (end_of event.end_at)) day
    ∙ ap (sent false)
        (ap end_of end ∙ unfold moment in split_occurrence-moment (x ∷ date) a b c d e h k)
    ∙ sym end
  where
    sent : Bool → Occurrence → Option Text
    sent all_day o =
        if is_empty o.date
        then none
        else some (moment o.date (if all_day then midnight else or_text o.time midnight))
