-- ===== src/Toasts/Expiry.antt =====
-- How many toasts show, and for how long (frontend/src/components/Toaster.tsx).
use nestlio.Prelude.{
  ℕ, zero, suc, ◌+◌, ◌-◌, ◌≤◌, ◌≡◌, refl, sym, ap, inl, inr, Bool-cases, ◌∙◌, Bool, true, not, ◌&&◌,
  Option, none, some, List, [], ◌∷◌, ◌++◌, filter, any, all, length, leb, ltb, ◌==◌, if◌then◌else◌,
  Text, arith, all-append, all_mono, all-filtered, length-filter, filter-filter, filter-ext,
  filter-true, filter-none, any-append, all-kept,
}
use nestlio.Toasts.{
  ToastType, ToastAction, ToastEvent, Timer, Screen, Event, max_toasts, drop, take_last, lifetime,
  dismiss, on_toast, toast, press_action, fire_due, wait, step, empty_screen, run,
}

module _ {ℓ} {A : Type ℓ} where
  length-drop : (n : ℕ) (xs : List A) → length (drop n xs) ≡ length xs - n
  length-drop zero xs = omega arith
  length-drop (suc n) [] = omega arith
  length-drop (suc n) (x ∷ xs) = omega (arith, length-drop n xs)

  take_last-length : (n : ℕ) (xs : List A) → length (take_last n xs) ≤ n
  unfolding take_last
  take_last-length n xs = omega (arith, length-drop (length xs - n) xs)

  all-drop : (p : A → Bool) (n : ℕ) (xs : List A) → all p xs ≡ true → all p (drop n xs) ≡ true
  all-drop p zero xs h = h
  all-drop p (suc n) [] h = refl
  all-drop p (suc n) (x ∷ xs) h = ground (arith, all-drop p n xs)

-- A timer that dismisses the toast at the latest at a time.
abbrev pub dismisses : ℕ → ℕ → Timer → Bool
dismisses time id tm = (tm.id == id) && leb tm.due time

-- A toast that no due timer dismisses.
abbrev pub kept : ℕ → List Timer → ToastEvent → Bool
kept now timers t = not (any (dismisses now t.id) timers)

fire_due-filter :
    (now : ℕ) (timers : List Timer) (toasts : List ToastEvent)
    → fire_due now timers toasts ≡ filter (kept now timers) toasts
unfolding fire_due dismiss
fire_due-filter now [] toasts = sym (filter-true (λ t. true) (λ t. refl) toasts)
fire_due-filter now (tm ∷ timers) toasts = elim (Bool-cases (leb tm.due now)) [
  | inl e ↦
      ap (λ b. fire_due now timers (if b then dismiss tm.id toasts else toasts)) e
      ∙ fire_due-filter now timers (dismiss tm.id toasts)
      ∙ filter-filter (kept now timers) (λ t. not (t.id == tm.id)) toasts
      ∙ filter-ext (λ t. not (t.id == tm.id) && kept now timers t) (kept now (tm ∷ timers))
          (λ t. ground (arith, e)) toasts
  | inr e ↦
      ap (λ b. fire_due now timers (if b then dismiss tm.id toasts else toasts)) e
      ∙ fire_due-filter now timers toasts
      ∙ filter-ext (kept now timers) (kept now (tm ∷ timers)) (λ t. ground (arith, e)) toasts
]

-- The ids grow along the list, and none is beyond the counter.
abbrev pub growing : ℕ → List ToastEvent → Bool
growing seq [] = true
growing seq (t ∷ ts) = leb t.id seq && (all (λ u. ltb t.id u.id) ts && growing seq ts)

-- A toast has a timer, which is due within six seconds.
abbrev pub has_timer : Screen → ToastEvent → Bool
has_timer s t = any (dismisses (s.now + 6000) t.id) s.timers

-- At most three toasts, with ids of their own, each with its timer.
abbrev pub Timed : Screen → Type 0
Timed s =
    (length s.toasts ≤ max_toasts)
    × (growing s.seq s.toasts ≡ true)
    × (all (has_timer s) s.toasts ≡ true)

growing-filter :
    (p : ToastEvent → Bool) (n : ℕ) (ts : List ToastEvent)
    → growing n ts ≡ true
    → growing n (filter p ts) ≡ true
growing-filter p n [] h = refl
growing-filter p n (t ∷ ts) h =
    ground (arith, growing-filter p n ts, all-filtered (λ u. ltb t.id u.id) p ts)

growing-drop : (k n : ℕ) (ts : List ToastEvent) → growing n ts ≡ true → growing n (drop k ts) ≡ true
growing-drop zero n ts h = h
growing-drop (suc k) n [] h = refl
growing-drop (suc k) n (t ∷ ts) h = ground (arith, growing-drop k n ts)

growing-append :
    (n : ℕ) (ts : List ToastEvent) (t : ToastEvent)
    → t.id ≡ suc n
    → growing n ts ≡ true
    → growing (suc n) (ts ++ (t ∷ [])) ≡ true
growing-append n [] t e h = ground arith
growing-append n (u ∷ ts) t e h =
    ground (arith, growing-append n ts t e, all-append (λ v. ltb u.id v.id) ts (t ∷ []))

dismiss-Timed : (id : ℕ) (s : Screen) → Timed s → Timed (record s { toasts = dismiss id s.toasts })
unfolding dismiss
dismiss-Timed id s h = (
  omega (arith, length-filter (λ t. not (t.id == id)) s.toasts, h.0),
  growing-filter _ s.seq s.toasts h.1,
  all-filtered (has_timer s) _ s.toasts h.2,
)

timer-added :
    (id : ℕ) (time : ℕ) (timers : List Timer) (tm : Timer)
    → any (dismisses time id) timers ≡ true
    → any (dismisses time id) (timers ++ (tm ∷ [])) ≡ true
timer-added id time timers tm h = ground (arith, any-append (dismisses time id) timers (tm ∷ []))

timer-own :
    (id : ℕ) (time : ℕ) (timers : List Timer) (tm : Timer)
    → tm.id ≡ id
    → tm.due ≤ time
    → any (dismisses time id) (timers ++ (tm ∷ [])) ≡ true
timer-own id time timers tm h k = ground (arith, any-append (dismisses time id) timers (tm ∷ []))

lifetime-le : (now : ℕ) (action : Option ToastAction) → now + lifetime action ≤ now + 6000
lifetime-le now none = omega arith
lifetime-le now (some a) = omega arith

toast-Timed :
    (message : Text) (type : ToastType) (action : Option ToastAction) (s : Screen)
    → Timed s
    → Timed (toast message type action s)
unfolding toast on_toast take_last
toast-Timed message type action s h = (
  take_last-length 3 (s.toasts ++ (t ∷ [])),
  growing-drop _ _ (s.toasts ++ (t ∷ [])) (growing-append s.seq s.toasts t refl h.1),
  all-drop (has_timer s1) _ (s.toasts ++ (t ∷ [])) (
      all-append (has_timer s1) s.toasts (t ∷ [])
      ∙ rw
          (
            all_mono (has_timer s) (has_timer s1) (λ u. timer-added u.id (s.now + 6000) s.timers tm)
                s.toasts h.2,
            timer-own (suc s.seq) (s.now + 6000) s.timers tm refl (lifetime-le s.now action),
          )
          refl),
)
  where
    t : ToastEvent
    t = record { message = message; type = type; id = suc s.seq; action = action }

    tm : Timer
    tm = record { id = suc s.seq; due = s.now + lifetime action }

    s1 : Screen
    s1 = toast message type action s

-- A timer that is not yet due, of a toast that no due timer dismisses, is still to come.
still_to_come :
    (now time later id : ℕ) (timers : List Timer)
    → time ≤ later
    → any (dismisses time id) timers ≡ true
    → not (any (dismisses now id) timers) ≡ true
    → any (dismisses later id) (filter (λ tm. not (leb tm.due now)) timers) ≡ true
still_to_come now time later id [] h e n = e
still_to_come now time later id (tm ∷ timers) h e n =
    ground (arith, still_to_come now time later id timers h)

wait-Timed : (d : ℕ) (s : Screen) → Timed s → Timed (wait d s)
unfolding wait
wait-Timed d s h = rw (fire_due-filter (s.now + d) s.timers s.toasts) (
  omega (arith, length-filter (kept (s.now + d) s.timers) s.toasts, h.0),
  growing-filter (kept (s.now + d) s.timers) s.seq s.toasts h.1,
  all-kept (has_timer s) (kept (s.now + d) s.timers) (has_timer (wait d s))
      (λ t. still_to_come (s.now + d) (s.now + 6000) (s.now + d + 6000) t.id s.timers (omega arith))
      s.toasts h.2,
)

step-Timed : (e : Event) (s : Screen) → Timed s → Timed (step e s)
unfolding step press_action
step-Timed (Event.show message type action) s h = toast-Timed message type action s h
step-Timed (Event.press t) s h = dismiss-Timed t.id s h
step-Timed (Event.pass d) s h = wait-Timed d s h

run-Timed : (es : List Event) (s : Screen) → Timed s → Timed (run es s)
unfolding run
run-Timed [] s h = h
run-Timed (e ∷ es) s h = run-Timed es (step e s) (step-Timed e s h)

wait-gone : (s : Screen) → all (has_timer s) s.toasts ≡ true → (wait 6000 s).toasts ≡ []
unfolding wait
wait-gone s h =
    fire_due-filter (s.now + 6000) s.timers s.toasts
    ∙ filter-none (kept (s.now + 6000) s.timers) s.toasts (
        all_mono (has_timer s) (λ t. not (kept (s.now + 6000) s.timers t)) (λ t e. rw e refl)
          s.toasts h)

empty_screen-Timed : Timed empty_screen
empty_screen-Timed = (omega arith, refl, refl)

-- Whatever toasts are asked for, however they are dismissed and however time passes, at most three
-- show, no two of them with the same id, and without further ones all are gone after six seconds.
pub run-gone :
    (es : List Event)
    → (length (run es empty_screen).toasts ≤ max_toasts)
      × (growing (run es empty_screen).seq (run es empty_screen).toasts ≡ true)
      × ((wait 6000 (run es empty_screen)).toasts ≡ [])
run-gone es = (timed.0, timed.1, wait-gone (run es empty_screen) timed.2)
  where
    timed : Timed (run es empty_screen)
    timed = run-Timed es empty_screen empty_screen-Timed
