-- ===== src/Toasts.antt =====
-- The toasts (frontend/src/utils/toast.ts, frontend/src/components/Toaster.tsx): the module's
-- counter, the list on the screen and the timers that the list's handler has set. Times are
-- milliseconds; a timer of the browser runs when its time has come, in the order of the timers, of
-- which no two touch the same toast. A callback is known by its number.
pub mod Expiry
use nestlio.Prelude.{
  ℕ, zero, suc, ◌+◌, ◌-◌, Bool, not, ◌&&◌, Option, none, some, List, [], ◌∷◌, ◌++◌, filter, any,
  length, leb, ◌==◌, if◌then◌else◌, Text,
}

pub data ToastType : Type 0 where
  error success info : ToastType

pub record ToastAction : Type 0 where
  pub label : Text
  pub on_click : ℕ

pub record ToastEvent : Type 0 where
  pub message : Text
  pub type : ToastType
  pub id : ℕ
  pub action : Option ToastAction

pub record Timer : Type 0 where
  pub id : ℕ
  pub due : ℕ

pub record Screen : Type 0 where
  pub seq : ℕ
  pub now : ℕ
  pub toasts : List ToastEvent
  pub timers : List Timer

abbrev pub max_toasts : ℕ
max_toasts = 3

-- xs.slice(n).
abbrev pub drop {ℓ} : {A : Type ℓ} → ℕ → List A → List A
drop zero xs = xs
drop (suc n) [] = []
drop (suc n) (x ∷ xs) = drop n xs

-- xs.slice(-n).
unfoldable pub take_last {ℓ} : {A : Type ℓ} → ℕ → List A → List A
take_last n xs = drop (length xs - n) xs

abbrev pub lifetime : Option ToastAction → ℕ
lifetime none = 3500
lifetime (some a) = 6000

-- prev.filter((t) => t.id !== id).
unfoldable pub dismiss : ℕ → List ToastEvent → List ToastEvent
dismiss id toasts = filter (λ t. not (t.id == id)) toasts

-- The handler of the toast event.
unfoldable pub on_toast : ToastEvent → Screen → Screen
on_toast detail s = record s {
  toasts = take_last max_toasts (s.toasts ++ (detail ∷ []));
  timers = s.timers ++ (record { id = detail.id; due = s.now + lifetime detail.action } ∷ []);
}

unfoldable pub toast : Text → ToastType → Option ToastAction → Screen → Screen
toast message type action s =
    on_toast (record { message = message; type = type; id = suc s.seq; action = action })
      (record s { seq = suc s.seq })

-- The button of a toast with an action: what it calls, and the screen after it.
unfoldable pub press_action : ToastEvent → Screen → Screen × Option ToastAction
press_action t s = (record s { toasts = dismiss t.id s.toasts }, t.action)

-- The timers that are due run.
unfoldable pub fire_due : ℕ → List Timer → List ToastEvent → List ToastEvent
fire_due now [] toasts = toasts
fire_due now (tm ∷ timers) toasts =
    fire_due now timers (if leb tm.due now then dismiss tm.id toasts else toasts)

unfoldable pub wait : ℕ → Screen → Screen
wait d s = record s {
  now = s.now + d;
  toasts = fire_due (s.now + d) s.timers s.toasts;
  timers = filter (λ tm. not (leb tm.due (s.now + d))) s.timers;
}

pub data Event : Type 0 where
  show : Text → ToastType → Option ToastAction → Event
  press : ToastEvent → Event
  pass : ℕ → Event

unfoldable pub step : Event → Screen → Screen
step (Event.show message type action) s = toast message type action s
step (Event.press t) s = (press_action t s).0
step (Event.pass d) s = wait d s

abbrev pub empty_screen : Screen
empty_screen = record { seq = 0; now = 0; toasts = []; timers = [] }

unfoldable pub run : List Event → Screen → Screen
run [] s = s
run (e ∷ es) s = run es (step e s)
