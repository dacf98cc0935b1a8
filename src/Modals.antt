-- ===== src/Modals.antt =====
-- The modals (frontend/src/hooks/useModalBehavior.ts): the lock on the page's scrolling that open
-- modals share, the stack that says which modal the keys go to, the trap of the Tab key and the
-- drag that closes a sheet. An entry of the stack, a dialog and an element that can take the focus
-- are known by numbers; which dialog contains which is the DOM's, a parameter.
pub mod Lock
pub mod Topmost
pub mod Gesture
use nestlio.Prelude.{
  ℕ, zero, suc, ◌+◌, ◌-◌, Bool, true, false, ◌&&◌, ◌||◌, not, Option, none, some, List, [], ◌∷◌,
  ◌++◌, any, ◌==◌, if◌then◌else◌, String,
}
use nestlio.Prelude.Int.{ℤ, pos, ◌-ℤ◌, ltb_ℤ, leb_ℤ}

pub record StackEntry : Type 0 where
  pub id : ℕ
  pub dialog : Option ℕ

-- The module's variables, with document.body.style.overflow.
pub record Page : Type 0 where
  pub body_lock_count : ℕ
  pub saved_body_overflow : String
  pub body_overflow : String
  pub modal_stack : List StackEntry

abbrev pub no_modals : String → Page
no_modals overflow = record {
  body_lock_count = 0;
  saved_body_overflow = "";
  body_overflow = overflow;
  modal_stack = [];
}

-- The first effect: the lock is set by the first modal and taken off by the last.
unfoldable pub lock_body : Page → Page
lock_body p =
    let p' =
      if p.body_lock_count == 0
      then record p { saved_body_overflow = p.body_overflow; body_overflow = "hidden" }
      else p in
    record p' { body_lock_count = p'.body_lock_count + 1 }

unfoldable pub unlock_body : Page → Page
unlock_body p =
    let p' = record p { body_lock_count = p.body_lock_count - 1 } in
    if p'.body_lock_count == 0 then record p' { body_overflow = p'.saved_body_overflow } else p'

-- modalStack.splice(modalStack.indexOf(entry), 1).
unfoldable pub remove_entry : ℕ → List StackEntry → List StackEntry
remove_entry id [] = []
remove_entry id (e ∷ es) = let rest = remove_entry id es in if e.id == id then es else e ∷ rest

unfoldable pub open_modal : StackEntry → Page → Page
open_modal e p = let p' = lock_body p in record p' { modal_stack = p'.modal_stack ++ e ∷ [] }

unfoldable pub close_modal : ℕ → Page → Page
close_modal id p =
    let p' = unlock_body p in record p' { modal_stack = remove_entry id p'.modal_stack }

-- a && b && a.contains(b).
abbrev pub dialog_contains : (ℕ → ℕ → Bool) → Option ℕ → Option ℕ → Bool
dialog_contains contains (some a) (some b) = contains a b
dialog_contains contains _ _ = false

-- The test of isTopmost over the rest of the stack; `above` says whether the entry's own place is
-- passed.
unfoldable pub topmost_from : (ℕ → ℕ → Bool) → StackEntry → Bool → List StackEntry → Bool
topmost_from contains e above [] = true
topmost_from contains e above (o ∷ os) =
    let beyond = topmost_from contains e true os in
    let rest = topmost_from contains e above os in
    if o.id == e.id
    then beyond
    else if dialog_contains contains e.dialog o.dialog
    then false
    else if above && not (dialog_contains contains o.dialog e.dialog)
    then false
    else rest

-- An entry that is not in the stack has the index -1.
unfoldable pub is_topmost : (ℕ → ℕ → Bool) → StackEntry → List StackEntry → Bool
is_topmost contains e stack = topmost_from contains e (not (any (λ o. o.id == e.id) stack)) stack

pub data Key : Type 0 where
  escape other : Key
  -- With or without Shift.
  tab : Bool → Key

-- What a handler does: it closes its modal, or it keeps the browser from moving the focus and
-- moves it itself.
pub data Reaction : Type 0 where
  close : Reaction
  focus : ℕ → Reaction

unfoldable pub last_of : ℕ → List ℕ → ℕ
last_of x [] = x
last_of x (y ∷ ys) = last_of y ys

abbrev pub is_active : Option ℕ → ℕ → Bool
is_active none x = false
is_active (some y) x = x == y

-- The trap, over the elements that can take the focus.
unfoldable pub trap_tab : Bool → List ℕ → Option ℕ → Option Reaction
trap_tab shift [] active = none
trap_tab true (x ∷ xs) active = if is_active active x then some (focus (last_of x xs)) else none
trap_tab false (x ∷ xs) active = if is_active active (last_of x xs) then some (focus x) else none

abbrev pub on_tab : Option ℕ → Bool → List ℕ → Option ℕ → Option Reaction
on_tab none shift els active = none
on_tab (some dialog) shift els active = trap_tab shift els active

unfoldable pub on_key : Option ℕ → Key → List ℕ → Option ℕ → Option Reaction
on_key dialog escape els active = some close
on_key dialog other els active = none
on_key dialog (tab shift) els active = on_tab dialog shift els active

unfoldable pub handle_key_down :
    (ℕ → ℕ → Bool) → StackEntry → List StackEntry → Key → List ℕ → Option ℕ → Option Reaction
handle_key_down contains e stack key els active =
    if is_topmost contains e stack then on_key e.dialog key els active else none

-- The drag of a sheet: where it began, whether it goes on, how far the dialog is shifted, and how
-- often it has closed the sheet.
pub record Drag : Type 0 where
  pub start_y : ℤ
  pub active : Bool
  pub shifted : Option ℤ
  pub closes : ℕ

abbrev pub at_rest : Drag
at_rest = record { start_y = pos 0; active = false; shifted = none; closes = 0 }

abbrev pub drag_close_threshold_px : ℤ
drag_close_threshold_px = pos 80

unfoldable pub settle : ℤ → Drag → Drag
settle drag_distance d =
    let d' = record d { active = false; shifted = none } in
    if ltb_ℤ drag_close_threshold_px drag_distance then record d' { closes = d'.closes + 1 } else d'

unfoldable pub handle_touch_start : ℤ → Drag → Drag
handle_touch_start y d = record d { start_y = y; active = true }

unfoldable pub handle_touch_move : ℤ → Drag → Drag
handle_touch_move y d =
    if not d.active
    then d
    else let delta = y -ℤ d.start_y in
      if leb_ℤ delta (pos 0) then d else record d { shifted = some delta }

unfoldable pub handle_touch_end : ℤ → Drag → Drag
handle_touch_end y d = if not d.active then d else settle (y -ℤ d.start_y) d

unfoldable pub handle_touch_cancel : Drag → Drag
handle_touch_cancel d = if not d.active then d else settle (pos 0) d
