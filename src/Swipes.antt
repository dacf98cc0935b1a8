-- ===== src/Swipes.antt =====
-- Swiping between the months of the ledger (frontend/src/hooks/useSwipeMonth.ts). Coordinates are
-- whole pixels and times whole milliseconds; the comparisons with 0.3 and 1.5 are multiplied out.
pub mod Guards
use nestlio.Prelude.{
  ℕ, ◌+◌, ◌-◌, ◌*◌, Bool, true, false, ◌&&◌, ◌||◌, not, Option, none, some, ltb, if◌then◌else◌,
  String, str_eq,
}
use nestlio.Prelude.Int.{ℤ, pos, negsuc, ◌-ℤ◌, ltb_ℤ, abs}

pub record TouchState : Type 0 where
  pub start_x : ℤ
  pub start_y : ℤ
  pub start_time : ℕ

abbrev pub swipe_threshold : ℕ
swipe_threshold = 50

-- handleTouchStart, which sets touchRef.current.
unfoldable pub handle_touch_start : ℤ → ℤ → ℕ → Option TouchState
handle_touch_start x y now = some record { start_x = x; start_y = y; start_time = now }

-- isHorizontal && isSignificant.
unfoldable pub is_swipe : ℤ → ℤ → ℕ → Bool
is_swipe delta_x delta_y elapsed =
    ltb (3 * abs delta_y) (2 * abs delta_x)
    && (ltb swipe_threshold (abs delta_x) && ltb (3 * elapsed) (10 * abs delta_x))

-- The direction that is handed to onSwipe, if it is called.
unfoldable pub swipe_of : ℤ → ℤ → ℕ → Option ℤ
swipe_of delta_x delta_y elapsed =
    if not (is_swipe delta_x delta_y elapsed)
    then none
    else some (if ltb_ℤ delta_x (pos 0) then pos 1 else negsuc 0)

-- handleTouchEnd at a place and a time, with document.body.style.overflow: touchRef.current behind
-- it, and the direction.
unfoldable pub handle_touch_end :
    String → ℤ → ℤ → ℕ → Option TouchState → Option TouchState × Option ℤ
handle_touch_end overflow x y now none = (none, none)
handle_touch_end overflow x y now (some start) = (
  none,
  (if str_eq overflow "hidden"
      then none
      else swipe_of (x -ℤ start.start_x) (y -ℤ start.start_y) (now - start.start_time)),
)
