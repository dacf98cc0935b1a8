-- ===== src/Modals/Gesture.antt =====
-- The drag on the handle of a sheet (frontend/src/hooks/useModalBehavior.ts).
use nestlio.Prelude.{ℕ, ◌≡◌, true, List, [], ◌∷◌}
use nestlio.Prelude.Int.{ℤ}
use nestlio.Modals.{Drag, handle_touch_move}

abbrev pub moves : List ℤ → Drag → Drag
moves [] d = d
moves (y ∷ ys) d = moves ys (handle_touch_move y d)

-- A move keeps where the drag began, and does not close.
abbrev IsDragging : ℤ → ℕ → Drag → Type 0
IsDragging start closes d = (d.start_y ≡ start) × (d.active ≡ true) × (d.closes ≡ closes)
