-- ===== src/Swipes/Guards.antt =====
-- When a swipe counts (frontend/src/hooks/useSwipeMonth.ts), also under the modals of
-- frontend/src/hooks/useModalBehavior.ts.
use nestlio.Prelude.{
  ℕ, zero, suc, ◌+◌, ◌-◌, ◌*◌, ◌&&◌, ap, ◌≡◌, refl, ◌∙◌, Bool, true, false, not, Option, none, some,
  List, if◌then◌else◌, String, str_eq, ltb, arith,
}
use nestlio.Prelude.Int.{ℤ, pos, negsuc, pos_part, neg_part, sub_ℕ, neg_ℤ, ◌-ℤ◌, abs, ltb_ℤ}
use nestlio.Modals.{no_modals}
use nestlio.Modals.Lock as Lock
use nestlio.Modals.Lock.{Event, Fits, none_open, perform_all-IsLocked}
use nestlio.Swipes.{
  TouchState, handle_touch_start, swipe_threshold, is_swipe, swipe_of, handle_touch_end,
}

sub_ℕ-swap : (m n : ℕ) → sub_ℕ n m ≡ neg_ℤ (sub_ℕ m n)
unfolding neg_ℤ
sub_ℕ-swap m n = ground arith

swapped : (a b : ℤ) → b -ℤ a ≡ neg_ℤ (a -ℤ b)
unfolding ◌-ℤ◌
swapped a b =
    let front : pos_part b + neg_part a ≡ neg_part a + pos_part b = omega arith in
    let back : neg_part b + pos_part a ≡ pos_part a + neg_part b = omega arith in
    rw (front, back) (sub_ℕ-swap (pos_part a + neg_part b) (neg_part a + pos_part b))

-- The other direction.
abbrev pub opposite : Option ℤ → Option ℤ
opposite none = none
opposite (some (pos n)) = some (negsuc 0)
opposite (some (negsuc n)) = some (pos 1)

opposite-if :
    (b : Bool) (d e : ℤ)
    → (b ≡ true → some e ≡ opposite (some d))
    → (if not b then none else some e) ≡ opposite (if not b then none else some d)
opposite-if true d e h = h refl
opposite-if false d e h = refl

next_of :
    (n : ℕ) (y : ℤ) (t : ℕ)
    → swipe_of (negsuc n) y t ≡ (if not (is_swipe (pos (suc n)) y t) then none else some (pos 1))
unfolding swipe_of is_swipe
next_of n y t =
    let size : 0 + suc n ≡ suc n + 0 = omega arith in
    let below : ltb 0 (suc n + 0) ≡ true = ground arith in rw (size, below) refl

previous_of :
    (n : ℕ) (y : ℤ) (t : ℕ)
    → swipe_of (pos (suc n)) y t
      ≡ (if not (is_swipe (pos (suc n)) y t) then none else some (negsuc 0))
unfolding swipe_of is_swipe
previous_of n y t = let above : ltb (suc n + 0) 0 ≡ false = ground arith in rw above refl

swipe_of-neg_ℤ : (x y : ℤ) (t : ℕ) → swipe_of (neg_ℤ x) y t ≡ opposite (swipe_of x y t)
unfolding neg_ℤ
swipe_of-neg_ℤ (pos zero) y t =
    unfold swipe_of is_swipe in
    opposite-if (is_swipe (pos 0) y t) (negsuc 0) (negsuc 0) (λ h. ground arith)
swipe_of-neg_ℤ (pos (suc n)) y t =
    let turned : sub_ℕ 0 (suc n) ≡ negsuc n = ground arith in
    rw (turned, next_of n y t, previous_of n y t)
      (opposite-if (is_swipe (pos (suc n)) y t) (negsuc 0) (pos 1) (λ h. refl))
swipe_of-neg_ℤ (negsuc n) y t =
    let turned : sub_ℕ (suc n) 0 ≡ pos (suc n) = ground arith in
    rw (turned, next_of n y t, previous_of n y t)
      (opposite-if (is_swipe (pos (suc n)) y t) (pos 1) (negsuc 0) (λ h. refl))

abs-neg_ℤ : (y : ℤ) → abs (neg_ℤ y) ≡ abs y
unfolding neg_ℤ
abs-neg_ℤ (pos zero) = refl
abs-neg_ℤ (pos (suc n)) = ground arith
abs-neg_ℤ (negsuc n) = ground arith

swipe_of-up : (x y : ℤ) (t : ℕ) → swipe_of x (neg_ℤ y) t ≡ swipe_of x y t
unfolding swipe_of is_swipe
swipe_of-up x y t =
    ap
      (λ h.
        if not
          (ltb (3 * h) (2 * abs x) && (ltb swipe_threshold (abs x) && ltb (3 * t) (10 * abs x)))
        then none
        else some (if ltb_ℤ x (pos 0) then pos 1 else negsuc 0))
      (abs-neg_ℤ y)

mirrored :
    (b : Bool) (o p : Option ℤ)
    → p ≡ opposite o
    → (if b then none else p) ≡ opposite (if b then none else o)
mirrored true o p h = refl
mirrored false o p h = h

-- A swipe from one point to another and the swipe back in the same time count alike and go
-- opposite ways, and behind either the touch is forgotten, so that no end of a touch moves twice.
pub handle_touch_end-back :
    (overflow : String) (x x' y y' : ℤ) (start now : ℕ)
    → ((handle_touch_end overflow x y now (handle_touch_start x' y' start)).1
        ≡ opposite (handle_touch_end overflow x' y' now (handle_touch_start x y start)).1)
      × (handle_touch_end overflow x y now
            (handle_touch_end overflow x' y' now (handle_touch_start x y start)).0
          ≡ (none, none))
unfolding handle_touch_end handle_touch_start
handle_touch_end-back overflow x x' y y' start now = (
  mirrored (str_eq overflow "hidden") (swipe_of (x' -ℤ x) (y' -ℤ y) (now - start))
      (swipe_of (x -ℤ x') (y -ℤ y') (now - start))
      (rw (swapped x' x, swapped y' y)
        (swipe_of-up (neg_ℤ (x' -ℤ x)) (y' -ℤ y) (now - start)
          ∙ swipe_of-neg_ℤ (x' -ℤ x) (y' -ℤ y) (now - start))),
  refl,
)

-- While a modal is open no swipe turns the month, whatever modals opened and closed before, as
-- long as only open ones closed.
pub handle_touch_end-modals :
    (original : String) (es : List Event) (x y : ℤ) (now : ℕ) (touch : Option TouchState)
    → Fits es (no_modals original)
    → none_open (Lock.perform_all es (no_modals original)).modal_stack ≡ false
    → (handle_touch_end (Lock.perform_all es (no_modals original)).body_overflow x y now touch).1
      ≡ none
unfolding handle_touch_end
handle_touch_end-modals original es x y now none f h = refl
handle_touch_end-modals original es x y now (some start) f h =
    let hidden : (Lock.perform_all es (no_modals original)).body_overflow ≡ "hidden" =
      (perform_all-IsLocked original es f).1 ∙ rw h refl in
    rw hidden refl
