-- ===== src/Modals/Lock.antt =====
-- The scroll lock of the page under any order of opening and closing
-- (frontend/src/hooks/useModalBehavior.ts).
use nestlio.Prelude.{
  ℕ, zero, suc, ◌-◌, ◌≡◌, refl, ◌∙◌, Bool, true, false, List, [], ◌∷◌, ◌++◌, any, length,
  length-append, ◌==◌, if◌then◌else◌, String, arith,
}
use mathlib.Core.Path.{subst}
use nestlio.Modals.{
  StackEntry, Page, no_modals, lock_body, unlock_body, remove_entry, open_modal, close_modal,
}

pub data Event : Type 0 where
  opens : StackEntry → Event
  closes : ℕ → Event

abbrev pub perform : Event → Page → Page
perform (opens e) p = open_modal e p
perform (closes id) p = close_modal id p

abbrev pub perform_all : List Event → Page → Page
perform_all [] p = p
perform_all (e ∷ es) p = perform_all es (perform e p)

-- Only an open modal is closed.
abbrev pub IsOpen : Event → Page → Type 0
IsOpen (opens e) p = Unit
IsOpen (closes id) p = any (λ o. o.id == id) p.modal_stack ≡ true

abbrev pub Fits : List Event → Page → Type 0
Fits [] p = Unit
Fits (e ∷ es) p = IsOpen e p × Fits es (perform e p)

abbrev pub none_open : List StackEntry → Bool
none_open [] = true
none_open (e ∷ es) = false

-- What the page's scrolling is, by the number of open modals.
abbrev Overflows : String → ℕ → Page → Type 0
Overflows original zero p = p.body_overflow ≡ original
Overflows original (suc n) p = (p.body_overflow ≡ "hidden") × (p.saved_body_overflow ≡ original)

abbrev IsLocked : String → Page → Type 0
IsLocked original p =
    (p.body_lock_count ≡ length p.modal_stack) × Overflows original (length p.modal_stack) p

length-remove_entry :
    (id : ℕ) (es : List StackEntry)
    → any (λ o. o.id == id) es ≡ true
    → length es ≡ suc (length (remove_entry id es))
unfolding remove_entry
length-remove_entry id [] h = ground arith
length-remove_entry id (e ∷ es) h = ground (arith, length-remove_entry id es)

open-overflow :
    (original : String) (e : StackEntry) (n k : ℕ) (p : Page)
    → p.body_lock_count ≡ n
    → Overflows original n p
    → k ≡ suc n
    → Overflows original k (open_modal e p)
unfolding open_modal lock_body
open-overflow original e zero zero p c h l = ground arith
open-overflow original e zero (suc k) p c h l = rw c (refl, h)
open-overflow original e (suc n) zero p c h l = ground arith
open-overflow original e (suc n) (suc k) p c h l =
    let shut : (p.body_lock_count == 0) ≡ false = ground arith in rw shut h

open-count : (e : StackEntry) (p : Page) → (open_modal e p).body_lock_count ≡ suc p.body_lock_count
unfolding open_modal lock_body
open-count e p = ground arith

open-stack : (e : StackEntry) (p : Page) → (open_modal e p).modal_stack ≡ p.modal_stack ++ e ∷ []
unfolding open_modal lock_body
open-stack e p = ground arith

close-count : (id : ℕ) (p : Page) → (close_modal id p).body_lock_count ≡ p.body_lock_count - 1
unfolding close_modal unlock_body
close-count id p = ground arith

close-stack : (id : ℕ) (p : Page) → (close_modal id p).modal_stack ≡ remove_entry id p.modal_stack
unfolding close_modal unlock_body
close-stack id p = ground arith

close-overflow :
    (original : String) (id n : ℕ) (p : Page)
    → p.body_lock_count ≡ suc n
    → Overflows original (suc n) p
    → Overflows original n (close_modal id p)
unfolding close_modal unlock_body
close-overflow original id zero p c h =
    let last : (p.body_lock_count - 1 == 0) ≡ true = ground arith in rw last h.1
close-overflow original id (suc n) p c h =
    let more : (p.body_lock_count - 1 == 0) ≡ false = ground arith in rw more h

perform-IsLocked :
    (original : String) (e : Event) (p : Page)
    → IsOpen e p
    → IsLocked original p
    → IsLocked original (perform e p)
perform-IsLocked original (opens e) p h l =
    let more : length (open_modal e p).modal_stack ≡ suc (length p.modal_stack) =
      rw (open-stack e p) (omega (arith, length-append p.modal_stack (e ∷ []))) in
    (
      omega (arith, open-count e p, more, l.0),
      open-overflow original e (length p.modal_stack) (length (open_modal e p).modal_stack) p l.0
          l.1 more,
    )
perform-IsLocked original (closes id) p h l =
    let fewer : length p.modal_stack ≡ suc (length (close_modal id p).modal_stack) =
      rw (close-stack id p) (length-remove_entry id p.modal_stack h) in
    (
      omega (arith, close-count id p, fewer, l.0),
      close-overflow original id (length (close_modal id p).modal_stack) p (l.0 ∙ fewer)
          (subst (λ n. Overflows original n p) fewer l.1),
    )

kept :
    (original : String) (es : List Event) (p : Page)
    → Fits es p
    → IsLocked original p
    → IsLocked original (perform_all es p)
kept original [] p f l = l
kept original (e ∷ es) p f l =
    kept original es (perform e p) f.1 (perform-IsLocked original e p f.0 l)

overflow-by_stack :
    (original : String) (stack : List StackEntry) (p : Page)
    → Overflows original (length stack) p
    → p.body_overflow ≡ (if none_open stack then original else "hidden")
overflow-by_stack original [] p h = h
overflow-by_stack original (e ∷ es) p h = h.0

-- However modals open and close, over and under each other and in any order, as long as only open
-- ones close: the lock counts the modals of the stack, the page cannot scroll while one is open,
-- and it scrolls as it did before the first once none is.
pub perform_all-IsLocked :
    (original : String) (es : List Event)
    → Fits es (no_modals original)
    → ((perform_all es (no_modals original)).body_lock_count
        ≡ length (perform_all es (no_modals original)).modal_stack)
      × ((perform_all es (no_modals original)).body_overflow ≡ (
          if none_open (perform_all es (no_modals original)).modal_stack
          then original
          else "hidden"))
perform_all-IsLocked original es f =
    let l = kept original es (no_modals original) f (refl, refl) in
    (l.0, overflow-by_stack original (perform_all es (no_modals original)).modal_stack _ l.1)
