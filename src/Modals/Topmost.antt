-- ===== src/Modals/Topmost.antt =====
-- Which modal the keys go to (isTopmost of frontend/src/hooks/useModalBehavior.ts).
use nestlio.Prelude.{
  ℕ, zero, suc, ◌<◌, ◌≡◌, refl, inl, inr, Bool, true, false, Option, none, some, List, [], ◌∷◌, All,
  get_elem?, ◌==◌, if◌then◌else◌, ltb, sym, arith, Bool-cases,
}
use mathlib.Core.Path.{subst}
use nestlio.Modals.{
  StackEntry, dialog_contains, topmost_from, is_topmost, Reaction, Key, on_key, handle_key_down,
}

module _ {A : Type 0} (P : A → Type 0) where
  abbrev Holds : Option A → Type 0
  Holds none = Unit
  Holds (some x) = P x

  All-get_elem? : (xs : List A) (i : ℕ) (x : A) → All P xs → get_elem? xs i ≡ some x → P x
  All-get_elem? [] i x a k = subst Holds k tt
  All-get_elem? (y ∷ xs) zero x a k = subst Holds k a.0
  All-get_elem? (y ∷ xs) (suc i) x a k = All-get_elem? xs i x a.1 k

module _ (contains : ℕ → ℕ → Bool) (e : StackEntry) where
  abbrev IsAround : StackEntry → Type 0
  IsAround f = (f.id == e.id) ≡ false → dialog_contains contains f.dialog e.dialog ≡ true

  abbrev IsOutside : StackEntry → Type 0
  IsOutside f = (f.id == e.id) ≡ false → dialog_contains contains e.dialog f.dialog ≡ false

  -- Above its own place, what leaves an entry topmost lies around it.
  topmost_from-IsAround :
      (os : List StackEntry) → topmost_from contains e true os ≡ true → All IsAround os
  unfolding topmost_from
  topmost_from-IsAround [] h = tt
  topmost_from-IsAround (o ∷ os) h = (λ d. ground arith, topmost_from-IsAround os (ground arith))

  -- No dialog of the stack lies inside that of a topmost entry.
  topmost_from-IsOutside :
      (above : Bool) (os : List StackEntry)
      → topmost_from contains e above os ≡ true
      → All IsOutside os
  unfolding topmost_from
  topmost_from-IsOutside above [] h = tt
  topmost_from-IsOutside above (o ∷ os) h = elim (Bool-cases (o.id == e.id)) [
    | inl s ↦ (λ d. ground arith, topmost_from-IsOutside true os (ground arith))
    | inr s ↦ (λ d. ground arith, topmost_from-IsOutside above os (ground arith))
  ]

  -- An entry behind the entry's own place lies around it.
  later-IsAround :
      (f : StackEntry) (above : Bool) (os : List StackEntry) (i j : ℕ)
      → topmost_from contains e above os ≡ true
      → get_elem? os i ≡ some e
      → get_elem? os j ≡ some f
      → i < j
      → IsAround f
  unfolding topmost_from
  later-IsAround f above [] i j h k l m = subst (Holds IsAround) l tt
  later-IsAround f above (o ∷ os) i zero h k l m = ground arith
  later-IsAround f above (o ∷ os) zero (suc j) h k l m =
      let same : (o.id == e.id) ≡ true =
        subst (Holds (λ x. (o.id == x.id) ≡ true)) k (ground arith) in
      All-get_elem? IsAround os j f (topmost_from-IsAround os (ground arith)) l
  later-IsAround f above (o ∷ os) (suc i) (suc j) h k l m = elim (Bool-cases (o.id == e.id)) [
    | inl s ↦ later-IsAround f true os i j (ground arith) k l (omega arith)
    | inr s ↦ later-IsAround f above os i j (ground arith) k l (omega arith)
  ]

-- Two topmost entries, one behind the other, are the same.
ordered :
    (contains : ℕ → ℕ → Bool) (stack : List StackEntry) (e f : StackEntry) (i j : ℕ)
    → is_topmost contains e stack ≡ true
    → is_topmost contains f stack ≡ true
    → get_elem? stack i ≡ some e
    → get_elem? stack j ≡ some f
    → i < j
    → e.id ≡ f.id
unfolding is_topmost
ordered contains stack e f i j he hf ki kj m = elim (Bool-cases (f.id == e.id)) [
  | inl s ↦ ground arith
  | inr s ↦
      let around = later-IsAround contains e f _ stack i j he ki kj m s in
      let outside =
        All-get_elem? (IsOutside contains f) stack i e
          (topmost_from-IsOutside contains f _ stack hf) ki in
      let d : (e.id == f.id) ≡ false = ground arith in let never = outside d in ground arith
]

on_key-answers :
    (b : Bool) (o : Option Reaction) (r : Reaction) → (if b then o else none) ≡ some r → b ≡ true
on_key-answers true o r h = refl
on_key-answers false o r h = ground arith

-- At most one of the open modals answers a key: if the handlers of two entries of the stack both
-- react, whatever their dialogs hold and however dialogs contain each other, they are the same.
pub handle_key_down-one :
    (contains : ℕ → ℕ → Bool) (stack : List StackEntry) (e f : StackEntry) (i j : ℕ) (key : Key)
    (els els' : List ℕ) (active : Option ℕ) (r r' : Reaction)
    → get_elem? stack i ≡ some e
    → get_elem? stack j ≡ some f
    → handle_key_down contains e stack key els active ≡ some r
    → handle_key_down contains f stack key els' active ≡ some r'
    → e.id ≡ f.id
unfolding handle_key_down
handle_key_down-one contains stack e f i j key els els' active r r' ki kj he hf =
    elim (Bool-cases (i == j)) [
      | inl s ↦
          let here : i ≡ j = ground arith in
          subst (Holds (λ x. e.id ≡ x.id)) kj
            (subst (λ n. Holds (λ x. e.id ≡ x.id) (get_elem? stack n)) here (rw ki refl))
      | inr s ↦ elim (Bool-cases (ltb i j)) [
        | inl l ↦ ordered contains stack e f i j te tf ki kj (ground arith)
        | inr l ↦ sym (ordered contains stack f e j i tf te kj ki (ground arith))
      ]
    ]
  where
    te : is_topmost contains e stack ≡ true
    te = on_key-answers (is_topmost contains e stack) (on_key e.dialog key els active) r he

    tf : is_topmost contains f stack ≡ true
    tf = on_key-answers (is_topmost contains f stack) (on_key f.dialog key els' active) r' hf
