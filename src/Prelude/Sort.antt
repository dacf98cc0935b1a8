-- ===== src/Prelude/Sort.antt =====
-- `xs.sort(compare)`: the language's stable sort, by the order `le a b` = `compare(a, b) <= 0`.
use mathlib.Core.Path.{◌≡◌}
use mathlib.Core.Logic.{inl, inr}
use mathlib.Core.Bool.{Bool, true, false}
use mathlib.Core.List.{List, [], ◌∷◌, Perm}
use mathlib.Core.List.Perm
use nestlio.Prelude.Tests.{if◌then◌else◌, Bool-cases}
use nestlio.Prelude.Lists.{All}

module _ {ℓ} {A : Type ℓ} (le : A → A → Bool) where
  unfoldable pub insert_by : A → List A → List A
  insert_by x [] = x ∷ []
  insert_by x (y ∷ ys) = let rest = insert_by x ys in if le x y then x ∷ y ∷ ys else y ∷ rest

  unfoldable pub sort_by : List A → List A
  sort_by [] = []
  sort_by (x ∷ xs) = insert_by x (sort_by xs)

  -- Each element is at most all that follow.
  abbrev pub IsSortedBy : List A → Type 0
  IsSortedBy [] = Unit
  IsSortedBy (x ∷ xs) = All (λ y. le x y ≡ true) xs × IsSortedBy xs

module _ {ℓ} {A : Type ℓ} (le : A → A → Bool) where
  insert_by-perm : (x : A) (ys : List A) → Perm (insert_by le x ys) (x ∷ ys)
  unfolding insert_by
  insert_by-perm x [] = Perm.refl (x ∷ [])
  insert_by-perm x (y ∷ ys) = elim (Bool-cases (le x y)) [
    | inl e ↦ rw e (Perm.refl (x ∷ y ∷ ys))
    | inr e ↦ rw e (Perm.trans (Perm.cons y (insert_by-perm x ys)) (Perm.swap x y ys))
  ]

  pub sort_by-perm : (xs : List A) → Perm (sort_by le xs) xs
  unfolding sort_by
  sort_by-perm [] = Perm.refl []
  sort_by-perm (x ∷ xs) =
      Perm.trans (insert_by-perm x (sort_by le xs)) (Perm.cons x (sort_by-perm xs))

  module _ (total : (a b : A) → le a b ≡ false → le b a ≡ true)
      (trans : (a b c : A) → le a b ≡ true → le b c ≡ true → le a c ≡ true) where
    All-below :
        (x y : A) (ys : List A)
        → le x y ≡ true
        → All (λ z. le y z ≡ true) ys
        → All (λ z. le x z ≡ true) ys
    All-below x y [] h a = tt
    All-below x y (z ∷ zs) h a = (trans x y z h a.0, All-below x y zs h a.1)

    All-insert :
        (y x : A) (ys : List A)
        → le y x ≡ true
        → All (λ z. le y z ≡ true) ys
        → All (λ z. le y z ≡ true) (insert_by le x ys)
    unfolding insert_by
    All-insert y x [] h a = (h, tt)
    All-insert y x (z ∷ zs) h a = elim (Bool-cases (le x z)) [
      | inl e ↦ rw e (h, (a.0, a.1))
      | inr e ↦ rw e (a.0, All-insert y x zs h a.1)
    ]

    insert_by-IsSortedBy :
        (x : A) (ys : List A) → IsSortedBy le ys → IsSortedBy le (insert_by le x ys)
    unfolding insert_by
    insert_by-IsSortedBy x [] s = (tt, tt)
    insert_by-IsSortedBy x (y ∷ ys) s = elim (Bool-cases (le x y)) [
      | inl e ↦ rw e ((e, All-below x y ys e s.0), s)
      | inr e ↦ rw e (All-insert y x ys (total x y e) s.0, insert_by-IsSortedBy x ys s.1)
    ]

    pub sort_by-IsSortedBy : (xs : List A) → IsSortedBy le (sort_by le xs)
    unfolding sort_by
    sort_by-IsSortedBy [] = tt
    sort_by-IsSortedBy (x ∷ xs) = insert_by-IsSortedBy x (sort_by le xs) (sort_by-IsSortedBy xs)
