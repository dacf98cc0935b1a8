-- ===== src/Prelude/Groups.antt =====
-- A `Map` from keys to lists that a loop fills by pushing each item under its key. Entries stand in
-- the order in which their keys first came.
use mathlib.Core.Path.{◌≡◌, refl, sym, ◌∙◌}
use mathlib.Core.Logic.{◌↔◌, inl, inr}
use mathlib.Core.Bool.{Bool, true, false}
use mathlib.Core.Option.{Option, none, some}
use mathlib.Core.List.{List, [], ◌∷◌, ◌++◌, Perm, append-nil, append_assoc, perm_middle}
use mathlib.Core.List.Perm
use native.Mathlib.Omega.{arith}
use Prim.Native.Nat.{ℕ}
use nestlio.Prelude.Tests.{if◌then◌else◌, Bool-cases, ◌==◌, ==_iff}
use nestlio.Prelude.Texts.{Text, text_eq, text_eq→eq, text_eq_refl}
use nestlio.Prelude.Lists.{filter}

-- `===` on keys.
pub record KeyEq {ℓ} (K : Type ℓ) : Type ℓ where
  pub same : K → K → Bool
  pub same_iff : (a b : K) → (same a b ≡ true) ↔ (a ≡ b)

module _ {ℓ} {K A : Type ℓ} (eq : KeyEq K) where
  unfoldable pub push : K → A → List (K × List A) → List (K × List A)
  push key x [] = (key, x ∷ []) ∷ []
  push key x ((k, xs) ∷ groups) =
      let rest = push key x groups in
      if eq.same k key then (k, xs ++ x ∷ []) ∷ groups else (k, xs) ∷ rest

  -- map.get(key) ?? [].
  unfoldable pub items_of : K → List (K × List A) → List A
  items_of key [] = []
  items_of key ((k, xs) ∷ groups) = if eq.same k key then xs else items_of key groups

  unfoldable pub group_from : (A → K) → List (K × List A) → List A → List (K × List A)
  group_from key_of groups [] = groups
  group_from key_of groups (x ∷ xs) = group_from key_of (push (key_of x) x groups) xs

  unfoldable pub group_by : (A → K) → List A → List (K × List A)
  group_by key_of xs = group_from key_of [] xs

module _ {ℓ} {K A : Type ℓ} where
  -- All items of a map, group by group.
  abbrev pub all_items : List (K × List A) → List A
  all_items [] = []
  all_items ((k, xs) ∷ groups) = xs ++ all_items groups

module _ {ℓ} {K A : Type ℓ} (eq : KeyEq K) where
  items_of-push :
      (key k : K) (x : A) (groups : List (K × List A))
      → items_of eq key (push eq k x groups)
        ≡ (if eq.same k key then items_of eq key groups ++ x ∷ [] else items_of eq key groups)
  unfolding items_of push
  items_of-push key k x [] = ground arith
  items_of-push key k x ((j, xs) ∷ groups) =
      ground
        (arith, items_of-push key k x groups, eq.same_iff j k, eq.same_iff j key, eq.same_iff k key)

  -- A key's list holds its items in the order of the walk.
  items_of-group_from :
      (key_of : A → K) (key : K) (groups : List (K × List A)) (xs : List A)
      → items_of eq key (group_from eq key_of groups xs)
        ≡ items_of eq key groups ++ filter (λ x. eq.same (key_of x) key) xs
  unfolding group_from
  items_of-group_from key_of key groups [] = sym (append-nil _)
  items_of-group_from key_of key groups (x ∷ xs) =
      items_of-group_from key_of key (push eq (key_of x) x groups) xs
      ∙ pushed (eq.same (key_of x) key) (items_of-push key (key_of x) x groups)
    where
      rest : List A
      rest = filter (λ y. eq.same (key_of y) key) xs

      pushed :
          (b : Bool)
          → items_of eq key (push eq (key_of x) x groups)
            ≡ (if b then items_of eq key groups ++ x ∷ [] else items_of eq key groups)
          → items_of eq key (push eq (key_of x) x groups) ++ rest
            ≡ items_of eq key groups ++ (if b then x ∷ rest else rest)
      pushed true e = rw e (append_assoc (items_of eq key groups) (x ∷ []) rest)
      pushed false e = rw e refl

  pub items_of-group_by :
      (key_of : A → K) (key : K) (xs : List A)
      → items_of eq key (group_by eq key_of xs) ≡ filter (λ x. eq.same (key_of x) key) xs
  unfolding group_by items_of
  items_of-group_by key_of key xs = items_of-group_from key_of key [] xs

  push-perm :
      (k : K) (x : A) (groups : List (K × List A))
      → Perm (all_items (push eq k x groups)) (x ∷ all_items groups)
  unfolding push
  push-perm k x [] = Perm.refl _
  push-perm k x ((j, xs) ∷ groups) = elim (Bool-cases (eq.same j k)) [
    | inl e ↦ rw (e, append_assoc) (perm_middle xs (all_items groups))
    | inr e ↦ rw e (
        Perm.trans (Perm.append_left xs (push-perm k x groups)) (perm_middle xs (all_items groups)))
  ]

  pub group_from-perm :
      (key_of : A → K) (groups : List (K × List A)) (xs : List A)
      → Perm (all_items (group_from eq key_of groups xs)) (xs ++ all_items groups)
  unfolding group_from
  group_from-perm key_of groups [] = Perm.refl _
  group_from-perm key_of groups (x ∷ xs) =
      Perm.trans (group_from-perm key_of (push eq (key_of x) x groups) xs) (
        Perm.trans (Perm.append_left xs (push-perm (key_of x) x groups))
          (perm_middle xs (all_items groups)))

abbrev pub nat_key : KeyEq ℕ
nat_key = record { same = ◌==◌; same_iff = ==_iff }

pub text_eq_iff : (s t : Text) → (text_eq s t ≡ true) ↔ (s ≡ t)
text_eq_iff s t = (text_eq→eq s t, λ e. rw e (text_eq_refl t))

abbrev pub text_key : KeyEq Text
text_key = record { same = text_eq; same_iff = text_eq_iff }

-- Keys that may be null.
abbrev pub same_option : Option ℕ → Option ℕ → Bool
same_option none none = true
same_option none (some n) = false
same_option (some m) none = false
same_option (some m) (some n) = m == n

pub same_option_iff : (a b : Option ℕ) → (same_option a b ≡ true) ↔ (a ≡ b)
same_option_iff none none = (λ h. refl, λ h. refl)
same_option_iff none (some n) = (λ h. ground arith, λ h. ground arith)
same_option_iff (some m) none = (λ h. ground arith, λ h. ground arith)
same_option_iff (some m) (some n) = (λ h. ground arith, λ h. ground arith)

abbrev pub option_key : KeyEq (Option ℕ)
option_key = record { same = same_option; same_iff = same_option_iff }
