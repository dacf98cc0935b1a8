-- ===== src/Prelude/Int.antt =====
-- Signed integers over the native numbers, under the library's names (its ℤ stands on the unary ℕ).
use Prim.Native.Nat.{ℕ, suc, ◌+◌, ◌-◌, ◌*◌, ◌/◌, ◌%◌, ◌≤◌, ◌<◌}
use mathlib.Core.Path.{◌≡◌}
use mathlib.Core.Bool.{Bool}
use native.Mathlib.Omega.{arith}
use native.Mathlib.Nat.{div-add-mod, mod-lt}
use nestlio.Prelude.Tests.{ltb, leb, if◌then◌else◌}

-- `negsuc n` is -(n + 1).
pub data ℤ : Type 0 where
  pos : ℕ → ℤ
  negsuc : ℕ → ℤ

abbrev pub pos_part : ℤ → ℕ
pos_part (pos n) = n
pos_part (negsuc n) = 0

abbrev pub neg_part : ℤ → ℕ
neg_part (pos n) = 0
neg_part (negsuc n) = suc n

-- a - b, as an integer.
abbrev pub sub_ℕ : ℕ → ℕ → ℤ
sub_ℕ a b = if leb b a then pos (a - b) else negsuc (b - a - 1)

infixl 65 ◌+ℤ◌ ◌-ℤ◌
infix 50 ◌≤ℤ◌
unfoldable pub ◌+ℤ◌ : ℤ → ℤ → ℤ
a +ℤ b = sub_ℕ (pos_part a + pos_part b) (neg_part a + neg_part b)

unfoldable pub ◌-ℤ◌ : ℤ → ℤ → ℤ
a -ℤ b = sub_ℕ (pos_part a + neg_part b) (neg_part a + pos_part b)

abbrev pub ◌≤ℤ◌ : ℤ → ℤ → Type 0
a ≤ℤ b = pos_part a + neg_part b ≤ pos_part b + neg_part a

abbrev pub ltb_ℤ : ℤ → ℤ → Bool
ltb_ℤ a b = ltb (pos_part a + neg_part b) (pos_part b + neg_part a)

abbrev pub leb_ℤ : ℤ → ℤ → Bool
leb_ℤ a b = leb (pos_part a + neg_part b) (pos_part b + neg_part a)

-- `Math.max(a, b)` and `Math.abs(a)`.
abbrev pub max_ℤ : ℤ → ℤ → ℤ
max_ℤ a b = if ltb_ℤ a b then b else a

abbrev pub abs : ℤ → ℕ
abs a = pos_part a + neg_part a

-- What `omega` needs to know of the operations.
pub +ℤ_parts :
    (a b : ℤ)
    → pos_part (a +ℤ b) + neg_part a + neg_part b ≡ neg_part (a +ℤ b) + pos_part a + pos_part b
unfolding ◌+ℤ◌
+ℤ_parts a b = ground arith

pub -ℤ_parts :
    (a b : ℤ)
    → pos_part (a -ℤ b) + neg_part a + pos_part b ≡ neg_part (a -ℤ b) + pos_part a + neg_part b
unfolding ◌-ℤ◌
-ℤ_parts a b = ground arith

pub eq_of_parts : (a b : ℤ) → pos_part a + neg_part b ≡ pos_part b + neg_part a → a ≡ b
eq_of_parts a b h = ground arith

pub ruleset int_laws = (arith, +ℤ_parts, -ℤ_parts, eq_of_parts)

pub +ℤ_comm : (a b : ℤ) → a +ℤ b ≡ b +ℤ a
+ℤ_comm a b = omega int_laws

pub +ℤ_assoc : (a b c : ℤ) → a +ℤ b +ℤ c ≡ a +ℤ (b +ℤ c)
+ℤ_assoc a b c = omega int_laws

-- `Math.floor(z / n)` and what is left, for a positive n.
unfoldable pub div_ℤ : ℤ → ℕ → ℤ
div_ℤ (pos a) n = pos (a / n)
div_ℤ (negsuc a) n = negsuc (a / n)

unfoldable pub mod_ℤ : ℤ → ℕ → ℕ
mod_ℤ (pos a) n = a % n
mod_ℤ (negsuc a) n = n - 1 - a % n

-- z * n.
unfoldable pub mul_ℕ : ℤ → ℕ → ℤ
mul_ℕ (pos a) n = pos (a * n)
mul_ℕ (negsuc a) n = sub_ℕ 0 (suc a * n)

-- -z.
unfoldable pub neg_ℤ : ℤ → ℤ
neg_ℤ z = sub_ℕ (neg_part z) (pos_part z)

pub mul_ℕ-suc : (z : ℤ) (n : ℕ) → mul_ℕ z (suc n) ≡ mul_ℕ z n +ℤ z
unfolding mul_ℕ ◌+ℤ◌
mul_ℕ-suc (pos a) n = grind arith
mul_ℕ-suc (negsuc a) n = grind arith

-- What a division by a positive number leaves.
pub div_mod_ℤ : (z : ℤ) (n : ℕ) → 0 < n → z -ℤ mul_ℕ (div_ℤ z n) n ≡ pos (mod_ℤ z n)
unfolding mul_ℕ div_ℤ mod_ℤ ◌-ℤ◌
div_mod_ℤ (pos a) n h = grind (arith, div-add-mod)
div_mod_ℤ (negsuc a) n h = grind (arith, div-add-mod, mod-lt)

pub mod_ℤ-lt : (z : ℤ) (n : ℕ) → 0 < n → mod_ℤ z n < n
unfolding mod_ℤ
mod_ℤ-lt (pos a) n h = grind arith
mod_ℤ-lt (negsuc a) n h = grind arith

pub mul_ℕ-zero : (z : ℤ) → mul_ℕ z 0 ≡ pos 0
unfolding mul_ℕ
mul_ℕ-zero (pos a) = ground arith
mul_ℕ-zero (negsuc a) = ground arith
