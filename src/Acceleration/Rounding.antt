-- ===== src/Acceleration/Rounding.antt =====
-- Months rounded up, and sums of amounts (frontend/src/utils/goalAcceleration.ts).
use native.Mathlib.Nat.{
  pow-suc, one-le-pow, mul-le-mul_right, mul-le-mul_left, div-mul-le_self, div-lt_iff_lt-mul,
  mul_assoc, lt-div-mul-add,
}
use mathlib.Core.Path.{subst}
use nestlio.Prelude.{
  ℕ, zero, suc, ◌+◌, ◌-◌, ◌*◌, ◌/◌, ◌^◌, ◌≤◌, refl, ◌<◌, ◌≡◌, sym, ap, ◌∙◌, false, decimal,
  of_signed, add_number, arith,
}
use nestlio.Prelude.Int.{ℤ, pos, negsuc, sub_ℕ, ◌+ℤ◌, mul_ℕ, mul_ℕ-suc, mul_ℕ-zero, int_laws}
use nestlio.Acceleration.{sub_number, max_zero}

-- a / b, rounded up.
abbrev pub ceil_div : ℕ → ℕ → ℕ
ceil_div a b = (a + (b - 1)) / b

pub ceil_div-reaches : (a b : ℕ) → 0 < b → a ≤ ceil_div a b * b
ceil_div-reaches a b h = omega (arith, lt-div-mul-add {a = a + (b - 1)} {b = b} h)

ceil_div-least : (a b k : ℕ) → 0 < b → a ≤ k * b → ceil_div a b ≤ k
ceil_div-least a b k h e =
    let below : a + (b - 1) < suc k * b = omega (arith, h, e) in
    let fewer : ceil_div a b < suc k =
      (div-lt_iff_lt-mul {k = b} {x = a + (b - 1)} {y = suc k} h).1 below in
    omega (arith, fewer)

pub ceil_div-before : (a b j : ℕ) → 0 < b → ceil_div a b ≡ suc j → j * b < a
ceil_div-before a b j h e =
    let below : suc j * b ≤ a + (b - 1) =
      subst (λ q. q * b ≤ a + (b - 1)) e (div-mul-le_self (a + (b - 1)) b) in
    omega (arith, h, below)

pub pow_pos : (s : ℕ) → 0 < 10 ^ s
pow_pos s = one-le-pow s 10 (omega arith)

pow-add : (s t : ℕ) → 10 ^ (s + t) ≡ 10 ^ s * 10 ^ t
pow-add s zero = grind arith
pow-add s (suc t) =
    let same : s + suc t ≡ suc (s + t) = omega arith in
    let split : 10 ^ (s + t) * 10 ≡ 10 ^ s * (10 ^ t * 10) =
      ap (λ n. n * 10) (pow-add s t) ∙ mul_assoc (10 ^ s) (10 ^ t) 10 in
    ap (λ n. 10 ^ n) same ∙ pow-suc 10 (s + t) ∙ split ∙ ap (λ n. 10 ^ s * n) (sym (pow-suc 10 t))

pub mul_pos : (a b : ℕ) → 0 < a → 0 < b → 0 < a * b
mul_pos a b h k = grind (arith, mul-le-mul_right {m = 1} {n = a} b h)

-- More money a month takes no more months.
pub ceil_div-more : (m n e : ℕ) → 0 < n → ceil_div m (n + e) ≤ ceil_div m n
ceil_div-more m n e h =
    let reached : m ≤ ceil_div m n * n = ceil_div-reaches m n h in
    let raised : ceil_div m n * n ≤ ceil_div m n * (n + e) =
      mul-le-mul_left (ceil_div m n) (omega arith) in
    ceil_div-least m (n + e) (ceil_div m n) (omega (arith, h)) (omega (arith, reached, raised))

times_one : (z : ℤ) → mul_ℕ z 1 ≡ z
times_one z = mul_ℕ-suc z 0 ∙ ap (λ y. y +ℤ z) (mul_ℕ-zero z) ∙ zero_left
  where
    zero_left : pos 0 +ℤ z ≡ z
    zero_left = omega int_laws

sub_ℕ-suc : (b : ℕ) → sub_ℕ 0 (suc b) ≡ negsuc b
sub_ℕ-suc b = ground arith

add_less : (a b : ℕ) → b ≤ a → pos a +ℤ sub_ℕ 0 b ≡ pos (a - b)
add_less a zero e = omega int_laws
add_less a (suc b) e = ap (λ z. pos a +ℤ z) (sub_ℕ-suc b) ∙ less e
  where
    less : suc b ≤ a → pos a +ℤ negsuc b ≡ pos (a - suc b)
    less h = omega (int_laws, h)

pub sub_number-months :
    (a b : ℕ) → b ≤ a → sub_number (decimal false a 0) (decimal false b 0) ≡ decimal false (a - b) 0
unfolding sub_number add_number
sub_number-months a b h = ap (λ z. of_signed z 0) (difference h)
  where
    difference : b ≤ a → mul_ℕ (pos a) 1 +ℤ mul_ℕ (sub_ℕ 0 b) 1 ≡ pos (a - b)
    difference e =
        ap (λ z. z +ℤ mul_ℕ (sub_ℕ 0 b) 1) (times_one (pos a))
        ∙ ap (λ z. pos a +ℤ z) (times_one (sub_ℕ 0 b))
        ∙ add_less a b e

pub add_number-positive :
    (n t e u : ℕ)
    → add_number (decimal false n t) (decimal false e u)
      ≡ decimal false (n * 10 ^ u + e * 10 ^ t) (t + u)
unfolding add_number mul_ℕ
add_number-positive n t e u = ap (λ z. of_signed z (t + u)) total
  where
    total : mul_ℕ (pos n) (10 ^ u) +ℤ mul_ℕ (pos e) (10 ^ t) ≡ pos (n * 10 ^ u + e * 10 ^ t)
    total = omega int_laws

mul_ℕ-pos : (a k : ℕ) → mul_ℕ (pos a) k ≡ pos (a * k)
unfolding mul_ℕ
mul_ℕ-pos a k = refl

mul_ℕ-minus : (a k : ℕ) → mul_ℕ (sub_ℕ 0 a) k ≡ sub_ℕ 0 (a * k)
unfolding mul_ℕ
mul_ℕ-minus zero k = ground arith
mul_ℕ-minus (suc a) k = ap (λ z. mul_ℕ z k) (sub_ℕ-suc a)

-- Sums and differences of whole amounts, whatever their scales.
scaled : (n s t : ℕ) → n * 10 ^ s * 10 ^ t ≡ n * 10 ^ (s + t)
scaled n s t = mul_assoc n (10 ^ s) (10 ^ t) ∙ ap (λ p. n * p) (sym (pow-add s t))

scaled_back : (n s t : ℕ) → n * 10 ^ t * 10 ^ s ≡ n * 10 ^ (s + t)
scaled_back n s t = scaled n t s ∙ ap (λ k. n * 10 ^ k) (omega arith)

pub add_number-whole :
    (n e t u : ℕ)
    → add_number (decimal false (n * 10 ^ t) t) (decimal false (e * 10 ^ u) u)
      ≡ decimal false ((n + e) * 10 ^ (t + u)) (t + u)
add_number-whole n e t u =
    let sum : n * 10 ^ t * 10 ^ u + e * 10 ^ u * 10 ^ t ≡ (n + e) * 10 ^ (t + u) =
      grind (arith, scaled n t u, scaled_back e t u) in
    add_number-positive (n * 10 ^ t) t (e * 10 ^ u) u ∙ ap (λ m. decimal false m (t + u)) sum

pub sub_number-whole :
    (d c s t : ℕ)
    → max_zero (sub_number (decimal false ((d + c) * 10 ^ s) s) (decimal false (c * 10 ^ t) t))
      ≡ decimal false (d * 10 ^ (s + t)) (s + t)
unfolding sub_number add_number
sub_number-whole d c s t = ap (λ z. max_zero (of_signed z (s + t))) difference
  where
    front : (d + c) * 10 ^ s * 10 ^ t ≡ d * 10 ^ (s + t) + c * 10 ^ (s + t)
    front = grind (arith, scaled (d + c) s t)

    difference :
        mul_ℕ (pos ((d + c) * 10 ^ s)) (10 ^ t) +ℤ mul_ℕ (sub_ℕ 0 (c * 10 ^ t)) (10 ^ s)
        ≡ pos (d * 10 ^ (s + t))
    difference =
        ap (λ z. z +ℤ mul_ℕ (sub_ℕ 0 (c * 10 ^ t)) (10 ^ s))
          (mul_ℕ-pos ((d + c) * 10 ^ s) (10 ^ t) ∙ ap pos front)
        ∙ ap (λ z. pos (d * 10 ^ (s + t) + c * 10 ^ (s + t)) +ℤ z)
            (mul_ℕ-minus (c * 10 ^ t) (10 ^ s) ∙ ap (sub_ℕ 0) (scaled_back c s t))
        ∙ add_less (d * 10 ^ (s + t) + c * 10 ^ (s + t)) (c * 10 ^ (s + t)) (omega arith)
        ∙ ap pos (omega arith)
