-- ===== src/Base/Digits.antt =====
-- The operations on binary digits, one digit at a time: what `&` and `|` do at the lowest one.
use Prim.Native.Nat.{
  ℕ, zero, suc, ◌+◌, ◌-◌, ◌*◌, ◌/◌, ◌%◌, ◌≤◌, min, max, bit_and, bit_or, digits, bit_and-bitwise,
  bit_or-bitwise,
}
use mathlib.Core.Path.{◌≡◌, refl, sym, ap, ◌∙◌}
use native.Mathlib.Omega.{arith}

module _ (z : ℕ → ℕ) (f : ℕ → ℕ → ℕ) where
  -- A count that reaches the first number may be one larger.
  spare_digit : (n a b : ℕ) → a ≤ n → digits z f (suc n) a b ≡ digits z f n a b
  spare_digit zero zero b h = refl
  spare_digit zero (suc a) b h = absurd (omega arith)
  spare_digit (suc n) zero b h = refl
  spare_digit (suc n) (suc a) b h =
      ap (λ t. t * 2 + f (suc a % 2) (b % 2)) (spare_digit n (suc a / 2) (b / 2) (omega arith))

  spare_digits : (d a b : ℕ) → digits z f (d + a) a b ≡ digits z f a a b
  spare_digits zero a b = let e : 0 + a ≡ a = omega arith in ap (λ n. digits z f n a b) e
  spare_digits (suc d) a b =
      let e : suc d + a ≡ suc (d + a) = omega arith in
      ap (λ n. digits z f n a b) e ∙ spare_digit (d + a) a b (omega arith) ∙ spare_digits d a b

  -- A count of the number itself leaves enough for its half.
  half_digits : (a b : ℕ) → digits z f a (suc a / 2) b ≡ digits z f (suc a / 2) (suc a / 2) b
  half_digits a b =
      let h = suc a / 2 in
      let e : a ≡ a - h + h = omega arith in ap (λ n. digits z f n h b) e ∙ spare_digits (a - h) h b

-- The step of an operation that is given by its digits, and by `z` once the first number is 0.
module _ (z : ℕ → ℕ) (f op : ℕ → ℕ → ℕ) (law : (x y : ℕ) → op x y ≡ digits z f x x y)
    (base : (y : ℕ) → z y ≡ z (y / 2) * 2 + f 0 (y % 2)) where
  lowest_digit : (y x : ℕ) → op x y ≡ op (x / 2) (y / 2) * 2 + f (x % 2) (y % 2)
  lowest_digit y zero = law 0 y ∙ base y ∙ ap (λ t. t * 2 + f 0 (y % 2)) (sym (law 0 (y / 2)))
  lowest_digit y (suc x) =
      law (suc x) y
      ∙ ap (λ t. t * 2 + f (suc x % 2) (y % 2))
          (half_digits z f x (y / 2) ∙ sym (law (suc x / 2) (y / 2)))

pub bit_and_step : (x y : ℕ) → bit_and x y ≡ bit_and (x / 2) (y / 2) * 2 + min (x % 2) (y % 2)
bit_and_step x y = lowest_digit (λ _. zero) min bit_and bit_and-bitwise (λ y. omega arith) y x

pub bit_or_step : (x y : ℕ) → bit_or x y ≡ bit_or (x / 2) (y / 2) * 2 + max (x % 2) (y % 2)
bit_or_step x y = lowest_digit (λ d. d) max bit_or bit_or-bitwise (λ y. omega arith) y x

no_digits : (n a : ℕ) → digits (λ _. zero) min n a 0 ≡ 0
no_digits zero a = refl
no_digits (suc n) zero = refl
no_digits (suc n) (suc a) = let rest = no_digits n (suc a / 2) in omega (arith, rest)

pub bit_and-zero : (a : ℕ) → bit_and a 0 ≡ 0
bit_and-zero a = bit_and-bitwise a 0 ∙ no_digits a a

pub zero-bit_and : (b : ℕ) → bit_and 0 b ≡ 0
zero-bit_and = bit_and-bitwise zero

pub zero-bit_or : (b : ℕ) → bit_or 0 b ≡ b
zero-bit_or = bit_or-bitwise zero
