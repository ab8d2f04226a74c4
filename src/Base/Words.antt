-- ===== src/Base/Words.antt =====
-- Remainders and masks of the machine words.
use Prim.Native.Nat.{ℕ, zero, suc, ◌+◌, ◌-◌, ◌*◌, ◌/◌, ◌%◌, ◌^◌, ◌≤◌, ◌<◌, bit_and}
use mathlib.Core.Path.{◌≡◌, ap}
use mathlib.Core.Logic.{◌⊎◌, inl, inr}
pub use aws_ofi_nccl.Base.Digits.{zero-bit_and, bit_and_step, bit_and-zero}
use native.Mathlib.Nat.{div-add-mod, mod-lt, pow-suc, mul-add-mod_self_left, mod-eq_of_lt, mod_self}
use native.Mathlib.Decide.{dec_lt}
use native.Mathlib.Omega.{arith}

pub two_pow-suc : (k : ℕ) → 2 ^ suc k ≡ 2 * 2 ^ k
two_pow-suc k = omega (arith, pow-suc 2 k)

pub two_pow_pos : (k : ℕ) → 0 < 2 ^ k
two_pow_pos zero = omega arith
two_pow_pos (suc k) = omega (arith, two_pow-suc k, two_pow_pos k)

-- A remainder is determined by the multiple below.
pub mod_unique : (x m q r : ℕ) → x ≡ m * q + r → r < m → x % m ≡ r
mod_unique x m q r e h = rw (e, mul-add-mod_self_left m q r) (mod-eq_of_lt h)

-- The last digit splits off a remainder by an even number.
pub mod_double : (x m : ℕ) → 0 < m → x % (2 * m) ≡ 2 * ((x / 2) % m) + x % 2
mod_double x m h =
    mod_unique x (2 * m) (x / 2 / m) (2 * ((x / 2) % m) + x % 2)
      (omega (arith, ap (λ (t : ℕ). 2 * t) (div-add-mod (x / 2) m)))
      (omega (arith, mod-lt (x / 2) h))

-- A mask of ones takes the remainder.
pub bit_and_mask : (k x : ℕ) → bit_and x (2 ^ k - 1) ≡ x % 2 ^ k
bit_and_mask zero x = omega (arith, bit_and-zero x)
bit_and_mask (suc k) x = rw two_pow-suc (
    omega (
      arith,
      two_pow_pos k,
      bit_and_step x (2 * 2 ^ k - 1),
      ap (bit_and (x / 2)) {x = (2 * 2 ^ k - 1) / 2} {y = 2 ^ k - 1} (omega (arith, two_pow_pos k)),
      bit_and_mask k (x / 2),
      mod_double x (2 ^ k) (two_pow_pos k),
    ))

-- Two numbers closer than `m` with one remainder are equal.
pub mod_inj : (m a b : ℕ) → a ≤ b → b < a + m → a % m ≡ b % m → a ≡ b
mod_inj m a b h k e = elim (dec_lt (a / m) (b / m)) [
  | yes p ↦ absurd (omega (arith, div-add-mod a m, div-add-mod b m, mul_up p))
  | no p ↦ omega (arith, div-add-mod a m, div-add-mod b m, mul_same (omega arith))
]
  where
    mul_up : a / m < b / m → m * (a / m) + m ≤ m * (b / m)
    mul_up p = grind arith

    mul_same : b / m ≤ a / m → m * (b / m) ≤ m * (a / m)
    mul_same p = grind arith

-- One step round a ring of size `m`.
pub mod_step :
    (x m : ℕ) → x < m → ((x + 1 < m) × ((x + 1) % m ≡ x + 1)) ⊎ ((x + 1 ≡ m) × ((x + 1) % m ≡ 0))
mod_step x m h = elim (dec_lt (x + 1) m) [
  | yes p ↦ inl (p, mod-eq_of_lt p)
  | no p ↦ let e : x + 1 ≡ m = omega arith in inr (e, rw e (mod_self m))
]

-- A sum of two numbers below `m` goes round at most once.
pub mod_add_cases :
    (b d m : ℕ)
    → b < m
    → d < m
    → ((b + d < m) × ((b + d) % m ≡ b + d)) ⊎ ((m ≤ b + d) × ((b + d) % m ≡ b + d - m))
mod_add_cases b d m hb hd = elim (dec_lt (b + d) m) [
  | yes p ↦ inl (p, mod-eq_of_lt p)
  | no p ↦ inr (omega arith, mod_unique (b + d) m 1 (b + d - m) (omega arith) (omega arith))
]

pub two_pow_mono : (a b : ℕ) → a ≤ b → 2 ^ a ≤ 2 ^ b
two_pow_mono a zero h = let e : a ≡ 0 = omega arith in rw e (omega arith)
two_pow_mono a (suc b) h = elim (dec_lt b a) [
  | yes p ↦ let e : a ≡ suc b = omega arith in rw e (omega arith)
  | no p ↦ omega (arith, two_pow-suc b, two_pow_mono a b (omega arith))
]

pub two_pow_add : (k c : ℕ) → 2 ^ (k + c) ≡ 2 ^ c * 2 ^ k
two_pow_add zero c = let e : 0 + c ≡ c = omega arith in rw e (omega arith)
two_pow_add (suc k) c =
    let e : suc k + c ≡ suc (k + c) = omega arith in
    rw (e, two_pow-suc (k + c), two_pow_add k c, two_pow-suc k) (omega arith)
