-- ===== src/Base/Bits.antt =====
-- The binary digits of a word, and what `&`, `|`, `~` and `1 << e` do to each.
use Prim.Native.Nat.{ℕ, zero, suc, ◌-◌, ◌*◌, ◌/◌, ◌%◌, ◌^◌, ◌≤◌, ◌<◌, min, max, bit_and, bit_or}
use mathlib.Core.Path.{◌≡◌, refl, ap, ◌∙◌}
use native.Mathlib.Omega.{arith}
use aws_ofi_nccl.Base.Tests.{◌==◌, if◌then◌else◌}
use aws_ofi_nccl.Base.Digits.{bit_or_step}
use aws_ofi_nccl.Base.Words.{
  bit_and_step, bit_and-zero, zero-bit_and, two_pow-suc, two_pow_pos, mod_double, bit_and_mask,
}

unfoldable pub bit : ℕ → ℕ → ℕ
bit x zero = x % 2
bit x (suc j) = bit (x / 2) j

pub bit-le_one : (x j : ℕ) → bit x j ≤ 1
unfolding bit
bit-le_one x zero = omega arith
bit-le_one x (suc j) = bit-le_one (x / 2) j

pub bit-suc : (x j : ℕ) → bit x (suc j) ≡ bit (x / 2) j
unfolding bit
bit-suc x j = refl

pub bit-zero : (j : ℕ) → bit 0 j ≡ 0
unfolding bit
bit-zero zero = refl
bit-zero (suc j) = bit-zero j

pub bit-bit_and : (a b j : ℕ) → bit (bit_and a b) j ≡ min (bit a j) (bit b j)
unfolding bit
bit-bit_and a b zero = omega (arith, bit_and_step a b)
bit-bit_and a b (suc j) =
    let half : bit_and a b / 2 ≡ bit_and (a / 2) (b / 2) = omega (arith, bit_and_step a b) in
    rw half (bit-bit_and (a / 2) (b / 2) j)

pub bit-bit_or : (a b j : ℕ) → bit (bit_or a b) j ≡ max (bit a j) (bit b j)
unfolding bit
bit-bit_or a b zero = omega (arith, bit_or_step a b)
bit-bit_or a b (suc j) =
    let half : bit_or a b / 2 ≡ bit_or (a / 2) (b / 2) = omega (arith, bit_or_step a b) in
    rw half (bit-bit_or (a / 2) (b / 2) j)

-- `1 << e`.
pub bit-two_pow : (e j : ℕ) → bit (2 ^ e) j ≡ (if j == e then 1 else 0)
unfolding bit
bit-two_pow zero zero = refl
bit-two_pow zero (suc j) = bit-zero j ∙ ground arith
bit-two_pow (suc e) zero = rw two_pow-suc (ground arith)
bit-two_pow (suc e) (suc j) =
    let half : 2 ^ suc e / 2 ≡ 2 ^ e = omega (arith, two_pow-suc e) in
    rw half (bit-two_pow e j ∙ ground arith)

-- `w & (1 << e)`.
pub bit_and-two_pow : (w e : ℕ) → bit_and w (2 ^ e) ≡ bit w e * 2 ^ e
unfolding bit
bit_and-two_pow w zero = omega (arith, bit_and_step w 1, bit_and-zero (w / 2))
bit_and-two_pow w (suc e) =
    let half : 2 * 2 ^ e / 2 ≡ 2 ^ e = omega arith in
    rw two_pow-suc (
      omega
        (arith, bit_and_step w (2 * 2 ^ e), ap (bit_and (w / 2)) half, bit_and-two_pow (w / 2) e))

-- `~w` in a word of `W` bits.
pub bit-complement : (W w j : ℕ) → w < 2 ^ W → j < W → bit (2 ^ W - 1 - w) j ≡ 1 - bit w j
unfolding bit
bit-complement zero w j h l = absurd (omega arith)
bit-complement (suc W) w zero h l = omega (arith, two_pow-suc W)
bit-complement (suc W) w (suc j) h l =
    let half : (2 ^ suc W - 1 - w) / 2 ≡ 2 ^ W - 1 - w / 2 = omega (arith, two_pow-suc W) in
    rw half (bit-complement W (w / 2) j (omega (arith, two_pow-suc W)) (omega arith))

pub bit_and-le : (a b : ℕ) → bit_and a b ≤ a
bit_and-le a b = fuel a a b (omega arith)
  where
    fuel : (n a b : ℕ) → a ≤ n → bit_and a b ≤ a
    fuel zero zero b h = omega (arith, zero-bit_and b)
    fuel zero (suc a) b h = absurd (omega arith)
    fuel (suc n) zero b h = omega (arith, zero-bit_and b)
    fuel (suc n) (suc a) b h =
        omega (arith, bit_and_step (suc a) b, fuel n (suc a / 2) (b / 2) (omega arith))

pub bit_or-lt : (W a b : ℕ) → a < 2 ^ W → b < 2 ^ W → bit_or a b < 2 ^ W
bit_or-lt zero a b ha hb =
    let za : a ≡ 0 = omega arith in let zb : b ≡ 0 = omega arith in rw (za, zb) (omega arith)
bit_or-lt (suc W) a b ha hb = omega (
  arith,
  bit_or_step a b,
  two_pow-suc W,
  bit_or-lt W (a / 2) (b / 2) (omega (arith, two_pow-suc W)) (omega (arith, two_pow-suc W)),
)

-- Clearing the low `k` bits of a word of `W` bits, `x & ~(2^k - 1)`.
pub bit_and_high : (k W x : ℕ) → k ≤ W → bit_and x (2 ^ W - 2 ^ k) ≡ x % 2 ^ W - x % 2 ^ k
bit_and_high zero W x h = omega (arith, bit_and_mask W x)
bit_and_high (suc k) zero x h = absurd (omega arith)
bit_and_high (suc k) (suc W) x h =
    rw (two_pow-suc W, two_pow-suc k)
      (omega (
        arith,
        bit_and_step x (2 * 2 ^ W - 2 * 2 ^ k),
        ap (bit_and (x / 2)) {x = (2 * 2 ^ W - 2 * 2 ^ k) / 2} {y = 2 ^ W - 2 ^ k} (omega arith),
        bit_and_high k W (x / 2) (omega arith),
        mod_double x (2 ^ W) (two_pow_pos W),
        mod_double x (2 ^ k) (two_pow_pos k),
      ))

pub bit_and_self : (n a : ℕ) → a ≤ n → bit_and a a ≡ a
bit_and_self n zero h = zero-bit_and 0
bit_and_self zero (suc a) h = absurd (omega arith)
bit_and_self (suc n) (suc a) h =
    omega (arith, bit_and_step (suc a) (suc a), bit_and_self n (suc a / 2) (omega arith))
