-- ===== src/Math.antt =====
-- The macros of include/nccl_ofi_math.h, on `size_t`: 64 bits, with wrap-around.
use native.Mathlib.Nat.{mod-eq_of_lt, mod-lt, div-add-mod, mod_self, add-div_right, div-eq_of_lt}
use native.Mathlib.Decide.{dec_lt, ℕ_discrete}
use aws_ofi_nccl.Base.{
  ℕ, zero, suc, ◌+◌, ◌-◌, ◌*◌, ◌/◌, ◌%◌, ◌^◌, ◌≤◌, ◌<◌, bit_and, ◌≡◌, ap, ◌∙◌, Bool, true, ◌&&◌,
  not, ◌==◌, ltb, if◌then◌else◌, arith, two_pow_pos, two_pow-suc, bit_and_mask, bit_and_step, ◌↔◌,
}
use aws_ofi_nccl.Base.Bits.{bit_and_high, bit_and_self}

abbrev pub word : ℕ
word = 2 ^ 64

-- `~x`
abbrev pub complement : ℕ → ℕ
complement x = word - 1 - x

-- NCCL_OFI_DIV_CEIL
unfoldable pub div_ceil : ℕ → ℕ → ℕ
div_ceil x y = if x == 0 then 0 else 1 + (x - 1) / y

-- NCCL_OFI_MAX and NCCL_OFI_MIN
unfoldable pub max_of : ℕ → ℕ → ℕ
max_of x y = if ltb x y then y else x

unfoldable pub min_of : ℕ → ℕ → ℕ
min_of x y = if ltb x y then x else y

-- NCCL_OFI_IS_POWER_OF_TWO
unfoldable pub is_power_of_two : ℕ → Bool
is_power_of_two x = not (x == 0) && (bit_and x (x - 1) == 0)

-- NCCL_OFI_IS_ALIGNED
unfoldable pub is_aligned : ℕ → ℕ → Bool
is_aligned x a = bit_and x (a - 1) == 0

-- NCCL_OFI_ROUND_DOWN
unfoldable pub round_down : ℕ → ℕ → ℕ
round_down x y = bit_and x (complement (y - 1))

-- NCCL_OFI_ROUND_UP
unfoldable pub round_up : ℕ → ℕ → ℕ
round_up x y = round_down ((x + (y - 1)) % word) y

-- NCCL_OFI_DIV_CEIL is the least number of pieces of `y` that hold `x`.
pub div_ceil_lem : (x y q : ℕ) → 0 < y → (x ≤ q * y) ↔ (div_ceil x y ≤ q)
unfolding div_ceil
div_ceil_lem zero y q h = (λ _. ground arith, λ _. omega arith)
div_ceil_lem (suc x) y q h = (λ le. ground (arith, fwd le), λ le. back (ground arith))
  where
    below : ¬ (x / y < q) → q * y ≤ y * (x / y)
    below p = grind arith

    fwd : suc x ≤ q * y → 1 + x / y ≤ q
    fwd le = elim (dec_lt (x / y) q) [
      | yes p ↦ omega arith
      | no p ↦ absurd (omega (arith, div-add-mod x y, below p))
    ]

    back : 1 + x / y ≤ q → suc x ≤ q * y
    back le = omega (arith, div-add-mod x y, mod-lt x h, le_mul)
      where
        le_mul : y * (x / y) + y ≤ q * y
        le_mul = grind arith

-- NCCL_OFI_ROUND_DOWN by a power of two is the largest multiple that is not above the value.
pub round_down_lem : (k x : ℕ) → k ≤ 64 → x < word → round_down x (2 ^ k) ≡ x / 2 ^ k * 2 ^ k
unfolding round_down
round_down_lem k x h l =
    let mask : word - 1 - (2 ^ k - 1) ≡ word - 2 ^ k = omega (arith, two_pow_pos k) in
    rw mask (omega (arith, bit_and_high k 64 x h, mod-eq_of_lt l, div-add-mod x (2 ^ k)))

pieces : (x y : ℕ) → 0 < y → (x + (y - 1)) / y ≡ (if x == 0 then 0 else 1 + (x - 1) / y)
pieces zero y h = div-eq_of_lt (omega arith)
pieces (suc x) y h =
    let e : suc x + (y - 1) ≡ x + y = omega arith in
    let one : suc x - 1 ≡ x = omega arith in rw (e, one) (add-div_right x h ∙ ground arith)

-- The pieces overshoot by less than one of them.
pub div_ceil-lt : (x y : ℕ) → 0 < y → div_ceil x y * y < x + y
unfolding div_ceil
div_ceil-lt zero y h = ground arith
div_ceil-lt (suc x) y h =
    let e : (1 + x / y) * y ≡ y + y * (x / y) = grind arith in
    let l : (1 + x / y) * y < suc x + y = omega (arith, e, div-add-mod x y) in ground (arith, l)

-- NCCL_OFI_ROUND_UP by a power of two is the least multiple that is not below the value, where the
-- sum does not wrap.
pub round_up_lem :
    (k x : ℕ) → k ≤ 64 → x + 2 ^ k ≤ word → round_up x (2 ^ k) ≡ div_ceil x (2 ^ k) * 2 ^ k
unfolding round_up div_ceil
round_up_lem k x h l =
    rw
      (
        mod-eq_of_lt {n = x + (2 ^ k - 1)} {m = word} (omega (arith, two_pow_pos k)),
        round_down_lem k (x + (2 ^ k - 1)) h (omega (arith, two_pow_pos k)),
      )
      (ap (λ q. q * 2 ^ k) (pieces x (2 ^ k) (two_pow_pos k)))

power_fwd : (n x : ℕ) → x ≤ n → 0 < x → bit_and x (x - 1) ≡ 0 → (k : ℕ) × (x ≡ 2 ^ k)
power_fwd zero x h p e = absurd (omega arith)
power_fwd (suc n) x h p e = elim (ℕ_discrete (x % 2) 0) [
  | yes even ↦
      let (k, is) = power_fwd n (x / 2) (omega arith) (omega arith) (
        omega (
          arith,
          bit_and_step x (x - 1),
          ap (bit_and (x / 2)) {x = (x - 1) / 2} {y = x / 2 - 1} (omega arith),
        )) in
      (suc k, omega (arith, two_pow-suc k))
  | no odd ↦ (
    0,
    omega (
      arith,
      bit_and_step x (x - 1),
      ap (bit_and (x / 2)) {x = (x - 1) / 2} {y = x / 2} (omega arith),
      bit_and_self (x / 2) (x / 2) (omega arith),
    ),
  )
]

power_back : (k : ℕ) → bit_and (2 ^ k) (2 ^ k - 1) ≡ 0
power_back k = bit_and_mask k (2 ^ k) ∙ mod_self (2 ^ k)

-- NCCL_OFI_IS_POWER_OF_TWO holds of the powers of two and of nothing else.
pub is_power_of_two_lem : (x : ℕ) → (is_power_of_two x ≡ true) ↔ ((k : ℕ) × (x ≡ 2 ^ k))
unfolding is_power_of_two
is_power_of_two_lem x = (
  λ h. power_fwd x x (omega arith) (ground arith) (ground arith),
  λ h. rw h.1 (ground (arith, power_back h.0, two_pow_pos h.0)),
)
