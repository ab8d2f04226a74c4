-- ===== src/Idpool/Fill.antt =====
-- nccl_ofi_idpool_init: the fill of the words, and the pool that it makes.
use native.Mathlib.Nat.{mod-le, zero-mod}
use native.Mathlib.Decide.{dec_lt, ℕ_discrete}
use aws_ofi_nccl.Base.{
  ℕ, zero, suc, ◌+◌, ◌-◌, ◌*◌, ◌/◌, ◌%◌, ◌^◌, ◌≤◌, ◌<◌, ◌≡◌, ◌≢◌, refl, sym, ap, ◌∙◌, List, [], ◌∷◌,
  ◌==◌, if◌then◌else◌, leb, arith, length, set, get_or-set_self, get_or-set_ne, length-set,
  two_pow_pos, two_pow_mono, two_pow-suc, mod_double, ltb,
}
use aws_ofi_nccl.Base.Bits.{bit, bit-complement, bit-zero}
use aws_ofi_nccl.Math.{word, round_up_lem, div_ceil}
use aws_ofi_nccl.Idpool.{num_long_elements, memset_ff}
use aws_ofi_nccl.Idpool.Scan.{Words, free_bit, free_bit_low, free_bit_high}
use aws_ofi_nccl.Idpool.Laws.{set-Words}

pub num_long_elements_lem :
    (size : ℕ) → size + 64 ≤ word → num_long_elements size ≡ (size + 63) / 64
unfolding num_long_elements div_ceil
num_long_elements_lem size h = rw (round_up_lem 6 size (omega arith) h) (ground arith)

-- A word with its low `m` bits set.
abbrev filled : ℕ → ℕ → ℕ
filled m w = w - w % 2 ^ m + (2 ^ m - 1)

filled-half : (m w : ℕ) → (filled (suc m) w / 2 ≡ filled m (w / 2)) × (filled (suc m) w % 2 ≡ 1)
filled-half m w =
    let facts = mod_double w (2 ^ m) (two_pow_pos m) in
    (
      omega (
        arith,
        two_pow-suc m,
        ap (λ t. w % t) (two_pow-suc m),
        facts,
        two_pow_pos m,
        mod-le (w / 2) (2 ^ m),
      ),
      omega (
        arith,
        two_pow-suc m,
        ap (λ t. w % t) (two_pow-suc m),
        facts,
        two_pow_pos m,
        mod-le (w / 2) (2 ^ m),
      ),
    )

bit-filled : (m w j : ℕ) → bit (filled m w) j ≡ (if ltb j m then 1 else bit w j)
unfolding bit
bit-filled zero w j = let e : filled 0 w ≡ w = omega arith in rw e (ground arith)
bit-filled (suc m) w zero = (filled-half m w).1 ∙ ground arith
bit-filled (suc m) w (suc j) = rw ((filled-half m w).0) (bit-filled m (w / 2) j ∙ ground arith)

filled-lt : (W m w : ℕ) → m ≤ W → w < 2 ^ W → filled m w < 2 ^ W
filled-lt W zero w h l = omega arith
filled-lt zero (suc m) w h l = absurd (omega arith)
filled-lt (suc W) (suc m) w h l = omega (
  arith,
  filled-half m w,
  two_pow-suc W,
  filled-lt W m (w / 2) (omega arith) (omega (arith, two_pow-suc W)),
)

-- The bytes that memset reaches have their bits set; the others keep theirs.
memset_word : ℕ → ℕ → ℕ
memset_word n w = if leb 8 n then word - 1 else filled (8 * n) w

bit-memset_word :
    (n w j : ℕ) → j < 64 → bit (memset_word n w) j ≡ (if ltb j (8 * n) then 1 else bit w j)
unfolding memset_word
bit-memset_word n w j l = elim (dec_lt n 8) [
  | yes p ↦ ground (arith, bit-filled (8 * n) w j)
  | no p ↦ ground (arith, bit-complement 64 0 j (omega arith) l, bit-zero j)
]

memset_word-lt : (n w : ℕ) → w < 2 ^ 64 → memset_word n w < 2 ^ 64
unfolding memset_word
memset_word-lt n w h = elim (dec_lt n 8) [
  | yes p ↦ ground (arith, filled-lt 64 (8 * n) w (omega arith) h)
  | no p ↦ ground arith
]

memset_ff-cons :
    (n w : ℕ) (ws : List ℕ) → memset_ff n (w ∷ ws) ≡ memset_word n w ∷ memset_ff (n - 8) ws
unfolding memset_ff memset_word
memset_ff-cons n w ws = refl

pub free_bit-memset_ff :
    (ws : List ℕ) (n j : ℕ)
    → j < 64 * length ws
    → free_bit (memset_ff n ws) j ≡ (if ltb j (8 * n) then 1 else free_bit ws j)
free_bit-memset_ff [] n j l = absurd (omega arith)
free_bit-memset_ff (w ∷ ws) n j l = rw (memset_ff-cons n w ws) (elim (dec_lt j 64) [
  | yes p ↦
      free_bit_low (memset_word n w) (memset_ff (n - 8) ws) j p
      ∙ bit-memset_word n w j p
      ∙ ap (λ b. if ltb j (8 * n) then 1 else b) (sym (free_bit_low w ws j p))
  | no p ↦ ground (
    arith,
    free_bit_high (memset_word n w) (memset_ff (n - 8) ws) j (omega arith),
    free_bit_high w ws j (omega arith),
    free_bit-memset_ff ws (n - 8) (j - 64),
  )
])

memset_ff-Words : (ws : List ℕ) (n : ℕ) → Words ws → Words (memset_ff n ws)
memset_ff-Words [] n h = unfold memset_ff in tt
memset_ff-Words (w ∷ ws) n h =
    rw (memset_ff-cons n w ws) (memset_word-lt n w h.0, memset_ff-Words ws (n - 8) h.1)

length-memset_ff : (ws : List ℕ) (n : ℕ) → length (memset_ff n ws) ≡ length ws
length-memset_ff [] n = unfold memset_ff in refl
length-memset_ff (w ∷ ws) n = rw (memset_ff-cons n w ws) (ap suc (length-memset_ff ws (n - 8)))

-- The words of a new pool of `size` IDs over the memory `ws`.
module _ (size : ℕ) (ws : List ℕ) (pos : 0 < size) (fits : size + 64 ≤ word)
    (long : length ws ≡ num_long_elements size) (hw : Words ws) where
  abbrev last : ℕ
  last = num_long_elements size - 1

  abbrev pub ids : List ℕ
  ids =
      if size % 8 == 0
      then memset_ff (size / 8) ws
      else set (memset_ff (size / 8) ws) last (2 ^ (size % 64) - 1)

  count : num_long_elements size ≡ (size + 63) / 64
  count = num_long_elements_lem size fits

  pub ids-Words : Words ids
  ids-Words = ground (
    arith,
    memset_ff-Words ws (size / 8) hw,
    set-Words (memset_ff (size / 8) ws) last (2 ^ (size % 64) - 1)
        (memset_ff-Words ws (size / 8) hw)
        (omega (arith, two_pow_mono (size % 64) 63 (omega arith))),
  )

  pub length-ids : length ids ≡ num_long_elements size
  length-ids = ground (
    arith,
    length-memset_ff ws (size / 8),
    length-set (memset_ff (size / 8) ws) last (2 ^ (size % 64) - 1),
  )

  mask_bit : (j : ℕ) → bit (2 ^ (size % 64) - 1) j ≡ (if ltb j (size % 64) then 1 else 0)
  mask_bit j =
      let e : 2 ^ (size % 64) - 1 ≡ filled (size % 64) 0 =
        omega (arith, zero-mod (2 ^ (size % 64))) in
      rw e (bit-filled (size % 64) 0 j ∙ ground (arith, bit-zero j))

  full_word :
      (j : ℕ)
      → last ≡ j / 64
      → size % 8 ≢ 0
      → j < size
      → free_bit (set (memset_ff (size / 8) ws) last (2 ^ (size % 64) - 1)) j ≡ 1
  unfolding free_bit
  full_word j q e l =
      rw
        (
          ← q,
          get_or-set_self (memset_ff (size / 8) ws) last (2 ^ (size % 64) - 1) 0
              (omega (arith, count, length-memset_ff ws (size / 8))),
        )
        (mask_bit (j % 64) ∙ ground (arith, count))

  low_word :
      (j : ℕ)
      → last ≢ j / 64
      → j < size
      → free_bit (set (memset_ff (size / 8) ws) last (2 ^ (size % 64) - 1)) j ≡ 1
  unfolding free_bit
  low_word j q l =
      rw (get_or-set_ne (memset_ff (size / 8) ws) last (j / 64) (2 ^ (size % 64) - 1) 0 q)
        (free_bit-memset_ff ws (size / 8) j (omega (arith, count)) ∙ ground (arith, count))

  pub all_free : (j : ℕ) → j < size → free_bit ids j ≡ 1
  all_free j l = elim (ℕ_discrete (size % 8) 0) [
    | yes e ↦ ground (arith, free_bit-memset_ff ws (size / 8) j (omega (arith, count)))
    | no e ↦ elim (ℕ_discrete last (j / 64)) [
      | yes q ↦ ground (arith, full_word j q e l)
      | no q ↦ ground (arith, low_word j q l)
    ]
  ]
