-- ===== src/Idpool/Scan.antt =====
-- The search for a set bit in nccl_ofi_idpool_allocate_id.
use native.Mathlib.Decide.{dec_lt, ℕ_discrete}
use aws_ofi_nccl.Base.{
  ℕ, zero, suc, ◌+◌, ◌-◌, ◌*◌, ◌/◌, ◌%◌, ◌^◌, ◌≤◌, ◌<◌, ◌≡◌, ◌≢◌, refl, sym, ap, ◌∙◌, ◌⊎◌, inl, inr,
  bit_and, Option, none, some, List, [], ◌∷◌, ◌==◌, if◌then◌else◌, arith, length, get_or,
  two_pow_mono,
}
use aws_ofi_nccl.Base.Bits.{bit, bit-le_one, bit-bit_and, bit-two_pow, bit-complement, bit_and-le}
use aws_ofi_nccl.Math.{complement}
use aws_ofi_nccl.Idpool.{ffs, scan}

-- `ffs` finds the lowest set bit, or there is none.
abbrev pub FirstSet : ℕ → ℕ → ℕ → Type 0
FirstSet n w e =
    ((e ≡ 0) × ((j : ℕ) → j < n → bit w j ≡ 0))
    ⊎ ((k : ℕ) × (e ≡ suc k) × (k < n) × (bit w k ≡ 1) × ((j : ℕ) → j < k → bit w j ≡ 0))

pub ffs_lem : (n w : ℕ) → FirstSet n w (ffs n w)
unfolding ffs bit
ffs_lem zero w = inl (refl, λ j l. absurd (omega arith))
ffs_lem (suc n) w = elim (ℕ_discrete (w % 2) 1) [
  | yes odd ↦ inr (0, rw odd, omega arith, odd, λ j l. absurd (omega arith))
  | no even ↦ elim (ffs_lem n (w / 2)) [
    | inl (e, clear) ↦ inl (ground (arith, e), clear_below n even clear)
    | inr (k, e, l, set, clear) ↦
        inr (suc k, ground (arith, e), omega arith, set, clear_below k even clear)
  ]
]
  where
    clear_below :
        (n : ℕ)
        → w % 2 ≢ 1
        → ((j : ℕ) → j < n → bit (w / 2) j ≡ 0)
        → (j : ℕ) → j < suc n
        → bit w j ≡ 0
    clear_below n even clear zero l = omega arith
    clear_below n even clear (suc j) l = clear j (omega arith)

-- Every word has 64 bits.
abbrev pub Words : List ℕ → Type 0
Words [] = Unit {0}
Words (w ∷ ws) = (w < 2 ^ 64) × Words ws

-- The bit of an ID.
unfoldable pub free_bit : List ℕ → ℕ → ℕ
free_bit ws id = bit (get_or ws (id / 64) 0) (id % 64)

pub free_bit_low : (w : ℕ) (ws : List ℕ) (k : ℕ) → k < 64 → free_bit (w ∷ ws) k ≡ bit w k
unfolding free_bit
free_bit_low w ws k h =
    let d : k / 64 ≡ 0 = omega arith in let r : k % 64 ≡ k = omega arith in rw (d, r)

pub free_bit_high :
    (w : ℕ) (ws : List ℕ) (k : ℕ) → 64 ≤ k → free_bit (w ∷ ws) k ≡ free_bit ws (k - 64)
unfolding free_bit
free_bit_high w ws k h =
    let d : k / 64 ≡ suc ((k - 64) / 64) = omega arith in
    let r : k % 64 ≡ (k - 64) % 64 = omega arith in rw (d, r)

-- What the loop found: the lowest set bit, now cleared, and no other bit changed.
pub record Found (i : ℕ) (ws : List ℕ) (id : ℕ) (ws' : List ℕ) : Type 0 where
  pub place : ℕ
  pub id_at : id ≡ i * 64 + place
  pub inside : place < 64 * length ws
  pub was_set : free_bit ws place ≡ 1
  pub lowest : (j : ℕ) → j < place → free_bit ws j ≡ 0
  pub cleared : (j : ℕ) → free_bit ws' j ≡ (if j == place then 0 else free_bit ws j)
  pub same_length : length ws' ≡ length ws
  pub still_words : Words ws'

abbrev pub Scanned : ℕ → List ℕ → Option (ℕ × List ℕ) → Type 0
Scanned i ws r =
    ((r ≡ none) × ((j : ℕ) → j < 64 * length ws → free_bit ws j ≡ 0))
    ⊎ ((id : ℕ) × (ws' : List ℕ) × (r ≡ some (id, ws')) × Found i ws id ws')

two_pow_mono_lt : (k : ℕ) → k < 64 → 2 ^ k < 2 ^ 64
two_pow_mono_lt k h = omega (arith, two_pow_mono k 63 (omega arith))

-- Clearing one bit of the first word.
module _ (w k : ℕ) (ws : List ℕ) (hw : w < 2 ^ 64) (hk : k < 64) where
  abbrev masked : ℕ
  masked = bit_and w (complement (2 ^ k))

  bit-masked : (j : ℕ) → j < 64 → bit masked j ≡ (if j == k then 0 else bit w j)
  bit-masked j l = ground (
    arith,
    bit-bit_and w (complement (2 ^ k)) j,
    bit-le_one w j,
    bit-complement 64 (2 ^ k) j (two_pow_mono_lt k hk) l,
    bit-two_pow k j,
  )

  cleared_here : (j : ℕ) → free_bit (masked ∷ ws) j ≡ (if j == k then 0 else free_bit (w ∷ ws) j)
  cleared_here j = elim (dec_lt j 64) [
    | yes l ↦
        free_bit_low masked ws j l
        ∙ bit-masked j l
        ∙ ap (λ b. if j == k then 0 else b) (sym (free_bit_low w ws j l))
    | no l ↦
        ground (arith, free_bit_high masked ws j (omega arith), free_bit_high w ws j (omega arith))
  ]

-- Nothing in the first word: the search goes on.
module _ (i w : ℕ) (ws : List ℕ) (e : ffs 64 w ≡ 0) (clear : (j : ℕ) → j < 64 → bit w j ≡ 0) where
  skip_none :
      ((j : ℕ) → j < 64 * length ws → free_bit ws j ≡ 0)
      → (j : ℕ) → j < 64 * length (w ∷ ws)
      → free_bit (w ∷ ws) j ≡ 0
  skip_none rest j l = elim (dec_lt j 64) [
    | yes p ↦ free_bit_low w ws j p ∙ clear j p
    | no p ↦ free_bit_high w ws j (omega arith) ∙ rest (j - 64) (omega arith)
  ]

  skip_low :
      (p j : ℕ) → ((j : ℕ) → j < p → free_bit ws j ≡ 0) → j < 64 + p → free_bit (w ∷ ws) j ≡ 0
  skip_low p j rest l = elim (dec_lt j 64) [
    | yes q ↦ free_bit_low w ws j q ∙ clear j q
    | no q ↦ free_bit_high w ws j (omega arith) ∙ rest (j - 64) (omega arith)
  ]

  skip_cleared :
      (ws' : List ℕ) (p j : ℕ)
      → ((j : ℕ) → free_bit ws' j ≡ (if j == p then 0 else free_bit ws j))
      → free_bit (w ∷ ws') j ≡ (if j == 64 + p then 0 else free_bit (w ∷ ws) j)
  skip_cleared ws' p j rest = elim (dec_lt j 64) [
    | yes q ↦ ground (arith, free_bit_low w ws j q, free_bit_low w ws' j q)
    | no q ↦ ground (
      arith,
      free_bit_high w ws j (omega arith),
      free_bit_high w ws' j (omega arith),
      rest (j - 64),
    )
  ]

  skip_Found :
      {id : ℕ} {ws' : List ℕ} → w < 2 ^ 64 → Found (i + 1) ws id ws' → Found i (w ∷ ws) id (w ∷ ws')
  skip_Found {id} {ws'} hw f = record {
    place = 64 + f.place;
    id_at = omega (arith, f.id_at);
    inside = omega (arith, f.inside);
    was_set =
        free_bit_high w ws (64 + f.place) (omega arith)
        ∙ ap (free_bit ws) {x = 64 + f.place - 64} {y = f.place} (omega arith)
        ∙ f.was_set;
    lowest = λ j l. skip_low f.place j f.lowest l;
    cleared = λ j. skip_cleared ws' f.place j f.cleared;
    same_length = ap suc f.same_length;
    still_words = (hw, f.still_words);
  }

  skip-Scanned :
      w < 2 ^ 64 → Scanned (i + 1) ws (scan (i + 1) ws) → Scanned i (w ∷ ws) (scan i (w ∷ ws))
  unfolding scan
  skip-Scanned hw (inl (r, rest)) = inl (rw (e, r), skip_none rest)
  skip-Scanned hw (inr (id, ws', r, f)) = inr (id, w ∷ ws', rw (e, r), skip_Found hw f)

-- A set bit in the first word is taken.
module _ (i w k : ℕ) (ws : List ℕ) (e : ffs 64 w ≡ suc k) (l : k < 64) (set : bit w k ≡ 1)
    (clear : (j : ℕ) → j < k → bit w j ≡ 0) (hw : w < 2 ^ 64) (hs : Words ws) where
  scan_here : scan i (w ∷ ws) ≡ some (i * 64 + k, masked w k ws hw l ∷ ws)
  unfolding scan
  scan_here =
      let one : suc k - 1 ≡ k = omega arith in
      let sum : i * 64 + suc k - 1 ≡ i * 64 + k = omega arith in rw (e, one, sum) (ground arith)

  take_Found : Found i (w ∷ ws) (i * 64 + k) (masked w k ws hw l ∷ ws)
  take_Found = record {
    place = k;
    id_at = refl;
    inside = omega arith;
    was_set = free_bit_low w ws k l ∙ set;
    lowest = λ j p. free_bit_low w ws j (omega arith) ∙ clear j p;
    cleared = cleared_here w k ws hw l;
    same_length = refl;
    still_words = (omega (arith, bit_and-le w (complement (2 ^ k))), hs);
  }

-- The loop finds the lowest free ID of the words, or there is none.
pub scan_lem : (i : ℕ) (ws : List ℕ) → Words ws → Scanned i ws (scan i ws)
scan_lem i [] h = unfold scan in inl (refl, λ j l. absurd (omega arith))
scan_lem i (w ∷ ws) h =
    let rest = scan_lem (i + 1) ws h.1 in
    elim (ffs_lem 64 w) [
      | inl (e, clear) ↦ skip-Scanned i w ws e clear h.0 rest
      | inr (k, e, l, set, clear) ↦ inr (
        i * 64 + k,
        masked w k ws h.0 l ∷ ws,
        scan_here i w k ws e l set clear h.0 h.1,
        take_Found i w k ws e l set clear h.0 h.1,
      )
    ]
