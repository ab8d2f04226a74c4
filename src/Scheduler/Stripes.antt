-- ===== src/Scheduler/Stripes.antt =====
-- get_num_stripes: how many stripes a message is cut into.
use native.Mathlib.Decide.{dec_lt, ℕ_discrete}
use aws_ofi_nccl.Base.{
  ℕ, zero, suc, ◌%◌, ◌≤◌, ◌<◌, ◌≡◌, ◌≢◌, refl, ◌⊎◌, inl, inr, arith, ◌==◌, leb, true, false,
}
use aws_ofi_nccl.Math.{max_of, min_of}
use aws_ofi_nccl.Scheduler.{Scheduler, find_factor, initial_stripes, get_num_stripes}

-- The loop finds the largest factor above 1, or there is none and it leaves the value as it was.
unfoldable pub Factor : ℕ → ℕ → ℕ → ℕ → Type 0
Factor i num_rails old new =
    ((1 < new)
      × (new ≤ i)
      × (num_rails % new ≡ 0)
      × ((d : ℕ) → new < d → d ≤ i → num_rails % d ≢ 0))
    ⊎ ((new ≡ old) × ((d : ℕ) → 1 < d → d ≤ i → num_rails % d ≢ 0))

-- A range without factors that is one number longer.
one_further :
    (num_rails j d : ℕ)
    → num_rails % suc j ≢ 0
    → d ≤ suc j
    → (d ≤ j → num_rails % d ≢ 0)
    → num_rails % d ≢ 0
one_further num_rails j d e y f = elim (ℕ_discrete d (suc j)) [
  | yes q ↦ rw q e
  | no q ↦ f (omega arith)
]

widen :
    (j num_rails old new : ℕ)
    → num_rails % suc j ≢ 0
    → Factor j num_rails old new
    → Factor (suc j) num_rails old new
unfolding Factor
widen j num_rails old new e (inl (a, b, c, f)) =
    inl (a, omega arith, c, λ d x y. one_further num_rails j d e y (f d x))
widen j num_rails old new e (inr (a, f)) = inr (a, λ d x y. one_further num_rails j d e y (f d x))

find_factor_lem : (i num_rails old : ℕ) → Factor i num_rails old (find_factor i num_rails old)
unfolding Factor find_factor
find_factor_lem zero num_rails old = inr (refl, λ d a b. absurd (omega arith))
find_factor_lem (suc j) num_rails old = elim (dec_lt 1 (suc j)) [
  | no p ↦ inr (ground arith, λ d a b. absurd (omega arith))
  | yes p ↦
      let stop : leb (suc j) 1 ≡ false = ground arith in
      elim (ℕ_discrete (num_rails % suc j) 0) [
        | yes e ↦
            let hit : (num_rails % suc j == 0) ≡ true = ground (arith, e) in
            inl (
              rw (stop, hit) p,
              rw (stop, hit) (omega arith),
              rw (stop, hit) e,
              rw (stop, hit) (λ d a b. absurd (omega arith)),
            )
        | no e ↦
            let miss : (num_rails % suc j == 0) ≡ false = ground (arith, e) in
            rw (stop, miss)
              (widen j num_rails old (find_factor j num_rails old) e
                (find_factor_lem j num_rails old))
      ]
]

-- The number of stripes before the search for a factor: enough for stripes of the minimum size, at
-- least one and at most one for each rail.
module _ (s : Scheduler) (size num_rails : ℕ) (rails : 0 < num_rails) where
  abbrev wanted : ℕ
  wanted = initial_stripes s size num_rails

  wanted_bounds : (1 ≤ wanted) × (wanted ≤ num_rails)
  unfolding initial_stripes max_of min_of
  wanted_bounds = (ground arith, ground arith)

  -- get_num_stripes, for at least one rail: it is the largest factor of the number of rails above 1
  -- that does not exceed the wanted number, or there is none and it is the wanted number, which then
  -- need not be a factor; it is at least 1 and at most the number of rails.
  pub get_num_stripes_lem :
      let n = get_num_stripes s size num_rails in
      Factor wanted num_rails wanted n × (1 ≤ n) × (n ≤ num_rails)
  unfolding get_num_stripes Factor
  get_num_stripes_lem =
      let found = find_factor_lem wanted num_rails wanted in
      let n = find_factor wanted num_rails wanted in
      let (lo, hi) = within n found in (found, lo, hi)
    where
      within : (n : ℕ) → Factor wanted num_rails wanted n → (1 ≤ n) × (n ≤ num_rails)
      within n (inl (a, b, c, f)) = (omega arith, omega (arith, wanted_bounds))
      within n (inr (a, f)) = (omega (arith, wanted_bounds), omega (arith, wanted_bounds))
