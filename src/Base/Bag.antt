-- ===== src/Base/Bag.antt =====
-- Lists of numbers as bags: how often a number occurs, and the list with one occurrence less.
use Prim.Native.Nat.{ℕ, ◌+◌, ◌-◌, ◌<◌}
use mathlib.Core.Path.{◌≡◌}
use mathlib.Core.List.{List, [], ◌∷◌}
use mathlib.Core.Bool.{true, false}
use native.Mathlib.Decide.{ℕ_discrete}
use native.Mathlib.Omega.{arith}
use aws_ofi_nccl.Base.Tests.{◌==◌, if◌then◌else◌}
use aws_ofi_nccl.Base.Lists.{length, All}

unfoldable pub count : ℕ → List ℕ → ℕ
count id [] = 0
count id (x ∷ xs) = (if id == x then 1 else 0) + count id xs

unfoldable pub remove : ℕ → List ℕ → List ℕ
remove id [] = []
remove id (x ∷ xs) = if x == id then xs else x ∷ remove id xs

pub count-remove :
    (xs : List ℕ) (id j : ℕ)
    → 0 < count id xs
    → count j (remove id xs) ≡ (if j == id then count j xs - 1 else count j xs)
unfolding count remove
count-remove [] id j h = absurd (omega arith)
count-remove (x ∷ xs) id j h = elim (ℕ_discrete x id) [
  | yes e ↦ ground (arith, e)
  | no e ↦ ground (arith, count-remove xs id j)
]

pub length-remove : (xs : List ℕ) (id : ℕ) → 0 < count id xs → length (remove id xs) + 1 ≡ length xs
unfolding count remove
length-remove [] id h = absurd (omega arith)
length-remove (x ∷ xs) id h = elim (ℕ_discrete x id) [
  | yes e ↦ ground (arith, e)
  | no e ↦ ground (arith, length-remove xs id)
]

pub All-remove : (P : ℕ → Type 0) (xs : List ℕ) (id : ℕ) → All P xs → All P (remove id xs)
unfolding remove
All-remove P [] id h = tt
All-remove P (x ∷ xs) id h = elim (ℕ_discrete x id) [
  | yes e ↦ let t : (x == id) ≡ true = ground (arith, e) in rw t h.1
  | no e ↦ let f : (x == id) ≡ false = ground (arith, e) in rw f (h.0, All-remove P xs id h.1)
]

pub All-at : (P : ℕ → Type 0) (xs : List ℕ) (id : ℕ) → All P xs → 0 < count id xs → P id
unfolding count
All-at P [] id h c = absurd (omega arith)
All-at P (x ∷ xs) id h c = elim (ℕ_discrete id x) [
  | yes e ↦ rw e h.0
  | no e ↦ All-at P xs id h.1 (ground (arith, e))
]
