-- ===== src/Base/Results.antt =====
-- What the calls return: 0 or a value, or a negative `errno` value.
use Prim.Native.Nat.{ℕ, ◌-◌, ◌%◌, ◌^◌, ◌<◌}
use mathlib.Core.Path.{◌≡◌, refl}
use mathlib.Core.Logic.{◌⊎◌, inl, inr}
use native.Mathlib.Omega.{arith}
use aws_ofi_nccl.Base.Tests.{ltb, if◌then◌else◌}

-- The values of `errno` that the modelled code names, and the codes it passes on from elsewhere.
pub data Error : Type 0 where
  enomem einval enotsup enoent eexist : Error
  other : ℕ → Error

pub data Result {ℓ} (A : Type ℓ) : Type ℓ where
  ok : A → Result A
  err : Error → Result A

-- The `int` that a `size_t` is converted to; a negative one is an error code to the caller.
unfoldable pub to_int : ℕ → Result ℕ
to_int n = if ltb (n % 2 ^ 32) (2 ^ 31) then ok (n % 2 ^ 32) else err (other (2 ^ 32 - n % 2 ^ 32))

pub to_int-small : (n : ℕ) → n < 2 ^ 31 → to_int n ≡ ok n
unfolding to_int
to_int-small n h = let e : n % 2 ^ 32 ≡ n = omega arith in rw (to_int, e) (ground arith)

pub Result-cases {ℓ} :
    {A : Type ℓ} (r : Result A) → ((a : A) × (r ≡ ok a)) ⊎ ((e : Error) × (r ≡ err e))
Result-cases (ok a) = inl (a, refl)
Result-cases (err e) = inr (e, refl)
