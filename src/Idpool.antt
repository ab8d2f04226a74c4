-- ===== src/Idpool.antt =====
-- The pool of identifiers of nccl_ofi_idpool.h and nccl_ofi_idpool.c: a bit set for each free one.
-- Each operation runs under the pool's mutex. Words have 64 bits, and bytes are little-endian.
pub mod Scan
pub mod Laws
pub mod Fill
pub mod Create
pub mod Live
mod Tests
use Prim.Native.Nat.{bit_or}
use aws_ofi_nccl.Base.{
  ℕ, zero, suc, ◌+◌, ◌-◌, ◌*◌, ◌/◌, ◌%◌, ◌^◌, bit_and, Bool, true, false, not, ◌||◌, Option, none,
  some, List, [], ◌∷◌, ltb, leb, ◌==◌, if◌then◌else◌, length, get_or, set, Result, ok, err, enomem,
  einval, enotsup, other, to_int,
}
use aws_ofi_nccl.Math.{word, complement, round_up}

-- `nccl_ofi_idpool_t`; `ids` is `none` for the NULL pointer.
pub record Idpool : Type 0 where
  pub ids : Option (List ℕ)
  pub size : ℕ

-- The number of 64-bit words for a number of IDs.
pub num_long_elements : ℕ → ℕ
num_long_elements size = round_up size 64 / 64

-- memset of the first `n` bytes of an array of words to 0xff.
pub memset_ff : ℕ → List ℕ → List ℕ
memset_ff n [] = []
memset_ff n (w ∷ ws) =
    (if leb 8 n then word - 1 else w - w % 2 ^ (8 * n) + (2 ^ (8 * n) - 1)) ∷ memset_ff (n - 8) ws

-- `mem` is what malloc returns, with its content; `mutex_ret` is what the mutex call returns.
pub init : ℕ → Option (List ℕ) → ℕ → Idpool → Result (Unit {0}) × Idpool
init size mem mutex_ret pool =
    let n = num_long_elements size in
    if size == 0 then (ok tt, record { ids = none; size = 0 }) else elim mem [
      | none ↦ (err enomem, record pool { ids = none })
      | some ws ↦
          let filled = memset_ff (size / 8) ws in
          let ids = (if size % 8 == 0 then filled else set filled (n - 1) (2 ^ (size % 64) - 1)) in
          if mutex_ret == 0
          then (ok tt, record { ids = some ids; size = size })
          else (err (other mutex_ret), record pool { ids = none })
    ]

-- `__builtin_ffsll` on a word of `n` bits: one more than the place of the lowest set bit, or 0.
pub ffs : ℕ → ℕ → ℕ
ffs zero w = 0
ffs (suc n) w =
    let rest = ffs n (w / 2) in if w % 2 == 1 then 1 else if rest == 0 then 0 else rest + 1

-- The loop over the words from number `i` on: the ID found, and the words with its bit cleared.
pub scan : ℕ → List ℕ → Option (ℕ × List ℕ)
scan i [] = none
scan i (w ∷ ws) =
    let entry_index = ffs 64 w in
    if entry_index == 0
    then elim (scan (i + 1) ws) [ none ↦ none | some (id, ws') ↦ some (id, w ∷ ws') ]
    else some (i * 64 + entry_index - 1, bit_and w (complement (2 ^ (entry_index - 1))) ∷ ws)

-- The `size_t` of the ID is returned as an `int`.
pub allocate_id : Idpool → Result ℕ × Idpool
allocate_id pool = if pool.size == 0 then (err enomem, pool) else elim pool.ids [
  | none ↦ (err einval, pool)
  | some ws ↦ elim (scan 0 ws) [
    | none ↦ (err enomem, pool)
    | some (id, ws') ↦
        if leb pool.size id
        then (err enomem, record pool { ids = some ws' })
        else (to_int id, record pool { ids = some ws' })
  ]
]

pub free_id : Idpool → ℕ → Result (Unit {0}) × Idpool
free_id pool id = if pool.size == 0 then (err einval, pool) else elim pool.ids [
  | none ↦ (err einval, pool)
  | some ws ↦
      let w = get_or ws (id / 64) 0 in
      if leb pool.size id
      then (err einval, pool)
      else if not (bit_and w (2 ^ (id % 64)) == 0)
      then (err enotsup, pool)
      else (ok tt, record pool { ids = some (set ws (id / 64) (bit_or w (2 ^ (id % 64)))) })
]

-- `mutex_ret` is what destroying the mutex returns.
pub fini : ℕ → Idpool → Result (Unit {0}) × Idpool
fini mutex_ret pool =
    let freed : Idpool = record { ids = none; size = 0 } in
    let done = (if mutex_ret == 0 then (ok tt, freed) else (err (other mutex_ret), freed)) in
    if pool.size == 0 then elim pool.ids [ none ↦ (ok tt, pool) | some _ ↦ done ] else done
