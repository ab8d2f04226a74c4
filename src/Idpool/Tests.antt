-- ===== src/Idpool/Tests.antt =====
-- Pools of a few IDs, on which the theorems are applied.
use aws_ofi_nccl.Base.{
  ok, err, enotsup, ℕ, ◌≡◌, refl, Option, none, some, List, [], ◌∷◌, arith, ◌-◌, ◌^◌,
}
use aws_ofi_nccl.Base.Results.{to_int}
use aws_ofi_nccl.Base.Bag.{remove}
use aws_ofi_nccl.Math.{round_up, round_down}
use aws_ofi_nccl.Idpool.{
  memset_ff, scan, ffs, Idpool, num_long_elements, init, allocate_id, free_id,
}
use aws_ofi_nccl.Idpool.Laws.{IsValid}
use aws_ofi_nccl.Idpool.Create.{Malloced}
use aws_ofi_nccl.Idpool.Live.{Run, started, allocated, freed, kept, Accounts, Run-Accounts}

abbrev blank : Idpool
blank = record { ids = none; size = 0 }

-- The memory that malloc returns for 70 IDs.
abbrev dirty : List ℕ
dirty = 5 ∷ 7 ∷ []

dirty-Malloced : (mem : Option (List ℕ)) → mem ≡ some dirty → Malloced 70 mem
unfolding num_long_elements round_up round_down
dirty-Malloced mem m ws e =
    let same : dirty ≡ ws = cc in rw (← same) (refl, (omega arith, (omega arith, tt)))

abbrev fresh : Idpool
fresh = (init 70 (some dirty) 0 blank).1

fresh_words : fresh.ids ≡ some ((2 ^ 64 - 1) ∷ 63 ∷ [])
unfolding init num_long_elements round_up round_down memset_ff
fresh_words = refl

-- One ID left, number 65.
abbrev nearly_full : Idpool
nearly_full = record { ids = some (0 ∷ 2 ∷ []); size = 70 }

nearly_full-IsValid : IsValid nearly_full
nearly_full-IsValid = record {
  words = 0 ∷ 2 ∷ [];
  ids_at = refl;
  positive = omega arith;
  covers = omega arith;
  in_words = (omega arith, (omega arith, tt));
}

abbrev full : Idpool
full = record { ids = some (0 ∷ 0 ∷ []); size = 70 }

takes_last : allocate_id nearly_full ≡ (ok 65, full)
unfolding allocate_id scan ffs to_int
takes_last = refl

gives_back : free_id full 65 ≡ (ok tt, nearly_full)
unfolding free_id
gives_back = refl

-- Memory for eight IDs in which malloc left every bit set.
abbrev all_ones : List ℕ
all_ones = (2 ^ 64 - 1) ∷ []

all_ones-Malloced : Malloced 8 (some all_ones)
unfolding num_long_elements round_up round_down
all_ones-Malloced ws e = let same : all_ones ≡ ws = cc in rw (← same) (refl, (omega arith, tt))

-- After initialisation for eight IDs, ID 9 still counts as free.

-- The pool with IDs 0 and 1 in use, and with ID 1 in use.
abbrev two_used : Idpool
two_used = record { ids = some ((2 ^ 64 - 4) ∷ 63 ∷ []); size = 70 }

abbrev one_used : Idpool
one_used = record { ids = some ((2 ^ 64 - 3) ∷ 63 ∷ []); size = 70 }

abbrev filled_pool : Idpool
filled_pool = record { ids = some ((2 ^ 64 - 1) ∷ 63 ∷ []); size = 70 }

starts : init 70 (some dirty) 0 blank ≡ (ok tt, filled_pool)
unfolding init num_long_elements round_up round_down memset_ff
starts = refl

first_taken :
    allocate_id filled_pool ≡ (ok 0, record { ids = some ((2 ^ 64 - 2) ∷ 63 ∷ []); size = 70 })
unfolding allocate_id scan ffs to_int
first_taken = refl

second_taken :
    allocate_id (record { ids = some ((2 ^ 64 - 2) ∷ 63 ∷ []); size = 70 }) ≡ (ok 1, two_used)
unfolding allocate_id scan ffs to_int
second_taken = refl

first_back : free_id two_used 0 ≡ (ok tt, one_used)
unfolding free_id
first_back = refl

refused_twice : free_id one_used 0 ≡ (err enotsup, one_used)
unfolding free_id
refused_twice = refl

-- Two allocations, a release, and a release of the same ID once more.
two_then_one : Run 70 one_used (1 ∷ [])
unfolding remove
two_then_one =
    kept 0
      (freed 0
        (allocated
          (allocated
            (started (some dirty) blank (omega arith) dirty refl (dirty-Malloced (some dirty) refl)
              starts)
            first_taken)
          second_taken)
        first_back)
      refused_twice

Run-Accounts_example : Accounts 70 one_used (1 ∷ [])
Run-Accounts_example = Run-Accounts (omega arith) two_then_one
