-- ===== src/Idpool/Create.antt =====
-- nccl_ofi_idpool_init and nccl_ofi_idpool_fini: every branch.
use aws_ofi_nccl.Base.{
  Result, ok, err, enomem, other, ℕ, ◌+◌, ◌*◌, ◌%◌, ◌≤◌, ◌<◌, ◌≡◌, refl, Option, none, some, List,
  arith, length, ◌/◌, Option-cases, inl, inr,
}
use aws_ofi_nccl.Math.{word}
use aws_ofi_nccl.Idpool.{Idpool, num_long_elements, init, fini}
use aws_ofi_nccl.Idpool.Scan.{Words, free_bit}
use aws_ofi_nccl.Idpool.Laws.{IsValid, free_of}
use aws_ofi_nccl.Idpool.Fill.{
  all_free, ids-Words, length-ids, ids, num_long_elements_lem, free_bit-memset_ff,
}

-- What initialisation gives for each kind of input.
pub record Created (size : ℕ) (mem : Option (List ℕ)) (mutex_ret : ℕ) (r : Result (Unit {0}))
    (p : Idpool) : Type 0 where
  pub empty : size ≡ 0 → (r ≡ ok tt) × (p.ids ≡ none) × (p.size ≡ 0)
  pub no_memory : 0 < size → mem ≡ none → (r ≡ err enomem) × (p.ids ≡ none)
  pub no_mutex :
      (ws : List ℕ)
      → 0 < size
      → mem ≡ some ws
      → 0 < mutex_ret
      → (r ≡ err (other mutex_ret)) × (p.ids ≡ none)
  pub full :
      (ws : List ℕ)
      → 0 < size
      → mem ≡ some ws
      → mutex_ret ≡ 0
      → (r ≡ ok tt) × IsValid p × (p.size ≡ size) × ((j : ℕ) → j < size → free_of p j ≡ 1)

-- The memory that malloc returns has the length asked for and holds 64-bit words.
abbrev pub Malloced : ℕ → Option (List ℕ) → Type 0
Malloced size mem = (ws : List ℕ) → mem ≡ some ws → (length ws ≡ num_long_elements size) × Words ws

module _ (size : ℕ) (ws : List ℕ) (pool : Idpool) (pos : 0 < size) (fits : size + 64 ≤ word)
    (long : length ws ≡ num_long_elements size) (hw : Words ws) where
  abbrev made : Idpool
  made = record { ids = some (ids size ws pos fits long hw); size = size }

  made-IsValid : IsValid made
  made-IsValid = record {
    words = ids size ws pos fits long hw;
    ids_at = refl;
    positive = pos;
    covers = omega (arith, length-ids size ws pos fits long hw, num_long_elements_lem size fits);
    in_words = ids-Words size ws pos fits long hw;
  }

  init-made : init size (some ws) 0 pool ≡ (ok tt, made)
  unfolding init
  init-made = ground arith

module _ (size : ℕ) (mem : Option (List ℕ)) (mutex_ret : ℕ) (pool : Idpool) where
  abbrev result : Result (Unit {0})
  result = (init size mem mutex_ret pool).0

  abbrev after : Idpool
  after = (init size mem mutex_ret pool).1

  no_ids : size ≡ 0 → (result ≡ ok tt) × (after.ids ≡ none) × (after.size ≡ 0)
  unfolding init
  no_ids e = rw e (refl, refl, refl)

  failed : 0 < size → mem ≡ none → (result ≡ err enomem) × (after.ids ≡ none)
  unfolding init
  failed pos e = rw e (ground arith, ground arith)

  broken :
      (ws : List ℕ)
      → 0 < size
      → mem ≡ some ws
      → 0 < mutex_ret
      → (result ≡ err (other mutex_ret)) × (after.ids ≡ none)
  unfolding init
  broken ws pos e k = rw e (ground arith, ground arith)

  -- `nccl_ofi_idpool_init` with size 0 makes the pool without IDs; when malloc or the mutex fails
  -- it returns that error with no array; and otherwise it makes a pool in use of that size in which
  -- every ID is free, whatever the content of the memory. The size is at least 64 below 2 ^ 64.
  pub init_lem :
      size + 64 ≤ word
      → Malloced size mem
      → let (r, p) = init size mem mutex_ret pool in Created size mem mutex_ret r p
  init_lem fits m = record {
    empty = no_ids;
    no_memory = failed;
    no_mutex = broken;
    full = λ ws pos e k.
        let (long, hw) = m ws e in
        rw (e, k, init-made size ws pool pos fits long hw)
          (
            refl,
            made-IsValid size ws pool pos fits long hw,
            refl,
            λ j l. all_free size ws pos fits long hw j l,
          );
  }

-- When the number of IDs is positive, a multiple of 8 and at least 64 below 2 ^ 64, memset covers all of them and no mask is stored: after
-- `nccl_ofi_idpool_init` the bits of the last word beyond the number of IDs are what malloc left.
pub tail_lem :
    (size : ℕ) (ws : List ℕ) (pool : Idpool) (j : ℕ)
    → 0 < size
    → size + 64 ≤ word
    → Malloced size (some ws)
    → size % 8 ≡ 0
    → size ≤ j
    → j < 64 * length ws
    → free_of (init size (some ws) 0 pool).1 j ≡ free_bit ws j
tail_lem size ws pool j pos fits m e h l =
    let (long, hw) = m ws refl in
    rw (init-made size ws pool pos fits long hw)
      (ground (arith, free_bit-memset_ff ws (size / 8) j l))

-- Unless destroying the mutex fails, `nccl_ofi_idpool_fini` returns 0; always, it leaves no array
-- and the size 0.
pub fini_lem :
    (p : Idpool) (mutex_ret : ℕ)
    → let (r, p') = fini mutex_ret p in
      (p'.ids ≡ none) × (p'.size ≡ 0) × (mutex_ret ≡ 0 → r ≡ ok tt)
unfolding fini
fini_lem p mutex_ret = elim (Option-cases p.ids) [
  | inl e ↦ rw e (ground arith, ground arith, λ h. ground arith)
  | inr (ws, e) ↦ rw e (ground arith, ground arith, λ h. ground arith)
]
