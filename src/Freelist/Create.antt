-- ===== src/Freelist/Create.antt =====
-- freelist_init_internal: what a new free list is like, and each way in which making it fails.
use native.Mathlib.Decide.{dec_lt}
use native.Mathlib.Nat.{mod-eq_of_lt}
use aws_ofi_nccl.Base.{
  ℕ, ◌+◌, ◌*◌, ◌%◌, ◌^◌, ◌≤◌, ◌<◌, ◌≡◌, refl, ◌⊎◌, inl, inr, [], arith, length, Bool, true, false,
  Result, Error, ok, err, enomem, other, two_pow_pos, max,
}
use aws_ofi_nccl.Math.{word, round_up, round_up_lem, max_of, div_ceil_lem, div_ceil-lt, div_ceil}
use aws_ofi_nccl.Freelist.{
  Platform, Freelist, Setup, sizeof_elem, memcheck_granularity, page_padded_entry_count, redzone_of,
  entry_size_of, init_internal, add,
}
use aws_ofi_nccl.Freelist.Carve.{Sound}
use aws_ofi_nccl.Freelist.Grow.{Growable, Added, add_lem}

-- The list before its first block.
abbrev pub empty : Platform → Setup → Freelist
empty pf s = record {
  entry_size = entry_size_of pf s;
  num_allocated_entries = 0;
  max_entry_count = s.max_entry_count;
  increase_entry_count = page_padded_entry_count pf (entry_size_of pf s) s.increase_entry_count;
  entries = [];
  blocks = [];
  have_reginfo = s.have_reginfo;
  regmr_fn = s.regmr_fn;
  deregmr_fn = s.deregmr_fn;
  infos = [];
  memcheck_redzone_size = redzone_of pf s;
}

abbrev pub initial_of : Platform → Setup → ℕ
initial_of pf s = page_padded_entry_count pf (entry_size_of pf s) s.initial_entry_count

-- The alignment is a power of two, and the entry size with its red zone stays within `size_t`.
pub record Sized (pf : Platform) (s : Setup) (a : ℕ) : Type 0 where
  pub alignment : s.entry_alignment ≡ 2 ^ a
  pub alignment_size : a ≤ 63
  pub room : max s.entry_size 16 + max (2 ^ a) 8 + redzone_of pf s ≤ word

max_of-max : (x y : ℕ) → max_of x y ≡ max x y
unfolding max_of
max_of-max x y = ground arith

alignment_power :
    (a : ℕ)
    → a ≤ 63
    → (b : ℕ) × (max_of (2 ^ a) (max_of 8 memcheck_granularity) ≡ 2 ^ b)
      × (b ≤ 63)
      × (2 ^ b ≤ max (2 ^ a) 8)
unfolding max_of
alignment_power a h = elim (dec_lt (2 ^ a) 8) [
  | yes p ↦ (3, ground arith, omega arith, omega arith)
  | no p ↦ (a, ground arith, h, omega arith)
]

below_sum : (q r : ℕ) → 0 < q → q + r < word → r < (q + r) % word
below_sum q r pos h = rw (mod-eq_of_lt {n = q + r} {m = word} h) (omega arith)

module _ (pf : Platform) (s : Setup) (a : ℕ) (z : Sized pf s a) where
  redzone-lt : redzone_of pf s < entry_size_of pf s
  unfolding entry_size_of
  redzone-lt =
      let (b, e, hb, small) = alignment_power a z.alignment_size in
      let x = max_of s.entry_size sizeof_elem in
      let big : (16 ≤ x) × (x ≤ max s.entry_size 16) =
        omega (arith, max_of-max s.entry_size sizeof_elem) in
      let up : x ≤ div_ceil x (2 ^ b) * 2 ^ b =
        (div_ceil_lem x (2 ^ b) (div_ceil x (2 ^ b)) (two_pow_pos b)).1 (omega arith) in
      let over = div_ceil-lt x (2 ^ b) (two_pow_pos b) in
      let rounded : round_up x (max_of s.entry_alignment (max_of 8 memcheck_granularity))
          ≡ div_ceil x (2 ^ b) * 2 ^ b =
        rw (z.alignment, e) (round_up_lem b x (omega arith) (omega (arith, big, small, z.room))) in
      rw rounded (
        below_sum (div_ceil x (2 ^ b) * 2 ^ b) (redzone_of pf s) (omega (arith, up, big))
          (omega (arith, over, big, small, z.room)))

  pub empty-Sound : Sound (entry_size_of pf s) (redzone_of pf s) (empty pf s) []
  empty-Sound = record {
    size_at = refl;
    redzone_at = refl;
    user = redzone-lt;
    free_spread = tt;
    live_spread = tt;
    between = tt;
    free_home = tt;
    live_home = tt;
    counted = refl;
    bounded = λ h. omega arith;
  }

-- What making a list gives for each kind of input.
unfoldable pub Made : Platform → Setup → Bool → ℕ → Result Freelist → Type 0
Made pf s malloced mutex_ret r =
    (malloced ≡ false → r ≡ err enomem)
    × (malloced ≡ true → 0 < mutex_ret → r ≡ err (other mutex_ret))
    × (malloced ≡ true
        → mutex_ret ≡ 0
        → ((e : Error) × (r ≡ err e))
          ⊎ ((fl : Freelist) × (r ≡ ok fl)
              × (0 < length fl.entries)
              × Sound (entry_size_of pf s) (redzone_of pf s) fl []))

module _ (pf : Platform) (alloc : ℕ → ℕ × ℕ) (mutex_ret : ℕ) (s : Setup) where
  abbrev first : Result (Unit {0}) × Freelist
  first = add pf alloc (empty pf s) (initial_of pf s)

  no_memory : init_internal pf alloc false mutex_ret s ≡ err enomem
  unfolding init_internal
  no_memory = refl

  no_mutex : 0 < mutex_ret → init_internal pf alloc true mutex_ret s ≡ err (other mutex_ret)
  unfolding init_internal
  no_mutex h = ground arith

  no_block :
      (e : Error)
      → mutex_ret ≡ 0
      → first.0 ≡ err e
      → init_internal pf alloc true mutex_ret s ≡ err e
  unfolding init_internal
  no_block e h f = rw (h, f)

  made : mutex_ret ≡ 0 → first.0 ≡ ok tt → init_internal pf alloc true mutex_ret s ≡ ok first.1
  unfolding init_internal
  made h f = rw (h, f)

  module _ (k a : ℕ) (z : Sized pf s a)
      (g : Growable pf k (entry_size_of pf s) alloc (empty pf s) (initial_of pf s)) where
    finish :
        mutex_ret ≡ 0
        → Sound (entry_size_of pf s) (redzone_of pf s) first.1 []
        → Added (empty pf s) first.0 first.1
        → ((e : Error) × (init_internal pf alloc true mutex_ret s ≡ err e))
          ⊎ ((fl : Freelist) × (init_internal pf alloc true mutex_ret s ≡ ok fl)
              × (0 < length fl.entries)
              × Sound (entry_size_of pf s) (redzone_of pf s) fl [])
    unfolding Added
    finish h sound (inl (e, r, _)) = inl (e, no_block e h r)
    finish h sound (inr (r, longer, _)) = inr (first.1, made h r, omega (arith, longer), sound)

    -- freelist_init_internal, for an alignment that is a power of two, sizes with their red zone within `size_t` and
    -- unused memory from mmap: when malloc or the mutex fails it returns that error; otherwise it
    -- returns an error or a sound list with a free entry, none of them in the hands of the user.
    pub init_internal_lem :
        (malloced : Bool)
        → Made pf s malloced mutex_ret (init_internal pf alloc malloced mutex_ret s)
    unfolding Made
    init_internal_lem false = ((λ _. no_memory), (λ h. absurd (cc)), λ h. absurd (cc))
    init_internal_lem true = (
      (λ h. absurd (cc)),
      (λ _ h. no_mutex h),
      λ _ h.
          let (sound, added) =
            add_lem pf k (entry_size_of pf s) (redzone_of pf s) alloc (empty pf s) []
              (empty-Sound pf s a z) (initial_of pf s) g in
          finish h sound added,
    )
