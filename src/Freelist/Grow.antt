-- ===== src/Freelist/Grow.antt =====
-- nccl_ofi_freelist_add keeps the entries of a free list apart.
use native.Mathlib.Decide.{dec_lt}
use aws_ofi_nccl.Base.{
  ℕ, zero, suc, ◌+◌, ◌-◌, ◌*◌, ◌%◌, ◌≤◌, ◌<◌, ◌≡◌, refl, ◌⊎◌, inl, inr, List, [], ◌∷◌, arith,
  length, All, All-map, Result, Error, ok, err, enomem, other, mod_unique,
}
use aws_ofi_nccl.Math.{word}
use aws_ofi_nccl.Freelist.{
  Platform, Freelist, Block, sizeof_block, block_mem_size_full_pages, allocation_count_of, register,
  add, carve,
}
use aws_ofi_nccl.Freelist.Sizes.{Fits, mem_size-ge}
use aws_ofi_nccl.Freelist.Carve.{
  Home, Sound, Clear, Ready, next_of, pushed, carve-Sound, entries-carve,
}

-- The memory that mmap gives does not overlap a block of the list.
abbrev pub Mapped : Freelist → ℕ → ℕ → Type 0
Mapped fl buffer size =
    All (λ (b : Block). (buffer + size ≤ b.memory) ⊎ (b.memory + b.memory_size ≤ buffer)) fl.blocks

-- The call for `n` more entries: the sizes stay within `size_t`, and mmap gives unused memory.
pub record Growable (pf : Platform) (k es : ℕ) (alloc : ℕ → ℕ × ℕ) (fl : Freelist) (n : ℕ)
    : Type 0 where
  pub limit : fl.max_entry_count < word
  pub fits : Fits pf k es (allocation_count_of fl n)
  pub mapped :
      let size = block_mem_size_full_pages pf es (allocation_count_of fl n) in
      (alloc size).0 ≡ 0 → Mapped fl (alloc size).1 size

home-Clear :
    (es rz lo size : ℕ) (bs : List Block)
    → sizeof_block ≤ size
    → All (λ (b : Block). (lo + size ≤ b.memory) ⊎ (b.memory + b.memory_size ≤ lo)) bs
    → (x : ℕ) → Home es rz bs x
    → Clear es rz lo (lo + size - sizeof_block) x
home-Clear es rz lo size [] h m x home = absurd home
home-Clear es rz lo size (b ∷ bs) h m x (inl w) = elim (m.0) [
  | inl above ↦ inr (omega (arith, w))
  | inr below ↦ inl (omega (arith, w))
]
home-Clear es rz lo size (b ∷ bs) h m x (inr home) = home-Clear es rz lo size bs h m.1 x home

-- What adding a block gives.
unfoldable pub Added : Freelist → Result (Unit {0}) → Freelist → Type 0
Added fl r fl' =
    ((e : Error) × (r ≡ err e) × (fl' ≡ fl))
    ⊎ ((r ≡ ok tt)
        × (length fl.entries < length fl'.entries)
        × (fl'.max_entry_count ≡ fl.max_entry_count))

max-carve :
    (n lo : ℕ) (b : Block) (fl : Freelist) → (carve n lo b fl).max_entry_count ≡ fl.max_entry_count
unfolding carve
max-carve zero lo b fl = refl
max-carve (suc n) lo b fl = max-carve n (next_of lo fl) b (pushed lo b fl)

count-le :
    (fl : Freelist) (n : ℕ)
    → fl.max_entry_count < word
    → (0 < fl.max_entry_count → fl.num_allocated_entries ≤ fl.max_entry_count)
    → 0 < fl.max_entry_count
    → fl.num_allocated_entries + allocation_count_of fl n ≤ fl.max_entry_count
unfolding allocation_count_of
count-le fl n l b h =
    let max = fl.max_entry_count in
    let num = fl.num_allocated_entries in
    let le = b h in
    let room : (max + word - num) % word ≡ max - num =
      mod_unique (max + word - num) word 1 (max - num) (omega arith) (omega arith) in
    ground (arith, room, le)

module _ (pf : Platform) (k es rz : ℕ) (alloc : ℕ → ℕ × ℕ) (fl : Freelist) (live : List ℕ)
    (s : Sound es rz fl live) (n : ℕ) (g : Growable pf k es alloc fl n) where
  abbrev c : ℕ
  c = allocation_count_of fl n

  abbrev size : ℕ
  size = block_mem_size_full_pages pf es c

  abbrev buffer : ℕ
  buffer = (alloc size).1

  abbrev block : Block
  block = record { memory = buffer; memory_size = size; mr_handle = (register fl buffer size).1 }

  abbrev grown : Freelist
  grown = record fl { blocks = block ∷ fl.blocks }

  grown-Sound : Sound es rz grown live
  grown-Sound = record {
    size_at = s.size_at;
    redzone_at = s.redzone_at;
    user = s.user;
    free_spread = s.free_spread;
    live_spread = s.live_spread;
    between = s.between;
    free_home = All-map (λ x h. inr h) fl.entries s.free_home;
    live_home = All-map (λ x h. inr h) live s.live_home;
    counted = s.counted;
    bounded = s.bounded;
  }

  grown-Ready : (alloc size).0 ≡ 0 → Ready es rz c buffer (buffer + size - sizeof_block) grown live
  grown-Ready e =
      let ge = mem_size-ge pf k es c g.fits in
      let comm : c * es ≡ es * c = grind arith in
      let clear = home-Clear es rz buffer size fl.blocks (omega (arith, ge)) (g.mapped e) in
      record {
        room = omega (arith, ge, comm);
        free_clear = All-map clear fl.entries s.free_home;
        live_clear = All-map clear live s.live_home;
        inside = λ x a b. inl (a, omega (arith, ge));
        below = λ h. count-le fl n g.limit s.bounded h;
      }

  add_full : c ≡ 0 → add pf alloc fl n ≡ (err enomem, fl)
  unfolding add
  add_full e = rw s.size_at (ground (arith, e))

  add_no_memory : 0 < c → 0 < (alloc size).0 → add pf alloc fl n ≡ (err (other (alloc size).0), fl)
  unfolding add
  add_no_memory p e = rw s.size_at (ground (arith, e, p))

  abbrev registered : ℕ
  registered = (register fl buffer size).0

  add_no_registration :
      0 < c → (alloc size).0 ≡ 0 → 0 < registered → add pf alloc fl n ≡ (err (other registered), fl)
  unfolding add
  add_no_registration p e h = rw s.size_at (ground (arith, e, p, h))

  add_ok :
      0 < c
      → (alloc size).0 ≡ 0
      → registered ≡ 0
      → add pf alloc fl n ≡ (ok tt, carve c buffer block grown)
  unfolding add
  add_ok p e h = rw s.size_at (ground (arith, e, p, h))

  -- nccl_ofi_freelist_add keeps the list sound. Either it returns an error and leaves the list as it
  -- is, or it returns 0 and the list has more free entries and the same maximum.
  pub add_lem : let (r, fl') = add pf alloc fl n in Sound es rz fl' live × Added fl r fl'
  unfolding Added
  add_lem = elim (dec_lt 0 c) [
    | no p ↦ rw (add_full (omega arith)) (s, inl (enomem, refl, refl))
    | yes p ↦ elim (dec_lt 0 (alloc size).0) [
      | yes e ↦ rw (add_no_memory p e) (s, inl (other (alloc size).0, refl, refl))
      | no e ↦ elim (dec_lt 0 registered) [
        | yes h ↦ rw (add_no_registration p (omega arith) h) (s, inl (other registered, refl, refl))
        | no h ↦ rw (add_ok p (omega arith) (omega arith)) (
          carve-Sound es rz c buffer (buffer + size - sizeof_block) block grown live grown-Sound
              (grown-Ready (omega arith)),
          inr (
            refl,
            omega (arith, entries-carve c buffer block grown),
            max-carve c buffer block grown,
          ),
        )
      ]
    ]
  ]
