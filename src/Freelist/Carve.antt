-- ===== src/Freelist/Carve.antt =====
-- The entries that nccl_ofi_freelist_add carves out of a block: where they are, and that none overlaps.
use aws_ofi_nccl.Base.{
  ℕ, zero, suc, ◌+◌, ◌-◌, ◌*◌, ◌≤◌, ◌<◌, ◌≡◌, ◌⊎◌, inl, inr, List, [], ◌∷◌, arith, length, All,
  All-map, if◌then◌else◌,
}
use aws_ofi_nccl.Freelist.{Freelist, Block, sizeof_block, carve}

-- The bytes of two entries do not overlap: an entry takes `es` bytes, its red zone included.
abbrev pub Apart : ℕ → ℕ → ℕ → Type 0
Apart es x y = (x + es ≤ y) ⊎ (y + es ≤ x)

-- No two of the entries overlap.
abbrev pub Spread : ℕ → List ℕ → Type 0
Spread es [] = Unit {0}
Spread es (x ∷ xs) = All (Apart es x) xs × Spread es xs

-- The entry at `x` and its red zone of `rz` bytes lie in the block, before its header.
abbrev pub Within : ℕ → ℕ → Block → ℕ → Type 0
Within es rz b x = (b.memory + rz ≤ x) × (x + es + sizeof_block ≤ b.memory + b.memory_size + rz)

abbrev pub Home : ℕ → ℕ → List Block → ℕ → Type 0
Home es rz [] x = ⊥
Home es rz (b ∷ bs) x = Within es rz b x ⊎ Home es rz bs x

-- The list is sound, with the entries `live` in the hands of the user: no two entries overlap, each
-- lies in a block, and together they are the allocated ones, within the maximum if there is one.
pub record Sound (es rz : ℕ) (fl : Freelist) (live : List ℕ) : Type 0 where
  pub size_at : fl.entry_size ≡ es
  pub redzone_at : fl.memcheck_redzone_size ≡ rz
  pub user : rz < es
  pub free_spread : Spread es fl.entries
  pub live_spread : Spread es live
  pub between : All (λ x. All (Apart es x) live) fl.entries
  pub free_home : All (Home es rz fl.blocks) fl.entries
  pub live_home : All (Home es rz fl.blocks) live
  pub counted : length fl.entries + length live ≡ fl.num_allocated_entries
  pub bounded : 0 < fl.max_entry_count → fl.num_allocated_entries ≤ fl.max_entry_count

-- The entry at `x` is clear of the bytes from `lo` up to `hi`.
abbrev pub Clear : ℕ → ℕ → ℕ → ℕ → ℕ → Type 0
Clear es rz lo hi x = (x + es ≤ lo + rz) ⊎ (hi + rz ≤ x)

Clear-Apart :
    (es rz lo hi : ℕ) → lo + es ≤ hi → (x : ℕ) → Clear es rz lo hi x → Apart es (lo + rz) x
Clear-Apart es rz lo hi h x c = elim c [ inl a ↦ inr a | inr b ↦ inl (omega arith) ]

Clear-Apart_sym :
    (es rz lo hi : ℕ) → lo + es ≤ hi → (x : ℕ) → Clear es rz lo hi x → Apart es x (lo + rz)
Clear-Apart_sym es rz lo hi h x c = elim c [ inl a ↦ inl a | inr b ↦ inr (omega arith) ]

Clear-on : (es rz lo lo' hi : ℕ) → lo ≤ lo' → (x : ℕ) → Clear es rz lo hi x → Clear es rz lo' hi x
Clear-on es rz lo lo' hi le x c = elim c [ inl a ↦ inl (omega arith) | inr b ↦ inr b ]

-- What the loop needs of the list for `n` entries from `lo` on, below `hi`.
pub record Ready (es rz n lo hi : ℕ) (fl : Freelist) (live : List ℕ) : Type 0 where
  pub room : lo + n * es ≤ hi
  pub free_clear : All (Clear es rz lo hi) fl.entries
  pub live_clear : All (Clear es rz lo hi) live
  pub inside : (x : ℕ) → lo + rz ≤ x → x + es ≤ hi + rz → Home es rz fl.blocks x
  pub below : 0 < fl.max_entry_count → fl.num_allocated_entries + n ≤ fl.max_entry_count

All-between :
    (es x : ℕ) (xs live : List ℕ)
    → All (Apart es x) live
    → All (λ y. All (Apart es y) live) xs
    → All (λ y. All (Apart es y) live) (x ∷ xs)
All-between es x xs live h hs = (h, hs)

-- The list and the address after one turn of the loop.
abbrev pub pushed : ℕ → Block → Freelist → Freelist
pushed lo b fl = record fl {
  infos =
      if fl.have_reginfo
      then record {
        entry = lo + fl.memcheck_redzone_size;
        base_offset = lo + fl.memcheck_redzone_size - b.memory;
        mr_handle = b.mr_handle;
      }
        ∷ fl.infos
      else fl.infos;
  entries = (lo + fl.memcheck_redzone_size) ∷ fl.entries;
  num_allocated_entries = fl.num_allocated_entries + 1;
}

abbrev pub next_of : ℕ → Freelist → ℕ
next_of lo fl = lo + fl.memcheck_redzone_size + (fl.entry_size - fl.memcheck_redzone_size)

module _ (es rz n lo hi : ℕ) (b : Block) (fl : Freelist) (live : List ℕ) (s : Sound es rz fl live)
    (r : Ready es rz (suc n) lo hi fl live) where
  step_at : next_of lo fl ≡ lo + es
  step_at = omega (arith, s.size_at, s.redzone_at, s.user)

  one_fits : lo + es ≤ hi
  one_fits = let e : suc n * es ≡ es + n * es = grind arith in omega (arith, e, r.room)

  next-Sound : Sound es rz (pushed lo b fl) live
  next-Sound = record {
    size_at = s.size_at;
    redzone_at = s.redzone_at;
    user = s.user;
    free_spread =
        rw s.redzone_at
          (All-map (Clear-Apart es rz lo hi one_fits) fl.entries r.free_clear, s.free_spread);
    live_spread = s.live_spread;
    between =
        rw s.redzone_at (All-map (Clear-Apart es rz lo hi one_fits) live r.live_clear, s.between);
    free_home =
        rw s.redzone_at (r.inside (lo + rz) (omega arith) (omega (arith, one_fits)), s.free_home);
    live_home = s.live_home;
    counted = omega (arith, s.counted);
    bounded = λ h. omega (arith, r.below h);
  }

  next-Ready : Ready es rz n (next_of lo fl) hi (pushed lo b fl) live
  next-Ready = record {
    room = let e : suc n * es ≡ es + n * es = grind arith in omega (arith, e, r.room, step_at);
    free_clear = (
      inl (omega (arith, step_at, s.redzone_at)),
      All-map (Clear-on es rz lo (next_of lo fl) hi (omega (arith, step_at))) fl.entries
          r.free_clear,
    );
    live_clear =
        All-map (Clear-on es rz lo (next_of lo fl) hi (omega (arith, step_at))) live r.live_clear;
    inside = λ x a c. r.inside x (omega (arith, step_at)) c;
    below = λ h. omega (arith, r.below h);
  }

pub carve-Sound :
    (es rz n lo hi : ℕ) (b : Block) (fl : Freelist) (live : List ℕ)
    → Sound es rz fl live
    → Ready es rz n lo hi fl live
    → Sound es rz (carve n lo b fl) live
unfolding carve
carve-Sound es rz zero lo hi b fl live s r = s
carve-Sound es rz (suc n) lo hi b fl live s r =
    carve-Sound es rz n (next_of lo fl) hi b (pushed lo b fl) live
      (next-Sound es rz n lo hi b fl live s r) (next-Ready es rz n lo hi b fl live s r)

pub entries-carve :
    (n lo : ℕ) (b : Block) (fl : Freelist)
    → length (carve n lo b fl).entries ≡ n + length fl.entries
unfolding carve
entries-carve zero lo b fl = omega arith
entries-carve (suc n) lo b fl = omega (arith, entries-carve n (next_of lo fl) b (pushed lo b fl))
