-- ===== src/Freelist/Run.antt =====
-- Taking and giving back entries: each run of calls on a free list hands an entry out once.
use mathlib.Core.Path.{subst}
use native.Mathlib.Decide.{ℕ_discrete}
use aws_ofi_nccl.Base.{
  ℕ, ◌+◌, ◌<◌, ◌≡◌, refl, ap, ◌⊎◌, inl, inr, List, [], ◌∷◌, arith, length, All, All-map, true,
  false, Option, none, some, Error, ok, err, ◌==◌,
}
use aws_ofi_nccl.Base.Bag.{count, remove, length-remove, All-remove, All-at}
use aws_ofi_nccl.Freelist.{Platform, Freelist, add, pop, entry_alloc, entry_free}
use aws_ofi_nccl.Freelist.Carve.{Apart, Spread, Home, Sound}
use aws_ofi_nccl.Freelist.Grow.{Growable, Added, add_lem}

Apart-sym : (es x y : ℕ) → Apart es x y → Apart es y x
Apart-sym es x y a = elim a [ inl p ↦ inr p | inr p ↦ inl p ]

cons_between :
    (es x : ℕ) (xs live : List ℕ)
    → All (Apart es x) xs
    → All (λ y. All (Apart es y) live) xs
    → All (λ y. All (Apart es y) (x ∷ live)) xs
cons_between es x [] live a b = tt
cons_between es x (y ∷ xs) live a b =
    ((Apart-sym es x y a.0, b.0), cons_between es x xs live a.1 b.1)

-- Giving back an entry takes it away from the others in the hands of the user.
Spread-remove :
    (es x : ℕ) (live : List ℕ)
    → 0 < es
    → Spread es live
    → 0 < count x live
    → All (Apart es x) (remove x live) × Spread es (remove x live)
unfolding count remove
Spread-remove es x [] p s c = absurd (omega arith)
Spread-remove es x (y ∷ live) p s c = elim (ℕ_discrete y x) [
  | yes e ↦ let t : (y == x) ≡ true = ground (arith, e) in rw (t, ← e) s
  | no e ↦
      let f : (y == x) ≡ false = ground (arith, e) in
      let here : 0 < count x live = ground (arith, e) in
      let (far, spread) = Spread-remove es x live p s.1 here in
      rw f (
        (Apart-sym es y x (All-at (Apart es y) live x s.0 here), far),
        (All-remove (Apart es y) live x s.0, spread),
      )
]

remove_between :
    (es x : ℕ) (xs live : List ℕ)
    → All (λ y. All (Apart es y) live) xs
    → All (λ y. All (Apart es y) (remove x live)) xs
remove_between es x xs live = All-map (λ y h. All-remove (Apart es y) live x h) xs

module _ (es rz : ℕ) (fl : Freelist) (live : List ℕ) (s : Sound es rz fl live) where
  pop-Sound :
      (x : ℕ) (rest : List ℕ)
      → fl.entries ≡ x ∷ rest
      → (pop fl ≡ (some x, record fl { entries = rest }))
        × Sound es rz (record fl { entries = rest }) (x ∷ live)
  unfolding pop
  pop-Sound x rest e =
      let spread : Spread es (x ∷ rest) = subst (Spread es) e s.free_spread in
      let between : All (λ y. All (Apart es y) live) (x ∷ rest) =
        subst (All (λ y. All (Apart es y) live)) e s.between in
      let home : All (Home es rz fl.blocks) (x ∷ rest) =
        subst (All (Home es rz fl.blocks)) e s.free_home in
      let counted : length (x ∷ rest) + length live ≡ fl.num_allocated_entries =
        subst (λ xs. length xs + length live ≡ fl.num_allocated_entries) e s.counted in
      (
        ground (arith, e),
        record {
          size_at = s.size_at;
          redzone_at = s.redzone_at;
          user = s.user;
          free_spread = spread.1;
          live_spread = (between.0, s.live_spread);
          between = cons_between es x rest live spread.0 between.1;
          free_home = home.1;
          live_home = (home.0, s.live_home);
          counted = omega (arith, counted);
          bounded = s.bounded;
        },
      )

  -- nccl_ofi_freelist_entry_free of an entry in the hands of the user keeps the list sound, without
  -- that entry in the hands of the user.
  pub entry_free_lem : (x : ℕ) → 0 < count x live → Sound es rz (entry_free fl x) (remove x live)
  unfolding entry_free
  entry_free_lem x c =
      let (far, spread) = Spread-remove es x live (omega (arith, s.user)) s.live_spread c in
      record {
        size_at = s.size_at;
        redzone_at = s.redzone_at;
        user = s.user;
        free_spread = (
          All-map (λ y h. Apart-sym es y x (All-at (Apart es y) live x h c)) fl.entries s.between,
          s.free_spread,
        );
        live_spread = spread;
        between = (far, remove_between es x fl.entries live s.between);
        free_home = (All-at (Home es rz fl.blocks) live x s.live_home c, s.free_home);
        live_home = All-remove (Home es rz fl.blocks) live x s.live_home;
        counted = omega (arith, s.counted, length-remove live x c);
        bounded = s.bounded;
      }

-- A free entry is taken from the front.
pub entry_alloc-cons :
    (pf : Platform) (alloc : ℕ → ℕ × ℕ) (fl : Freelist) (a : ℕ) (es : List ℕ)
    → fl.entries ≡ a ∷ es
    → entry_alloc pf alloc fl ≡ (some a, record fl { entries = es })
unfolding entry_alloc pop
entry_alloc-cons pf alloc fl a es e = rw e refl

pub entries-entry_free :
    (fl : Freelist) (entry : ℕ) → (entry_free fl entry).entries ≡ entry ∷ fl.entries
unfolding entry_free
entries-entry_free fl entry = refl

-- What taking an entry gives: none, from a list without free entries, which is left as it is; or an
-- entry, which overlaps no other one that is free or in the hands of the user.
unfoldable pub Taken : ℕ → ℕ → Freelist → List ℕ → Option ℕ → Freelist → Type 0
Taken es rz fl live r fl' =
    ((r ≡ none) × (fl.entries ≡ []) × (fl' ≡ fl))
    ⊎ ((x : ℕ) × (r ≡ some x) × Sound es rz fl' (x ∷ live))

module _ (pf : Platform) (k es rz : ℕ) (alloc : ℕ → ℕ × ℕ) (fl : Freelist) (live : List ℕ)
    (s : Sound es rz fl live) where
  Taken-first :
      (x : ℕ) (rest : List ℕ)
      → fl.entries ≡ x ∷ rest
      → let (r, fl') = pop fl in Taken es rz fl live r fl'
  unfolding Taken
  Taken-first x rest e =
      let (step, sound) = pop-Sound es rz fl live s x rest e in rw step (inr (x, refl, sound))

  alloc_pop : (x : ℕ) (rest : List ℕ) → fl.entries ≡ x ∷ rest → entry_alloc pf alloc fl ≡ pop fl
  unfolding entry_alloc
  alloc_pop x rest e = rw e

  alloc_err :
      (e : Error)
      → fl.entries ≡ []
      → (add pf alloc fl fl.increase_entry_count).0 ≡ err e
      → entry_alloc pf alloc fl ≡ (none, (add pf alloc fl fl.increase_entry_count).1)
  unfolding entry_alloc
  alloc_err e nil h = ground (arith, nil, h)

  alloc_ok :
      fl.entries ≡ []
      → (add pf alloc fl fl.increase_entry_count).0 ≡ ok tt
      → entry_alloc pf alloc fl ≡ pop (add pf alloc fl fl.increase_entry_count).1
  unfolding entry_alloc
  alloc_ok nil h = ground (arith, nil, h)

-- What a list with the same entries gives counts for the other.
module _ (pf : Platform) (k es rz : ℕ) (alloc : ℕ → ℕ × ℕ) (fl : Freelist) (live : List ℕ)
    (s : Sound es rz fl live) (g : Growable pf k es alloc fl fl.increase_entry_count) where
  abbrev more : Freelist
  more = (add pf alloc fl fl.increase_entry_count).1

  grow_and_take :
      fl.entries ≡ []
      → Sound es rz more live
      → (length fl.entries < length more.entries)
      → (xs : List ℕ) → more.entries ≡ xs
      → let (r, fl') = pop more in Taken es rz fl live r fl'
  unfolding Taken
  grow_and_take nil sound longer [] e =
      let a : length fl.entries ≡ 0 = ap length nil in
      let b : length more.entries ≡ 0 = ap length e in absurd (omega arith)
  grow_and_take nil sound longer (x ∷ rest) e =
      let (step, sound') = pop-Sound es rz more live sound x rest e in
      rw step (inr (x, refl, sound'))

  after_grow :
      fl.entries ≡ []
      → Sound es rz more live
      → Added fl (add pf alloc fl fl.increase_entry_count).0 more
      → let (r, fl') = entry_alloc pf alloc fl in Taken es rz fl live r fl'
  unfolding Added Taken
  after_grow nil sound (inl (e, r, same)) =
      rw (alloc_err pf k es rz alloc fl live s e nil r) (inl (refl, nil, same))
  after_grow nil sound (inr (r, longer, _)) =
      rw (alloc_ok pf k es rz alloc fl live s nil r)
        (grow_and_take nil sound longer more.entries refl)

  -- nccl_ofi_freelist_entry_alloc on a sound list whose sizes stay within `size_t`, where mmap gives
  -- unused memory: it returns NULL and leaves the list, which has no free entry, as it is; or it
  -- returns an entry, and the list is sound with that entry in the hands of the user as well.
  pub entry_alloc_lem : let (r, fl') = entry_alloc pf alloc fl in Taken es rz fl live r fl'
  entry_alloc_lem = by_entries fl.entries refl
    where
      by_entries :
          (xs : List ℕ)
          → fl.entries ≡ xs
          → let (r, fl') = entry_alloc pf alloc fl in Taken es rz fl live r fl'
      by_entries [] nil =
          let (sound, added) = add_lem pf k es rz alloc fl live s fl.increase_entry_count g in
          after_grow nil sound added
      by_entries (x ∷ rest) e =
          rw (alloc_pop pf k es rz alloc fl live s x rest e)
            (Taken-first pf k es rz alloc fl live s x rest e)

-- The states that a free list reaches from `start`, with the entries in the hands of the user.
pub data Run (pf : Platform) (k es : ℕ) (start : Freelist) : Freelist → List ℕ → Type 0 where
  started : Run pf k es start start []
  taken :
      {fl fl' : Freelist} {live : List ℕ} {x : ℕ} (alloc : ℕ → ℕ × ℕ)
      → Run pf k es start fl live
      → Growable pf k es alloc fl fl.increase_entry_count
      → entry_alloc pf alloc fl ≡ (some x, fl')
      → Run pf k es start fl' (x ∷ live)
  refused :
      {fl fl' : Freelist} {live : List ℕ} (alloc : ℕ → ℕ × ℕ)
      → Run pf k es start fl live
      → Growable pf k es alloc fl fl.increase_entry_count
      → entry_alloc pf alloc fl ≡ (none, fl')
      → Run pf k es start fl' live
  given :
      {fl : Freelist} {live : List ℕ} (x : ℕ)
      → Run pf k es start fl live
      → 0 < count x live
      → Run pf k es start (entry_free fl x) (remove x live)

take_step :
    {pf : Platform} {k es rz : ℕ} {alloc : ℕ → ℕ × ℕ} {fl fl' : Freelist} {live : List ℕ}
    (r : Option ℕ)
    → Sound es rz fl live
    → Growable pf k es alloc fl fl.increase_entry_count
    → entry_alloc pf alloc fl ≡ (r, fl')
    → Taken es rz fl live r fl'
take_step {pf} {k} {es} {rz} {alloc} {fl} {fl'} {live} r s g e =
    subst (λ (p : Option ℕ × Freelist). Taken es rz fl live p.0 p.1) e
      (entry_alloc_lem pf k es rz alloc fl live s g)

Taken-some :
    {es rz x : ℕ} (fl : Freelist) {fl' : Freelist} {live : List ℕ}
    → Taken es rz fl live (some x) fl'
    → Sound es rz fl' (x ∷ live)
unfolding Taken
Taken-some fl (inl (e, _, _)) = absurd (cc)
Taken-some {es} {rz} {x} fl {fl'} {live} (inr (y, e, s)) = let same : x ≡ y = cc in rw same s

Taken-none :
    {es rz : ℕ} {fl fl' : Freelist} {live : List ℕ}
    → Sound es rz fl live
    → Taken es rz fl live none fl'
    → Sound es rz fl' live
unfolding Taken
Taken-none s (inl (_, _, same)) = rw same s
Taken-none s (inr (y, e, _)) = absurd (cc)

-- From a sound list in which the user has no entry, every run of allocations, failed ones included,
-- and of releases of entries in the hands of the user, ends in a sound list: the entries free and in
-- the hands of the user lie in the blocks, overlap nowhere, and do not exceed the maximum. Sizes
-- stay within `size_t`, and mmap gives unused memory.
pub Run-Sound :
    {pf : Platform} {k es rz : ℕ} {start fl : Freelist} {live : List ℕ}
    → Sound es rz start []
    → Run pf k es start fl live
    → Sound es rz fl live
Run-Sound s started = s
Run-Sound s (taken alloc run g e) = Taken-some _ (take_step (some _) (Run-Sound s run) g e)
Run-Sound s (refused alloc run g e) =
    let sound = Run-Sound s run in Taken-none sound (take_step none sound g e)
Run-Sound s (given x run c) = entry_free_lem _ _ _ _ (Run-Sound s run) x c
