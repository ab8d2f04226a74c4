-- ===== src/Idpool/Laws.antt =====
-- What nccl_ofi_idpool_allocate_id and nccl_ofi_idpool_free_id do to the set of free IDs.
use Prim.Native.Nat.{bit_or}
use native.Mathlib.Decide.{dec_lt, ℕ_discrete}
use aws_ofi_nccl.Base.{
  to_int, to_int-small, Result, ok, err, enomem, einval, enotsup, ℕ, zero, suc, ◌*◌, ◌/◌, ◌%◌, ◌^◌,
  ◌≤◌, ◌<◌, ◌≡◌, refl, ap, ◌∙◌, ◌⊎◌, inl, inr, bit_and, none, some, List, [], ◌∷◌, ◌==◌,
  if◌then◌else◌, leb, arith, length, get_or, set, get_or-set_self, get_or-set_ne, length-set,
  two_pow_pos, two_pow_mono,
}
use aws_ofi_nccl.Base.Bits.{bit, bit-le_one, bit-bit_or, bit-two_pow, bit_and-two_pow, bit_or-lt}
use aws_ofi_nccl.Idpool.{Idpool, scan, allocate_id, free_id}
use aws_ofi_nccl.Idpool.Scan.{Words, free_bit, Found, scan_lem}

-- A pool in use: its words cover its IDs.
pub record IsValid (p : Idpool) : Type 0 where
  pub words : List ℕ
  pub ids_at : p.ids ≡ some words
  pub positive : 0 < p.size
  pub covers : p.size ≤ 64 * length words
  pub in_words : Words words

-- 1 if the ID is free, and 0 if it is in use.
abbrev pub free_of : Idpool → ℕ → ℕ
free_of p id = elim p.ids [ none ↦ 0 | some ws ↦ free_bit ws id ]

pub free_at : {p : Idpool} (v : IsValid p) (id : ℕ) → free_of p id ≡ free_bit v.words id
free_at v id = rw v.ids_at

-- The result of an allocation and the pool after it, against the pool before.
unfoldable pub Allocated : Idpool → Result ℕ → Idpool → Type 0
Allocated p r p' =
    ((r ≡ err enomem)
      × ((j : ℕ) → j < p.size → free_of p j ≡ 0)
      × ((j : ℕ) → j < p.size → free_of p' j ≡ 0))
    ⊎ ((id : ℕ) × (r ≡ ok id)
        × (id < p.size)
        × (free_of p id ≡ 1)
        × ((j : ℕ) → j < id → free_of p j ≡ 0)
        × ((j : ℕ) → free_of p' j ≡ (if j == id then 0 else free_of p j)))

allocate_none :
    (p : Idpool) (ws : List ℕ)
    → p.ids ≡ some ws
    → 0 < p.size
    → scan 0 ws ≡ none
    → allocate_id p ≡ (err enomem, p)
unfolding allocate_id
allocate_none p ws e h s = ground (arith, e, s)

allocate_some :
    (p : Idpool) (ws ws' : List ℕ) (id : ℕ)
    → p.ids ≡ some ws
    → 0 < p.size
    → scan 0 ws ≡ some (id, ws')
    → allocate_id p
      ≡ ((if leb p.size id then err enomem else to_int id), record p { ids = some ws' })
unfolding allocate_id
allocate_some p ws ws' id e h s = ground (arith, e, s)

with_words :
    (p : Idpool) (v : IsValid p) (ws : List ℕ)
    → length ws ≡ length v.words
    → Words ws
    → IsValid (record p { ids = some ws })
with_words p v ws e h = record {
  words = ws;
  ids_at = refl;
  positive = v.positive;
  covers = omega (arith, v.covers);
  in_words = h;
}

-- On a pool in use, of at most 2 ^ 31 IDs, `nccl_ofi_idpool_allocate_id` keeps the pool valid and its size. It returns the
-- lowest free ID, which it takes out of the pool, and changes no other; or every ID is in use, it
-- returns -ENOMEM and every ID stays in use.
pub allocate_id_lem :
    (p : Idpool)
    → IsValid p
    → p.size ≤ 2 ^ 31
    → let (r, p') = allocate_id p in IsValid p' × (p'.size ≡ p.size) × Allocated p r p'
unfolding Allocated
allocate_id_lem p v int = elim (scan_lem 0 v.words v.in_words) [
  | inl (s, none_set) ↦
      rw (allocate_none p v.words v.ids_at v.positive s)
        (v, refl, inl (refl, all_used none_set, all_used none_set))
  | inr (id, ws', s, f) ↦
      rw (allocate_some p v.words ws' id v.ids_at v.positive s)
        (with_words p v ws' f.same_length f.still_words, refl, found id ws' f)
]
  where
    all_used :
        ((j : ℕ) → j < 64 * length v.words → free_bit v.words j ≡ 0)
        → (j : ℕ) → j < p.size
        → free_of p j ≡ 0
    all_used h j l = free_at v j ∙ h j (omega (arith, v.covers))

    found :
        (id : ℕ) (ws' : List ℕ) (f : Found 0 v.words id ws')
        → Allocated p
            (if leb p.size id then err enomem else to_int id)
            (record p { ids = some ws' })
    found id ws' f = elim (dec_lt id p.size) [
      | yes l ↦ inr (
        id,
        ground (arith, l, to_int-small id (omega arith)),
        l,
        free_at v id ∙ ap (free_bit v.words) same ∙ f.was_set,
        λ j h. free_at v j ∙ f.lowest j (omega (arith, f.id_at)),
        λ j. f.cleared j ∙ rw (same, free_at v j),
      )
      | no l ↦ inl (
        ground (arith, l),
        λ j h. free_at v j ∙ f.lowest j (omega (arith, f.id_at)),
        λ j h. f.cleared j ∙ ground (arith, f.lowest j (omega (arith, f.id_at))),
      )
    ]
      where
        same : id ≡ f.place
        same = omega (arith, f.id_at)

free_bit-le_one : (ws : List ℕ) (id : ℕ) → free_bit ws id ≤ 1
unfolding free_bit
free_bit-le_one ws id = bit-le_one (get_or ws (id / 64) 0) (id % 64)

-- Setting one bit.
module _ (ws : List ℕ) (id : ℕ) (hw : Words ws) (l : id < 64 * length ws) where
  abbrev word_of : ℕ
  word_of = get_or ws (id / 64) 0

  abbrev freed : List ℕ
  freed = set ws (id / 64) (bit_or word_of (2 ^ (id % 64)))

  free_bit-freed : (j : ℕ) → free_bit freed j ≡ (if j == id then 1 else free_bit ws j)
  unfolding free_bit
  free_bit-freed j = elim (ℕ_discrete (id / 64) (j / 64)) [
    | yes e ↦
        rw (← e, get_or-set_self ws (id / 64) (bit_or word_of (2 ^ (id % 64))) 0 (omega arith))
          (ground (
            arith,
            bit-bit_or word_of (2 ^ (id % 64)) (j % 64),
            bit-two_pow (id % 64) (j % 64),
            bit-le_one word_of (j % 64),
          ))
    | no e ↦
        rw (get_or-set_ne ws (id / 64) (j / 64) (bit_or word_of (2 ^ (id % 64))) 0 e) (ground arith)
  ]

get_or-Words : (ws : List ℕ) (i : ℕ) → Words ws → get_or ws i 0 < 2 ^ 64
get_or-Words [] i h = omega arith
get_or-Words (w ∷ ws) zero h = h.0
get_or-Words (w ∷ ws) (suc i) h = get_or-Words ws i h.1

pub set-Words : (ws : List ℕ) (i w : ℕ) → Words ws → w < 2 ^ 64 → Words (set ws i w)
set-Words [] i w h l = tt
set-Words (x ∷ ws) zero w h l = (l, h.1)
set-Words (x ∷ ws) (suc i) w h l = (h.0, set-Words ws i w h.1 l)

-- The bit test of the code.
bit_test : (w e : ℕ) → (bit_and w (2 ^ e) == 0) ≡ (bit w e == 0)
bit_test w e = rw (bit_and-two_pow w e) (elim (ℕ_discrete (bit w e) 0) [
  | yes z ↦ rw z (ground arith)
  | no z ↦
      let one : bit w e ≡ 1 = omega (arith, bit-le_one w e) in
      rw one (ground (arith, two_pow_pos e))
])

-- The result of a release and the pool after it, against the pool before.
unfoldable pub Released : Idpool → ℕ → Result (Unit {0}) → Idpool → Type 0
Released p id r p' =
    (p.size ≤ id → (r ≡ err einval) × (p' ≡ p))
    × (id < p.size → free_of p id ≡ 1 → (r ≡ err enotsup) × (p' ≡ p))
    × (id < p.size
        → free_of p id ≡ 0
        → (r ≡ ok tt) × ((j : ℕ) → free_of p' j ≡ (if j == id then 1 else free_of p j)))

module _ (p : Idpool) (id : ℕ) (v : IsValid p) where
  free_out_of_range : p.size ≤ id → free_id p id ≡ (err einval, p)
  unfolding free_id
  free_out_of_range h = ground (arith, v.ids_at, v.positive)

  free_twice : id < p.size → free_bit v.words id ≡ 1 → free_id p id ≡ (err enotsup, p)
  unfolding free_id free_bit
  free_twice l e =
      ground (arith, v.ids_at, v.positive, bit_test (get_or v.words (id / 64) 0) (id % 64))

  inside : id < p.size → id < 64 * length v.words
  inside l = omega (arith, v.covers)

  free_used :
      (l : id < p.size)
      → free_bit v.words id ≡ 0
      → free_id p id ≡ (ok tt, record p { ids = some (freed v.words id v.in_words (inside l)) })
  unfolding free_id free_bit
  free_used l e =
      ground (arith, v.ids_at, v.positive, bit_test (get_or v.words (id / 64) 0) (id % 64))

  freed-IsValid :
      (l : id < p.size) → IsValid (record p { ids = some (freed v.words id v.in_words (inside l)) })
  freed-IsValid l =
      let w = word_of v.words id v.in_words (inside l) in
      with_words p v (freed v.words id v.in_words (inside l))
        (length-set v.words (id / 64) (bit_or w (2 ^ (id % 64))))
        (set-Words v.words (id / 64) (bit_or w (2 ^ (id % 64))) v.in_words (
          bit_or-lt 64 w (2 ^ (id % 64)) (get_or-Words v.words (id / 64) v.in_words)
            (omega (arith, two_pow_mono (id % 64) 63 (omega arith)))))

  -- On a pool in use, `nccl_ofi_idpool_free_id` keeps the pool valid and its size. An ID out of
  -- range gives -EINVAL and a free ID gives -ENOTSUP, both with the pool unchanged; an ID in use
  -- becomes free, and no other ID changes.
  pub free_id_lem :
      let (r, p') = free_id p id in IsValid p' × (p'.size ≡ p.size) × Released p id r p'
  unfolding Released
  free_id_lem = elim (dec_lt id p.size) [
    | no l ↦
        rw (free_out_of_range (omega arith))
          (v, refl, (λ h. (refl, refl), λ h. absurd (l h), λ h. absurd (l h)))
    | yes l ↦ elim (ℕ_discrete (free_bit v.words id) 0) [
      | yes z ↦ rw (free_used l z) (
        freed-IsValid l,
        refl,
        (
          λ h. absurd (omega arith),
          λ _ h. absurd (omega (arith, free_at v id)),
          λ _ _. (refl, λ j. free_bit-freed v.words id v.in_words (inside l) j ∙ rw (free_at v j)),
        ),
      )
      | no z ↦
          let one : free_bit v.words id ≡ 1 = omega (arith, free_bit-le_one v.words id) in
          rw (free_twice l one) (
            v,
            refl,
            (
              λ h. absurd (omega arith),
              λ _ _. (refl, refl),
              λ _ h. absurd (omega (arith, free_at v id)),
            ),
          )
    ]
  ]
