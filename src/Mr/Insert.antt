-- ===== src/Mr/Insert.antt =====
-- nccl_ofi_mr_cache_insert_entry and nccl_ofi_mr_cache_grow
use mathlib.Core.Path.{subst}
use native.Mathlib.Nat.{zero-add, mod-eq_of_lt}
use native.Mathlib.Decide.{ℕ_discrete}
use aws_ofi_nccl.Base.{
  ℕ, ◌+◌, ◌*◌, ◌≤◌, ◌<◌, ◌≡◌, ◌≢◌, refl, sym, ap, ◌∙◌, ◌⊎◌, inl, inr, arith, none, some, List, ◌∷◌,
  ◌++◌, length, All, All-append, Result, ok, err, enomem, eexist, Bool, true, false, Bool-cases,
}
use aws_ofi_nccl.Math.{word}
use aws_ofi_nccl.Mr.{
  Ckey, RegEntry, Cache, Run, done, missed, hit, used, grow, search_key, open_slot, take_slots,
  insert_at, insert_entry,
}
use aws_ofi_nccl.Mr.Loop.{slots_of, Sane, stop_hit, stop_missed, open_slot_lem, slots_of-append}
use aws_ofi_nccl.Mr.Entries.{
  IsValid, start_of, count_of, Serves, InMemory, add-Sorted, add-All, length-middle,
  length-slots_of,
}
use aws_ofi_nccl.Mr.Lookup.{pages, Stopped, stopped}

-- The entry that an insertion makes.
abbrev pub new_entry : ℕ → Ckey → ℕ → RegEntry
new_entry ps ckey handle = record {
  addr = start_of ps ckey;
  pages = count_of ps ckey;
  refcnt = 1;
  handle = handle;
}

-- The place of a key among entries that do not cover its pages.
pub record Gap (ps : ℕ) (ckey : Ckey) (es before after : List RegEntry) : Type 0 where
  pub split : es ≡ before ++ after
  pub unseen : All (λ e. ¬ Serves ps ckey e) es
  pub unseen_before : All (λ e. ¬ Serves ps ckey e) before
  pub below : All (λ e. e.addr ≤ start_of ps ckey) before
  pub above : All (λ e. start_of ps ckey < e.addr) after

-- What the insertion at that place gives when the array has room: there is no memory for the entry,
-- and the slots have moved round an empty one; or the entry stands in its place.
unfoldable pub Stored :
    ℕ
    → ℕ
    → List RegEntry
    → Ckey
    → ℕ
    → Bool
    → List RegEntry
    → List RegEntry
    → Run (Result (Unit {0}) × Cache)
    → Type 0
Stored k ps es ckey handle calloced before after r =
    (cache' : Cache) × (cache'.system_page_size ≡ ps)
    × (((calloced ≡ false)
          × (r ≡ done (err enomem, cache'))
          × (cache'.slots ≡ take_slots (length es) (slots_of before ++ none ∷ slots_of after)))
        ⊎ ((calloced ≡ true)
            × (r ≡ done (ok tt, cache'))
            × IsValid k cache' (before ++ new_entry ps ckey handle ∷ after)))

-- The array cannot grow, where it must; or it has room, or gets it.
unfoldable pub Placed :
    ℕ
    → Cache
    → List RegEntry
    → Ckey
    → ℕ
    → Bool
    → Bool
    → List RegEntry
    → List RegEntry
    → Run (Result (Unit {0}) × Cache)
    → Type 0
Placed k cache es ckey handle realloced calloced before after r =
    ((length es ≡ cache.size)
      × (realloced ≡ false)
      × (r ≡ done (err enomem, record cache { size = cache.size * 2 })))
    ⊎ (((length es < cache.size) ⊎ (realloced ≡ true))
        × Stored k cache.system_page_size es ckey handle calloced before after r)

-- What an insertion gives.
unfoldable pub Inserted :
    ℕ → Cache → List RegEntry → Ckey → ℕ → Bool → Bool → Run (Result (Unit {0}) × Cache) → Type 0
Inserted k cache es ckey handle realloced calloced r =
    ((e : RegEntry) × (before : List RegEntry) × (after : List RegEntry) × (es
        ≡ before ++ e ∷ after)
      × Serves cache.system_page_size ckey e
      × (r ≡ done (err eexist, cache)))
    ⊎ ((before : List RegEntry) × (after : List RegEntry) × Gap cache.system_page_size ckey es
          before after
        × Placed k cache es ckey handle realloced calloced before after r)

module _ (realloced calloced : Bool) (cache : Cache) (ckey : Ckey) (handle : ℕ) where
  abbrev fresh : RegEntry
  fresh = new_entry cache.system_page_size ckey handle

  pub insert_hit :
      (i : ℕ)
      → search_key cache ckey ≡ hit i
      → insert_entry realloced calloced cache ckey handle ≡ done (err eexist, cache)
  unfolding insert_entry
  insert_hit i h = ground (arith, h)

  pub insert_fits :
      (i : ℕ)
      → search_key cache ckey ≡ missed i
      → used cache ≢ cache.size
      → insert_entry realloced calloced cache ckey handle ≡ done (insert_at calloced cache i fresh)
  unfolding insert_entry
  insert_fits i h f = ground (arith, h, f)

  insert_grown :
      (i : ℕ)
      → search_key cache ckey ≡ missed i
      → used cache ≡ cache.size
      → realloced ≡ true
      → cache.size * 2 < word
      → insert_entry realloced calloced cache ckey handle
        ≡ done (
            insert_at calloced
              (record cache { size = cache.size * 2; allocated = cache.size * 2 })
              i
              fresh)
  unfolding insert_entry grow
  insert_grown i h f t l = ground (arith, h, f, t, mod-eq_of_lt {n = cache.size * 2} {m = word} l)

  pub insert_stuck :
      (i : ℕ)
      → search_key cache ckey ≡ missed i
      → used cache ≡ cache.size
      → realloced ≡ false
      → cache.size * 2 < word
      → insert_entry realloced calloced cache ckey handle
        ≡ done (err enomem, record cache { size = cache.size * 2 })
  unfolding insert_entry grow
  insert_stuck i h f t l = ground (arith, h, f, t, mod-eq_of_lt {n = cache.size * 2} {m = word} l)

-- The cache with the entry in its place.
module _ (k : ℕ) (cache : Cache) (before after : List RegEntry)
    (v : IsValid k cache (before ++ after)) (room : length (before ++ after) < cache.size)
    (ckey : Ckey) (handle : ℕ) (fits : InMemory cache.system_page_size ckey)
    (lo : All (λ e. e.addr ≤ start_of cache.system_page_size ckey) before)
    (hi : All (λ e. start_of cache.system_page_size ckey < e.addr) after) where
  abbrev added : RegEntry
  added = new_entry cache.system_page_size ckey handle

  added-IsValid :
      IsValid k
        (record cache { slots = slots_of (before ++ added ∷ after) })
        (before ++ added ∷ after)
  added-IsValid = record {
    slots_at = refl;
    page = v.page;
    sorted = add-Sorted before added after lo hi v.sorted;
    sane =
        add-All (Sane cache.system_page_size) before added after
          ((pages k cache (before ++ after) v ckey fits).0, omega arith) v.sane;
    room = omega (arith, length-middle before added after);
    backed = v.backed;
    some_room = v.some_room;
  }

  insert_at_ok :
      insert_at true cache (length before) added
      ≡ (ok tt, record cache { slots = slots_of (before ++ added ∷ after) })
  unfolding insert_at
  insert_at_ok =
      let moved : open_slot (some added) (length before) cache.slots
          ≡ slots_of (before ++ added ∷ after) =
        ap (open_slot (some added) (length before)) v.slots_at
        ∙ open_slot_lem (some added) before after
        ∙ slots_of-append before added after in
      rw moved

  insert_at_fails : insert_at false cache (length before) added ≡ (
    err enomem,
    record cache {
      slots = take_slots (length (before ++ after)) (slots_of before ++ none ∷ slots_of after);
    },
  )
  unfolding insert_at
  insert_at_fails =
      let moved : open_slot none (length before) cache.slots
          ≡ slots_of before ++ none ∷ slots_of after =
        ap (open_slot none (length before)) v.slots_at ∙ open_slot_lem none before after in
      let count : length cache.slots ≡ length (before ++ after) =
        ap length v.slots_at ∙ length-slots_of (before ++ after) in
      rw (moved, count)

grown-IsValid :
    (k : ℕ) (cache : Cache) (es : List RegEntry)
    → IsValid k cache es
    → IsValid k (record cache { size = cache.size * 2; allocated = cache.size * 2 }) es
grown-IsValid k cache es v = record {
  slots_at = v.slots_at;
  page = v.page;
  sorted = v.sorted;
  sane = v.sane;
  room = omega (arith, v.room);
  backed = omega arith;
  some_room = omega (arith, v.some_room);
}

-- What the insertion of an entry gives in a cache with room for it.
module _ (k : ℕ) (cache : Cache) (es : List RegEntry) (v : IsValid k cache es)
    (room : length es < cache.size) (ckey : Ckey) (handle : ℕ)
    (fits : InMemory cache.system_page_size ckey) (before after : List RegEntry)
    (g : Gap cache.system_page_size ckey es before after) where
  v' : IsValid k cache (before ++ after)
  v' = subst (IsValid k cache) g.split v

  room' : length (before ++ after) < cache.size
  room' = let e = ap length g.split in omega arith

  place :
      (calloced : Bool) (r : Run (Result (Unit {0}) × Cache))
      → r
        ≡ done (
            insert_at calloced cache (length before) (new_entry cache.system_page_size ckey handle))
      → Stored k cache.system_page_size es ckey handle calloced before after r
  unfolding Stored
  place true r e = (
    _,
    refl,
    inr (
      refl,
      e ∙ ap done (insert_at_ok k cache before after v' room' ckey handle fits g.below g.above),
      added-IsValid k cache before after v' room' ckey handle fits g.below g.above,
    ),
  )
  place false r e = (
    _,
    refl,
    inl (
      refl,
      e ∙ ap done (insert_at_fails k cache before after v' room' ckey handle fits g.below g.above),
      ap (λ t. take_slots (length t) (slots_of before ++ none ∷ slots_of after)) (sym g.split),
    ),
  )

module _ (k : ℕ) (cache : Cache) (es : List RegEntry) (v : IsValid k cache es) (ckey : Ckey)
    (handle : ℕ) (realloced calloced : Bool) (fits : InMemory cache.system_page_size ckey)
    (small : cache.size * 2 < word) where
  abbrev ps : ℕ
  ps = cache.system_page_size

  abbrev result : Run (Result (Unit {0}) × Cache)
  result = insert_entry realloced calloced cache ckey handle

  used_eq : used cache ≡ length es
  used_eq = ap length v.slots_at ∙ length-slots_of es

  at-Gap :
      (before after : List RegEntry)
      → Gap ps ckey es before after
      → search_key cache ckey ≡ missed (length before)
      → Placed k cache es ckey handle realloced calloced before after result
  unfolding Placed
  at-Gap before after g m = elim (ℕ_discrete (used cache) cache.size) [
    | no f ↦
        let room : length es < cache.size = omega (arith, used_eq, v.room) in
        inr (
          inl room,
          place k cache es v room ckey handle fits before after g calloced result
              (insert_fits realloced calloced cache ckey handle (length before) m f),
        )
    | yes f ↦ elim (Bool-cases realloced) [
      | inl t ↦
          let grown = record cache { size = cache.size * 2; allocated = cache.size * 2 } in
          let room : length es < cache.size * 2 = omega (arith, used_eq, v.some_room) in
          inr (
            inr t,
            place k grown es (grown-IsValid k cache es v) room ckey handle fits before after g
                calloced result
                (insert_grown realloced calloced cache ckey handle (length before) m f t small),
          )
      | inr t ↦ inl (
        omega (arith, used_eq),
        t,
        insert_stuck realloced calloced cache ckey handle (length before) m f t small,
      )
    ]
  ]

  -- nccl_ofi_mr_cache_insert_entry on a valid cache, for a buffer that ends a page before the end of
  -- memory and an array of less than half of `size_t`: if an entry covers the pages it returns
  -- -EEXIST and changes nothing. Otherwise, if the array is full and realloc fails, it returns -ENOMEM
  -- and doubles the recorded size alone; if calloc fails, it returns -ENOMEM, and the slots have
  -- moved round an empty one; else it returns 0 and the cache is valid with the new entry, which has
  -- one user, in the order of addresses.
  pub insert_entry_lem : Inserted k cache es ckey handle realloced calloced result
  unfolding Inserted
  insert_entry_lem = by_stop (stopped k cache es v ckey fits)
    where
      by_stop :
          Stopped k cache es v ckey fits (search_key cache ckey)
          → Inserted k cache es ckey handle realloced calloced result
      by_stop (stop_hit before e after r at u c) = inl (
        e,
        before,
        after,
        at,
        c,
        insert_hit realloced calloced cache ckey handle (0 + length before) r,
      )
      by_stop (stop_missed before after r at u w lo hi) =
          let g : Gap ps ckey es before after = record {
            split = at;
            unseen =
                subst (All (λ e. ¬ Serves ps ckey e)) (sym at)
                  (All-append (λ e. ¬ Serves ps ckey e) before after u w);
            unseen_before = u;
            below = lo;
            above = hi;
          } in
          inr (before, after, g, at-Gap before after g (r ∙ ap missed (zero-add (length before))))
