-- ===== src/Mr/Failures.antt =====
-- Calls on the cache after an insertion: one that succeeded, and one that ran out of memory.
use mathlib.Core.Path.{subst}
use native.Mathlib.Nat.{zero-add}
use aws_ofi_nccl.Base.{
  ℕ, zero, suc, ◌+◌, ◌*◌, ◌%◌, ◌^◌, ◌≤◌, ◌<◌, ◌≡◌, ◌≢◌, refl, sym, ap, ◌∙◌, inl, inr, arith, Option,
  none, some, List, [], ◌∷◌, ◌++◌, length, length-append, All, All-append, Result, ok, err, enomem,
  Bool, true, false, ltb,
}
use aws_ofi_nccl.Math.{word}
use aws_ofi_nccl.Mr.{
  Ckey, RegEntry, Cache, done, crashed, Search, hit, null, used, search, search_key, open_slot,
  take_slots, insert_at, insert_entry, lookup_entry, update,
}
use aws_ofi_nccl.Mr.Pages.{covers_lem}
use aws_ofi_nccl.Mr.Loop.{
  slots_of, Sane, stop_hit, stop_missed, slots_of-append, search-append, update_lem,
}
use aws_ofi_nccl.Mr.Entries.{IsValid, start_of, count_of, InMemory, length-slots_of}
use aws_ofi_nccl.Mr.Lookup.{pages, Stopped, stopped, shared}
use aws_ofi_nccl.Mr.Insert.{
  new_entry, Gap, Stored, Placed, Inserted, insert_entry_lem, insert_hit, insert_fits, insert_stuck,
}

null_crashes :
    (cache : Cache) (ckey : Ckey) → search_key cache ckey ≡ null → lookup_entry cache ckey ≡ crashed
unfolding lookup_entry
null_crashes cache ckey h = ground (arith, h)

hit_looks :
    (cache : Cache) (ckey : Ckey) (i : ℕ) (e : RegEntry) (slots : List (Option RegEntry))
    → search_key cache ckey ≡ hit i
    → update shared cache.slots i ≡ (some e, slots)
    → (cache' : Cache) × (lookup_entry cache ckey ≡ done (some e.handle, cache'))
unfolding lookup_entry
hit_looks cache ckey i e slots h u = (
  record cache { slots = slots; hit_count = (cache.hit_count + 1) % 2 ^ 32 },
  ground (arith, h, u),
)

take_slots_lem :
    (before : List RegEntry) (n : ℕ) (rest : List (Option RegEntry))
    → take_slots (length before + suc n) (slots_of before ++ none ∷ rest)
      ≡ slots_of before ++ none ∷ take_slots n rest
unfolding take_slots
take_slots_lem [] n rest =
    let e : 0 + suc n ≡ suc n = omega arith in ap (λ t. take_slots t (none ∷ rest)) e
take_slots_lem (b ∷ before) n rest =
    let e : length (b ∷ before) + suc n ≡ suc (length before + suc n) = omega arith in
    ap (λ t. take_slots t (some b ∷ slots_of before ++ none ∷ rest)) e
    ∙ ap (λ t. some b ∷ t) (take_slots_lem before n rest)

length-open_slot :
    (v : Option RegEntry) (i : ℕ) (slots : List (Option RegEntry))
    → length (open_slot v i slots) ≡ suc (length slots)
unfolding open_slot
length-open_slot v zero slots = refl
length-open_slot v (suc n) [] = refl
length-open_slot v (suc n) (e ∷ slots) = ap suc (length-open_slot v n slots)

-- Where the search stands after the entries in front of the gap.
module _ (k : ℕ) (cache : Cache) (es : List RegEntry) (v : IsValid k cache es) (ckey : Ckey)
    (fits : InMemory cache.system_page_size ckey) (before after : List RegEntry)
    (g : Gap cache.system_page_size ckey es before after) where
  abbrev ps : ℕ
  ps = cache.system_page_size

  before-Sane : (xs ys : List RegEntry) → All (Sane ps) (xs ++ ys) → All (Sane ps) xs
  before-Sane [] ys h = tt
  before-Sane (x ∷ xs) ys h = (h.0, before-Sane xs ys h.1)

  past :
      (rest : List (Option RegEntry))
      → search ps (start_of ps ckey) (count_of ps ckey) 0 (slots_of before ++ rest)
        ≡ search ps (start_of ps ckey) (count_of ps ckey) (0 + length before) rest
  past rest =
      let facts = pages k cache es v ckey fits in
      search-append ps k v.page (start_of ps ckey) (count_of ps ckey) (facts.1) (facts.2) (facts.0)
        before rest 0 g.unseen_before g.below
        (before-Sane before after (subst (All (Sane ps)) g.split v.sane))

  null_here :
      (i : ℕ) (rest : List (Option RegEntry))
      → search ps (start_of ps ckey) (count_of ps ckey) i (none ∷ rest) ≡ null
  unfolding search
  null_here i rest = refl

  new_here :
      (i handle : ℕ) (rest : List (Option RegEntry))
      → search ps (start_of ps ckey) (count_of ps ckey) i (some (new_entry ps ckey handle) ∷ rest)
        ≡ hit i
  unfolding search
  new_here i handle rest =
      let facts = pages k cache es v ckey fits in
      let a = start_of ps ckey in
      let f : ltb a a ≡ false = ground arith in
      let iff =
        covers_lem ps k v.page a (count_of ps ckey) (new_entry ps ckey handle) (facts.1) (facts.2)
          (omega arith) (facts.0) (facts.0) in
      let c = iff.1 (omega arith, omega arith) in rw (f, c)

-- What is known after an insertion that returned 0.
module _ (k : ℕ) (cache : Cache) (es : List RegEntry) (ckey : Ckey) (handle : ℕ)
    (realloced calloced : Bool) (cache' : Cache) where
  abbrev Outcome : Result (Unit {0}) → Type 0
  Outcome ret = Inserted k cache es ckey handle realloced calloced (done (ret, cache'))

  stored_ok :
      Outcome (ok tt)
      → (before : List RegEntry) × (after : List RegEntry) × Gap cache.system_page_size ckey es
          before after
        × (cache'.system_page_size ≡ cache.system_page_size)
        × IsValid k cache' (before ++ new_entry cache.system_page_size ckey handle ∷ after)
  unfolding Inserted Placed Stored
  stored_ok (inl (_, _, _, _, _, r)) = absurd (cc)
  stored_ok (inr (_, _, _, inl (_, _, r))) = absurd (cc)
  stored_ok (inr (_, _, _, inr (_, (c, _, inl (_, r, _))))) = absurd (cc)
  stored_ok (inr (before, after, g, inr (_, (c, page, inr (_, r, v))))) =
      let same : c ≡ cache' = cc in
      (
        before,
        after,
        g,
        rw (← same) page,
        subst (λ d. IsValid k d (before ++ new_entry cache.system_page_size ckey handle ∷ after))
            same v,
      )

  stored_err :
      length es < cache.size
      → Outcome (err enomem)
      → (before : List RegEntry) × (after : List RegEntry) × Gap cache.system_page_size ckey es
          before after
        × (cache'.system_page_size ≡ cache.system_page_size)
        × (cache'.slots ≡ take_slots (length es) (slots_of before ++ none ∷ slots_of after))
  unfolding Inserted Placed Stored
  stored_err l (inl (_, _, _, _, _, r)) = absurd (cc)
  stored_err l (inr (_, _, _, inl (full, _, r))) = absurd (omega arith)
  stored_err l (inr (_, _, _, inr (_, (c, _, inr (_, r, _))))) = absurd (cc)
  stored_err l (inr (before, after, g, inr (_, (c, page, inl (_, r, slots))))) =
      let same : c ≡ cache' = cc in (before, after, g, rw (← same) page, rw (← same) slots)

module _ (k : ℕ) (cache : Cache) (es : List RegEntry) (ckey : Ckey) (handle : ℕ)
    (realloced calloced : Bool) (cache' : Cache) (v : IsValid k cache es)
    (fits : InMemory cache.system_page_size ckey) (small : cache.size * 2 < word) where
  -- After a call of nccl_ofi_mr_cache_insert_entry on a valid cache that returned 0, a lookup of the
  -- same key returns the handle that was inserted. The buffer ends a page before the end of memory,
  -- and the array has less than half of `size_t`.
  pub lookup-insert :
      insert_entry realloced calloced cache ckey handle ≡ done (ok tt, cache')
      → (cache'' : Cache) × (lookup_entry cache' ckey ≡ done (some handle, cache''))
  lookup-insert ret =
      let lem = insert_entry_lem k cache es v ckey handle realloced calloced fits small in
      let (before, after, g, page, v') =
        stored_ok k cache es ckey handle realloced calloced cache'
          (subst (Inserted k cache es ckey handle realloced calloced) ret lem) in
      let new = new_entry cache.system_page_size ckey handle in
      let slots : cache'.slots ≡ slots_of before ++ some new ∷ slots_of after =
        v'.slots_at ∙ sym (slots_of-append before new after) in
      let found : search_key cache' ckey ≡ hit (0 + length before) =
        rw (page, slots)
          (past k cache es v ckey fits before after g (some new ∷ slots_of after)
            ∙ new_here k cache es v ckey fits before after g (0 + length before) handle
                (slots_of after)) in
      hit_looks cache' ckey (length before) (shared new) (slots_of (before ++ shared new ∷ after))
        (found ∙ ap hit (zero-add (length before)))
        (ap (λ t. update shared t (length before)) v'.slots_at ∙ update_lem shared before new after)

  -- After a call of nccl_ofi_mr_cache_insert_entry, on a valid cache with a free slot, that returned
  -- -ENOMEM, where some entry lies at an address above the pages of the key, a lookup of the same key
  -- follows a NULL pointer. The buffer ends a page before the end of memory.
  pub lookup-insert_failed :
      length es < cache.size
      → ¬ All (λ e. e.addr ≤ start_of cache.system_page_size ckey) es
      → insert_entry realloced calloced cache ckey handle ≡ done (err enomem, cache')
      → lookup_entry cache' ckey ≡ crashed
  lookup-insert_failed room above ret =
      let lem = insert_entry_lem k cache es v ckey handle realloced calloced fits small in
      let (before, after, g, page, slots) =
        stored_err k cache es ckey handle realloced calloced cache' room
          (subst (Inserted k cache es ckey handle realloced calloced) ret lem) in
      by_after before after g page slots
    where
      by_after :
          (before after : List RegEntry)
          → Gap cache.system_page_size ckey es before after
          → cache'.system_page_size ≡ cache.system_page_size
          → cache'.slots ≡ take_slots (length es) (slots_of before ++ none ∷ slots_of after)
          → lookup_entry cache' ckey ≡ crashed
      by_after before [] g page slots = absurd (
          above (
            subst (All (λ e. e.addr ≤ start_of cache.system_page_size ckey)) (sym g.split) (
              All-append (λ e. e.addr ≤ start_of cache.system_page_size ckey) before [] g.below
                tt)))
      by_after before (x ∷ after) g page slots =
          let count : length es ≡ length before + suc (length after) =
            ap length g.split ∙ length-append before (x ∷ after) in
          let kept : cache'.slots
              ≡ slots_of before ++ none ∷ take_slots (length after) (slots_of (x ∷ after)) =
            slots
            ∙ ap (λ n. take_slots n (slots_of before ++ none ∷ slots_of (x ∷ after))) count
            ∙ take_slots_lem before (length after) (slots_of (x ∷ after)) in
          let found : search_key cache' ckey ≡ null =
            rw (page, kept)
              (past k cache es v ckey fits before (x ∷ after) g
                  (none ∷ take_slots (length after) (slots_of (x ∷ after)))
                ∙ null_here k cache es v ckey fits before (x ∷ after) g (0 + length before)
                    (take_slots (length after) (slots_of (x ∷ after)))) in
          null_crashes cache' ckey found

-- After a call of nccl_ofi_mr_cache_insert_entry on a valid, full cache in which realloc failed, the
-- call for the same key goes ahead, without growing the array, when calloc gives memory: it
-- returns 0 and uses one slot more than the array has. The array has as many slots as recorded.
pub insert-insert_failed :
    (k : ℕ) (cache : Cache) (es : List RegEntry) (ckey : Ckey) (handle : ℕ)
    (calloced realloced : Bool) (cache' : Cache)
    → IsValid k cache es
    → InMemory cache.system_page_size ckey
    → cache.size * 2 < word
    → cache.allocated ≡ cache.size
    → length es ≡ cache.size
    → insert_entry false calloced cache ckey handle ≡ done (err enomem, cache')
    → (cache'' : Cache) × (insert_entry realloced true cache' ckey handle ≡ done (ok tt, cache''))
      × (used cache'' ≡ suc cache''.allocated)
unfolding insert_at
insert-insert_failed k cache es ckey handle calloced realloced cache' v fits small exact full ret =
    by_stop (search_key cache ckey) refl (stopped k cache es v ckey fits)
  where
    doubled : Cache
    doubled = record cache { size = cache.size * 2 }

    used_eq : length cache.slots ≡ cache.size
    used_eq = ap length v.slots_at ∙ length-slots_of es ∙ full

    by_stop :
        (r : Search)
        → search_key cache ckey ≡ r
        → Stopped k cache es v ckey fits r
        → (cache'' : Cache) × (insert_entry realloced true cache' ckey handle
            ≡ done (ok tt, cache''))
          × (used cache'' ≡ suc cache''.allocated)
    by_stop r s (stop_hit before e after q at u c) =
        let t = insert_hit false calloced cache ckey handle (0 + length before) (s ∙ q) in
        absurd (cc)
    by_stop r s (stop_missed before after q at u w lo hi) =
        let i = 0 + length before in
        let t = insert_stuck false calloced cache ckey handle i (s ∙ q) used_eq refl small in
        let same : doubled ≡ cache' = cc in
        let some_room = v.some_room in
        let apart : used doubled ≢ doubled.size = λ e. omega (arith, used_eq, e) in
        let step = insert_fits realloced true doubled ckey handle i (s ∙ q) apart in
        let new = new_entry cache.system_page_size ckey handle in
        subst
          (λ (c : Cache).
            (cache'' : Cache) × (insert_entry realloced true c ckey handle ≡ done (ok tt, cache''))
            × (used cache'' ≡ suc cache''.allocated))
          same (_, step, omega (arith, length-open_slot (some new) i cache.slots, used_eq, exact))
