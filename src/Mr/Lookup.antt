-- ===== src/Mr/Lookup.antt =====
-- nccl_ofi_mr_cache_lookup_entry
use mathlib.Core.Path.{subst}
use native.Mathlib.Nat.{zero-add}
use aws_ofi_nccl.Base.{
  All-append, ℕ, ◌+◌, ◌*◌, ◌%◌, ◌^◌, ◌<◌, ◌≡◌, refl, sym, ap, ◌∙◌, ◌⊎◌, inl, inr, arith, Option,
  none, some, List, ◌∷◌, ◌++◌, length, All,
}
use aws_ofi_nccl.Math.{word}
use aws_ofi_nccl.Mr.{
  Ckey, baseaddr, ckey_len, RegEntry, Cache, Run, done, Search, missed, hit, search_key, update,
  lookup_entry,
}
use aws_ofi_nccl.Mr.Pages.{pages_lem, page_pos}
use aws_ofi_nccl.Mr.Loop.{slots_of, Sane, Stop, stop_hit, stop_missed, search_lem, update_lem}
use aws_ofi_nccl.Mr.Entries.{
  IsValid, start_of, count_of, Serves, InMemory, replace-Sorted, replace-All, All-middle,
  length-middle,
}

-- The facts about a key that the search needs.
module _ (k : ℕ) (cache : Cache) (es : List RegEntry) (v : IsValid k cache es) (ckey : Ckey)
    (fits : InMemory cache.system_page_size ckey) where
  abbrev pub ps : ℕ
  ps = cache.system_page_size

  pub pages :
      (start_of ps ckey % ps ≡ 0) × (start_of ps ckey < word) × (count_of ps ckey * ps < word)
  pages =
      let (aligned, low, _, _, high) = pages_lem ps k v.page (baseaddr ckey) (ckey_len ckey) fits in
      (
        aligned,
        omega (arith, v.page.power, low, fits, page_pos ps k v.page),
        omega (arith, high, fits),
      )

  abbrev pub Stopped : Search → Type 0
  Stopped =
      Stop ps k v.page (start_of ps ckey) (count_of ps ckey) (pages.1) (pages.2) (pages.0) es 0

  pub stopped : Stopped (search_key cache ckey)
  stopped = rw v.slots_at (
      search_lem ps k v.page (start_of ps ckey) (count_of ps ckey) (pages.1) (pages.2) (pages.0) es
        0 v.sorted v.sane)

-- An entry with one more user.
abbrev pub shared : RegEntry → RegEntry
shared e = record e { refcnt = e.refcnt + 1 }

-- What a lookup gives.
unfoldable pub Looked : ℕ → Cache → List RegEntry → Ckey → Run (Option ℕ × Cache) → Type 0
Looked k cache es ckey r =
    (All (λ e. ¬ Serves cache.system_page_size ckey e) es
      × (r ≡ done (none, record cache { miss_count = (cache.miss_count + 1) % 2 ^ 32 })))
    ⊎ ((before : List RegEntry) × (e : RegEntry) × (after : List RegEntry) × (cache' : Cache) × (es
          ≡ before ++ e ∷ after)
        × All (λ f. ¬ Serves cache.system_page_size ckey f) before
        × Serves cache.system_page_size ckey e
        × (r ≡ done (some e.handle, cache'))
        × (cache' ≡ record cache {
          slots = slots_of (before ++ shared e ∷ after);
          hit_count = (cache.hit_count + 1) % 2 ^ 32;
        })
        × IsValid k cache' (before ++ shared e ∷ after))

lookup_missed :
    (cache : Cache) (ckey : Ckey) (i : ℕ)
    → search_key cache ckey ≡ missed i
    → lookup_entry cache ckey
      ≡ done (none, record cache { miss_count = (cache.miss_count + 1) % 2 ^ 32 })
unfolding lookup_entry
lookup_missed cache ckey i h = ground (arith, h)

lookup_hit :
    (cache : Cache) (ckey : Ckey) (i : ℕ) (e : RegEntry) (slots : List (Option RegEntry))
    → search_key cache ckey ≡ hit i
    → update shared cache.slots i ≡ (some e, slots)
    → lookup_entry cache ckey
      ≡ done (
        some e.handle,
        record cache { slots = slots; hit_count = (cache.hit_count + 1) % 2 ^ 32 },
      )
unfolding lookup_entry
lookup_hit cache ckey i e slots h u = ground (arith, h, u)

shared-IsValid :
    (k : ℕ) (cache : Cache) (before : List RegEntry) (e : RegEntry) (after : List RegEntry)
    (hits : ℕ)
    → IsValid k cache (before ++ e ∷ after)
    → IsValid k
        (record cache { slots = slots_of (before ++ shared e ∷ after); hit_count = hits })
        (before ++ shared e ∷ after)
shared-IsValid k cache before e after hits v = record {
  slots_at = refl;
  page = v.page;
  sorted = replace-Sorted before e (shared e) after refl v.sorted;
  sane =
      let old = All-middle (Sane cache.system_page_size) before e after v.sane in
      replace-All (Sane cache.system_page_size) before e (shared e) after (old.0, omega arith)
        v.sane;
  room = omega (arith, v.room, length-middle before e after, length-middle before (shared e) after);
  backed = v.backed;
  some_room = v.some_room;
}

-- nccl_ofi_mr_cache_lookup_entry on a valid cache, for a buffer that ends a page before the end of
-- memory: if no entry covers the pages of the buffer it returns NULL and counts a miss; otherwise
-- it returns the handle of the first entry that covers them, gives that entry one more user, counts
-- a hit, changes nothing else, and the cache stays valid.
pub lookup_entry_lem :
    (k : ℕ) (cache : Cache) (es : List RegEntry) (ckey : Ckey)
    → IsValid k cache es
    → InMemory cache.system_page_size ckey
    → Looked k cache es ckey (lookup_entry cache ckey)
unfolding Looked
lookup_entry_lem k cache es ckey v fits = by_stop (stopped k cache es v ckey fits)
  where
    by_stop :
        Stopped k cache es v ckey fits (search_key cache ckey)
        → Looked k cache es ckey (lookup_entry cache ckey)
    by_stop (stop_missed before after r at u w lo hi) = inl (
      subst (All (λ e. ¬ Serves cache.system_page_size ckey e)) (sym at)
          (All-append (λ e. ¬ Serves cache.system_page_size ckey e) before after u w),
      lookup_missed cache ckey (0 + length before) r,
    )
    by_stop (stop_hit before e after r at u c) =
        let slots : update shared cache.slots (length before)
            ≡ (some (shared e), slots_of (before ++ shared e ∷ after)) =
          ap (λ t. update shared t (length before)) (v.slots_at ∙ ap slots_of at)
          ∙ update_lem shared before e after in
        inr (
          before,
          e,
          after,
          record cache {
            slots = slots_of (before ++ shared e ∷ after);
            hit_count = (cache.hit_count + 1) % 2 ^ 32;
          },
          at,
          u,
          c,
          lookup_hit cache ckey (length before) (shared e) (slots_of (before ++ shared e ∷ after))
              (r ∙ ap hit (zero-add (length before))) slots,
          refl,
          shared-IsValid k cache before e after ((cache.hit_count + 1) % 2 ^ 32) (rw at at v),
        )
