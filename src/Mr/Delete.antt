-- ===== src/Mr/Delete.antt =====
-- nccl_ofi_mr_cache_del_entry
use mathlib.Core.Path.{subst}
use native.Mathlib.Decide.{ℕ_discrete}
use aws_ofi_nccl.Base.{
  ℕ, ◌-◌, ◌^◌, ◌≤◌, ◌<◌, ◌≡◌, ◌≢◌, refl, sym, ap, ◌∙◌, ◌⊎◌, inl, inr, arith, Option, none, some,
  List, ◌∷◌, ◌++◌, length, All, Result, ok, err, enoent, ◌==◌, if◌then◌else◌,
}
use aws_ofi_nccl.Mr.{RegEntry, Cache, Run, done, update, lookup_handle, close_slot, del_entry}
use aws_ofi_nccl.Mr.Loop.{
  slots_of, Sane, update_lem, close_slot_lem, Holder, holder_at, no_holder, lookup_handle_lem,
}
use aws_ofi_nccl.Mr.Entries.{
  IsValid, replace-Sorted, replace-All, drop-Sorted, drop-All, All-middle, length-middle,
}

-- An entry with one user less.
abbrev pub left : RegEntry → RegEntry
left e = record e { refcnt = e.refcnt - 1 }

-- What a deletion gives.
unfoldable pub Deleted : ℕ → Cache → List RegEntry → ℕ → Run (Result ℕ × Cache) → Type 0
Deleted k cache es h r =
    (All (λ e. e.handle ≢ h) es × (r ≡ done (err enoent, cache)))
    ⊎ ((before : List RegEntry) × (e : RegEntry) × (after : List RegEntry) × (cache' : Cache) × (es
          ≡ before ++ e ∷ after)
        × All (λ f. f.handle ≢ h) before
        × (e.handle ≡ h)
        × (((e.refcnt ≡ 1) × (r ≡ done (ok 1, cache')) × IsValid k cache' (before ++ after))
            ⊎ ((1 < e.refcnt)
                × (r ≡ done (ok 0, cache'))
                × IsValid k cache' (before ++ left e ∷ after))))

del_missing :
    (cache : Cache) (h : ℕ)
    → lookup_handle h cache.slots ≡ done none
    → del_entry cache h ≡ done (err enoent, cache)
unfolding del_entry
del_missing cache h e = ground (arith, e)

del_found :
    (cache : Cache) (h i : ℕ) (e : RegEntry) (slots : List (Option RegEntry))
    → lookup_handle h cache.slots ≡ done (some i)
    → update left cache.slots i ≡ (some e, slots)
    → del_entry cache h ≡ (
        if e.refcnt == 0
        then done (ok 1, record cache { slots = close_slot i slots })
        else done (ok 0, record cache { slots = slots }))
unfolding del_entry
del_found cache h i e slots f u = ground (arith, f, u)

module _ (k : ℕ) (cache : Cache) (before : List RegEntry) (e : RegEntry) (after : List RegEntry)
    (v : IsValid k cache (before ++ e ∷ after)) where
  dropped-IsValid :
      IsValid k (record cache { slots = slots_of (before ++ after) }) (before ++ after)
  dropped-IsValid = record {
    slots_at = refl;
    page = v.page;
    sorted = drop-Sorted before e after v.sorted;
    sane = drop-All (Sane cache.system_page_size) before e after v.sane;
    room = omega (arith, v.room, length-middle before e after);
    backed = v.backed;
    some_room = v.some_room;
  }

  left-IsValid :
      1 < e.refcnt
      → IsValid k
          (record cache { slots = slots_of (before ++ left e ∷ after) })
          (before ++ left e ∷ after)
  left-IsValid more = record {
    slots_at = refl;
    page = v.page;
    sorted = replace-Sorted before e (left e) after refl v.sorted;
    sane =
        let old = All-middle (Sane cache.system_page_size) before e after v.sane in
        replace-All (Sane cache.system_page_size) before e (left e) after (old.0, omega arith)
          v.sane;
    room = omega (arith, v.room, length-middle before e after, length-middle before (left e) after);
    backed = v.backed;
    some_room = v.some_room;
  }

-- nccl_ofi_mr_cache_del_entry on a valid cache of at most 2 ^ 31 entries: without an entry with the handle it returns -ENOENT
-- and changes nothing; otherwise the first entry with the handle loses a user. When it was the last
-- one, the entry is gone and the result is 1; else the entry stays and the result is 0. The cache
-- stays valid, and its other entries are as before.
pub del_entry_lem :
    (k : ℕ) (cache : Cache) (es : List RegEntry) (h : ℕ)
    → IsValid k cache es
    → length es ≤ 2 ^ 31
    → Deleted k cache es h (del_entry cache h)
unfolding Deleted
del_entry_lem k cache es h v int =
    by_holder (lookup_handle h cache.slots) refl
      (subst (λ t. Holder h es (lookup_handle h t)) (sym v.slots_at) (lookup_handle_lem h es int))
  where
    users : (n : ℕ) → 0 < n → (n ≡ 1) ⊎ (1 < n)
    users n p = elim (ℕ_discrete n 1) [ yes q ↦ inl q | no q ↦ inr (omega arith) ]

    by_holder :
        (r : Run (Option ℕ))
        → lookup_handle h cache.slots ≡ r
        → Holder h es r
        → Deleted k cache es h (del_entry cache h)
    by_holder r s (no_holder e u) = inl (u, del_missing cache h (s ∙ e))
    by_holder r s (holder_at before e after q at here u) =
        let v' : IsValid k cache (before ++ e ∷ after) = subst (IsValid k cache) at v in
        let slots : update left cache.slots (length before)
            ≡ (some (left e), slots_of (before ++ left e ∷ after)) =
          ap (λ t. update left t (length before)) v'.slots_at ∙ update_lem left before e after in
        let step =
          del_found cache h (length before) (left e) (slots_of (before ++ left e ∷ after)) (s ∙ q)
            slots in
        let sane = All-middle (Sane cache.system_page_size) before e after v'.sane in
        elim (users e.refcnt sane.1) [
          | inl one ↦ inr (
            before,
            e,
            after,
            record cache { slots = slots_of (before ++ after) },
            at,
            u,
            here,
            inl (
              one,
              step ∙ ground (arith, one, close_slot_lem before (left e) after),
              dropped-IsValid k cache before e after v',
            ),
          )
          | inr more ↦ inr (
            before,
            e,
            after,
            record cache { slots = slots_of (before ++ left e ∷ after) },
            at,
            u,
            here,
            inr (more, step ∙ ground arith, left-IsValid k cache before e after v' more),
          )
        ]
