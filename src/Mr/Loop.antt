-- ===== src/Mr/Loop.antt =====
-- The loops of the cache over its slots, on slots that all hold an entry, in the order of addresses.
use native.Mathlib.Decide.{dec_lt, ℕ_discrete}
use aws_ofi_nccl.Base.{
  ℕ, suc, ◌+◌, ◌*◌, ◌^◌, ◌%◌, ◌≤◌, ◌<◌, ◌≡◌, ◌≢◌, refl, sym, ap, ◌∙◌, inl, inr, arith, Option, none,
  some, List, [], ◌∷◌, ◌++◌, length, All, All-map, true, false, Bool-cases, ltb, ◌==◌, to_int-small,
  length-append,
}
use aws_ofi_nccl.Math.{word}
use aws_ofi_nccl.Mr.{
  RegEntry, Search, missed, hit, covers, search, update, open_slot, close_slot, find_handle,
  lookup_handle, Run, done, crashed,
}
use aws_ofi_nccl.Mr.Pages.{PageSize, Covers, covers_lem}

-- The slots that hold the entries.
abbrev pub slots_of : List RegEntry → List (Option RegEntry)
slots_of [] = []
slots_of (e ∷ es) = some e ∷ slots_of es

-- The entries lie in the order of their addresses.
abbrev pub Sorted : List RegEntry → Type 0
Sorted [] = Unit {0}
Sorted (e ∷ es) = All (λ f. e.addr ≤ f.addr) es × Sorted es

-- The page address of each entry is a multiple of the page size, and it has users.
abbrev pub Sane : ℕ → RegEntry → Type 0
Sane ps e = (e.addr % ps ≡ 0) × (0 < e.refcnt)

from_start : (i : ℕ) → i ≡ i + 0
from_start i = omega arith

module _ (ps k : ℕ) (p : PageSize ps k) (a n : ℕ) (la : a < word) (ln : n * ps < word)
    (aligned : a % ps ≡ 0) where
  -- Not one of the entries covers the pages.
  abbrev pub Unseen : List RegEntry → Type 0
  Unseen es = All (λ e. ¬ Covers ps k p a n e) es

  -- Where the loop stops: behind entries that do not cover the pages, at an entry that does, or
  -- where the addresses go beyond the pages.
  pub data Stop (es : List RegEntry) (i : ℕ) (r : Search) : Type 0 where
    stop_hit :
        (before : List RegEntry) (e : RegEntry) (after : List RegEntry)
        → r ≡ hit (i + length before)
        → es ≡ before ++ e ∷ after
        → Unseen before
        → Covers ps k p a n e
        → Stop es i r
    stop_missed :
        (before after : List RegEntry)
        → r ≡ missed (i + length before)
        → es ≡ before ++ after
        → Unseen before
        → Unseen after
        → All (λ e. e.addr ≤ a) before
        → All (λ e. a < e.addr) after
        → Stop es i r

  beyond :
      (e : RegEntry) (es : List RegEntry)
      → a < e.addr
      → All (λ f. e.addr ≤ f.addr) es
      → All (λ f. a < f.addr) es
  beyond e es l h = All-map (λ f le. omega arith) es h

  beyond-Unseen : (es : List RegEntry) → All (λ f. a < f.addr) es → Unseen es
  beyond-Unseen es h = All-map (λ f l c. omega (arith, c.0)) es h

  later :
      (e : RegEntry) (es : List RegEntry) (i : ℕ) (r : Search)
      → ¬ Covers ps k p a n e
      → e.addr ≤ a
      → Stop es (i + 1) r
      → Stop (e ∷ es) i r
  later e es i r miss le (stop_hit before f after here at unseen c) =
      stop_hit (e ∷ before) f after (here ∙ ap hit (shift before)) (ap (λ t. e ∷ t) at)
        (miss, unseen) c
    where
      shift : (xs : List RegEntry) → i + 1 + length xs ≡ i + suc (length xs)
      shift xs = omega arith
  later e es i r miss le (stop_missed before after here at u v lo hi) =
      stop_missed (e ∷ before) after (here ∙ ap missed (shift before)) (ap (λ t. e ∷ t) at)
        (miss, u) v (le, lo) hi
    where
      shift : (xs : List RegEntry) → i + 1 + length xs ≡ i + suc (length xs)
      shift xs = omega arith

  pub search_lem :
      (es : List RegEntry) (i : ℕ)
      → Sorted es
      → All (Sane ps) es
      → Stop es i (search ps a n i (slots_of es))
  unfolding search
  search_lem [] i sorted sane = stop_missed [] [] (ap missed (from_start i)) refl tt tt tt tt
  search_lem (e ∷ es) i sorted sane = elim (dec_lt a e.addr) [
    | yes l ↦
        let t : ltb a e.addr ≡ true = ground arith in
        let all = beyond e es l sorted.0 in
        rw t (
          stop_missed [] (e ∷ es) (ap missed (from_start i)) refl tt
            ((λ c. omega (arith, c.0)), beyond-Unseen es all) tt (l, all))
    | no l ↦
        let f : ltb a e.addr ≡ false = ground arith in
        let iff = covers_lem ps k p a n e la ln (omega arith) aligned sane.0.0 in
        elim (Bool-cases (covers ps a n e)) [
          | inl c ↦ rw (f, c) (stop_hit [] e es (ap hit (from_start i)) refl tt (iff.0 c))
          | inr c ↦
              rw (f, c)
                (later e es i (search ps a n (i + 1) (slots_of es))
                  (λ h. absurd (let t = iff.1 h in cc)) (omega arith)
                  (search_lem es (i + 1) sorted.1 sane.1))
        ]
  ]

  -- The loop passes the entries that do not cover the pages, up to where the addresses go beyond.
  pub search-append :
      (before : List RegEntry) (rest : List (Option RegEntry)) (i : ℕ)
      → Unseen before
      → All (λ e. e.addr ≤ a) before
      → All (Sane ps) before
      → search ps a n i (slots_of before ++ rest) ≡ search ps a n (i + length before) rest
  unfolding search
  search-append [] rest i u lo sane = ap (λ t. search ps a n t rest) (from_start i)
  search-append (e ∷ before) rest i u lo sane =
      let f : ltb a e.addr ≡ false = let le = lo.0 in ground arith in
      let iff = covers_lem ps k p a n e la ln lo.0 aligned sane.0.0 in
      let c : covers ps a n e ≡ false = elim (Bool-cases (covers ps a n e)) [
        | inl t ↦ absurd (u.0 (iff.0 t))
        | inr q ↦ q
      ] in
      let shift : i + 1 + length before ≡ i + length (e ∷ before) = omega arith in
      rw (f, c)
        (search-append before rest (i + 1) u.1 lo.1 sane.1 ∙ ap (λ t. search ps a n t rest) shift)

-- What each loop does to the slots, at the slot behind `before`.
pub update_lem :
    (f : RegEntry → RegEntry) (before : List RegEntry) (e : RegEntry) (after : List RegEntry)
    → update f (slots_of (before ++ e ∷ after)) (length before)
      ≡ (some (f e), slots_of (before ++ f e ∷ after))
unfolding update
update_lem f [] e after = refl
update_lem f (b ∷ before) e after = rw (update_lem f before e after)

pub open_slot_lem :
    (v : Option RegEntry) (before after : List RegEntry)
    → open_slot v (length before) (slots_of (before ++ after))
      ≡ slots_of before ++ v ∷ slots_of after
unfolding open_slot
open_slot_lem v [] after = refl
open_slot_lem v (b ∷ before) after = ap (λ t. some b ∷ t) (open_slot_lem v before after)

pub slots_of-append :
    (before : List RegEntry) (e : RegEntry) (after : List RegEntry)
    → slots_of before ++ some e ∷ slots_of after ≡ slots_of (before ++ e ∷ after)
slots_of-append [] e after = refl
slots_of-append (b ∷ before) e after = ap (λ t. some b ∷ t) (slots_of-append before e after)

pub close_slot_lem :
    (before : List RegEntry) (e : RegEntry) (after : List RegEntry)
    → close_slot (length before) (slots_of (before ++ e ∷ after)) ≡ slots_of (before ++ after)
unfolding close_slot
close_slot_lem [] e after = refl
close_slot_lem (b ∷ before) e after = ap (λ t. some b ∷ t) (close_slot_lem before e after)

-- The first entry with a handle.
pub data Holder (h : ℕ) (es : List RegEntry) (r : Run (Option ℕ)) : Type 0 where
  holder_at :
      (before : List RegEntry) (e : RegEntry) (after : List RegEntry)
      → r ≡ done (some (length before))
      → es ≡ before ++ e ∷ after
      → e.handle ≡ h
      → All (λ f. f.handle ≢ h) before
      → Holder h es r
  no_holder : r ≡ done none → All (λ f. f.handle ≢ h) es → Holder h es r

pub find_handle_lem : (h : ℕ) (es : List RegEntry) → Holder h es (find_handle h (slots_of es))
unfolding find_handle
find_handle_lem h [] = no_holder refl tt
find_handle_lem h (e ∷ es) = elim (ℕ_discrete h e.handle) [
  | yes q ↦
      let t : (h == e.handle) ≡ true = ground (arith, q) in
      rw t (holder_at [] e es refl refl (sym q) tt)
  | no q ↦
      let f : (h == e.handle) ≡ false = ground (arith, q) in
      rw f (further (find_handle_lem h es) (λ s. q (sym s)))
]
  where
    further :
        Holder h es (find_handle h (slots_of es))
        → e.handle ≢ h
        → Holder h (e ∷ es) (elim (find_handle h (slots_of es)) [
          | crashed ↦ crashed
          | done none ↦ done none
          | done (some i) ↦ done (some (suc i))
        ])
    further (holder_at before f after r at here u) q =
        holder_at (e ∷ before) f after (ground (arith, r)) (ap (λ t. e ∷ t) at) here (q, u)
    further (no_holder r u) q = no_holder (ground (arith, r)) (q, u)

-- With at most 2 ^ 31 slots, each slot is an `int`.
pub lookup_handle_lem :
    (h : ℕ) (es : List RegEntry) → length es ≤ 2 ^ 31 → Holder h es (lookup_handle h (slots_of es))
unfolding lookup_handle
lookup_handle_lem h es int = elim (find_handle_lem h es) [
  | holder_at before e after r at here u ↦
      let long = ap length at ∙ length-append before (e ∷ after) in
      let small : length before < 2 ^ 31 = omega (arith, long, int) in
      rw (lookup_handle, r, to_int-small (length before) small)
        (holder_at before e after refl at here u)
  | no_holder r u ↦ rw (lookup_handle, r) (no_holder refl u)
]
