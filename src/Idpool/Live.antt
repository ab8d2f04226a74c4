-- ===== src/Idpool/Live.antt =====
-- Runs of an ID pool against the list of the IDs handed out and not yet given back.
use native.Mathlib.Decide.{dec_lt, ℕ_discrete}
use mathlib.Core.Path.{subst}
use aws_ofi_nccl.Base.{
  Result, Error, ok, err, ℕ, ◌+◌, ◌^◌, ◌≤◌, ◌<◌, ◌≡◌, ◌≢◌, refl, ◌∙◌, Option, some, List, [], ◌∷◌,
  arith, inl, inr,
}
use aws_ofi_nccl.Base.Bag.{count, remove, count-remove}
use aws_ofi_nccl.Math.{word}
use aws_ofi_nccl.Idpool.{Idpool, init, allocate_id, free_id}
use aws_ofi_nccl.Idpool.Laws.{IsValid, free_of, Allocated, Released, allocate_id_lem, free_id_lem}
use aws_ofi_nccl.Idpool.Create.{Malloced, init_lem, Created}

-- The states that a pool of `size` IDs reaches, with the IDs that are handed out.
pub data Run (size : ℕ) : Idpool → List ℕ → Type 0 where
  started :
      {p : Idpool} (mem : Option (List ℕ)) (pool : Idpool)
      → 0 < size
      → (ws : List ℕ) → mem ≡ some ws
      → Malloced size mem
      → init size mem 0 pool ≡ (ok tt, p)
      → Run size p []
  allocated :
      {p p' : Idpool} {live : List ℕ} {id : ℕ}
      → Run size p live
      → allocate_id p ≡ (ok id, p')
      → Run size p' (id ∷ live)
  refused :
      {p p' : Idpool} {live : List ℕ} {e : Error}
      → Run size p live
      → allocate_id p ≡ (err e, p')
      → Run size p' live
  freed :
      {p p' : Idpool} {live : List ℕ} (id : ℕ)
      → Run size p live
      → free_id p id ≡ (ok tt, p')
      → Run size p' (remove id live)
  kept :
      {p p' : Idpool} {live : List ℕ} {e : Error} (id : ℕ)
      → Run size p live
      → free_id p id ≡ (err e, p')
      → Run size p' live

-- Each ID of the pool is either free or handed out once, and no other ID is handed out.
pub record Accounts (size : ℕ) (p : Idpool) (live : List ℕ) : Type 0 where
  pub valid : IsValid p
  pub same_size : p.size ≡ size
  pub once : (j : ℕ) → j < size → count j live + free_of p j ≡ 1
  pub none_beyond : (j : ℕ) → size ≤ j → count j live ≡ 0

-- An ID whose bit is not clear is free.
in_use :
    {size : ℕ} {p : Idpool} {live : List ℕ} (a : Accounts size p live) (id : ℕ)
    → id < p.size
    → free_of p id ≢ 0
    → free_of p id ≡ 1
in_use a id l z = omega (arith, a.once id (omega (arith, a.same_size)))

module _ {size : ℕ} {p p' : Idpool} {live : List ℕ} (int : size ≤ 2 ^ 31)
    (a : Accounts size p live) where
  after_allocate :
      {r : Result ℕ} → allocate_id p ≡ (r, p') → IsValid p' × (p'.size ≡ p.size) × Allocated p r p'
  after_allocate e =
      subst (λ (s : Result ℕ × Idpool). IsValid s.1 × (s.1.size ≡ p.size) × Allocated p s.0 s.1) e
        (allocate_id_lem p a.valid (omega (arith, a.same_size)))

  after_free :
      {r : Result (Unit {0})} (id : ℕ)
      → free_id p id ≡ (r, p')
      → IsValid p' × (p'.size ≡ p.size) × Released p id r p'
  after_free id e =
      subst
        (λ (s : Result (Unit {0}) × Idpool).
          IsValid s.1 × (s.1.size ≡ p.size) × Released p id s.0 s.1)
        e (free_id_lem p id a.valid)

  keep_allocated : {id : ℕ} → allocate_id p ≡ (ok id, p') → Accounts size p' (id ∷ live)
  unfolding Allocated count
  keep_allocated {id} e =
      let (v, s, c) = after_allocate e in
      elim c [
        | inl (r, _, _) ↦ absurd (cc)
        | inr (k, r, l, free, low, step) ↦
            let same : id ≡ k = cc in
            record {
              valid = v;
              same_size = s ∙ a.same_size;
              once = λ j h. ground (arith, step j, same, free, a.once j h);
              none_beyond = λ j h. ground (arith, a.none_beyond j h, same, a.same_size);
            }
      ]

  keep_refused : {e : Error} → allocate_id p ≡ (err e, p') → Accounts size p' live
  unfolding Allocated
  keep_refused e =
      let (v, s, c) = after_allocate e in
      elim c [
        | inl (_, before, after) ↦ record {
          valid = v;
          same_size = s ∙ a.same_size;
          once = λ j h. omega (
            arith,
            a.once j h,
            before j (omega (arith, a.same_size)),
            after j (omega (arith, a.same_size)),
          );
          none_beyond = a.none_beyond;
        }
        | inr (k, r, _, _, _, _) ↦ absurd (cc)
      ]

  keep_freed : (id : ℕ) → free_id p id ≡ (ok tt, p') → Accounts size p' (remove id live)
  unfolding Released
  keep_freed id e =
      let (v, s, (beyond, twice, used)) = after_free id e in
      elim (dec_lt id p.size) [
        | no l ↦ absurd (let h = (beyond (omega arith)).0 in cc)
        | yes l ↦ elim (ℕ_discrete (free_of p id) 0) [
          | yes z ↦
              let (_, step) = used l z in
              let out : 0 < count id live = omega (arith, a.once id (omega (arith, a.same_size))) in
              record {
                valid = v;
                same_size = s ∙ a.same_size;
                once = λ j h. ground (arith, step j, a.once j h, count-remove live id j out);
                none_beyond = λ j h. ground (arith, a.none_beyond j h, count-remove live id j out);
              }
          | no z ↦ absurd (let h = (twice l (in_use a id l z)).0 in cc)
        ]
      ]

  keep_kept : {r : Error} (id : ℕ) → free_id p id ≡ (err r, p') → Accounts size p' live
  unfolding Released
  keep_kept id e =
      let (v, s, (beyond, twice, used)) = after_free id e in
      elim (dec_lt id p.size) [
        | no l ↦ let same = (beyond (omega arith)).1 in rw same a
        | yes l ↦ elim (ℕ_discrete (free_of p id) 0) [
          | yes z ↦ absurd (let h = (used l z).0 in cc)
          | no z ↦ let same = (twice l (in_use a id l z)).1 in rw same a
        ]
      ]

start_Accounts :
    (size : ℕ) (p : Idpool) (mem : Option (List ℕ)) (pool : Idpool) (ws : List ℕ)
    → 0 < size
    → size + 64 ≤ word
    → mem ≡ some ws
    → Malloced size mem
    → init size mem 0 pool ≡ (ok tt, p)
    → Accounts size p []
unfolding count
start_Accounts size p mem pool ws pos fits m mall e =
    let created =
      subst (λ (s : Result (Unit {0}) × Idpool). Created size mem 0 s.0 s.1) e
        (init_lem size mem 0 pool fits mall) in
    let (_, v, s, free) = created.full ws pos m refl in
    record {
      valid = v;
      same_size = s;
      once = λ j h. omega (arith, free j h);
      none_beyond = λ j h. refl;
    }

-- In every state that a pool of `size` IDs reaches by allocations and releases, failed ones
-- included, each ID below `size` is either free or handed out exactly once, no other ID is handed
-- out, and the pool is valid with that size. The size is at most 2 ^ 31, so
-- that each ID is an `int`.
pub Run-Accounts :
    {size : ℕ} {p : Idpool} {live : List ℕ} → size ≤ 2 ^ 31 → Run size p live → Accounts size p live
Run-Accounts fits (started mem pool pos ws m mall e) =
    start_Accounts _ _ mem pool ws pos (omega arith) m mall e
Run-Accounts fits (allocated r e) = keep_allocated fits (Run-Accounts fits r) e
Run-Accounts fits (refused r e) = keep_refused fits (Run-Accounts fits r) e
Run-Accounts fits (freed id r e) = keep_freed fits (Run-Accounts fits r) id e
Run-Accounts fits (kept id r e) = keep_kept fits (Run-Accounts fits r) id e
