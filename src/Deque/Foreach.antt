-- ===== src/Deque/Foreach.antt =====
-- The walk of NCCL_OFI_DEQUE_FOREACH, with a body that removes some of the elements it is given.
use mathlib.Core.Path.{subst}
use mathlib.Core.List.{append_assoc}
use aws_ofi_nccl.Base.{
  ℕ, zero, suc, ◌<◌, ◌≡◌, refl, sym, some, List, [], ◌∷◌, ◌++◌, arith, length, Bool, Bool-cases,
  inl, inr, if◌then◌else◌,
}
use aws_ofi_nccl.Deque.{Deque, remove, foreach_from, foreach}
use aws_ofi_nccl.Deque.Links.{Holds, head?, remove-Holds, get_front-Holds, get_next-Holds}

-- A body that removes the current element unless it is to be kept.
abbrev pub removing : (ℕ → Bool) → ℕ → Deque → Deque
removing keep elem d = if keep elem then d else remove d elem

abbrev pub kept : (ℕ → Bool) → List ℕ → List ℕ
kept keep [] = []
kept keep (x ∷ xs) = if keep x then x ∷ kept keep xs else kept keep xs

walk :
    (keep : ℕ → Bool) (n : ℕ) (d : Deque) (ys zs : List ℕ)
    → length zs < n
    → Holds d (ys ++ zs)
    → (d' : Deque) × (foreach_from n (removing keep) d (head? zs) ≡ some (zs, d'))
      × Holds d' (ys ++ kept keep zs)
unfolding foreach_from
walk keep zero d ys zs l h = absurd (omega arith)
walk keep (suc n) d ys [] l h = (d, refl, h)
walk keep (suc n) d ys (z ∷ zs) l h = elim (Bool-cases (keep z)) [
  | inl stay ↦
      let r =
        walk keep n d (ys ++ z ∷ []) zs (omega arith)
          (subst (Holds d) (sym (append_assoc ys (z ∷ []) zs)) h) in
      (
        r.0,
        rw (stay, get_next-Holds d ys z zs h, r.1),
        rw stay (subst (Holds r.0) (append_assoc ys (z ∷ []) (kept keep zs)) r.2),
      )
  | inr go ↦
      let r = walk keep n (remove d z) ys zs (omega arith) (remove-Holds d ys z zs h) in
      (r.0, rw (go, get_next-Holds d ys z zs h, r.1), rw go r.2)
]

-- NCCL_OFI_DEQUE_FOREACH, with a body that removes the current element or leaves the deque, on a deque
-- that holds `xs`: after at most one round more than there are elements it ends, having visited all
-- of `xs` in order, and the deque holds those that were kept, in order.
pub foreach_lem :
    (keep : ℕ → Bool) (n : ℕ) (d : Deque) (xs : List ℕ)
    → length xs < n
    → Holds d xs
    → (d' : Deque) × (foreach n (removing keep) d ≡ some (xs, d')) × Holds d' (kept keep xs)
unfolding foreach
foreach_lem keep n d xs l h = rw (get_front-Holds d xs h) (walk keep n d [] xs l h)
