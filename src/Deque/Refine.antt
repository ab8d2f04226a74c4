-- ===== src/Deque/Refine.antt =====
-- Any sequence of calls on the deque against the same calls on a list.
use mathlib.Core.Path.{subst}
use aws_ofi_nccl.Base.{
  ℕ, ◌<◌, ◌≡◌, refl, sym, ap, Option, none, List, [], ◌∷◌, ◌++◌, arith, true, Bool-cases, inl, inr,
  ◌==◌, if◌then◌else◌,
}
use aws_ofi_nccl.Base.Bag.{count}
use aws_ofi_nccl.Base.Bag
use aws_ofi_nccl.Deque.{
  Deque, insert_back, insert_front, isempty, remove_front, remove, get_front, get_next,
}
use aws_ofi_nccl.Deque.Links.{
  Holds, IsFresh, head?, insert_back-Holds, insert_front-Holds, remove-Holds, remove_front-Holds,
  get_front-Holds, get_next-Holds,
}

-- The calls; `pop` has the deque as remove_front reads it without the lock.
pub data Op : Type 0 where
  back front unlink after : ℕ → Op
  pop : Deque → Op
  first : Op

-- What a call returns, NULL for none, and the deque after it.
unfoldable pub call : Op → Deque → Option ℕ × Deque
call (back e) d = (none, insert_back d e)
call (front e) d = (none, insert_front d e)
call (unlink e) d = (none, remove d e)
call (after e) d = (get_next d e, d)
call (pop seen) d = remove_front seen d
call first d = (get_front d, d)

abbrev pub rest_after : ℕ → List ℕ → List ℕ
rest_after e [] = []
rest_after e (x ∷ xs) = if x == e then xs else rest_after e xs

abbrev pub tail : List ℕ → List ℕ
tail [] = []
tail (x ∷ xs) = xs

-- The same on a list.
unfoldable pub on_list : Op → List ℕ → Option ℕ × List ℕ
on_list (back e) xs = (none, xs ++ e ∷ [])
on_list (front e) xs = (none, e ∷ xs)
on_list (unlink e) xs = (none, Bag.remove e xs)
on_list (after e) xs = (head? (rest_after e xs), xs)
on_list (pop seen) xs = if isempty seen then (none, xs) else (head? xs, tail xs)
on_list first xs = (head? xs, xs)

-- What the caller keeps to: it inserts elements that are not in the deque, and names ones that are.
abbrev pub IsAllowed : Op → ℕ → List ℕ → Type 0
IsAllowed (back e) head xs = IsFresh head xs e
IsAllowed (front e) head xs = IsFresh head xs e
IsAllowed (unlink e) head xs = 0 < count e xs
IsAllowed (after e) head xs = 0 < count e xs
IsAllowed (pop seen) head xs = Unit {0}
IsAllowed first head xs = Unit {0}

abbrev pub AreAllowed : List Op → ℕ → List ℕ → Type 0
AreAllowed [] head xs = Unit {0}
AreAllowed (op ∷ ops) head xs = IsAllowed op head xs × AreAllowed ops head (on_list op xs).1

unfoldable pub calls : List Op → Deque → List (Option ℕ) × Deque
calls [] d = ([], d)
calls (op ∷ ops) d =
    let (out, d') = call op d in let (outs, d'') = calls ops d' in (out ∷ outs, d'')

unfoldable pub on_lists : List Op → List ℕ → List (Option ℕ) × List ℕ
on_lists [] xs = ([], xs)
on_lists (op ∷ ops) xs =
    let (out, xs') = on_list op xs in let (outs, xs'') = on_lists ops xs' in (out ∷ outs, xs'')

pub record Split (e : ℕ) (xs : List ℕ) : Type 0 where
  pub before : List ℕ
  pub parts : xs ≡ before ++ e ∷ rest_after e xs
  pub removed : Bag.remove e xs ≡ before ++ rest_after e xs

Split-at : (e : ℕ) (xs : List ℕ) → 0 < count e xs → Split e xs
unfolding count Bag.remove
Split-at e [] h = absurd (omega arith)
Split-at e (x ∷ xs) h = elim (Bool-cases (x == e)) [
  | inl same ↦
      let is : x ≡ e = ground arith in
      record { before = []; parts = rw (same, is); removed = rw same }
  | inr other ↦
      let ih = Split-at e xs (ground arith) in
      record {
        before = x ∷ ih.before;
        parts = rw other (ap (◌∷◌ x) ih.parts);
        removed = rw other (ap (◌∷◌ x) ih.removed);
      }
]

pub remove_front-head : (seen d : Deque) → (remove_front seen d).1.head ≡ d.head
unfolding remove_front
remove_front-head seen d = ground arith

pop_early : (seen d : Deque) → isempty seen ≡ true → remove_front seen d ≡ (none, d)
unfolding remove_front
pop_early seen d e = rw e

pub pop_nothing : (seen d : Deque) → Holds d [] → remove_front seen d ≡ (none, d)
unfolding remove_front isempty
pop_nothing seen d h = ground arith

call-Holds :
    (op : Op) (d : Deque) (xs : List ℕ)
    → IsAllowed op d.head xs
    → Holds d xs
    → ((call op d).0 ≡ (on_list op xs).0)
      × Holds (call op d).1 (on_list op xs).1
      × ((call op d).1.head ≡ d.head)
unfolding call on_list
call-Holds (back e) d xs a h = (refl, insert_back-Holds d xs e a h, unfold insert_back in refl)
call-Holds (front e) d xs a h = (refl, insert_front-Holds d xs e a h, unfold insert_front in refl)
call-Holds (unlink e) d xs a h =
    let s = Split-at e xs a in
    (
      refl,
      rw s.removed (remove-Holds d s.before e (rest_after e xs) (subst (Holds d) s.parts h)),
      unfold remove in refl,
    )
call-Holds (after e) d xs a h =
    let s = Split-at e xs a in
    (get_next-Holds d s.before e (rest_after e xs) (subst (Holds d) s.parts h), h, refl)
call-Holds (pop seen) d [] a h = elim (Bool-cases (isempty seen)) [
  | inl e ↦ rw (e, pop_nothing seen d h) (refl, h, refl)
  | inr ne ↦ rw (ne, pop_nothing seen d h) (refl, h, refl)
]
call-Holds (pop seen) d (x ∷ xs) a h = elim (Bool-cases (isempty seen)) [
  | inl e ↦ rw (e, pop_early seen d e) (refl, h, refl)
  | inr ne ↦
      let r = remove_front-Holds d x xs seen ne h in rw ne (r.0, r.1, remove_front-head seen d)
]
call-Holds first d xs a h = (get_front-Holds d xs h, h, refl)

-- Every sequence of calls of a deque that holds `xs`, in which the caller inserts only elements that
-- differ from NULL, the head and those in the deque, and removes or follows only elements in it:
-- each call returns what the same call on the list returns, where remove_front returns NULL when the
-- list is empty or looked empty before the lock was taken, and the deque holds what the list
-- is at the end.
pub calls_refine :
    (ops : List Op) (d : Deque) (xs : List ℕ)
    → AreAllowed ops d.head xs
    → Holds d xs
    → ((calls ops d).0 ≡ (on_lists ops xs).0) × Holds (calls ops d).1 (on_lists ops xs).1
unfolding calls on_lists
calls_refine [] d xs a h = (refl, h)
calls_refine (op ∷ ops) d xs a h =
    let r = call-Holds op d xs a.0 h in
    let ih =
      calls_refine ops (call op d).1 (on_list op xs).1
        (subst (λ p. AreAllowed ops p (on_list op xs).1) (sym r.2) a.1) r.1 in
    (rw (r.0, ih.0) refl, ih.1)
