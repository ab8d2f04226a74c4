-- ===== src/Deque.antt =====
-- The deque of nccl_ofi_deque.h and nccl_ofi_deque.c: a circular list through the elements that the
-- user owns and the head inside the deque. Addresses are numbers, and 0 is NULL. A call that takes
-- the lock is one step.
pub mod Chain
pub mod Links
pub mod Refine
pub mod Foreach
mod Tests
use aws_ofi_nccl.Base.{
  ℕ, zero, suc, Bool, true, false, not, Option, none, some, List, [], ◌∷◌, ◌==◌, if◌then◌else◌,
  Result, ok, err, enomem, other,
}

-- `nccl_ofi_deque_t`: the address of `head`, and the fields of all elements in memory.
pub record Deque : Type 0 where
  pub head : ℕ
  pub next : ℕ → ℕ
  pub prev : ℕ → ℕ

-- `p->f = v`
abbrev pub write : (ℕ → ℕ) → ℕ → ℕ → ℕ → ℕ
write f p v q = if p == q then v else f q

-- `memory` is a deque at the address malloc gave, or `none`; `mutex_ret` is what the mutex call
-- returned.
pub init : Option Deque → ℕ → Result Deque
init none mutex_ret = err enomem
init (some d) mutex_ret =
    if mutex_ret == 0
    then ok (record d { next = write d.next d.head d.head; prev = write d.prev d.head d.head })
    else err (other mutex_ret)

-- The Boolean tells whether the deque is freed.
pub finalize : ℕ → Result (Unit {0}) × Bool
finalize mutex_ret = if mutex_ret == 0 then (ok tt, true) else (err (other mutex_ret), false)

-- Insertions always return 0.
pub insert_back : Deque → ℕ → Deque
insert_back d elem =
    let next = write d.next elem d.head in
    let prev = write d.prev elem (d.prev d.head) in
    record d { next = write next (prev d.head) elem; prev = write prev d.head elem }

pub insert_front : Deque → ℕ → Deque
insert_front d elem =
    let next = write d.next elem (d.next d.head) in
    let prev = write d.prev elem d.head in
    record d { next = write next d.head elem; prev = write prev (next d.head) elem }

pub isempty : Deque → Bool
isempty d = d.next d.head == d.head

-- `seen` is the deque as the test without the lock reads it, `d` the deque once the lock is taken.
pub remove_front : Deque → Deque → Option ℕ × Deque
unfolding isempty
remove_front seen d =
    let elem = d.next d.head in
    let next = write d.next d.head (d.next elem) in
    if isempty seen
    then (none, d)
    else if isempty d
    then (none, d)
    else (some elem, record d { next = next; prev = write d.prev (next elem) d.head })

pub remove : Deque → ℕ → Deque
remove d elem =
    let next = write d.next (d.prev elem) (d.next elem) in
    let prev = write d.prev (next elem) (d.prev elem) in
    record d { next = write next elem 0; prev = write prev elem 0 }

pub get_front : Deque → Option ℕ
unfolding isempty
get_front d = if isempty d then none else some (d.next d.head)

pub get_next : Deque → ℕ → Option ℕ
get_next d elem = if d.next elem == d.head then none else some (d.next elem)

-- NCCL_OFI_DEQUE_FOREACH from `elem` on, with a body that changes the deque: the elements it visits,
-- and the deque at the end; `none` when the rounds run out. The next element is read before the body.
pub foreach_from : ℕ → (ℕ → Deque → Deque) → Deque → Option ℕ → Option (List ℕ × Deque)
foreach_from zero body d elem = none
foreach_from (suc n) body d none = some ([], d)
foreach_from (suc n) body d (some elem) =
    elim (foreach_from n body (body elem d) (get_next d elem)) [
      | none ↦ none
      | some (seen, d') ↦ some (elem ∷ seen, d')
    ]

pub foreach : ℕ → (ℕ → Deque → Deque) → Deque → Option (List ℕ × Deque)
foreach n body d = foreach_from n body d (get_front d)
