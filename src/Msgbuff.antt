-- ===== src/Msgbuff.antt =====
-- The message buffer of nccl_ofi_msgbuff.h and nccl_ofi_msgbuff.c. Each operation runs under the
-- buffer's mutex, so a call is one step from a buffer to a buffer.
pub mod Spec
pub mod Window
pub mod Inv
pub mod Insert
pub mod Complete
pub mod Refine
pub mod Create
pub mod Laws
pub mod Fresh
pub mod Settle
pub mod Collide
pub mod Samples
mod Tests
use aws_ofi_nccl.Base.{
  ℕ, zero, suc, ◌+◌, ◌-◌, ◌*◌, ◌%◌, ◌^◌, bit_and, Bool, true, false, not, ◌&&◌, ◌||◌, Option, none,
  some, List, ltb, leb, ◌==◌, if◌then◌else◌, get_or, set,
}

-- `nccl_ofi_msgbuff_status_t`
pub data Status : Type 0 where
  completed inprogress notstarted unavailable : Status

-- `nccl_ofi_msgbuff_result_t`
pub data Outcome : Type 0 where
  success invalid_idx error : Outcome

-- `nccl_ofi_msgbuff_elemtype_t`
pub data ElemType : Type 0 where
  req buff : ElemType

-- `nccl_ofi_msgbuff_elem_t`. A pointer is a number, and NULL is `none`.
pub record Elem : Type 0 where
  pub stat : Status
  pub type : ElemType
  pub elem : Option ℕ

-- `nccl_ofi_msgbuff_t`. The integers are `uint16_t`.
pub record Msgbuff : Type 0 where
  pub slots : List Elem
  pub max_inprogress : ℕ
  pub field_size : ℕ
  pub field_mask : ℕ
  pub msg_last_incomplete : ℕ
  pub msg_next : ℕ

abbrev pub u16 : ℕ → ℕ
u16 x = x % 65536

-- What a read outside the storage would give; the invariant rules such reads out.
abbrev pub blank : Elem
blank = record { stat = Status.notstarted; type = req; elem = none }

-- `struct_mem` and `buff_mem` are what the two calls of malloc return, `buff_mem` with its content,
-- and `mutex_ret` is what the mutex initialisation returns.
pub init : ℕ → ℕ → Bool → Option (List Elem) → ℕ → Option Msgbuff
init max_inprogress bit_width struct_mem buff_mem mutex_ret =
    if (max_inprogress == 0) || leb (u16 (2 ^ bit_width)) (2 * max_inprogress)
    then none
    else if not struct_mem
    then none
    else elim buff_mem [
      | none ↦ none
      | some mem ↦
          if mutex_ret == 0
          then some (record {
            slots = mem;
            max_inprogress = max_inprogress;
            field_size = u16 (2 ^ bit_width);
            field_mask = u16 (u16 (2 ^ bit_width) + 65535);
            msg_last_incomplete = 0;
            msg_next = 0;
          })
          else none
    ]

-- The storage is there in every buffer of this model; both are freed.
pub destroy : Option Msgbuff → Bool
destroy none = false
destroy (some m) = true

-- The sum is an `int`, and the result is cut to 16 bits.
pub distance : Msgbuff → ℕ → ℕ → ℕ
distance m front back = u16 ((if ltb front back then m.field_size else 0) + front + 65536 - back)

pub num_inflight : Msgbuff → ℕ
num_inflight m = distance m m.msg_next m.msg_last_incomplete

-- `buff_idx`: the slot of an index.
abbrev pub slot_of : Msgbuff → ℕ → ℕ
slot_of m idx = idx % m.max_inprogress

abbrev pub buff_idx : Msgbuff → ℕ → Elem
buff_idx m idx = get_or m.slots (slot_of m idx) blank

-- A write through the pointer that `buff_idx` returns.
abbrev pub put_idx : Msgbuff → ℕ → Elem → Msgbuff
put_idx m idx e = record m { slots = set m.slots (slot_of m idx) e }

pub get_idx_status : Msgbuff → ℕ → Status
get_idx_status m idx =
    if ltb (distance m idx m.msg_last_incomplete) (distance m m.msg_next m.msg_last_incomplete)
    then (buff_idx m idx).stat
    else if not (idx == m.msg_last_incomplete)
        && leb (distance m m.msg_last_incomplete idx) m.max_inprogress
    then Status.completed
    else if ltb (distance m idx m.msg_next) (distance m m.max_inprogress (num_inflight m))
    then Status.notstarted
    else Status.unavailable

-- The loop of `insert` that moves `msg_next` past the index, with a bound on its rounds.
pub advance : ℕ → Msgbuff → ℕ → Option Msgbuff
advance zero m idx = none
advance (suc fuel) m idx =
    let cleared =
      (if m.msg_next == idx
        then m
        else put_idx m m.msg_next
            (record (buff_idx m m.msg_next) { stat = Status.notstarted; elem = none })) in
    let rest =
      advance fuel (record cleared { msg_next = bit_and (m.msg_next + 1) m.field_mask }) idx in
    if leb (distance m idx m.msg_next) m.max_inprogress then rest else some m

abbrev pub is_inprogress : Status → Bool
is_inprogress Status.inprogress = true
is_inprogress _ = false

abbrev pub is_notstarted : Status → Bool
is_notstarted Status.notstarted = true
is_notstarted _ = false

abbrev pub is_completed : Status → Bool
is_completed Status.completed = true
is_completed _ = false

-- The rounds that the two loops are given: more than there are indices.
abbrev pub rounds : Msgbuff → ℕ
rounds m = suc m.field_size

-- `none` means that a loop did not end within its rounds.
pub insert : Msgbuff → ℕ → Option ℕ → ElemType → Option (Outcome × Status × Msgbuff)
insert m idx elem type =
    let status = get_idx_status m idx in
    let stored = put_idx m idx (record { stat = Status.inprogress; type = type; elem = elem }) in
    if is_notstarted status
    then elim (advance (rounds m) stored idx) [ none ↦ none | some m' ↦ some (success, status, m') ]
    else some (invalid_idx, status, m)

pub replace : Msgbuff → ℕ → Option ℕ → ElemType → Outcome × Status × Msgbuff
replace m idx elem type =
    let status = get_idx_status m idx in
    if is_inprogress status
    then (success, status, put_idx m idx (record (buff_idx m idx) { elem = elem; type = type }))
    else (invalid_idx, status, m)

-- `UNAVAILABLE` is for `insert` only.
abbrev pub for_reader : Status → Status
for_reader Status.unavailable = Status.notstarted
for_reader s = s

-- `out` is whether the caller passed a place for the element; the last part is what is written there.
pub retrieve : Msgbuff → ℕ → Bool → Outcome × Option Status × Option (Option ℕ × ElemType)
retrieve m idx out =
    let status = get_idx_status m idx in
    let e = buff_idx m idx in
    if not out
    then (error, none, none)
    else if is_inprogress status
    then (success, some status, some (e.elem, e.type))
    else (invalid_idx, some (for_reader status), none)

-- The loop of `complete` that moves `msg_last_incomplete`, with a bound on its rounds.
pub retire : ℕ → Msgbuff → Option Msgbuff
retire zero m = none
retire (suc fuel) m =
    let rest =
      retire fuel
        (record m { msg_last_incomplete = bit_and (m.msg_last_incomplete + 1) m.field_mask }) in
    if not (m.msg_last_incomplete == m.msg_next)
      && is_completed (buff_idx m m.msg_last_incomplete).stat
    then rest
    else some m

pub complete : Msgbuff → ℕ → Option (Outcome × Status × Msgbuff)
complete m idx =
    let status = get_idx_status m idx in
    let marked = put_idx m idx (record (buff_idx m idx) { stat = Status.completed; elem = none }) in
    if is_inprogress status
    then elim (retire (rounds m) marked) [ none ↦ none | some m' ↦ some (success, status, m') ]
    else some (invalid_idx, for_reader status, m)
