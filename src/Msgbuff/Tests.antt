-- ===== src/Msgbuff/Tests.antt =====
-- Runs of the message buffer, and its theorems at concrete buffers.
use aws_ofi_nccl.Base.{
  ℕ, ◌*◌, ◌^◌, ◌≤◌, ◌<◌, ◌≡◌, ◌≢◌, ◌↔◌, refl, true, false, ◌==◌, if◌then◌else◌, Option, none, some,
  [], ◌∷◌, arith, replicate, length,
}
use aws_ofi_nccl.Msgbuff.{
  Msgbuff, Elem, ElemType, req, buff, Status, Outcome, success, invalid_idx, error, blank, init,
  distance, num_inflight, get_idx_status, advance, retire, insert, replace, retrieve, complete,
  slot_of,
}
use aws_ofi_nccl.Msgbuff.Spec
use aws_ofi_nccl.Msgbuff.Spec.{settle}
use aws_ofi_nccl.Msgbuff.Inv.{IsValid, abs}
use aws_ofi_nccl.Msgbuff.Refine.{
  Holds, insert_refines, replace_refines, complete_refines, retrieve_refines,
  get_idx_status_refines,
}
use aws_ofi_nccl.Msgbuff.Create.{init-IsValid}
use aws_ofi_nccl.Msgbuff.Laws.{insert_only}
use aws_ofi_nccl.Msgbuff.Settle.{HeadOpen, complete_only}
use aws_ofi_nccl.Msgbuff.Collide.{slots_shared}

abbrev slot : Status → ℕ → Elem
slot s p = record { stat = s; type = req; elem = some p }

-- Messages 14, 15 and 0 of 16, the second one complete, over four slots.
abbrev sample : Msgbuff
sample = record {
  slots =
      slot Status.inprogress 8 ∷ blank ∷ slot Status.inprogress 7 ∷ slot Status.completed 5 ∷ [];
  max_inprogress = 4;
  field_size = 16;
  field_mask = 15;
  msg_last_incomplete = 14;
  msg_next = 1;
}

sample-IsValid : IsValid sample
sample-IsValid = record {
  shape = record {
    width = 4;
    quot = 4;
    size = refl;
    mask = refl;
    small = omega arith;
    room = omega arith;
    some_slot = omega arith;
    storage = refl;
    divides = refl;
  };
  last_in = omega arith;
  count = 3;
  count_le = omega arith;
  next_at = refl;
}

abbrev after_insert : Msgbuff
after_insert = record sample {
  slots =
      slot Status.inprogress 8
      ∷ slot Status.inprogress 9
      ∷ slot Status.inprogress 7
      ∷ slot Status.completed 5
      ∷ [];
  msg_next = 2;
}

insert_runs : insert sample 1 (some 9) req ≡ some (success, Status.notstarted, after_insert)
unfolding insert get_idx_status distance num_inflight advance
insert_runs = refl

insert_full : insert sample 2 (some 9) req ≡ some (invalid_idx, Status.unavailable, sample)
unfolding insert get_idx_status distance num_inflight
insert_full = refl

abbrev after_complete : Msgbuff
after_complete = record sample {
  slots =
      slot Status.inprogress 8
      ∷ blank
      ∷ record { stat = Status.completed; type = req; elem = none }
      ∷ slot Status.completed 5
      ∷ [];
  msg_last_incomplete = 0;
}

complete_runs : complete sample 14 ≡ some (success, Status.inprogress, after_complete)
unfolding complete get_idx_status distance num_inflight retire
complete_runs = refl

-- A capacity of 3 in a space of 8: numbers 6 and 0 share a slot, and the second insert hides the
-- first message.
abbrev narrow : Msgbuff
narrow = record {
  slots = replicate 3 blank;
  max_inprogress = 3;
  field_size = 8;
  field_mask = 7;
  msg_last_incomplete = 0;
  msg_next = 0;
}

init-narrow : init 3 3 true (some (replicate 3 blank)) 0 ≡ some narrow
unfolding init
init-narrow = refl

abbrev near_end : Msgbuff
near_end = record narrow { msg_last_incomplete = 6; msg_next = 6 }

abbrev insert_then :
    ℕ → ℕ → Option (Outcome × Status × Msgbuff) → Option (Outcome × Status × Msgbuff)
insert_then i p none = none
insert_then i p (some (o, s, m)) = insert m i (some p) req

abbrev answer_of :
    ℕ
    → Option (Outcome × Status × Msgbuff)
    → Option (Outcome × Option Status × Option (Option ℕ × ElemType))
answer_of i none = none
answer_of i (some (o, s, m)) = some (retrieve m i true)

-- Message 6 was stored with element 60, and answers with the element 80 of message 0.
narrow_confuses :
    answer_of 6 (insert_then 0 80 (insert near_end 6 (some 60) req))
    ≡ some (success, some Status.inprogress, some (some 80, req))
unfolding insert get_idx_status distance num_inflight advance retrieve
narrow_confuses = refl

slots_shared_example :
    (◌≢◌ {A = ℕ} 6 0) × (6 < 8) × (distance narrow 0 6 < 3) × (slot_of narrow 6 ≡ slot_of narrow 0)
slots_shared_example =
    slots_shared 3 3 true (some (replicate 3 blank)) 0 narrow init-narrow (omega arith)

abbrev fresh : Msgbuff
fresh = record narrow {
  slots = replicate 4 blank;
  max_inprogress = 4;
  field_size = 16;
  field_mask = 15;
}

init-fresh : init 4 4 true (some (replicate 4 blank)) 0 ≡ some fresh
unfolding init
init-fresh = refl

init-IsValid_example :
    (0 < 4)
    × (2 * 4 < 2 ^ 4)
    × (2 ^ 4 ≤ 32768)
    × (abs fresh ≡ record { first = 0; window = [] })
    × (IsValid fresh ↔ (((quot : ℕ) × (2 ^ 4 ≡ 4 * quot)) × (length fresh.slots ≡ 4)))
init-IsValid_example = init-IsValid 4 4 true (some (replicate 4 blank)) 0 fresh init-fresh

get_idx_status_refines_example :
    get_idx_status sample 15
    ≡ Spec.status_at 4 16 (abs sample).window (Spec.offset 4 16 (abs sample) 15)
get_idx_status_refines_example = get_idx_status_refines sample-IsValid 15 (omega arith)

insert_refines_example :
    let (o, s, st) = Spec.insert 4 16 (abs sample) 1 (some 9) req in
    (m' : Msgbuff) × (insert sample 1 (some 9) req ≡ some (o, s, m')) × Holds sample m' st
insert_refines_example = insert_refines sample-IsValid 1 (omega arith) (some 9) req

replace_refines_example :
    let (o, s, st) = Spec.replace 4 16 (abs sample) 14 (some 9) buff in
    (m' : Msgbuff) × (replace sample 14 (some 9) buff ≡ (o, s, m')) × Holds sample m' st
replace_refines_example = replace_refines sample-IsValid 14 (omega arith) (some 9) buff

complete_refines_example :
    let (o, s, st) = Spec.complete 4 16 (abs sample) 14 in
    (m' : Msgbuff) × (complete sample 14 ≡ some (o, s, m')) × Holds sample m' st
complete_refines_example = complete_refines sample-IsValid 14 (omega arith)

retrieve_refines_example :
    (retrieve sample 0 true ≡ Spec.retrieve 4 16 (abs sample) 0)
    × (retrieve sample 0 false ≡ (error, none, none))
retrieve_refines_example = retrieve_refines sample-IsValid 0 (omega arith)

insert_only_example :
    IsValid after_insert
    × (retrieve after_insert 14 true ≡ (
        if 14 == 1
        then (success, some Status.inprogress, some (some 9, req))
        else retrieve sample 14 true))
    × (get_idx_status after_insert 14
        ≡ (if 14 == 1 then Status.inprogress else get_idx_status sample 14))
insert_only_example =
    insert_only sample-IsValid 1 14 (omega arith) (omega arith) (some 9) req insert_runs

complete_only_example :
    IsValid after_complete
    × HeadOpen (abs after_complete).window
    × (get_idx_status after_complete 15
        ≡ (if 15 == 14 then Status.completed else get_idx_status sample 15))
unfolding distance num_inflight
complete_only_example =
    complete_only sample-IsValid 14 15 (omega arith) (omega arith) complete_runs (omega arith)
