-- ===== src/Msgbuff/Samples.antt =====
-- A buffer of four messages among 16 numbers, empty or with a request for message 7, for the tests.
use aws_ofi_nccl.Base.{◌≡◌, refl, arith, replicate, some, [], ◌∷◌}
use aws_ofi_nccl.Msgbuff.{Msgbuff, Status, req, blank, get_idx_status, distance, num_inflight}
use aws_ofi_nccl.Msgbuff.Inv.{IsValid}

abbrev pub empty : Msgbuff
empty = record {
  slots = replicate 4 blank;
  max_inprogress = 4;
  field_size = 16;
  field_mask = 15;
  msg_last_incomplete = 7;
  msg_next = 7;
}

pub empty-IsValid : IsValid empty
empty-IsValid = record {
  shape = record {
    width = 4;
    quot = 4;
    size = refl;
    mask = refl;
    small = omega arith;
    room = omega arith;
    some_slot = omega arith;
    storage = refl;
    divides = refl;
  };
  last_in = omega arith;
  count = 0;
  count_le = omega arith;
  next_at = refl;
}

pub empty-fresh : get_idx_status empty 7 ≡ Status.notstarted
unfolding get_idx_status distance num_inflight
empty-fresh = refl

abbrev pub one_busy : Msgbuff
one_busy = record empty {
  slots =
      blank ∷ blank ∷ blank ∷ record { stat = Status.inprogress; type = req; elem = some 1 } ∷ [];
  msg_next = 8;
}

pub one_busy-IsValid : IsValid one_busy
one_busy-IsValid = record {
  shape = record {
    width = 4;
    quot = 4;
    size = refl;
    mask = refl;
    small = omega arith;
    room = omega arith;
    some_slot = omega arith;
    storage = refl;
    divides = refl;
  };
  last_in = omega arith;
  count = 1;
  count_le = omega arith;
  next_at = refl;
}

pub one_busy-inprogress : get_idx_status one_busy 7 ≡ Status.inprogress
unfolding get_idx_status distance num_inflight
one_busy-inprogress = refl
