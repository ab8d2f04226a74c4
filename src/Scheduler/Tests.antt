-- ===== src/Scheduler/Tests.antt =====
-- Schedules for a few messages on four rails, and what the code does with three.
use aws_ofi_nccl.Base.{◌+◌, ◌%◌, ◌≤◌, ◌<◌, ◌≡◌, refl, [], ◌∷◌, arith, length}
use aws_ofi_nccl.Math.{div_ceil, max_of, min_of}
use aws_ofi_nccl.Scheduler.{
  find_factor, initial_stripes, get_num_stripes, stripes, max_stripe_of, set_schedule_by_threshold,
}
use aws_ofi_nccl.Scheduler.Stripes.{Factor, get_num_stripes_lem}
use aws_ofi_nccl.Scheduler.Tiles.{Cuts, set_schedule_by_threshold_lem}
-- A free list with one free entry of 64 bytes.
use aws_ofi_nccl.Scheduler.Samples.{scheduler}

-- Two stripes for 8000 bytes on four rails, from rail 3 on.
two_stripes :
    (set_schedule_by_threshold scheduler 8000 4 128 7).0.rail_xfer_infos
    ≡ record { rail_id = 3; offset = 0; msg_size = 4096 }
      ∷ record { rail_id = 0; offset = 4096; msg_size = 3904 }
      ∷ []
unfolding set_schedule_by_threshold get_num_stripes initial_stripes find_factor stripes
    max_stripe_of div_ceil max_of min_of
two_stripes = refl

set_schedule_by_threshold_lem_example :
    let (schedule, s') = set_schedule_by_threshold scheduler 8000 4 128 7 in
    Cuts 4 128 8000 3 schedule.rail_xfer_infos
    × (schedule.num_xfer_infos ≡ length schedule.rail_xfer_infos)
    × (schedule.num_xfer_infos ≤ 4)
    × (s' ≡ record scheduler { rr_counter = (3 + schedule.num_xfer_infos) % 4 })
    × (s'.rr_counter < 4)
set_schedule_by_threshold_lem_example =
    set_schedule_by_threshold_lem scheduler 8000 4 128 7 (omega arith) (omega arith) (omega arith)
      (omega arith)

-- On three rails the two stripes for 8000 bytes stay two, which is no factor of three.
no_factor : get_num_stripes scheduler 8000 3 ≡ 2
unfolding get_num_stripes initial_stripes find_factor div_ceil max_of min_of
no_factor = refl

get_num_stripes_lem_example :
    let n = get_num_stripes scheduler 8000 3 in
    Factor (initial_stripes scheduler 8000 3) 3 (initial_stripes scheduler 8000 3) n
    × (1 ≤ n)
    × (n ≤ 3)
get_num_stripes_lem_example = get_num_stripes_lem scheduler 8000 3 (omega arith)
