-- ===== src/Scheduler.antt =====
-- The threshold scheduler of nccl_ofi_scheduler.h and nccl_ofi_scheduler.c, which cuts a message into
-- stripes for the rails. `int` and `unsigned` values stay far below 2 ^ 31 and are plain numbers;
-- the sizes in bytes are `size_t`. The round-robin counter changes under its lock.
pub mod Stripes
pub mod Tiles
pub mod Laws
pub mod Samples
mod Tests
use aws_ofi_nccl.Base.{
  ℕ, zero, suc, ◌+◌, ◌-◌, ◌*◌, ◌%◌, Bool, true, false, not, Option, none, some, List, [], ◌∷◌, leb,
  ◌==◌, if◌then◌else◌, Result, ok, err, enomem, other,
}
use aws_ofi_nccl.Math.{word, div_ceil, max_of, min_of}
use aws_ofi_nccl.Freelist.{Platform, Freelist, entry_alloc, entry_free}
use aws_ofi_nccl.Freelist

-- `nccl_net_ofi_xfer_info_t`
pub record XferInfo : Type 0 where
  pub rail_id : ℕ
  pub offset : ℕ
  pub msg_size : ℕ

-- `nccl_net_ofi_schedule_t`, in the freelist entry at `entry`.
pub record Schedule : Type 0 where
  pub entry : ℕ
  pub num_xfer_infos : ℕ
  pub rail_xfer_infos : List XferInfo

-- `nccl_net_ofi_threshold_scheduler_t`, without the function pointers and the lock.
pub record Scheduler : Type 0 where
  pub schedule_fl : Freelist
  pub rr_counter : ℕ
  pub min_stripe_size : ℕ

abbrev pub sizeof_schedule : ℕ → ℕ
sizeof_schedule num_rails = 8 + num_rails * 24

-- The loop of get_num_stripes from `i` down; `num_stripes` is the value before the loop.
pub find_factor : ℕ → ℕ → ℕ → ℕ
find_factor zero num_rails num_stripes = num_stripes
find_factor (suc j) num_rails num_stripes =
    let rest = find_factor j num_rails num_stripes in
    if leb (suc j) 1 then num_stripes else if num_rails % suc j == 0 then suc j else rest

pub initial_stripes : Scheduler → ℕ → ℕ → ℕ
initial_stripes s size num_rails = max_of 1 (min_of (div_ceil size s.min_stripe_size) num_rails)

pub get_num_stripes : Scheduler → ℕ → ℕ → ℕ
get_num_stripes s size num_rails =
    find_factor (initial_stripes s size num_rails) num_rails (initial_stripes s size num_rails)

-- The loop over the stripes: `left` bytes from `offset` on, the next of them for rail `rail`.
pub stripes : ℕ → ℕ → ℕ → ℕ → ℕ → ℕ → List XferInfo
stripes zero num_rails max_stripe_size rail left offset = []
stripes (suc n) num_rails max_stripe_size rail left offset =
    let stripe_size = min_of left max_stripe_size in
    record { rail_id = rail; offset = offset; msg_size = stripe_size }
    ∷ stripes n num_rails max_stripe_size ((rail + 1) % num_rails) (left - stripe_size)
        (offset + stripe_size)

pub max_stripe_of : ℕ → ℕ → ℕ → ℕ
max_stripe_of size num_stripes align = (div_ceil (div_ceil size num_stripes) align * align) % word

-- set_schedule_by_threshold, which always returns 0, into the entry at `entry`.
pub set_schedule_by_threshold : Scheduler → ℕ → ℕ → ℕ → ℕ → Schedule × Scheduler
set_schedule_by_threshold s size num_rails align entry =
    let num_stripes = get_num_stripes s size num_rails in
    (
      record {
        entry = entry;
        num_xfer_infos = num_stripes;
        rail_xfer_infos =
            stripes num_stripes num_rails (max_stripe_of size num_stripes align) s.rr_counter size
              0;
      },
      record s { rr_counter = (s.rr_counter + num_stripes) % num_rails },
    )

pub get_threshold_schedule :
    Platform → (ℕ → ℕ × ℕ) → Scheduler → ℕ → ℕ → Option Schedule × Scheduler
get_threshold_schedule pf alloc s size num_rails =
    let (got, fl) = entry_alloc pf alloc s.schedule_fl in
    elim got [
      | none ↦ (none, record s { schedule_fl = fl })
      | some entry ↦
          let (schedule, s') =
            set_schedule_by_threshold (record s { schedule_fl = fl }) size num_rails 128 entry in
          (some schedule, s')
    ]

pub release_schedule : Scheduler → Schedule → Scheduler
release_schedule s schedule = record s { schedule_fl = entry_free s.schedule_fl schedule.entry }

-- nccl_net_ofi_threshold_scheduler_init, with scheduler_init; `malloced` tells whether malloc gave
-- memory to the scheduler and to the free list, `mutex_ret` what each mutex call returned.
pub threshold_scheduler_init :
    Platform → (ℕ → ℕ × ℕ) → Bool × Bool → ℕ × ℕ → ℕ → ℕ → Result Scheduler
threshold_scheduler_init pf alloc malloced mutex_ret num_rails min_stripe_size =
    let fl = Freelist.init pf alloc malloced.1 mutex_ret.1 (sizeof_schedule num_rails) 16 16 0 in
    if not malloced.0 then err enomem else elim fl [
      | err e ↦ err e
      | ok fl ↦
          if mutex_ret.0 == 0
          then ok (record { schedule_fl = fl; rr_counter = 0; min_stripe_size = min_stripe_size })
          else err (other mutex_ret.0)
    ]

-- threshold_scheduler_fini, with scheduler_fini: the calls that give the memory back.
pub threshold_scheduler_fini : ℕ → Scheduler → Result (Unit {0}) × List Freelist.Call
threshold_scheduler_fini mutex_ret s =
    if mutex_ret == 0 then Freelist.fini s.schedule_fl else (err (other mutex_ret), [])
