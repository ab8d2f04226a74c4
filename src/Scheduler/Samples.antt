-- ===== src/Scheduler/Samples.antt =====
-- A free list with one schedule in an entry of 64 bytes, for the tests.
use aws_ofi_nccl.Base.{ℕ, refl, [], ◌∷◌, arith, false, none, inl}
use aws_ofi_nccl.Freelist.{Platform, Freelist, allocation_count_of}
use aws_ofi_nccl.Freelist.Carve.{Sound}
use aws_ofi_nccl.Freelist.Grow.{Growable}
use aws_ofi_nccl.Scheduler.{Scheduler}

-- A free list with one free entry of 64 bytes.
abbrev pub one_free : Freelist
one_free = record {
  entry_size = 64;
  num_allocated_entries = 1;
  max_entry_count = 1;
  increase_entry_count = 1;
  entries = 4096 ∷ [];
  blocks = record { memory = 4096; memory_size = 4096; mr_handle = 0 } ∷ [];
  have_reginfo = false;
  regmr_fn = none;
  deregmr_fn = none;
  infos = [];
  memcheck_redzone_size = 0;
}

pub one_free-Sound : Sound 64 0 one_free []
one_free-Sound = record {
  size_at = refl;
  redzone_at = refl;
  user = omega arith;
  free_spread = (tt, tt);
  live_spread = tt;
  between = (tt, tt);
  free_home = (inl (omega arith, omega arith), tt);
  live_home = tt;
  counted = refl;
  bounded = λ h. omega arith;
}

abbrev pub page : Platform
page = record { system_page_size = 4096; memcheck_redzone_size = 0 }

abbrev pub no_mmap : ℕ → ℕ × ℕ
no_mmap size = (12, 0)

pub one_free-Growable : Growable page 12 64 no_mmap one_free 1
unfolding allocation_count_of
one_free-Growable = record {
  limit = omega arith;
  fits = record { page = refl; page_size = omega arith; room = omega arith };
  mapped = λ h. absurd (omega arith);
}

abbrev pub scheduler : Scheduler
scheduler = record { schedule_fl = one_free; rr_counter = 3; min_stripe_size = 4096 }
