-- ===== src/Freelist/Tests.antt =====
-- A free list of four entries of 1000 bytes in one page, on which the theorems are applied.
use aws_ofi_nccl.Base.{ℕ, ◌≡◌, refl, inr, [], ◌∷◌, arith, true, false, none, some, ok}
use aws_ofi_nccl.Math.{round_up, round_down, max_of}
use aws_ofi_nccl.Freelist.{
  Platform, Freelist, Setup, block_mem_size_full_pages, page_padded_entry_count,
  allocation_count_of, redzone_of, entry_size_of, add, pop, carve, register, entry_alloc,
  init_internal,
}
use aws_ofi_nccl.Freelist.Sizes.{Fits}
use aws_ofi_nccl.Freelist.Carve.{Sound}
use aws_ofi_nccl.Freelist.Grow.{Growable, add_lem}
use aws_ofi_nccl.Freelist.Run.{Run, started, taken, Run-Sound}
use aws_ofi_nccl.Freelist.Create.{empty, Sized, Made, init_internal_lem}

abbrev page : Platform
page = record { system_page_size = 4096; memcheck_redzone_size = 0 }

abbrev setup : Setup
setup = record {
  entry_size = 1000;
  initial_entry_count = 3;
  increase_entry_count = 1;
  max_entry_count = 6;
  have_reginfo = false;
  regmr_fn = none;
  deregmr_fn = none;
  entry_alignment = 1;
}

abbrev mmap : ℕ → ℕ × ℕ
mmap size = (0, 65536)

setup_sizes : (entry_size_of page setup ≡ 1000) × (redzone_of page setup ≡ 0)
unfolding entry_size_of redzone_of round_up round_down max_of
setup_sizes = (refl, refl)

setup-Sized : Sized page setup 0
unfolding redzone_of round_up round_down
setup-Sized = record { alignment = refl; alignment_size = omega arith; room = omega arith }

four_fit : page_padded_entry_count page 1000 3 ≡ 4
unfolding page_padded_entry_count block_mem_size_full_pages round_up round_down
four_fit = refl

three-Fits : Fits page 12 1000 3
three-Fits = record { page = refl; page_size = omega arith; room = omega arith }

-- A list before its first block, and after it.
abbrev bare : Freelist
bare = record {
  entry_size = 1000;
  num_allocated_entries = 0;
  max_entry_count = 6;
  increase_entry_count = 4;
  entries = [];
  blocks = [];
  have_reginfo = false;
  regmr_fn = none;
  deregmr_fn = none;
  infos = [];
  memcheck_redzone_size = 0;
}

bare-Sound : Sound 1000 0 bare []
bare-Sound = record {
  size_at = refl;
  redzone_at = refl;
  user = omega arith;
  free_spread = tt;
  live_spread = tt;
  between = tt;
  free_home = tt;
  live_home = tt;
  counted = refl;
  bounded = λ h. omega arith;
}

bare-Growable : Growable page 12 1000 mmap bare 4
unfolding allocation_count_of
bare-Growable = record {
  limit = omega arith;
  fits = record { page = refl; page_size = omega arith; room = omega arith };
  mapped = λ h. tt;
}

abbrev stocked : Freelist
stocked = record bare {
  num_allocated_entries = 4;
  entries = 68536 ∷ 67536 ∷ 66536 ∷ 65536 ∷ [];
  blocks = record { memory = 65536; memory_size = 4096; mr_handle = 0 } ∷ [];
}

stocked_at : add page mmap bare 4 ≡ (ok tt, stocked)
unfolding add allocation_count_of block_mem_size_full_pages round_up round_down carve register
stocked_at = refl

stocked-Sound : Sound 1000 0 stocked []
stocked-Sound =
    rw stocked_at at ((add_lem page 12 1000 0 mmap bare [] bare-Sound 4 bare-Growable).0)

-- The next block starts at another address.
abbrev mmap_next : ℕ → ℕ × ℕ
mmap_next size = (0, 131072)

stocked-Growable : Growable page 12 1000 mmap_next stocked 4
unfolding allocation_count_of block_mem_size_full_pages round_up round_down
stocked-Growable = record {
  limit = omega arith;
  fits = record { page = refl; page_size = omega arith; room = omega arith };
  mapped = λ h. (inr (omega arith), tt);
}

abbrev one_out : Freelist
one_out = record stocked { entries = 67536 ∷ 66536 ∷ 65536 ∷ [] }

takes_newest : entry_alloc page mmap_next stocked ≡ (some 68536, one_out)
unfolding entry_alloc pop
takes_newest = refl

abbrev one_out_run : Run page 12 1000 stocked one_out (68536 ∷ [])
one_out_run = taken mmap_next started stocked-Growable takes_newest

Run-Sound_example : Sound 1000 0 one_out (68536 ∷ [])
Run-Sound_example = Run-Sound stocked-Sound one_out_run

one_out-Sound : Sound 1000 0 one_out (68536 ∷ [])
one_out-Sound = Run-Sound stocked-Sound one_out_run

setup-Growable : Growable page 12 (entry_size_of page setup) mmap (empty page setup) 4
unfolding allocation_count_of
setup-Growable = record {
  limit = omega arith;
  fits = record { page = refl; page_size = omega arith; room = rw (setup_sizes.0) (omega arith) };
  mapped = λ h. tt;
}

init_internal_lem_example : Made page setup true 0 (init_internal page mmap true 0 setup)
unfolding page_padded_entry_count block_mem_size_full_pages round_up round_down entry_size_of
    redzone_of max_of
init_internal_lem_example = init_internal_lem page mmap 0 setup 12 0 setup-Sized setup-Growable true
