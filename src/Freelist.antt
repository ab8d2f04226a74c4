-- ===== src/Freelist.antt =====
-- The free lists of nccl_ofi_freelist.h and nccl_ofi_freelist.c. Each operation holds the list's mutex.
-- Memory comes from mmap, in blocks of whole pages; an entry is the address that the user gets. The
-- hints to memory checkers have no effect on the state and are left out.
pub mod Sizes
pub mod Carve
pub mod Grow
pub mod Run
pub mod Create
mod Tests
use aws_ofi_nccl.Base.{
  ℕ, zero, suc, ◌+◌, ◌-◌, ◌*◌, ◌/◌, ◌%◌, ◌&&◌, Bool, true, false, Option, none, some, List, [], ◌∷◌,
  ltb, ◌==◌, not, if◌then◌else◌, Result, ok, err, enomem, other,
}
use aws_ofi_nccl.Math.{word, round_up, max_of}

-- `sizeof(struct nccl_ofi_freelist_elem_t)`, `sizeof(struct nccl_ofi_freelist_block_t)`, and
-- `MEMCHECK_GRANULARITY`, on a 64-bit machine.
abbrev pub sizeof_elem : ℕ
sizeof_elem = 16

abbrev pub sizeof_block : ℕ
sizeof_block = 32

abbrev pub memcheck_granularity : ℕ
memcheck_granularity = 8

-- `system_page_size` and `MEMCHECK_REDZONE_SIZE`, which the system and the build set.
pub record Platform : Type 0 where
  pub system_page_size : ℕ
  pub memcheck_redzone_size : ℕ

-- `struct nccl_ofi_freelist_block_t`; the list of blocks stands for its `next`.
pub record Block : Type 0 where
  pub memory : ℕ
  pub memory_size : ℕ
  pub mr_handle : ℕ

-- `nccl_ofi_freelist_reginfo_t` of the entry at `entry`.
pub record Reginfo : Type 0 where
  pub entry : ℕ
  pub base_offset : ℕ
  pub mr_handle : ℕ

-- `nccl_ofi_freelist_t`. `regmr_fn` has its `opaque` argument applied: from the start and the size
-- of a buffer it gives the return code and the handle. `infos` are the registration records in the
-- memory of the entries.
pub record Freelist : Type 0 where
  pub entry_size : ℕ
  pub num_allocated_entries : ℕ
  pub max_entry_count : ℕ
  pub increase_entry_count : ℕ
  pub entries : List ℕ
  pub blocks : List Block
  pub have_reginfo : Bool
  pub regmr_fn : Option (ℕ → ℕ → ℕ × ℕ)
  pub deregmr_fn : Option (ℕ → ℕ)
  pub infos : List Reginfo
  pub memcheck_redzone_size : ℕ

-- `size_t` subtraction.
abbrev pub sub_word : ℕ → ℕ → ℕ
sub_word a b = (a + word - b) % word

pub block_mem_size_full_pages : Platform → ℕ → ℕ → ℕ
block_mem_size_full_pages pf entry_size entry_count =
    round_up ((entry_size * entry_count + sizeof_block) % word) pf.system_page_size

pub page_padded_entry_count : Platform → ℕ → ℕ → ℕ
page_padded_entry_count pf entry_size entry_count =
    sub_word (block_mem_size_full_pages pf entry_size entry_count) sizeof_block / entry_size

-- The loop of nccl_ofi_freelist_add, over `n` entries from the address `buffer` on.
pub carve : ℕ → ℕ → Block → Freelist → Freelist
carve zero buffer block fl = fl
carve (suc n) buffer block fl =
    let user_entry_size = fl.entry_size - fl.memcheck_redzone_size in
    let ptr = buffer + fl.memcheck_redzone_size in
    let info : Reginfo = record {
      entry = ptr;
      base_offset = ptr - block.memory;
      mr_handle = block.mr_handle;
    } in
    carve n (ptr + user_entry_size) block (record fl {
      infos = if fl.have_reginfo then info ∷ fl.infos else fl.infos;
      entries = ptr ∷ fl.entries;
      num_allocated_entries = fl.num_allocated_entries + 1;
    })

-- How many entries a call for `n` of them makes.
unfoldable pub allocation_count_of : Freelist → ℕ → ℕ
allocation_count_of fl n =
    let room = sub_word fl.max_entry_count fl.num_allocated_entries in
    if ltb 0 fl.max_entry_count && ltb room n then room else n

-- The registration of a new block: the return code, and the handle.
pub register : Freelist → ℕ → ℕ → ℕ × ℕ
register fl buffer size = elim fl.regmr_fn [ none ↦ (0, 0) | some f ↦ f buffer size ]

-- nccl_ofi_freelist_add; `alloc` is nccl_net_ofi_alloc_mr_buffer in this call: from a size, the
-- return code and the address.
pub add : Platform → (ℕ → ℕ × ℕ) → Freelist → ℕ → Result (Unit {0}) × Freelist
add pf alloc fl num_entries =
    let allocation_count = allocation_count_of fl num_entries in
    let block_mem_size = block_mem_size_full_pages pf fl.entry_size allocation_count in
    let (ret, buffer) = alloc block_mem_size in
    let (reg_ret, handle) = register fl buffer block_mem_size in
    let block : Block = record {
      memory = buffer;
      memory_size = block_mem_size;
      mr_handle = handle;
    } in
    if allocation_count == 0
    then (err enomem, fl)
    else if not (ret == 0)
    then (err (other ret), fl)
    else if not (reg_ret == 0)
    then (err (other reg_ret), fl)
    else (ok tt, carve allocation_count buffer block (record fl { blocks = block ∷ fl.blocks }))

-- Take the first entry. The code follows the pointer without a test: it is not NULL there.
pub pop : Freelist → Option ℕ × Freelist
pop fl = elim fl.entries [
  | [] ↦ (none, fl)
  | entry ∷ rest ↦ (some entry, record fl { entries = rest })
]

pub entry_alloc : Platform → (ℕ → ℕ × ℕ) → Freelist → Option ℕ × Freelist
entry_alloc pf alloc fl = elim fl.entries [
  | [] ↦
      let (ret, grown) = add pf alloc fl fl.increase_entry_count in
      elim ret [ ok _ ↦ pop grown | err _ ↦ (none, grown) ]
  | _ ∷ _ ↦ pop fl
]

pub entry_free : Freelist → ℕ → Freelist
entry_free fl entry_p = record fl { entries = entry_p ∷ fl.entries }

-- The arguments of freelist_init_internal. `reginfo_offset` places each record in its entry.
pub record Setup : Type 0 where
  pub entry_size : ℕ
  pub initial_entry_count : ℕ
  pub increase_entry_count : ℕ
  pub max_entry_count : ℕ
  pub have_reginfo : Bool
  pub regmr_fn : Option (ℕ → ℕ → ℕ × ℕ)
  pub deregmr_fn : Option (ℕ → ℕ)
  pub entry_alignment : ℕ

-- The size of an entry with its red zone, and the size of the red zone.
pub redzone_of : Platform → Setup → ℕ
redzone_of pf s = round_up pf.memcheck_redzone_size s.entry_alignment

pub entry_size_of : Platform → Setup → ℕ
entry_size_of pf s =
    (round_up (max_of s.entry_size sizeof_elem)
        (max_of s.entry_alignment (max_of 8 memcheck_granularity))
      + redzone_of pf s)
    % word

-- freelist_init_internal; `malloced` tells whether malloc gave the list's own memory, and
-- `mutex_ret` is what the mutex call returns.
pub init_internal : Platform → (ℕ → ℕ × ℕ) → Bool → ℕ → Setup → Result Freelist
init_internal pf alloc malloced mutex_ret s =
    let entry_size = entry_size_of pf s in
    let initial = page_padded_entry_count pf entry_size s.initial_entry_count in
    let blank : Freelist = record {
      entry_size = entry_size;
      num_allocated_entries = 0;
      max_entry_count = s.max_entry_count;
      increase_entry_count = page_padded_entry_count pf entry_size s.increase_entry_count;
      entries = [];
      blocks = [];
      have_reginfo = s.have_reginfo;
      regmr_fn = s.regmr_fn;
      deregmr_fn = s.deregmr_fn;
      infos = [];
      memcheck_redzone_size = redzone_of pf s;
    } in
    let (ret, fl) = add pf alloc blank initial in
    if not malloced
    then err enomem
    else if not (mutex_ret == 0)
    then err (other mutex_ret)
    else elim ret [ err e ↦ err e | ok _ ↦ ok fl ]

-- nccl_ofi_freelist_init and nccl_ofi_freelist_init_mr
pub init : Platform → (ℕ → ℕ × ℕ) → Bool → ℕ → ℕ → ℕ → ℕ → ℕ → Result Freelist
init pf alloc malloced mutex_ret entry_size initial increase max_count =
    init_internal pf alloc malloced mutex_ret (record {
      entry_size = entry_size;
      initial_entry_count = initial;
      increase_entry_count = increase;
      max_entry_count = max_count;
      have_reginfo = false;
      regmr_fn = none;
      deregmr_fn = none;
      entry_alignment = 1;
    })

pub init_mr :
    Platform
    → (ℕ → ℕ × ℕ)
    → Bool
    → ℕ
    → ℕ
    → ℕ
    → ℕ
    → ℕ
    → (ℕ → ℕ → ℕ × ℕ)
    → (ℕ → ℕ)
    → ℕ
    → Result Freelist
init_mr pf alloc malloced mutex_ret entry_size initial increase max_count regmr deregmr alignment =
    init_internal pf alloc malloced mutex_ret (record {
      entry_size = entry_size;
      initial_entry_count = initial;
      increase_entry_count = increase;
      max_entry_count = max_count;
      have_reginfo = true;
      regmr_fn = some regmr;
      deregmr_fn = some deregmr;
      entry_alignment = alignment;
    })

-- The calls of nccl_ofi_freelist_fini, in order: it goes on when one of them fails, and returns 0.
pub data Call : Type 0 where
  deregmr : ℕ → Call
  dealloc : ℕ → ℕ → Call

pub release_blocks : Bool → List Block → List Call
release_blocks dereg [] = []
release_blocks dereg (b ∷ bs) =
    let rest = release_blocks dereg bs in
    let freed = dealloc b.memory b.memory_size ∷ rest in
    if dereg then deregmr b.mr_handle ∷ freed else freed

pub fini : Freelist → Result (Unit {0}) × List Call
fini fl = (ok tt, release_blocks (elim fl.deregmr_fn [ none ↦ false | some _ ↦ true ]) fl.blocks)
