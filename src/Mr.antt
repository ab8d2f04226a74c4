-- ===== src/Mr.antt =====
-- The cache of memory registrations of nccl_ofi_mr.h and nccl_ofi_mr.c. Counts of users stay far
-- below 2 ^ 31. A slot holds a pointer to an entry; a NULL pointer that is followed is a crash.
pub mod Pages
pub mod Loop
pub mod Entries
pub mod Lookup
pub mod Delete
pub mod Insert
pub mod Failures
mod Tests
use aws_ofi_nccl.Base.{
  ℕ, zero, suc, ◌+◌, ◌-◌, ◌*◌, ◌/◌, ◌%◌, ◌^◌, bit_and, Bool, true, false, not, Option, none, some,
  List, [], ◌∷◌, ltb, leb, ◌==◌, if◌then◌else◌, length, get_or, set, Result, ok, err, enomem,
  enoent, eexist, to_int,
}
use aws_ofi_nccl.Math.{word}

-- `nccl_ofi_mr_ckey_t`: the union with its type; the invalid type is not a key.
pub data Ckey : Type 0 where
  iovec : (iov_base iov_len : ℕ) → Ckey
  dmabuf : (fd offset len base_addr : ℕ) → Ckey

pub baseaddr : Ckey → ℕ
baseaddr (iovec iov_base iov_len) = iov_base
baseaddr (dmabuf fd offset len base_addr) = (base_addr + offset) % word

pub ckey_len : Ckey → ℕ
ckey_len (iovec iov_base iov_len) = iov_len
ckey_len (dmabuf fd offset len base_addr) = len

-- `nccl_ofi_reg_entry_t`
pub record RegEntry : Type 0 where
  pub addr : ℕ
  pub pages : ℕ
  pub refcnt : ℕ
  pub handle : ℕ

-- `nccl_ofi_mr_cache_t`. `slots` are the slots in use, so that `used` is their number; the code
-- reads no other slot. `allocated` is the number of slots that the memory of the array has.
pub record Cache : Type 0 where
  pub slots : List (Option RegEntry)
  pub allocated : ℕ
  pub system_page_size : ℕ
  pub size : ℕ
  pub hit_count : ℕ
  pub miss_count : ℕ

abbrev pub used : Cache → ℕ
used cache = length cache.slots

-- A call returns, or it follows a NULL pointer.
pub data Run {ℓ} (A : Type ℓ) : Type ℓ where
  done : A → Run A
  crashed : Run A

-- `calloced` tells whether the two calls of calloc gave memory.
pub init : Bool × Bool → ℕ → ℕ → ℕ → Option Cache
init calloced mutex_ret init_num_entries system_page_size =
    if init_num_entries == 0
    then none
    else if system_page_size == 0
    then none
    else if not calloced.0
    then none
    else if not calloced.1
    then none
    else if not (mutex_ret == 0)
    then none
    else some (record {
      slots = [];
      allocated = init_num_entries;
      system_page_size = system_page_size;
      size = init_num_entries;
      hit_count = 0;
      miss_count = 0;
    })

-- nccl_ofi_mr_cache_grow; `realloced` tells whether realloc gave memory.
pub grow : Bool → Cache → Result (Unit {0}) × Cache
grow realloced cache =
    let size = (cache.size * 2) % word in
    if realloced
    then (ok tt, record cache { size = size; allocated = size })
    else (err enomem, record cache { size = size })

-- compute_page_address: the start of the first page, and the number of pages.
unfoldable pub page_addr_of : ℕ → ℕ → ℕ
page_addr_of addr system_page_size = bit_and addr ((word - system_page_size) % word)

unfoldable pub pages_of : ℕ → ℕ → ℕ → ℕ
pages_of addr size system_page_size =
    ((addr + size + word - page_addr_of addr system_page_size + system_page_size - 1) % word)
    / system_page_size

-- The test of the two loops for an entry that covers the pages.
pub covers : ℕ → ℕ → ℕ → RegEntry → Bool
covers system_page_size page_addr pages e =
    leb (((page_addr - e.addr) / system_page_size + pages) % word) e.pages

pub data Search : Type 0 where
  missed hit : ℕ → Search
  null : Search

-- The loop of lookup and of insert, from slot number `slot` on: where it stops.
pub search : ℕ → ℕ → ℕ → ℕ → List (Option RegEntry) → Search
search system_page_size page_addr pages slot [] = missed slot
search system_page_size page_addr pages slot (none ∷ rest) = null
search system_page_size page_addr pages slot (some e ∷ rest) =
    let next = search system_page_size page_addr pages (slot + 1) rest in
    if ltb page_addr e.addr
    then missed slot
    else if covers system_page_size page_addr pages e
    then hit slot
    else next

abbrev pub search_key : Cache → Ckey → Search
search_key cache ckey =
    let page_addr = page_addr_of (baseaddr ckey) cache.system_page_size in
    let pages = pages_of (baseaddr ckey) (ckey_len ckey) cache.system_page_size in
    search cache.system_page_size page_addr pages 0 cache.slots

-- Apply a change to the entry in a slot, and read it after.
pub update :
    (RegEntry → RegEntry) → List (Option RegEntry) → ℕ → Option RegEntry × List (Option RegEntry)
update f [] slot = (none, [])
update f (none ∷ rest) zero = (none, none ∷ rest)
update f (some e ∷ rest) zero = (some (f e), some (f e) ∷ rest)
update f (e ∷ rest) (suc slot) = let (found, rest') = update f rest slot in (found, e ∷ rest')

pub lookup_entry : Cache → Ckey → Run (Option ℕ × Cache)
lookup_entry cache ckey = elim (search_key cache ckey) [
  | missed slot ↦ done (none, record cache { miss_count = (cache.miss_count + 1) % 2 ^ 32 })
  | hit slot ↦
      let (found, slots) = update (λ e. record e { refcnt = e.refcnt + 1 }) cache.slots slot in
      elim found [
        | none ↦ crashed
        | some e ↦ done (
          some e.handle,
          record cache { slots = slots; hit_count = (cache.hit_count + 1) % 2 ^ 32 },
        )
      ]
  | null ↦ crashed
]

-- memmove by one slot to the right, and the pointer stored in the gap.
pub open_slot : Option RegEntry → ℕ → List (Option RegEntry) → List (Option RegEntry)
open_slot v zero slots = v ∷ slots
open_slot v (suc n) [] = v ∷ []
open_slot v (suc n) (e ∷ slots) = e ∷ open_slot v n slots

-- The first `n` slots.
pub take_slots : ℕ → List (Option RegEntry) → List (Option RegEntry)
take_slots zero slots = []
take_slots (suc n) [] = []
take_slots (suc n) (e ∷ slots) = e ∷ take_slots n slots

-- The insertion at a slot, when there is room: `calloced` tells whether calloc gave an entry. When
-- it did not, the slots have moved, one of them is NULL, and `used` is as before.
pub insert_at : Bool → Cache → ℕ → RegEntry → Result (Unit {0}) × Cache
insert_at calloced cache slot entry =
    if calloced
    then (ok tt, record cache { slots = open_slot (some entry) slot cache.slots })
    else (
      err enomem,
      record cache { slots = take_slots (used cache) (open_slot none slot cache.slots) },
    )

pub insert_entry : Bool → Bool → Cache → Ckey → ℕ → Run (Result (Unit {0}) × Cache)
insert_entry realloced calloced cache ckey handle =
    let entry : RegEntry = record {
      addr = page_addr_of (baseaddr ckey) cache.system_page_size;
      pages = pages_of (baseaddr ckey) (ckey_len ckey) cache.system_page_size;
      refcnt = 1;
      handle = handle;
    } in
    let (ret, grown) =
      (if used cache == cache.size then grow realloced cache else (ok tt, cache)) in
    elim (search_key cache ckey) [
      | missed slot ↦ elim ret [
        | err e ↦ done (err e, grown)
        | ok _ ↦ done (insert_at calloced grown slot entry)
      ]
      | hit slot ↦ done (err eexist, cache)
      | null ↦ crashed
    ]

-- The loop of nccl_ofi_mr_cache_lookup_handle: the slot of the first entry with a handle.
pub find_handle : ℕ → List (Option RegEntry) → Run (Option ℕ)
find_handle handle [] = done none
find_handle handle (none ∷ rest) = crashed
find_handle handle (some e ∷ rest) =
    let next = find_handle handle rest in
    if handle == e.handle then done (some 0) else elim next [
      | crashed ↦ crashed
      | done none ↦ done none
      | done (some i) ↦ done (some (suc i))
    ]

-- nccl_ofi_mr_cache_lookup_handle: the slot as an `int`, or `none` for a negative one, which is also the
-- result without such an entry.
pub lookup_handle : ℕ → List (Option RegEntry) → Run (Option ℕ)
lookup_handle handle slots = elim (find_handle handle slots) [
  | crashed ↦ crashed
  | done none ↦ done none
  | done (some i) ↦ elim (to_int i) [ ok slot ↦ done (some slot) | err _ ↦ done none ]
]

-- memmove by one slot to the left.
pub close_slot : ℕ → List (Option RegEntry) → List (Option RegEntry)
close_slot n [] = []
close_slot zero (e ∷ slots) = slots
close_slot (suc n) (e ∷ slots) = e ∷ close_slot n slots

-- nccl_ofi_mr_cache_del_entry: it returns 1 when the entry is gone, and 0 when it still has users.
pub del_entry : Cache → ℕ → Run (Result ℕ × Cache)
del_entry cache handle = elim (lookup_handle handle cache.slots) [
  | crashed ↦ crashed
  | done none ↦ done (err enoent, cache)
  | done (some slot) ↦
      let (found, slots) = update (λ e. record e { refcnt = e.refcnt - 1 }) cache.slots slot in
      elim found [
        | none ↦ crashed
        | some e ↦
            if e.refcnt == 0
            then done (ok 1, record cache { slots = close_slot slot slots })
            else done (ok 0, record cache { slots = slots })
      ]
]
