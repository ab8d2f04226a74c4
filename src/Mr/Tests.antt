-- ===== src/Mr/Tests.antt =====
-- A cache of one entry for two pages of 4096 bytes, on which the theorems are applied.
use aws_ofi_nccl.Base.{
  ℕ, suc, ◌<◌, ◌≡◌, refl, arith, none, some, [], ◌∷◌, ok, err, enomem, true, false,
}
use aws_ofi_nccl.Mr.{
  Ckey, iovec, dmabuf, baseaddr, ckey_len, RegEntry, Cache, done, crashed, used, grow, page_addr_of,
  pages_of, covers, search, open_slot, take_slots, insert_at, lookup_entry, insert_entry, del_entry,
}
use aws_ofi_nccl.Mr.Pages.{PageSize}
use aws_ofi_nccl.Mr.Entries.{IsValid, start_of}
use aws_ofi_nccl.Mr.Lookup.{Looked, lookup_entry_lem}
use aws_ofi_nccl.Mr.Insert.{Inserted, insert_entry_lem}
use aws_ofi_nccl.Mr.Delete.{Deleted, del_entry_lem}
use aws_ofi_nccl.Mr.Failures.{lookup-insert, lookup-insert_failed, insert-insert_failed}

page-PageSize : PageSize 4096 12
page-PageSize = record { power = refl; small = omega arith; large = omega arith }

abbrev entry : RegEntry
entry = record { addr = 16384; pages = 2; refcnt = 1; handle = 7 }

abbrev cache_of : ℕ → Cache
cache_of size = record {
  slots = some entry ∷ [];
  allocated = size;
  system_page_size = 4096;
  size = size;
  hit_count = 0;
  miss_count = 0;
}

cache-IsValid : (size : ℕ) → 0 < size → IsValid 12 (cache_of size) (entry ∷ [])
cache-IsValid size h = record {
  slots_at = refl;
  page = page-PageSize;
  sorted = (tt, tt);
  sane = ((refl, omega arith), tt);
  room = omega arith;
  backed = omega arith;
  some_room = h;
}

-- A key inside the entry, and one on the page in front of it.
abbrev inside : Ckey
inside = iovec 20000 1000

abbrev in_front : Ckey
in_front = dmabuf 3 100 1000 8192

in_front_at : (baseaddr in_front ≡ 8292) × (ckey_len in_front ≡ 1000)
unfolding baseaddr ckey_len
in_front_at = (refl, refl)

lookup_entry_lem_example :
    Looked 12 (cache_of 2) (entry ∷ []) inside (lookup_entry (cache_of 2) inside)
unfolding baseaddr ckey_len
lookup_entry_lem_example =
    lookup_entry_lem 12 (cache_of 2) (entry ∷ []) inside (cache-IsValid 2 (omega arith))
      (omega arith)

insert_entry_lem_example :
    Inserted 12
      (cache_of 1)
      (entry ∷ [])
      in_front
      9
      true
      true
      (insert_entry true true (cache_of 1) in_front 9)
unfolding baseaddr ckey_len
insert_entry_lem_example =
    insert_entry_lem 12 (cache_of 1) (entry ∷ []) (cache-IsValid 1 (omega arith)) in_front 9 true
      true (omega arith) (omega arith)

del_entry_lem_example : Deleted 12 (cache_of 2) (entry ∷ []) 7 (del_entry (cache_of 2) 7)
del_entry_lem_example =
    del_entry_lem 12 (cache_of 2) (entry ∷ []) 7 (cache-IsValid 2 (omega arith)) (omega arith)

abbrev front_entry : RegEntry
front_entry = record { addr = 8192; pages = 1; refcnt = 1; handle = 9 }

-- The cache after the insertion of the key in front, with memory and without.
abbrev two_entries : Cache
two_entries = record (cache_of 2) { slots = some front_entry ∷ some entry ∷ [] }

abbrev broken : Cache
broken = record (cache_of 2) { slots = none ∷ [] }

inserts : insert_entry true true (cache_of 2) in_front 9 ≡ done (ok tt, two_entries)
unfolding insert_entry baseaddr ckey_len page_addr_of pages_of search covers insert_at open_slot
inserts = refl

insert_fails : insert_entry true false (cache_of 2) in_front 9 ≡ done (err enomem, broken)
unfolding insert_entry baseaddr ckey_len page_addr_of pages_of search covers insert_at open_slot
    take_slots
insert_fails = refl

lookup-insert_example :
    (cache'' : Cache) × (lookup_entry two_entries in_front ≡ done (some 9, cache''))
unfolding baseaddr ckey_len
lookup-insert_example =
    lookup-insert 12 (cache_of 2) (entry ∷ []) in_front 9 true true two_entries
      (cache-IsValid 2 (omega arith)) (omega arith) (omega arith) inserts

start_at : start_of 4096 in_front ≡ 8192
unfolding page_addr_of baseaddr
start_at = refl

lookup-insert_failed_example : lookup_entry broken in_front ≡ crashed
unfolding baseaddr ckey_len
lookup-insert_failed_example =
    lookup-insert_failed 12 (cache_of 2) (entry ∷ []) in_front 9 true false broken
      (cache-IsValid 2 (omega arith)) (omega arith) (omega arith) (omega arith)
      (λ h. omega (arith, h.0, start_at)) insert_fails

-- A full cache whose array could not grow.
abbrev overstated : Cache
overstated = record (cache_of 1) { size = 2 }

cannot_grow : insert_entry false true (cache_of 1) in_front 9 ≡ done (err enomem, overstated)
unfolding insert_entry grow baseaddr ckey_len page_addr_of pages_of search covers
cannot_grow = refl

insert-insert_failed_example :
    (cache'' : Cache) × (insert_entry false true overstated in_front 9 ≡ done (ok tt, cache''))
    × (used cache'' ≡ suc cache''.allocated)
unfolding baseaddr ckey_len
insert-insert_failed_example =
    insert-insert_failed 12 (cache_of 1) (entry ∷ []) in_front 9 true false overstated
      (cache-IsValid 1 (omega arith)) (omega arith) (omega arith) refl refl cannot_grow
