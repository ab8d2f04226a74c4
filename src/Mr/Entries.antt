-- ===== src/Mr/Entries.antt =====
-- The entries of a cache in order, with one of them changed, taken out or put in; the invariant.
use aws_ofi_nccl.Base.{
  ℕ, suc, ◌+◌, ◌*◌, ◌≤◌, ◌<◌, ◌≡◌, refl, ap, arith, List, [], ◌∷◌, ◌++◌, length, All, All-map,
}
use aws_ofi_nccl.Math.{word}
use aws_ofi_nccl.Mr.{Ckey, baseaddr, ckey_len, RegEntry, Cache, page_addr_of, pages_of}
use aws_ofi_nccl.Mr.Pages.{PageSize}
use aws_ofi_nccl.Mr.Loop.{slots_of, Sorted, Sane}

-- The cache holds the entries `es` in the order of their addresses, each with a user, within the
-- memory of the array. Pages have `2 ^ k` bytes.
pub record IsValid (k : ℕ) (cache : Cache) (es : List RegEntry) : Type 0 where
  pub slots_at : cache.slots ≡ slots_of es
  pub page : PageSize cache.system_page_size k
  pub sorted : Sorted es
  pub sane : All (Sane cache.system_page_size) es
  pub room : length es ≤ cache.size
  pub backed : cache.size ≤ cache.allocated
  pub some_room : 0 < cache.size

-- The start and the number of the pages of a key, and the entries that cover them.
abbrev pub start_of : ℕ → Ckey → ℕ
start_of ps ckey = page_addr_of (baseaddr ckey) ps

abbrev pub count_of : ℕ → Ckey → ℕ
count_of ps ckey = pages_of (baseaddr ckey) (ckey_len ckey) ps

abbrev pub Serves : ℕ → Ckey → RegEntry → Type 0
Serves ps ckey e =
    (e.addr ≤ start_of ps ckey) × (start_of ps ckey + count_of ps ckey * ps ≤ e.addr + e.pages * ps)

-- The buffer of the key ends a page before the end of memory.
abbrev pub InMemory : ℕ → Ckey → Type 0
InMemory ps ckey = baseaddr ckey + ckey_len ckey + ps ≤ word

-- One entry changes, not in its address and its pages.
pub replace-Sorted :
    (before : List RegEntry) (e f : RegEntry) (after : List RegEntry)
    → f.addr ≡ e.addr
    → Sorted (before ++ e ∷ after)
    → Sorted (before ++ f ∷ after)
replace-Sorted [] e f after q s = (All-map (λ x l. omega arith) after s.0, s.1)
replace-Sorted (b ∷ before) e f after q s =
    (swap_all before s.0, replace-Sorted before e f after q s.1)
  where
    swap_all :
        (before : List RegEntry)
        → All (λ x. b.addr ≤ x.addr) (before ++ e ∷ after)
        → All (λ x. b.addr ≤ x.addr) (before ++ f ∷ after)
    swap_all [] h = (omega (arith, h.0), h.1)
    swap_all (x ∷ before) h = (h.0, swap_all before h.1)

pub replace-All :
    (P : RegEntry → Type 0) (before : List RegEntry) (e f : RegEntry) (after : List RegEntry)
    → P f
    → All P (before ++ e ∷ after)
    → All P (before ++ f ∷ after)
replace-All P [] e f after p h = (p, h.1)
replace-All P (b ∷ before) e f after p h = (h.0, replace-All P before e f after p h.1)

pub All-middle :
    (P : RegEntry → Type 0) (before : List RegEntry) (e : RegEntry) (after : List RegEntry)
    → All P (before ++ e ∷ after)
    → P e
All-middle P [] e after h = h.0
All-middle P (b ∷ before) e after h = All-middle P before e after h.1

pub drop-All :
    (P : RegEntry → Type 0) (before : List RegEntry) (e : RegEntry) (after : List RegEntry)
    → All P (before ++ e ∷ after)
    → All P (before ++ after)
drop-All P [] e after h = h.1
drop-All P (b ∷ before) e after h = (h.0, drop-All P before e after h.1)

pub drop-Sorted :
    (before : List RegEntry) (e : RegEntry) (after : List RegEntry)
    → Sorted (before ++ e ∷ after)
    → Sorted (before ++ after)
drop-Sorted [] e after s = s.1
drop-Sorted (b ∷ before) e after s =
    (drop-All (λ x. b.addr ≤ x.addr) before e after s.0, drop-Sorted before e after s.1)

pub add-All :
    (P : RegEntry → Type 0) (before : List RegEntry) (e : RegEntry) (after : List RegEntry)
    → P e
    → All P (before ++ after)
    → All P (before ++ e ∷ after)
add-All P [] e after p h = (p, h)
add-All P (b ∷ before) e after p h = (h.0, add-All P before e after p h.1)

pub add-Sorted :
    (before : List RegEntry) (e : RegEntry) (after : List RegEntry)
    → All (λ x. x.addr ≤ e.addr) before
    → All (λ x. e.addr < x.addr) after
    → Sorted (before ++ after)
    → Sorted (before ++ e ∷ after)
add-Sorted [] e after lo hi s = (All-map (λ x l. omega arith) after hi, s)
add-Sorted (b ∷ before) e after lo hi s =
    (add-All (λ x. b.addr ≤ x.addr) before e after lo.0 s.0, add-Sorted before e after lo.1 hi s.1)

pub length-middle :
    (before : List RegEntry) (e : RegEntry) (after : List RegEntry)
    → length (before ++ e ∷ after) ≡ suc (length (before ++ after))
length-middle [] e after = refl
length-middle (b ∷ before) e after = ap suc (length-middle before e after)

pub length-slots_of : (es : List RegEntry) → length (slots_of es) ≡ length es
length-slots_of [] = refl
length-slots_of (e ∷ es) = ap suc (length-slots_of es)
