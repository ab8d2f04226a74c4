-- ===== src/EpAddrList/Tests.antt =====
-- Two endpoints and addresses of at most four bytes, on which the theorems are applied.
use aws_ofi_nccl.Base.{
  ℕ, ◌≤◌, ◌<◌, ◌≡◌, ◌≢◌, refl, ◌⊎◌, inl, inr, ◌↔◌, arith, List, [], ◌∷◌, true, false, Bool,
  if◌then◌else◌, some, ok, err, einval, enoent,
}
use aws_ofi_nccl.EpAddrList.{
  EpAddrList, same_addr, HashTable, zero_pad_address, get_pair, get, delete,
}
use aws_ofi_nccl.EpAddrList.Sets.{Connected, Listed, Once}
use aws_ofi_nccl.EpAddrList.Get.{Got, get_lem}
use aws_ofi_nccl.EpAddrList.Laws.{delete_lem}

-- A hash table as a list.
abbrev hash_find : List (List ℕ) → List ℕ → Bool
hash_find [] addr = false
hash_find (a ∷ set) addr = if same_addr a addr then true else hash_find set addr

abbrev table : HashTable
table = record {
  Table = List (List ℕ);
  empty = [];
  find = hash_find;
  add = λ a set. a ∷ set;
  find_empty = λ a. refl;
  find_add = λ a b set. refl;
}

-- Endpoint 1 is connected to the address 5, 6, and endpoint 2 to the address 7.
abbrev two : EpAddrList table
two = record {
  ep_pair_list =
      record { ep = 1; addr_set = (5 ∷ 6 ∷ 0 ∷ 0 ∷ []) ∷ [] }
      ∷ record { ep = 2; addr_set = (7 ∷ 0 ∷ 0 ∷ 0 ∷ []) ∷ [] }
      ∷ [];
  max_addr_size = 4;
}

two-Once : Once two.ep_pair_list
unfolding Once Listed
two-Once = ((λ l. elim l [ inl q ↦ omega arith | inr c ↦ c ]), ((λ l. l), tt))

gives_second : (get true two (5 ∷ 6 ∷ [])).0 ≡ ok (some 2)
unfolding get get_pair zero_pad_address same_addr
gives_second = refl

get_lem_example :
    let (r, l') = get true two (5 ∷ 6 ∷ []) in
    (4 < 2 → (r ≡ err einval) × (l' ≡ two))
    × (2 ≤ 4 → Got true (zero_pad_address 4 (5 ∷ 6 ∷ [])) two.ep_pair_list r l'.ep_pair_list)
    × (l'.max_addr_size ≡ 4)
get_lem_example = get_lem true two (5 ∷ 6 ∷ []) two-Once

delete_lem_example :
    let (r, l') = delete two 1 in
    ((r ≡ err enoent) × (l' ≡ two) × ¬ Listed 1 two.ep_pair_list)
    ⊎ ((r ≡ ok tt)
        × Listed 1 two.ep_pair_list
        × ¬ Listed 1 l'.ep_pair_list
        × Once l'.ep_pair_list
        × ((e : ℕ) (a : List ℕ)
            → 1 ≢ e
            → Connected e a l'.ep_pair_list ↔ Connected e a two.ep_pair_list))
delete_lem_example = delete_lem two 1 two-Once
