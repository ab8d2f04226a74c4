-- ===== src/EpAddrList.antt =====
-- The list of endpoints of nccl_ofi_ep_addr_list.c, each with the set of addresses it is connected to.
-- The hash table of uthash is an interface; each call holds the list's mutex. Endpoints are
-- numbers, and an address is a list of bytes.
pub mod Sets
pub mod Get
pub mod Laws
mod Tests
use aws_ofi_nccl.Base.{
  ◌≡◌, ℕ, zero, suc, ◌+◌, ◌-◌, Bool, true, false, not, ◌&&◌, Option, none, some, List, [], ◌∷◌,
  ◌++◌, ltb, ◌==◌, if◌then◌else◌, length, replicate, Result, ok, err, enomem, einval, enoent,
}

-- memcmp of two addresses.
unfoldable pub same_addr : List ℕ → List ℕ → Bool
same_addr [] [] = true
same_addr [] (y ∷ ys) = false
same_addr (x ∷ xs) [] = false
same_addr (x ∷ xs) (y ∷ ys) = (x == y) && same_addr xs ys

-- What the code uses of uthash: the empty set, HASH_FIND and HASH_ADD, and what each finds.
pub record HashTable : Type 1 where
  pub Table : Type 0
  pub empty : Table
  pub find : Table → List ℕ → Bool
  pub add : List ℕ → Table → Table
  pub find_empty : (a : List ℕ) → find empty a ≡ false
  pub find_add :
      (a b : List ℕ) (set : Table)
      → find (add a set) b ≡ (if same_addr a b then true else find set b)

-- `ep_pair_list_elem_t`
pub record EpPair (t : HashTable) : Type 0 where
  pub ep : ℕ
  pub addr_set : t.Table

-- `nccl_ofi_ep_addr_list_t`
pub record EpAddrList (t : HashTable) : Type 0 where
  pub ep_pair_list : List (EpPair t)
  pub max_addr_size : ℕ

-- `calloced` tells whether calloc gave memory; `mutex_ret` is what the mutex call returned.
pub init : (t : HashTable) → Bool → ℕ → ℕ → Option (EpAddrList t)
init t calloced mutex_ret max_addr_size =
    if not calloced
    then none
    else if mutex_ret == 0
    then some (record { ep_pair_list = []; max_addr_size = max_addr_size })
    else none

-- The copy of the address, with zeros up to the maximum size.
unfoldable pub zero_pad_address : ℕ → List ℕ → List ℕ
zero_pad_address max_addr_size addr = addr ++ replicate (max_addr_size - length addr) 0

module _ {t : HashTable} where
  -- The loop of get over the pairs: the endpoint, and the pairs after it. `malloced` tells whether
  -- malloc gives memory for the address.
  pub get_pair : Bool → List ℕ → List (EpPair t) → Result (Option ℕ) × List (EpPair t)
  get_pair malloced addr [] = (ok none, [])
  get_pair malloced addr (p ∷ ps) =
      let (ret, rest) = get_pair malloced addr ps in
      if t.find p.addr_set addr
      then (ret, p ∷ rest)
      else if malloced
      then (ok (some p.ep), record p { addr_set = t.add addr p.addr_set } ∷ ps)
      else (err enomem, p ∷ ps)

  -- The result `ok none` is a return of 0 with the endpoint NULL.
  pub get : Bool → (EpAddrList t) → List ℕ → Result (Option ℕ) × (EpAddrList t)
  get malloced l addr_in =
      let (ret, pairs) =
        get_pair malloced (zero_pad_address l.max_addr_size addr_in) l.ep_pair_list in
      if ltb l.max_addr_size (length addr_in)
      then (err einval, l)
      else (ret, record l { ep_pair_list = pairs })

  -- `malloced` tells whether malloc gave memory for the address and for the pair.
  pub insert : Bool × Bool → (EpAddrList t) → ℕ → List ℕ → Result (Unit {0}) × (EpAddrList t)
  insert malloced l ep addr_in =
      let pair : (EpPair t) = record {
        ep = ep;
        addr_set = t.add (zero_pad_address l.max_addr_size addr_in) t.empty;
      } in
      if ltb l.max_addr_size (length addr_in)
      then (err einval, l)
      else if not malloced.0
      then (err enomem, l)
      else if not malloced.1
      then (err enomem, l)
      else (ok tt, record l { ep_pair_list = l.ep_pair_list ++ pair ∷ [] })

  -- The loop of delete: the pairs without the first one of the endpoint, if there is one.
  pub delete_pair : ℕ → List (EpPair t) → Option (List (EpPair t))
  delete_pair ep [] = none
  delete_pair ep (p ∷ ps) =
      let rest = delete_pair ep ps in
      if p.ep == ep then some ps else elim rest [ none ↦ none | some qs ↦ some (p ∷ qs) ]

  pub delete : (EpAddrList t) → ℕ → Result (Unit {0}) × (EpAddrList t)
  delete l ep = elim (delete_pair ep l.ep_pair_list) [
    | none ↦ (err enoent, l)
    | some pairs ↦ (ok tt, record l { ep_pair_list = pairs })
  ]
