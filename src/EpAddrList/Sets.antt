-- ===== src/EpAddrList/Sets.antt =====
-- Membership in the sets of addresses.
use native.Mathlib.Decide.{ℕ_discrete}
use aws_ofi_nccl.Base.{ℕ, ◌≡◌, refl, ◌⊎◌, inl, inr, arith, List, [], ◌∷◌, true}
use aws_ofi_nccl.EpAddrList.{HashTable, EpPair, same_addr}

pub same_addr_self : (a : List ℕ) → same_addr a a ≡ true
unfolding same_addr
same_addr_self [] = refl
same_addr_self (x ∷ xs) = ground (arith, same_addr_self xs)

pub same_addr_sound : (a b : List ℕ) → same_addr a b ≡ true → a ≡ b
unfolding same_addr
same_addr_sound [] [] h = refl
same_addr_sound [] (y ∷ ys) h = absurd (cc)
same_addr_sound (x ∷ xs) [] h = absurd (cc)
same_addr_sound (x ∷ xs) (y ∷ ys) h = elim (ℕ_discrete x y) [
  | yes e ↦
      let rest : same_addr xs ys ≡ true = ground (arith, e) in
      let tail = same_addr_sound xs ys rest in cc
  | no e ↦ absurd (ground (arith, e))
]

module _ {t : HashTable} where
  -- The endpoint is connected to the address: one of its pairs has it.
  unfoldable pub Connected : ℕ → List ℕ → List (EpPair t) → Type 0
  Connected ep addr [] = ⊥
  Connected ep addr (p ∷ ps) =
      ((p.ep ≡ ep) × (t.find p.addr_set addr ≡ true)) ⊎ Connected ep addr ps

  -- The endpoint is in the list.
  unfoldable pub Listed : ℕ → List (EpPair t) → Type 0
  Listed ep [] = ⊥
  Listed ep (p ∷ ps) = (p.ep ≡ ep) ⊎ Listed ep ps

  -- Each endpoint is in the list once.
  unfoldable pub Once : List (EpPair t) → Type 0
  Once [] = Unit {0}
  Once (p ∷ ps) = ¬ Listed p.ep ps × Once ps

  pub Connected-Listed :
      (ep : ℕ) (addr : List ℕ) (ps : List (EpPair t)) → Connected ep addr ps → Listed ep ps
  unfolding Connected Listed
  Connected-Listed ep addr [] c = c
  Connected-Listed ep addr (p ∷ ps) (inl (e, _)) = inl e
  Connected-Listed ep addr (p ∷ ps) (inr c) = inr (Connected-Listed ep addr ps c)
