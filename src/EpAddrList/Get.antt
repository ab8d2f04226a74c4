-- ===== src/EpAddrList/Get.antt =====
-- nccl_ofi_ep_addr_list_get: which endpoint it gives, and the connections after it.
use mathlib.Core.Path.{subst}
use native.Mathlib.Decide.{dec_lt}
use aws_ofi_nccl.Base.{
  ℕ, ◌≤◌, ◌<◌, ◌≡◌, refl, sym, ap, ◌∙◌, ◌⊎◌, inl, inr, ◌↔◌, arith, List, [], ◌∷◌, Bool, true, false,
  Bool-cases, ltb, if◌then◌else◌, Option, none, some, Result, ok, err, enomem, einval, length,
}
use aws_ofi_nccl.EpAddrList.{
  HashTable, EpPair, EpAddrList, same_addr, zero_pad_address, get_pair, get,
}
use aws_ofi_nccl.EpAddrList.Sets.{
  Connected, Listed, Once, same_addr_self, same_addr_sound, Connected-Listed,
}

module _ {t : HashTable} where
  -- The connections after a call: those before it, and one more.
  abbrev pub Gains : ℕ → List ℕ → List (EpPair t) → List (EpPair t) → Type 0
  Gains ep addr ps ps' =
      (e : ℕ) (a : List ℕ) → Connected e a ps' ↔ (Connected e a ps ⊎ ((ep ≡ e) × (addr ≡ a)))

  -- What the loop over the pairs gives: no endpoint, since each has the address; no memory; or an
  -- endpoint that was not connected to the address, and now is.
  unfoldable pub Got :
      Bool → List ℕ → List (EpPair t) → Result (Option ℕ) → List (EpPair t) → Type 0
  Got malloced addr ps r ps' =
      ((r ≡ ok none) × (ps' ≡ ps) × ((ep : ℕ) → Listed ep ps → Connected ep addr ps))
      ⊎ ((r ≡ err enomem) × (malloced ≡ false) × (ps' ≡ ps))
      ⊎ ((ep : ℕ) × (r ≡ ok (some ep))
          × Listed ep ps
          × ¬ Connected ep addr ps
          × Gains ep addr ps ps'
          × ((e : ℕ) → Listed e ps' → Listed e ps)
          × Once ps')

  -- The first pair takes the address.
  module _ (addr : List ℕ) (p : (EpPair t)) (ps : List (EpPair t)) (once : Once (p ∷ ps))
      (miss : t.find p.addr_set addr ≡ false) where
    abbrev joined : List (EpPair t)
    joined = record p { addr_set = t.add addr p.addr_set } ∷ ps

    joined_new : ¬ Connected p.ep addr (p ∷ ps)
    unfolding Connected Once
    joined_new (inl (_, h)) = absurd (cc)
    joined_new (inr c) = once.0 (Connected-Listed p.ep addr ps c)

    joined_fwd :
        (e : ℕ) (a : List ℕ)
        → Connected e a joined
        → Connected e a (p ∷ ps) ⊎ ((p.ep ≡ e) × (addr ≡ a))
    unfolding Connected
    joined_fwd e a (inl (q, h)) = elim (Bool-cases (same_addr addr a)) [
      | inl s ↦ inr (q, same_addr_sound addr a s)
      | inr s ↦ inl (
          inl (
            q,
            sym (ap (λ b. if b then true else t.find p.addr_set a) s)
                ∙ sym (t.find_add addr a p.addr_set)
                ∙ h,
          ))
    ]
    joined_fwd e a (inr c) = inl (inr c)

    joined_bwd :
        (e : ℕ) (a : List ℕ)
        → Connected e a (p ∷ ps) ⊎ ((p.ep ≡ e) × (addr ≡ a))
        → Connected e a joined
    unfolding Connected
    joined_bwd e a (inl (inl (q, h))) = inl (q, t.find_add addr a p.addr_set ∙ ground (arith, h))
    joined_bwd e a (inl (inr c)) = inr c
    joined_bwd e a (inr (q, s)) = inl (
      q,
      t.find_add addr a p.addr_set
          ∙ subst (λ b. (if same_addr addr b then true else t.find p.addr_set b) ≡ true) s
              (ap (λ b. if b then true else t.find p.addr_set addr) (same_addr_self addr)),
    )

    joined-Once : Once joined
    unfolding Once
    joined-Once = once

    joined-Listed : (e : ℕ) → Listed e joined → Listed e (p ∷ ps)
    unfolding Listed
    joined-Listed e h = h

  -- The first pair has the address: the loop goes on.
  module _ (malloced : Bool) (addr : List ℕ) (p : (EpPair t)) (ps : List (EpPair t))
      (found : t.find p.addr_set addr ≡ true) (once : Once (p ∷ ps)) where
    further :
        (r : Result (Option ℕ)) (ps' : List (EpPair t))
        → Got malloced addr ps r ps'
        → Got malloced addr (p ∷ ps) r (p ∷ ps')
    unfolding Got Connected Listed Once
    further r ps' (inl (e, same, all)) = inl (e, ap (λ t. p ∷ t) same, each)
      where
        each : (ep : ℕ) → Listed ep (p ∷ ps) → Connected ep addr (p ∷ ps)
        each ep (inl q) = inl (q, found)
        each ep (inr l) = inr (all ep l)
    further r ps' (inr (inl (e, m, same))) = inr (inl (e, m, ap (λ t. p ∷ t) same))
    further r ps' (inr (inr (ep, e, listed, new, gains, kept, once'))) =
        inr (inr (ep, e, inr listed, fresh, both, keep, ((λ l. once.0 (kept p.ep l)), once')))
      where
        fresh : ¬ Connected ep addr (p ∷ ps)
        fresh (inl (q, _)) = once.0 (rw q listed)
        fresh (inr c) = new c

        keep : (e : ℕ) → Listed e (p ∷ ps') → Listed e (p ∷ ps)
        keep e (inl q) = inl q
        keep e (inr l) = inr (kept e l)

        both : Gains ep addr (p ∷ ps) (p ∷ ps')
        both e a = (fwd, bwd)
          where
            fwd : Connected e a (p ∷ ps') → Connected e a (p ∷ ps) ⊎ ((ep ≡ e) × (addr ≡ a))
            fwd (inl h) = inl (inl h)
            fwd (inr c) = elim ((gains e a).0 c) [ inl d ↦ inl (inr d) | inr d ↦ inr d ]

            bwd : Connected e a (p ∷ ps) ⊎ ((ep ≡ e) × (addr ≡ a)) → Connected e a (p ∷ ps')
            bwd (inl (inl h)) = inl h
            bwd (inl (inr c)) = inr ((gains e a).1 (inl c))
            bwd (inr d) = inr ((gains e a).1 (inr d))

  pub Once-tail : (p : (EpPair t)) (ps : List (EpPair t)) → Once (p ∷ ps) → Once ps
  unfolding Once
  Once-tail p ps o = o.1

  get_pair_lem :
      (malloced : Bool) (addr : List ℕ) (ps : List (EpPair t))
      → Once ps
      → let (r, ps') = get_pair malloced addr ps in Got malloced addr ps r ps'
  unfolding get_pair Got Listed
  get_pair_lem malloced addr [] once = inl (refl, refl, λ ep l. absurd l)
  get_pair_lem malloced addr (p ∷ ps) once = elim (Bool-cases (t.find p.addr_set addr)) [
    | inl f ↦
        let rest = get_pair_lem malloced addr ps (Once-tail p ps once) in
        rw f (
          further malloced addr p ps f once (get_pair malloced addr ps).0
            (get_pair malloced addr ps).1 rest)
    | inr f ↦ elim (Bool-cases malloced) [
      | inl m ↦
          rw (f, m)
            (inr (
              inr (
                p.ep,
                refl,
                inl refl,
                joined_new addr p ps once f,
                (λ e a. (joined_fwd addr p ps once f e a, joined_bwd addr p ps once f e a)),
                joined-Listed addr p ps once f,
                joined-Once addr p ps once f,
              )))
      | inr m ↦ rw (f, m) (inr (inl (refl, refl, refl)))
    ]
  ]

  -- nccl_ofi_ep_addr_list_get on a list in which each endpoint stands once: an address that is too long
  -- gives -EINVAL and changes nothing. For the padded address it returns 0 without an endpoint, and
  -- changes nothing, when each endpoint is connected to it; or -ENOMEM, and changes nothing; or an
  -- endpoint that was not connected to it, which then is, where no other connection changes and each
  -- endpoint stands once again.
  pub get_lem :
      (malloced : Bool) (l : (EpAddrList t)) (addr_in : List ℕ)
      → Once l.ep_pair_list
      → let (r, l') = get malloced l addr_in in
        (l.max_addr_size < length addr_in → (r ≡ err einval) × (l' ≡ l))
        × (length addr_in ≤ l.max_addr_size
            → Got malloced
                (zero_pad_address l.max_addr_size addr_in)
                l.ep_pair_list
                r
                l'.ep_pair_list)
        × (l'.max_addr_size ≡ l.max_addr_size)
  unfolding get
  get_lem malloced l addr_in once =
      let addr = zero_pad_address l.max_addr_size addr_in in
      let got = get_pair_lem malloced addr l.ep_pair_list once in
      elim (dec_lt l.max_addr_size (length addr_in)) [
        | yes p ↦
            let t : ltb l.max_addr_size (length addr_in) ≡ true = ground arith in
            rw t ((λ _. (refl, refl)), (λ h. absurd (omega arith)), refl)
        | no p ↦
            let f : ltb l.max_addr_size (length addr_in) ≡ false = ground arith in
            rw f ((λ h. absurd (p h)), (λ _. got), refl)
      ]
