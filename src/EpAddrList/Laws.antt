-- ===== src/EpAddrList/Laws.antt =====
-- nccl_ofi_ep_addr_list_insert and nccl_ofi_ep_addr_list_delete: the connections after each.
use mathlib.Core.Path.{subst}
use native.Mathlib.Decide.{dec_lt, ℕ_discrete}
use aws_ofi_nccl.Base.{
  ℕ, ◌≤◌, ◌<◌, ◌≡◌, ◌≢◌, refl, sym, ap, ◌∙◌, ◌⊎◌, inl, inr, ◌↔◌, arith, List, [], ◌∷◌, ◌++◌, Bool,
  true, false, Bool-cases, ◌==◌, ltb, if◌then◌else◌, Option, none, some, Result, ok, err, enomem,
  einval, enoent, length,
}
use aws_ofi_nccl.EpAddrList.{
  HashTable, EpPair, EpAddrList, same_addr, zero_pad_address, insert, delete_pair, delete,
}
use aws_ofi_nccl.EpAddrList.Sets.{Connected, Listed, Once, same_addr_self, same_addr_sound}
use aws_ofi_nccl.EpAddrList.Get.{Gains, Once-tail}

module _ {t : HashTable} where
  -- The connections after a pair is appended.
  module _ (ep : ℕ) (addr : List ℕ) where
    abbrev added : List (EpPair t)
    added = record { ep = ep; addr_set = t.add addr t.empty } ∷ []

    append_fwd :
        (ps : List (EpPair t)) (e : ℕ) (a : List ℕ)
        → Connected e a (ps ++ added)
        → Connected e a ps ⊎ ((ep ≡ e) × (addr ≡ a))
    unfolding Connected
    append_fwd [] e a (inl (q, h)) = elim (Bool-cases (same_addr addr a)) [
      | inl s ↦ inr (q, same_addr_sound addr a s)
      | inr s ↦
          let e =
            sym h
            ∙ t.find_add addr a t.empty
            ∙ ap (λ b. if b then true else t.find t.empty a) s
            ∙ t.find_empty a in
          absurd (cc)
    ]
    append_fwd [] e a (inr c) = absurd c
    append_fwd (p ∷ ps) e a (inl h) = inl (inl h)
    append_fwd (p ∷ ps) e a (inr c) = elim (append_fwd ps e a c) [
      | inl d ↦ inl (inr d)
      | inr d ↦ inr d
    ]

    append_bwd :
        (ps : List (EpPair t)) (e : ℕ) (a : List ℕ)
        → Connected e a ps ⊎ ((ep ≡ e) × (addr ≡ a))
        → Connected e a (ps ++ added)
    unfolding Connected
    append_bwd [] e a (inl c) = absurd c
    append_bwd [] e a (inr (q, s)) = inl (
      q,
      t.find_add addr a t.empty
          ∙ subst (λ b. (if same_addr addr b then true else t.find t.empty b) ≡ true) s
              (ap (λ b. if b then true else t.find t.empty addr) (same_addr_self addr)),
    )
    append_bwd (p ∷ ps) e a (inl (inl h)) = inl h
    append_bwd (p ∷ ps) e a (inl (inr c)) = inr (append_bwd ps e a (inl c))
    append_bwd (p ∷ ps) e a (inr d) = inr (append_bwd ps e a (inr d))

    Listed-append : (ps : List (EpPair t)) (e : ℕ) → Listed e (ps ++ added) → Listed e ps ⊎ (ep ≡ e)
    unfolding Listed
    Listed-append [] e (inl q) = inr q
    Listed-append [] e (inr c) = absurd c
    Listed-append (p ∷ ps) e (inl q) = inl (inl q)
    Listed-append (p ∷ ps) e (inr c) = elim (Listed-append ps e c) [
      | inl d ↦ inl (inr d)
      | inr d ↦ inr d
    ]

    Once-append : (ps : List (EpPair t)) → Once ps → ¬ Listed ep ps → Once (ps ++ added)
    unfolding Once Listed
    Once-append [] o n = ((λ l. l), tt)
    Once-append (p ∷ ps) o n = (
      (λ l. elim (Listed-append ps p.ep l) [ inl d ↦ o.0 d | inr d ↦ n (inl (sym d)) ]),
      Once-append ps o.1 (λ l. n (inr l)),
    )

  -- nccl_ofi_ep_addr_list_insert: an address that is too long gives -EINVAL and a failing malloc gives
  -- -ENOMEM, both without a change. Otherwise it returns 0, the endpoint is connected to the padded
  -- address, no other connection changes, and each endpoint stands once if it was not in the list.
  pub insert_lem :
      (malloced : Bool × Bool) (l : (EpAddrList t)) (ep : ℕ) (addr_in : List ℕ)
      → let (r, l') = insert malloced l ep addr_in in
        (l.max_addr_size < length addr_in → (r ≡ err einval) × (l' ≡ l))
        × (length addr_in ≤ l.max_addr_size
            → (malloced.0 ≡ false) ⊎ (malloced.1 ≡ false)
            → (r ≡ err enomem) × (l' ≡ l))
        × (length addr_in ≤ l.max_addr_size
            → malloced.0 ≡ true
            → malloced.1 ≡ true
            → (r ≡ ok tt)
              × Gains ep (zero_pad_address l.max_addr_size addr_in) l.ep_pair_list l'.ep_pair_list
              × (Once l.ep_pair_list → ¬ Listed ep l.ep_pair_list → Once l'.ep_pair_list))
  unfolding insert
  insert_lem (m, n) l ep addr_in =
      let addr = zero_pad_address l.max_addr_size addr_in in
      let ps = l.ep_pair_list in
      elim (dec_lt l.max_addr_size (length addr_in)) [
        | yes p ↦
            let t : ltb l.max_addr_size (length addr_in) ≡ true = ground arith in
            rw t ((λ _. (refl, refl)), (λ h _. absurd (omega arith)), λ h _ _. absurd (omega arith))
        | no p ↦
            let f : ltb l.max_addr_size (length addr_in) ≡ false = ground arith in
            rw f (
              (λ h. absurd (p h)),
              (λ _ o. (ground (arith, o), ground (arith, o))),
              λ _ a b.
                  rw (a, b)
                    (
                      refl,
                      (λ e x. (append_fwd ep addr ps e x, append_bwd ep addr ps e x)),
                      λ o u. Once-append ep addr ps o u,
                    ),
            )
      ]

  -- What the loop of delete gives.
  unfoldable pub Removed : ℕ → List (EpPair t) → Option (List (EpPair t)) → Type 0
  Removed ep ps r =
      ((r ≡ none) × ¬ Listed ep ps)
      ⊎ ((qs : List (EpPair t)) × (r ≡ some qs)
          × Listed ep ps
          × ¬ Listed ep qs
          × Once qs
          × ((e : ℕ) → Listed e qs → Listed e ps)
          × ((e : ℕ) (a : List ℕ) → ep ≢ e → Connected e a qs ↔ Connected e a ps))

  module _ (ep : ℕ) (p : (EpPair t)) (ps : List (EpPair t)) (once : Once (p ∷ ps)) where
    Removed-here : p.ep ≡ ep → Removed ep (p ∷ ps) (some ps)
    unfolding Removed Connected Listed Once
    Removed-here q = inr (
      ps,
      refl,
      inl q,
      (λ l. once.0 (rw q l)),
      once.1,
      (λ e l. inr l),
      λ e a n. ((λ c. inr c), only e a n),
    )
      where
        only : (e : ℕ) (a : List ℕ) → ep ≢ e → Connected e a (p ∷ ps) → Connected e a ps
        only e a n (inl (s, _)) = absurd (n (sym q ∙ s))
        only e a n (inr c) = c

    Removed-later :
        (r : Option (List (EpPair t)))
        → p.ep ≢ ep
        → Removed ep ps r
        → Removed ep (p ∷ ps) (elim r [ none ↦ none | some qs ↦ some (p ∷ qs) ])
    unfolding Removed Connected Listed Once
    Removed-later r n (inl (e, u)) = rw e (inl (refl, neither))
      where
        neither : ¬ Listed ep (p ∷ ps)
        neither (inl q) = n q
        neither (inr l) = u l
    Removed-later r n (inr (qs, e, listed, gone, once', kept, same)) = rw e (
        inr (
          p ∷ qs,
          refl,
          inr listed,
          neither,
          ((λ l. once.0 (kept p.ep l)), once'),
          keep,
          λ x a d. (fwd x a d, bwd x a d),
        ))
      where
        neither : ¬ Listed ep (p ∷ qs)
        neither (inl q) = n q
        neither (inr l) = gone l

        keep : (x : ℕ) → Listed x (p ∷ qs) → Listed x (p ∷ ps)
        keep x (inl q) = inl q
        keep x (inr l) = inr (kept x l)

        fwd : (x : ℕ) (a : List ℕ) → ep ≢ x → Connected x a (p ∷ qs) → Connected x a (p ∷ ps)
        fwd x a d (inl h) = inl h
        fwd x a d (inr c) = inr ((same x a d).0 c)

        bwd : (x : ℕ) (a : List ℕ) → ep ≢ x → Connected x a (p ∷ ps) → Connected x a (p ∷ qs)
        bwd x a d (inl h) = inl h
        bwd x a d (inr c) = inr ((same x a d).1 c)

  delete_pair_lem : (ep : ℕ) (ps : List (EpPair t)) → Once ps → Removed ep ps (delete_pair ep ps)
  unfolding delete_pair Removed Listed
  delete_pair_lem ep [] once = inl (refl, λ l. l)
  delete_pair_lem ep (p ∷ ps) once = elim (ℕ_discrete p.ep ep) [
    | yes q ↦ let t : (p.ep == ep) ≡ true = ground (arith, q) in rw t (Removed-here ep p ps once q)
    | no q ↦
        let f : (p.ep == ep) ≡ false = ground (arith, q) in
        let rest = delete_pair_lem ep ps (Once-tail p ps once) in
        rw f (Removed-later ep p ps once (delete_pair ep ps) q rest)
  ]

  -- nccl_ofi_ep_addr_list_delete on a list in which each endpoint stands once: for an endpoint that is
  -- not in the list it returns -ENOENT and changes nothing. Otherwise it returns 0, the endpoint is no
  -- longer in the list, the connections of the others are as before, and each stands once.
  pub delete_lem :
      (l : (EpAddrList t)) (ep : ℕ)
      → Once l.ep_pair_list
      → let (r, l') = delete l ep in
        ((r ≡ err enoent) × (l' ≡ l) × ¬ Listed ep l.ep_pair_list)
        ⊎ ((r ≡ ok tt)
            × Listed ep l.ep_pair_list
            × ¬ Listed ep l'.ep_pair_list
            × Once l'.ep_pair_list
            × ((e : ℕ) (a : List ℕ)
                → ep ≢ e
                → Connected e a l'.ep_pair_list ↔ Connected e a l.ep_pair_list))
  unfolding delete Removed
  delete_lem l ep once =
      by_removed (delete_pair ep l.ep_pair_list) refl (delete_pair_lem ep l.ep_pair_list once)
    where
      outcome : Result (Unit {0}) × (EpAddrList t) → Type 0
      outcome s =
          ((s.0 ≡ err enoent) × (s.1 ≡ l) × ¬ Listed ep l.ep_pair_list)
          ⊎ ((s.0 ≡ ok tt)
              × Listed ep l.ep_pair_list
              × ¬ Listed ep s.1.ep_pair_list
              × Once s.1.ep_pair_list
              × ((e : ℕ) (a : List ℕ)
                  → ep ≢ e
                  → Connected e a s.1.ep_pair_list ↔ Connected e a l.ep_pair_list))

      by_removed :
          (r : Option (List (EpPair t)))
          → delete_pair ep l.ep_pair_list ≡ r
          → Removed ep l.ep_pair_list r
          → outcome (delete l ep)
      by_removed r q (inl (e, u)) =
          let step : delete l ep ≡ (err enoent, l) = ground (arith, q, e) in
          rw step (inl (refl, refl, u))
      by_removed r q (inr (qs, e, listed, gone, once', kept, same)) =
          let step : delete l ep ≡ (ok tt, record l { ep_pair_list = qs }) = ground (arith, q, e) in
          rw step (inr (refl, listed, gone, once', same))
