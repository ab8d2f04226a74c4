-- ===== src/Deque/Chain.antt =====
-- Stretches of the circular list, and what the writes of the operations leave of them.
use aws_ofi_nccl.Base.{ℕ, ◌≡◌, ◌≢◌, List, [], ◌∷◌, ◌++◌, arith, All, All-append}
use aws_ofi_nccl.Deque.{write}

-- `next` leads from `p` through the elements to `q`, and `prev` leads back.
abbrev pub Segment : (ℕ → ℕ) → (ℕ → ℕ) → ℕ → List ℕ → ℕ → Type 0
Segment next prev p [] q = (next p ≡ q) × (prev q ≡ p)
Segment next prev p (x ∷ xs) q = (next p ≡ x) × (prev x ≡ p) × Segment next prev x xs q

abbrev pub Distinct : List ℕ → Type 0
Distinct [] = Unit {0}
Distinct (x ∷ xs) = All (λ y. x ≢ y) xs × Distinct xs

pub All-split :
    (P : ℕ → Type 0) (ys : List ℕ) (e : ℕ) (zs : List ℕ)
    → All P (ys ++ e ∷ zs)
    → All P ys × P e × All P zs
All-split P [] e zs h = (tt, h.0, h.1)
All-split P (y ∷ ys) e zs h = let r = All-split P ys e zs h.1 in ((h.0, r.0), r.1, r.2)

pub Distinct-drop :
    (ys : List ℕ) (e : ℕ) (zs : List ℕ) → Distinct (ys ++ e ∷ zs) → Distinct (ys ++ zs)
Distinct-drop [] e zs d = d.1
Distinct-drop (y ∷ ys) e zs d =
    let r = All-split (λ a. y ≢ a) ys e zs d.0 in
    (All-append (λ a. y ≢ a) ys zs r.0 r.2, Distinct-drop ys e zs d.1)

pub Distinct-snoc :
    (xs : List ℕ) (e : ℕ) → All (λ x. e ≢ x) xs → Distinct xs → Distinct (xs ++ e ∷ [])
Distinct-snoc [] e h d = (tt, tt)
Distinct-snoc (x ∷ xs) e h d =
    (All-append (λ y. x ≢ y) xs (e ∷ []) d.0 (ground arith, tt), Distinct-snoc xs e h.1 d.1)

pub Distinct-at :
    (ys : List ℕ) (e : ℕ) (zs : List ℕ)
    → Distinct (ys ++ e ∷ zs)
    → All (λ y. e ≢ y) ys × All (λ z. e ≢ z) zs
Distinct-at [] e zs d = (tt, d.0)
Distinct-at (y ∷ ys) e zs d =
    let r = Distinct-at ys e zs d.1 in
    let ne = (All-split (λ a. y ≢ a) ys e zs d.0).1 in ((ground arith, r.0), r.1)

module _ (next prev : ℕ → ℕ) where
  -- The element before the end, and the one after the start.
  pub before_end :
      (P : ℕ → Type 0) (p : ℕ) (xs : List ℕ) (q : ℕ)
      → Segment next prev p xs q
      → P p
      → All P xs
      → P (prev q)
  before_end P p [] q s hp hx = rw s.1 hp
  before_end P p (x ∷ xs) q s hp hx = before_end P x xs q s.2 hx.0 hx.1

  pub after_start :
      (P : ℕ → Type 0) (p : ℕ) (xs : List ℕ) (q : ℕ)
      → Segment next prev p xs q
      → All P xs
      → P q
      → P (next p)
  after_start P p [] q s hx hq = rw s.0 hq
  after_start P p (x ∷ xs) q s hx hq = rw s.0 hx.0

  pub Segment-split :
      (p : ℕ) (ys : List ℕ) (e : ℕ) (zs : List ℕ) (q : ℕ)
      → Segment next prev p (ys ++ e ∷ zs) q
      → Segment next prev p ys e × Segment next prev e zs q
  Segment-split p [] e zs q s = ((s.0, s.1), s.2)
  Segment-split p (y ∷ ys) e zs q s =
      let r = Segment-split y ys e zs q s.2 in ((s.0, s.1, r.0), r.1)

  -- A write off the stretch leaves it.
  pub Segment-write_next :
      (a v p : ℕ) (xs : List ℕ) (q : ℕ)
      → a ≢ p
      → All (λ x. a ≢ x) xs
      → Segment next prev p xs q
      → Segment (write next a v) prev p xs q
  Segment-write_next a v p [] q hp hx s = ground arith
  Segment-write_next a v p (x ∷ xs) q hp hx s =
      (ground arith, s.1, Segment-write_next a v x xs q hx.0 hx.1 s.2)

  pub Segment-write_prev :
      (a v p : ℕ) (xs : List ℕ) (q : ℕ)
      → a ≢ q
      → All (λ x. a ≢ x) xs
      → Segment next prev p xs q
      → Segment next (write prev a v) p xs q
  Segment-write_prev a v p [] q hq hx s = ground arith
  Segment-write_prev a v p (x ∷ xs) q hq hx s =
      (s.0, ground arith, Segment-write_prev a v x xs q hq hx.1 s.2)
