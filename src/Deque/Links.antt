-- ===== src/Deque/Links.antt =====
-- The operations of the deque against a plain list of the elements.
use aws_ofi_nccl.Base.{
  ℕ, ◌≡◌, ◌≢◌, refl, refl, sym, ap, ok, Option, none, some, List, [], ◌∷◌, ◌++◌, arith, All, false,
  ◌==◌,
}
use aws_ofi_nccl.Deque.{
  Deque, init, insert_back, insert_front, isempty, remove_front, remove, get_front, get_next, write,
}
use aws_ofi_nccl.Deque.Chain.{
  Segment, Distinct, All-split, Distinct-drop, Distinct-snoc, Distinct-at, before_end, after_start,
  Segment-split, Segment-write_next, Segment-write_prev,
}
use mathlib.Core.Path.{subst}

-- The deque holds these elements in this order; NULL, the head and the elements all differ.
pub record Holds (d : Deque) (xs : List ℕ) : Type 0 where
  pub chain : Segment d.next d.prev d.head xs d.head
  pub distinct : Distinct (0 ∷ d.head ∷ xs)

abbrev pub head? : List ℕ → Option ℕ
head? [] = none
head? (x ∷ xs) = some x

-- An element that can be inserted: neither NULL nor the head, and not in the deque.
abbrev pub IsFresh : ℕ → List ℕ → ℕ → Type 0
IsFresh head xs elem = All (λ x. elem ≢ x) (0 ∷ head ∷ xs)

append-Segment :
    (n v : ℕ → ℕ) (h e p : ℕ) (xs : List ℕ)
    → e ≢ h
    → e ≢ p
    → All (λ x. e ≢ x) xs
    → All (λ x. h ≢ x) xs
    → Distinct (p ∷ xs)
    → Segment n v p xs h
    → Segment (write (write n e h) (v h) e) (write (write v e (v h)) h e) p (xs ++ e ∷ []) h
append-Segment n v h e p [] eh ep ex hx d s =
    (ground arith, ground arith, (ground arith, ground arith))
append-Segment n v h e p (x ∷ xs) eh ep ex hx d s =
    let last : p ≢ v h = before_end n v (λ a. p ≢ a) x xs h s.2 d.0.0 d.0.1 in
    let behind : x ≢ h = λ q. hx.0 (sym q) in
    (ground arith, ground arith, append-Segment n v h e x xs eh ex.0 ex.1 hx.1 d.1 s.2)

unlink-Segment :
    (n v : ℕ → ℕ) (e q p : ℕ) (ys zs : List ℕ)
    → e ≢ q
    → e ≢ p
    → All (λ x. q ≢ x) (ys ++ e ∷ zs)
    → Distinct (p ∷ ys ++ e ∷ zs)
    → Segment n v p (ys ++ e ∷ zs) q
    → let n' = write (write n (v e) (n e)) e 0 in
      let v' = write (write v (n e) (v e)) e 0 in Segment n' v' p (ys ++ zs) q
unlink-Segment n v e q p [] [] eq ep qx d s = (ground arith, ground arith)
unlink-Segment n v e q p [] (z ∷ zs) eq ep qx d s =
    let off = d.0.1 in
    let r = Segment-write_next n v (v e) (n e) z zs q (ground arith) (rw s.1 off.1) s.2.2 in
    let r' = Segment-write_next (write n (v e) (n e)) v e 0 z zs q (ground arith) d.1.0.1 r in
    let w =
      Segment-write_prev (write (write n (v e) (n e)) e 0) v (n e) (v e) z zs q
        (rw s.2.0 (λ u. qx.1.0 (sym u))) (rw s.2.0 d.1.1.0) r' in
    (
      ground arith,
      ground arith,
      Segment-write_prev (write (write n (v e) (n e)) e 0) (write v (n e) (v e)) e 0 z zs q eq
          d.1.0.1 w,
    )
unlink-Segment n v e q p (y ∷ ys) zs eq ep qx d s =
    let parts = Segment-split n v p (y ∷ ys) e zs q s in
    let off = All-split (λ a. y ≢ a) ys e zs d.1.0 in
    let away = All-split (λ a. p ≢ a) (y ∷ ys) e zs d.0 in
    let before : p ≢ v e = before_end n v (λ a. p ≢ a) y ys e parts.0.2 away.0.0 away.0.1 in
    let after : y ≢ n e = after_start n v (λ a. y ≢ a) e zs q parts.1 off.2 (λ u. qx.0 (sym u)) in
    let ey : e ≢ y = λ u. off.1 (sym u) in
    (ground arith, ground arith, unlink-Segment n v e q y ys zs eq ey qx.1 d.1 s.2)

pub insert_back-Holds :
    (d : Deque) (xs : List ℕ) (elem : ℕ)
    → IsFresh d.head xs elem
    → Holds d xs
    → Holds (insert_back d elem) (xs ++ elem ∷ [])
unfolding insert_back
insert_back-Holds d xs elem fresh h =
    let moved : write d.prev elem (d.prev d.head) d.head ≡ d.prev d.head = ground arith in
    record {
      chain = rw moved (
          append-Segment d.next d.prev d.head elem d.head xs fresh.1.0 fresh.1.0 fresh.1.1
            h.distinct.1.0 h.distinct.1 h.chain);
      distinct = Distinct-snoc (0 ∷ d.head ∷ xs) elem fresh h.distinct;
    }

pub insert_front-Holds :
    (d : Deque) (xs : List ℕ) (elem : ℕ)
    → IsFresh d.head xs elem
    → Holds d xs
    → Holds (insert_front d elem) (elem ∷ xs)
unfolding insert_front
insert_front-Holds d [] elem fresh h = record {
  chain = (ground arith, ground arith, (ground arith, ground arith));
  distinct =
      ((h.distinct.0.0, ((λ e. fresh.0 (sym e)), tt)), (((λ e. fresh.1.0 (sym e)), tt), (tt, tt)));
}
insert_front-Holds d (x ∷ xs) elem fresh h =
    let n = d.next in
    let v = d.prev in
    let linked = write (write n elem (n d.head)) d.head elem in
    let at : write n elem (n d.head) d.head ≡ x = ground arith in
    let hx : x ≢ d.head = λ e. h.distinct.1.0.0 (sym e) in
    let off = h.distinct.1.1.0 in
    let keep = Segment-write_prev linked v elem d.head x xs d.head fresh.1.0 fresh.1.1.1 (
      Segment-write_next (write n elem (n d.head)) v d.head elem x xs d.head h.distinct.1.0.0
        h.distinct.1.0.1
        (Segment-write_next n v elem (n d.head) x xs d.head fresh.1.1.0 fresh.1.1.1 h.chain.2)) in
    record {
      chain = (
        ground arith,
        ground arith,
        (
          ground arith,
          ground arith,
          subst (λ a. Segment linked (write (write v elem d.head) a elem) x xs d.head) (sym at)
              (Segment-write_prev linked (write v elem d.head) x elem x xs d.head hx off keep),
        ),
      );
      distinct = (
        (h.distinct.0.0, ((λ e. fresh.0 (sym e)), h.distinct.0.1)),
        (((λ e. fresh.1.0 (sym e)), h.distinct.1.0), (fresh.1.1, h.distinct.1.1)),
      );
    }

pub remove-Holds :
    (d : Deque) (ys : List ℕ) (elem : ℕ) (zs : List ℕ)
    → Holds d (ys ++ elem ∷ zs)
    → Holds (remove d elem) (ys ++ zs)
unfolding remove
remove-Holds d ys elem zs h =
    let off = Distinct-at (0 ∷ d.head ∷ ys) elem zs h.distinct in
    let parts = Segment-split d.next d.prev d.head ys elem zs d.head h.chain in
    let before : elem ≢ d.prev elem =
      before_end d.next d.prev (λ a. elem ≢ a) d.head ys elem parts.0 off.0.1.0 off.0.1.1 in
    let next : write d.next (d.prev elem) (d.next elem) elem ≡ d.next elem = ground arith in
    record {
      chain = rw next (
          unlink-Segment d.next d.prev elem d.head d.head ys zs off.0.1.0 off.0.1.0 h.distinct.1.0
            h.distinct.1 h.chain);
      distinct = Distinct-drop (0 ∷ d.head ∷ ys) elem zs h.distinct;
    }

pop-Segment :
    (n v : ℕ → ℕ) (h x : ℕ) (xs : List ℕ)
    → Distinct (h ∷ x ∷ xs)
    → Segment n v h (x ∷ xs) h
    → let n' = write n h (n x) in Segment n' (write v (n' x) h) h xs h
pop-Segment n v h x [] d s = (ground (arith, d.0.0), ground (arith, d.0.0))
pop-Segment n v h x (y ∷ ys) d s =
    let n' = write n h (n x) in
    let at : n' x ≡ y = ground (arith, d.0.0) in
    let back : y ≢ h = λ e. d.0.1.0 (sym e) in
    (
      ground arith,
      ground arith,
      subst (λ a. Segment n' (write v a h) y ys h) (sym at)
          (Segment-write_prev n' v y h y ys h back d.1.1.0
            (Segment-write_next n v h (n x) y ys h d.0.1.0 d.0.1.1 s.2.2)),
    )

pub remove_front-Holds :
    (d : Deque) (x : ℕ) (xs : List ℕ) (seen : Deque)
    → isempty seen ≡ false
    → Holds d (x ∷ xs)
    → ((remove_front seen d).0 ≡ some x) × Holds (remove_front seen d).1 xs
unfolding remove_front isempty
remove_front-Holds d x xs seen nonempty h =
    let full : (d.next d.head == d.head) ≡ false = ground (arith, h.distinct.1.0.0) in
    rw (nonempty, full)
      (
        ap some h.chain.0,
        record {
          chain =
              subst
                (λ a.
                  Segment (write d.next d.head (d.next a))
                    (write d.prev (write d.next d.head (d.next a) a) d.head) d.head xs d.head)
                (sym h.chain.0) (pop-Segment d.next d.prev d.head x xs h.distinct.1 h.chain);
          distinct = ((h.distinct.0.0, h.distinct.0.1.1), (h.distinct.1.0.1, h.distinct.1.1.1));
        },
      )

pub get_front-Holds : (d : Deque) (xs : List ℕ) → Holds d xs → get_front d ≡ head? xs
unfolding get_front isempty
get_front-Holds d [] h = ground arith
get_front-Holds d (x ∷ xs) h = ground (arith, h.distinct.1.0.0)

next_of :
    (d : Deque) (elem : ℕ) (zs : List ℕ)
    → Segment d.next d.prev elem zs d.head
    → All (λ a. d.head ≢ a) zs
    → get_next d elem ≡ head? zs
unfolding get_next
next_of d elem [] s off = ground arith
next_of d elem (z ∷ zs) s off = ground (arith, off.0)

pub get_next-Holds :
    (d : Deque) (ys : List ℕ) (elem : ℕ) (zs : List ℕ)
    → Holds d (ys ++ elem ∷ zs)
    → get_next d elem ≡ head? zs
get_next-Holds d ys elem zs h =
    next_of d elem zs (Segment-split d.next d.prev d.head ys elem zs d.head h.chain).1
      (All-split (λ a. d.head ≢ a) ys elem zs h.distinct.1.0).2

pub init-Holds : (d : Deque) → 0 ≢ d.head → (d' : Deque) × (init (some d) 0 ≡ ok d') × Holds d' []
unfolding init
init-Holds d h = (
  record d { next = write d.next d.head d.head; prev = write d.prev d.head d.head },
  refl,
  record { chain = (ground arith, ground arith); distinct = ((h, tt), (tt, tt)) },
)

pub Holds-isempty : (d : Deque) (x : ℕ) (xs : List ℕ) → Holds d (x ∷ xs) → isempty d ≡ false
unfolding isempty
Holds-isempty d x xs h = ground (arith, h.distinct.1.0.0)
