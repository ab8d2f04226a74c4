-- ===== src/Msgbuff/Laws.antt =====
-- What the callers of a message buffer rely on: an insert changes one message, a completed message
-- stays complete, and the oldest message of the window is never a complete one.
use native.Mathlib.Decide.{dec_lt, ℕ_discrete}
use aws_ofi_nccl.Base.{
  ℕ, zero, suc, ◌+◌, ◌-◌, ◌*◌, ◌%◌, ◌≤◌, ◌<◌, ◌≡◌, refl, sym, ap, ◌∙◌, inl, inr, Option, some, List,
  [], ◌∷◌, ◌++◌, arith, length, get_or, Bool-cases, ◌==◌, true, ==_iff, ltb, if◌then◌else◌, lt→ltb,
  le→ltb, replicate, get_or-set_self, get_or-set_ne, length-set, length-append, length-replicate,
}
use aws_ofi_nccl.Msgbuff.{
  Msgbuff, ElemType, Status, Outcome, success, invalid_idx, get_idx_status, insert, retrieve,
  is_notstarted,
}
use aws_ofi_nccl.Msgbuff.Spec
use aws_ofi_nccl.Msgbuff.Spec.{Cell, gap, busy, done}
use aws_ofi_nccl.Msgbuff.Inv.{IsValid, abs, index_at}
use aws_ofi_nccl.Msgbuff.Refine.{
  Holds, window_le, insert_refines, retrieve_refines, get_idx_status_refines,
}

-- Reading a list behind gaps.
get_or-append_lt : (w x : List Cell) (j : ℕ) → j < length w → get_or (w ++ x) j gap ≡ get_or w j gap
get_or-append_lt [] x j h = absurd (omega arith)
get_or-append_lt (c ∷ w) x zero h = refl
get_or-append_lt (c ∷ w) x (suc j) h = get_or-append_lt w x j (omega arith)

get_or-append_ge :
    (w x : List Cell) (j : ℕ) → length w ≤ j → get_or (w ++ x) j gap ≡ get_or x (j - length w) gap
get_or-append_ge [] x j h = ap (λ i. get_or x i gap) (omega arith)
get_or-append_ge (c ∷ w) x zero h = absurd (omega arith)
get_or-append_ge (c ∷ w) x (suc j) h =
    get_or-append_ge w x j (omega arith) ∙ ap (λ i. get_or x i gap) (omega arith)

get_or-gaps :
    (n j : ℕ) (c : Cell) → get_or (replicate n gap ++ c ∷ []) j gap ≡ (if j == n then c else gap)
get_or-gaps zero zero c = refl
get_or-gaps zero (suc j) c = ground arith
get_or-gaps (suc n) zero c = ground arith
get_or-gaps (suc n) (suc j) c = get_or-gaps n j c ∙ ground arith

get_or_beyond : (w : List Cell) (j : ℕ) → length w ≤ j → get_or w j gap ≡ gap
get_or_beyond [] j h = refl
get_or_beyond (c ∷ w) zero h = absurd (omega arith)
get_or_beyond (c ∷ w) (suc j) h = get_or_beyond w j (omega arith)

module _ (cap : ℕ) (w : List Cell) (k : ℕ) (c : Cell) where
  abbrev placed : List Cell
  placed = Spec.place cap cap w k c

  length-place : length placed ≡ (if ltb k (length w) then length w else k + 1)
  length-place = elim (dec_lt k (length w)) [
    | yes p ↦ rw (lt→ltb k (length w) p) (length-set w k c)
    | no p ↦
        let le : length w ≤ k = omega arith in
        rw (le→ltb k (length w) le) (
          omega (
            arith,
            length-append w (replicate (k - length w) gap ++ c ∷ []),
            length-append (replicate (k - length w) gap) (c ∷ []),
            length-replicate (k - length w) gap,
          ))
  ]

  -- Placing a cell changes that cell only: the gaps before it were not started already.
  get_or-place : (j : ℕ) → get_or placed j gap ≡ (if j == k then c else get_or w j gap)
  get_or-place j = elim (dec_lt k (length w)) [
    | yes p ↦ rw (lt→ltb k (length w) p) (elim (ℕ_discrete j k) [
      | yes e ↦ rw (e, (==_iff k k).1 refl) (get_or-set_self w k c gap p)
      | no e ↦ ground (arith, get_or-set_ne w k j c gap (λ q. e (sym q)))
    ])
    | no p ↦
        let le : length w ≤ k = omega arith in
        rw (le→ltb k (length w) le) (elim (dec_lt j (length w)) [
          | yes q ↦ ground (arith, get_or-append_lt w (replicate (k - length w) gap ++ c ∷ []) j q)
          | no q ↦ ground (
            arith,
            get_or-append_ge w (replicate (k - length w) gap ++ c ∷ []) j (omega arith),
            get_or-gaps (k - length w) (j - length w) c,
            get_or_beyond w j (omega arith),
          )
        ])
  ]

  -- So the status of every other message stays, the gaps included.
  status_at-place :
      (size j : ℕ)
      → k < cap
      → 2 * cap < size
      → Spec.status_at cap size placed j
        ≡ (if j == k then c.status else Spec.status_at cap size w j)
  status_at-place size j kc room = elim (ℕ_discrete j k) [
    | yes e ↦ ground (arith, length-place, get_or-place j)
    | no e ↦ ground (arith, length-place, get_or-place j, get_or_beyond w j)
  ]

-- Indices of the circle are told apart by their offsets.
offset_inj :
    {m : Msgbuff} (v : IsValid m) (i j : ℕ)
    → i < m.field_size
    → j < m.field_size
    → Spec.offset m.max_inprogress m.field_size (abs m) j
      ≡ Spec.offset m.max_inprogress m.field_size (abs m) i
    → j ≡ i
offset_inj {m} v i j hi hj e =
    sym (index_at m m.msg_last_incomplete j v.last_in hj)
    ∙ ap (λ k. (m.msg_last_incomplete + k) % m.field_size) e
    ∙ index_at m m.msg_last_incomplete i v.last_in hi

abbrev pub Answer : Type 0
Answer = Outcome × Status × Msgbuff

pub same_buffer : (r r' : Answer) → some r ≡ some r' → r.2 ≡ r'.2
same_buffer r r' e = cc

pub not_refused : (r r' : Answer) → some r ≡ some r' → r.0 ≡ invalid_idx → r'.0 ≡ success → ⊥
not_refused r r' e h k = cc

-- The specification of an insert, seen from another index `j`.
module _ {m : Msgbuff} (v : IsValid m) (idx j : ℕ) (hi : idx < m.field_size) (hj : j < m.field_size)
    (elem : Option ℕ) (type : ElemType) where
  abbrev pub cap : ℕ
  cap = m.max_inprogress

  abbrev pub size : ℕ
  size = m.field_size

  abbrev pub at : ℕ → ℕ
  at = Spec.offset cap size (abs m)

  abbrev inserted : Spec.State
  inserted = record (abs m) {
    window = Spec.place cap size (abs m).window (at idx) (busy elem type);
  }

  pub same_index : (at j == at idx) ≡ (j == idx)
  same_index = elim (ℕ_discrete j idx) [
    | yes e ↦ rw e (rw ((==_iff (at idx) (at idx)).1 refl, (==_iff idx idx).1 refl))
    | no e ↦ ground (arith, λ (h : at j ≡ at idx). e (offset_inj v idx j hi hj h))
  ]

  fits : is_notstarted (Spec.status_at cap size (abs m).window (at idx)) ≡ true → at idx < cap
  fits h = elim (dec_lt (at idx) (length (abs m).window)) [
    | yes l ↦ omega (arith, window_le v)
    | no l ↦ Spec.room_beyond cap size (abs m).window (at idx) (omega arith) h
  ]

  status_inserted :
      is_notstarted (Spec.status_at cap size (abs m).window (at idx)) ≡ true
      → Spec.status_at cap size inserted.window (at j)
        ≡ (if j == idx then Status.inprogress else Spec.status_at cap size (abs m).window (at j))
  status_inserted h = rw (← same_index) (
      status_at-place cap (abs m).window (at idx) (busy elem type) size (at j) (fits h)
        v.shape.room)

  retrieve-inserted :
      is_notstarted (Spec.status_at cap size (abs m).window (at idx)) ≡ true
      → Spec.retrieve cap size inserted j ≡ (
          if j == idx
          then (success, some Status.inprogress, some (elem, type))
          else Spec.retrieve cap size (abs m) j)
  unfolding Spec.retrieve
  retrieve-inserted h =
      rw
        (
          status_inserted h,
          get_or-place cap (abs m).window (at idx) (busy elem type) (at j),
          same_index,
        )
        (elim (Bool-cases (j == idx)) [ inl e ↦ rw e | inr e ↦ rw e ])

  -- A successful insert found its message not started, and left the window with it placed.
  insert-inserted :
      {s : Status} {m' : Msgbuff}
      → insert m idx elem type ≡ some (success, s, m')
      → (is_notstarted (Spec.status_at cap size (abs m).window (at idx)) ≡ true)
        × Holds m m' inserted
  insert-inserted {s} {m'} p =
      elim (Bool-cases (is_notstarted (Spec.status_at cap size (abs m).window (at idx)))) [
        | inl h ↦
            let e = Spec.insert_fresh cap size (abs m) idx elem type h in
            let (m'', runs, holds) = insert_refines v idx hi elem type in
            (
              h,
              rw
                  (
                    ← same_buffer _ _ (sym runs ∙ p),
                    ← ap (λ (r : Outcome × Status × Spec.State). r.2) e,
                  )
                  holds,
            )
        | inr h ↦
            let e = Spec.insert_refused cap size (abs m) idx elem type h in
            let (m'', runs, holds) = insert_refines v idx hi elem type in
            absurd (
              not_refused _ _ (sym runs ∙ p) (ap (λ (r : Outcome × Status × Spec.State). r.0) e)
                refl)
      ]

  -- On a valid buffer, for indices of the sequence space: a successful insert leaves a valid buffer,
  -- stores its element under its index, and every other index answers as
  -- before, with the status and the element that it had.
  pub insert_only :
      {s : Status} {m' : Msgbuff}
      → insert m idx elem type ≡ some (success, s, m')
      → IsValid m'
        × (retrieve m' j true ≡ (
            if j == idx
            then (success, some Status.inprogress, some (elem, type))
            else retrieve m j true))
        × (get_idx_status m' j ≡ (if j == idx then Status.inprogress else get_idx_status m j))
  insert_only {m' = m'} p =
      let (h, holds) = insert-inserted p in
      (
        holds.valid,
        (retrieve_refines holds.valid j (in_size holds)).0
            ∙ (λ i. Spec.retrieve (holds.cap_same i) (holds.size_same i) (holds.holds i) j)
            ∙ retrieve-inserted h
            ∙ ap (λ r. if j == idx then (success, some Status.inprogress, some (elem, type)) else r)
                (sym (retrieve_refines v j hj).0),
        get_idx_status_refines holds.valid j (in_size holds)
            ∙ (λ i.
                Spec.status_at (holds.cap_same i) (holds.size_same i) (holds.holds i).window
                  (Spec.offset (holds.cap_same i) (holds.size_same i) (holds.holds i) j))
            ∙ status_inserted h
            ∙ ap (λ r. if j == idx then Status.inprogress else r)
                (sym (get_idx_status_refines v j hj)),
      )
    where
      in_size : {st : Spec.State} → Holds m m' st → j < m'.field_size
      in_size holds = omega (arith, holds.size_same)
