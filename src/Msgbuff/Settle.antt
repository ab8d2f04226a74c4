-- ===== src/Msgbuff/Settle.antt =====
-- What callers see of `nccl_ofi_msgbuff_complete`: the message is complete from then on, no other
-- message of the window changes, and the window never starts with a complete message.
use native.Mathlib.Nat.{mod-lt, mod-add-mod, mod-eq_of_lt, add-mod_right, add-mod-mod, add-zero}
use native.Mathlib.Decide.{dec_lt, ℕ_discrete}
use aws_ofi_nccl.Base.{
  ℕ, zero, suc, ◌+◌, ◌-◌, ◌*◌, ◌%◌, ◌≤◌, ◌<◌, ◌≡◌, refl, sym, ap, ◌∙◌, inl, inr, none, some, List,
  [], ◌∷◌, arith, length, get_or, Bool-cases, ◌==◌, true, false, ==_iff, if◌then◌else◌, lt→ltb, set,
  get_or-set_self, get_or-set_ne, length-set, mod_add_cases, mod_unique,
}
use aws_ofi_nccl.Msgbuff.{
  Msgbuff, req, Status, Outcome, success, get_idx_status, complete, is_completed, is_inprogress,
  distance, num_inflight,
}
use aws_ofi_nccl.Msgbuff.Spec
use aws_ofi_nccl.Msgbuff.Spec.{Cell, gap, busy, done, settle}
use aws_ofi_nccl.Msgbuff.Inv.{IsValid, abs, from_last}
use aws_ofi_nccl.Msgbuff.Laws.{same_index, same_buffer, not_refused}
use mathlib.Core.Path.{subst}
use aws_ofi_nccl.Msgbuff.Window.{length-window}
use aws_ofi_nccl.Msgbuff.Refine.{
  at, idx_at, window_le, Holds, complete_refines, get_idx_status_refines,
}

-- The front of the window is not a complete message.
abbrev pub HeadOpen : List Cell → Type 0
HeadOpen [] = Unit {0}
HeadOpen (c ∷ w) = is_completed c.status ≡ false

-- `d` complete cells left the front of `w`.
record Settled (size p : ℕ) (w : List Cell) (st : Spec.State) : Type 0 where
  gone : ℕ
  total : gone + length st.window ≡ length w
  first_at : st.first ≡ (p + gone) % size
  were_done : (j : ℕ) → j < gone → (get_or w j gap).status ≡ Status.completed
  kept : (j : ℕ) → get_or st.window j gap ≡ get_or w (gone + j) gap
  head : HeadOpen st.window

completed_eq : (s : Status) → is_completed s ≡ true → s ≡ Status.completed
completed_eq s h = ground arith

Settled-cons :
    (size p : ℕ) (c : Cell) (w : List Cell) {st : Spec.State}
    → is_completed c.status ≡ true
    → Settled size ((p + 1) % size) w st
    → Settled size p (c ∷ w) st
Settled-cons size p c w {st} e s = record {
  gone = suc s.gone;
  total = omega (arith, s.total);
  first_at =
      let shift : p + 1 + s.gone ≡ p + suc s.gone = omega arith in
      s.first_at ∙ mod-add-mod (p + 1) size s.gone ∙ ap (λ i. i % size) shift;
  were_done = λ j. done_cons j;
  kept = λ j.
      let shift : suc (s.gone + j) ≡ suc s.gone + j = omega arith in
      s.kept j ∙ ap (λ i. get_or (c ∷ w) i gap) shift;
  head = s.head;
}
  where
    done_cons : (j : ℕ) → j < suc s.gone → (get_or (c ∷ w) j gap).status ≡ Status.completed
    done_cons zero l = completed_eq c.status e
    done_cons (suc j) l = s.were_done j (omega arith)

settle-Settled :
    (cap size p : ℕ) (w : List Cell) → p < size → Settled size p w (settle cap size p w)
unfolding settle
settle-Settled cap size p [] h = record {
  gone = 0;
  total = omega arith;
  first_at = rw add-zero (sym (mod-eq_of_lt h));
  were_done = λ j l. absurd (omega arith);
  kept = λ j. refl;
  head = tt;
}
settle-Settled cap size p (c ∷ w) h = elim (Bool-cases (is_completed c.status)) [
  | inl e ↦ rw e (
      Settled-cons size p c w e
        (settle-Settled cap size ((p + 1) % size) w (mod-lt (p + 1) (omega arith))))
  | inr e ↦ rw e (record {
    gone = 0;
    total = omega arith;
    first_at = rw add-zero (sym (mod-eq_of_lt h));
    were_done = λ j l. absurd (omega arith);
    kept = λ j. ap (λ i. get_or (c ∷ w) i gap) (omega arith);
    head = e;
  })
]

offset_add : (size b x : ℕ) → b < size → x < size → ((b + x) % size + size - b) % size ≡ x
offset_add size b x hb hx = elim (mod_add_cases b x size hb hx) [
  | inl (l, e) ↦ rw e (mod_unique (b + x + size - b) size 1 x (omega arith) hx)
  | inr (l, e) ↦ rw e (mod_unique (b + x - size + size - b) size 0 x (omega arith) hx)
]

-- A message of the window, found again after the front of the window has left.
module _ (cap size p : ℕ) (w : List Cell) (st : Spec.State) (o : ℕ) (hp : p < size)
    (short : length w ≤ cap) (room : 2 * cap < size) (s : Settled size p w st)
    (l : o < length w) where
  abbrev again : ℕ
  again = Spec.offset cap size st ((p + o) % size)

  first_in : st.first < size
  first_in = rw s.first_at (mod-lt (p + s.gone) (omega arith))

  again_at : (x : ℕ) → x < size → (s.gone + x) % size ≡ o % size → again ≡ x
  again_at x hx e =
      let shift : p + s.gone + x ≡ p + (s.gone + x) = omega arith in
      ap (λ i. (i + size - st.first) % size)
        (sym (
          ap (λ i. (i + x) % size) s.first_at
          ∙ mod-add-mod (p + s.gone) size x
          ∙ ap (λ i. i % size) shift
          ∙ sym (add-mod-mod p (s.gone + x) size)
          ∙ ap (λ i. (p + i) % size) e
          ∙ add-mod-mod p o size))
      ∙ offset_add size st.first x first_in hx

  -- It is complete if it left, and has its status otherwise.
  status-settled : Spec.status_at cap size st.window again ≡ (get_or w o gap).status
  status-settled = elim (dec_lt o s.gone) [
    | yes q ↦
        let e : s.gone + (size + o - s.gone) ≡ o + size = omega (arith, s.total) in
        let place =
          again_at (size + o - s.gone) (omega (arith, s.total))
            (ap (λ i. i % size) e ∙ add-mod_right o size) in
        rw (place, s.were_done o q) (ground (arith, s.total))
    | no q ↦
        let e : s.gone + (o - s.gone) ≡ o = omega arith in
        let place = again_at (o - s.gone) (omega arith) (ap (λ i. i % size) e) in
        rw place (ground (arith, s.total, s.kept (o - s.gone), e))
  ]

module _ {m : Msgbuff} (v : IsValid m) (idx j : ℕ) (hi : idx < m.field_size)
    (hj : j < m.field_size) where
  abbrev cap : ℕ
  cap = m.max_inprogress

  abbrev size : ℕ
  size = m.field_size

  abbrev window_of : List Cell
  window_of = (abs m).window

  abbrev after : List Cell
  after = set window_of (at v idx hi) done

  abbrev settled : Spec.State
  settled = settle cap size (abs m).first after

  complete-settled :
      {s : Status} {m' : Msgbuff}
      → complete m idx ≡ some (success, s, m')
      → (at v idx hi < length window_of) × Holds m m' settled
  complete-settled {s} {m'} p =
      elim (Bool-cases (is_inprogress (Spec.status_at cap size window_of (at v idx hi)))) [
        | inl h ↦
            let e = Spec.complete-done cap size (abs m) idx none req h in
            let (m'', runs, holds) = complete_refines v idx hi in
            (
              Spec.inside_window cap size window_of (at v idx hi) h,
              rw
                  (
                    ← same_buffer _ _ (sym runs ∙ p),
                    ← ap (λ (r : Outcome × Status × Spec.State). r.2) e,
                  )
                  holds,
            )
        | inr h ↦
            let e = Spec.complete_refused cap size (abs m) idx none req h in
            let (m'', runs, holds) = complete_refines v idx hi in
            absurd (
              not_refused _ _ (sym runs ∙ p) (ap (λ (r : Outcome × Status × Spec.State). r.0) e)
                refl)
      ]

  offset_j : distance m j m.msg_last_incomplete ≡ at v j hj
  offset_j =
      ap (λ i. distance m i m.msg_last_incomplete) (sym (idx_at v j hj))
      ∙ from_last v (at v j hj) (mod-lt (j + size - m.msg_last_incomplete) (omega arith))

  -- The window of the specification, seen from the index `j`.
  cell_after :
      at v idx hi < length window_of
      → (get_or after (at v j hj) gap).status ≡ (
          if at v j hj == at v idx hi
          then Status.completed
          else (get_or window_of (at v j hj) gap).status)
  cell_after inside = elim (ℕ_discrete (at v j hj) (at v idx hi)) [
    | yes e ↦ rw (
      e,
      (==_iff (at v idx hi) (at v idx hi)).1 refl,
      get_or-set_self window_of (at v idx hi) done gap inside,
    )
    | no e ↦
        ground (arith, get_or-set_ne window_of (at v idx hi) (at v j hj) done gap (λ q. e (sym q)))
  ]

  status_after :
      at v idx hi < length window_of
      → at v j hj < length window_of
      → Spec.status_at cap size settled.window (Spec.offset cap size settled j)
        ≡ (if j == idx then Status.completed else get_idx_status m j)
  status_after inside l =
      ap (λ i. Spec.status_at cap size settled.window (Spec.offset cap size settled i))
        (sym (idx_at v j hj))
      ∙ status-settled cap size (abs m).first after settled (at v j hj) v.last_in
          (omega (arith, window_le v, length-set window_of (at v idx hi) done)) v.shape.room
          (settle-Settled cap size (abs m).first after v.last_in)
          (omega (arith, length-set window_of (at v idx hi) done))
      ∙ cell_after inside
      ∙ rw (
        same_index v idx j hi hj none req,
        get_idx_status_refines v j hj,
        lt→ltb (at v j hj) (length window_of) l,
      )

  -- On a valid buffer, for indices of the sequence space: after a successful completion the buffer
  -- is valid, the message is complete, every other message that was in the
  -- window has the status that it had, and the window starts with a message that is not complete.
  pub complete_only :
      {s : Status} {m' : Msgbuff}
      → complete m idx ≡ some (success, s, m')
      → distance m j m.msg_last_incomplete < num_inflight m
      → IsValid m'
        × HeadOpen (abs m').window
        × (get_idx_status m' j ≡ (if j == idx then Status.completed else get_idx_status m j))
  complete_only {m' = m'} p l =
      let (inside, holds) = complete-settled p in
      (
        holds.valid,
        subst (λ (st : Spec.State). HeadOpen st.window) (sym holds.holds)
            (settle-Settled cap size (abs m).first after v.last_in).head,
        get_idx_status_refines holds.valid j (omega (arith, holds.size_same))
            ∙ (λ i.
                Spec.status_at (holds.cap_same i) (holds.size_same i) (holds.holds i).window
                  (Spec.offset (holds.cap_same i) (holds.size_same i) (holds.holds i) j))
            ∙ status_after inside (omega (arith, l, offset_j, long)),
      )
    where
      long : length window_of ≡ num_inflight m
      long = length-window cap m.slots m.msg_last_incomplete (num_inflight m)
