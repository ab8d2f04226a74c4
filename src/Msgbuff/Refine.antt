-- ===== src/Msgbuff/Refine.antt =====
-- Each operation of nccl_ofi_msgbuff.c does to the window what its specification says.
use native.Mathlib.Nat.{mod-lt, mod-add-mod}
use native.Mathlib.Decide.{dec_lt}
use aws_ofi_nccl.Base.{
  ℕ, suc, ◌+◌, ◌-◌, ◌%◌, ◌≤◌, ◌<◌, ◌≡◌, refl, sym, ap, ◌∙◌, inl, inr, Option, none, some, List, [],
  ◌∷◌, ◌++◌, arith, length, get_or, Bool-cases, true, false, lt→ltb, le→ltb, set, replicate,
  get_or-set_self,
}
use aws_ofi_nccl.Msgbuff.{
  Msgbuff, Elem, ElemType, req, Status, success, invalid_idx, error, blank, distance, num_inflight,
  buff_idx, slot_of, put_idx, get_idx_status, advance, retire, rounds, insert, replace, retrieve,
  complete, is_notstarted, is_inprogress, for_reader,
}
use aws_ofi_nccl.Msgbuff.Spec
use aws_ofi_nccl.Msgbuff.Spec.{Cell, gap, busy, done, settle}
use aws_ofi_nccl.Msgbuff.Window.{
  window, view, length-window, window-set, window-set_beyond, get_or-window,
}
use aws_ofi_nccl.Msgbuff.Inv.{
  IsValid, abs, distance_back, slot_at, status_refines, index_at, num_inflight_count,
}
use aws_ofi_nccl.Msgbuff.Insert.{put-Shape, Advanced, advance_stop, advance_total}
use aws_ofi_nccl.Msgbuff.Complete.{with_last, last-Shape, Retired, retire_total}

-- `m'` is a valid buffer of the same dimensions as `m`, and holds `st`.
pub record Holds (m m' : Msgbuff) (st : Spec.State) : Type 0 where
  pub valid : IsValid m'
  pub size_same : m'.field_size ≡ m.field_size
  pub cap_same : m'.max_inprogress ≡ m.max_inprogress
  pub holds : abs m' ≡ st

abbrev pub cells : {m : Msgbuff} → IsValid m → List Cell
cells {m} v = window m.max_inprogress m.slots m.msg_last_incomplete v.count

pub abs_at :
    {m : Msgbuff} (v : IsValid m)
    → abs m ≡ record { first = m.msg_last_incomplete; window = cells v }
abs_at {m} v =
    ap
      (λ n. record {
        first = m.msg_last_incomplete;
        window = window m.max_inprogress m.slots m.msg_last_incomplete n;
      })
      (num_inflight_count v)

pub window_le : {m : Msgbuff} (v : IsValid m) → length (abs m).window ≤ m.max_inprogress
window_le {m} v = omega (
  arith,
  v.count_le,
  num_inflight_count v,
  length-window m.max_inprogress m.slots m.msg_last_incomplete (num_inflight m),
)

pub Holds-self : {m : Msgbuff} (v : IsValid m) → Holds m m (abs m)
Holds-self v = record { valid = v; size_same = refl; cap_same = refl; holds = refl }

is_inprogress_eq : {s t : Status} → t ≡ s → is_inprogress s ≡ true → t ≡ Status.inprogress
is_inprogress_eq {s} e h = e ∙ known s h
  where
    known : (s : Status) → is_inprogress s ≡ true → s ≡ Status.inprogress
    known s h = ground arith

-- An index inside the circle, and its offset from the first message.
module _ {m : Msgbuff} (v : IsValid m) (idx : ℕ) (hi : idx < m.field_size) where
  abbrev pub at : ℕ
  at = Spec.offset m.max_inprogress m.field_size (abs m) idx

  at_in : at < m.field_size
  at_in = mod-lt (idx + m.field_size - m.msg_last_incomplete) (omega arith)

  pub idx_at : (m.msg_last_incomplete + at) % m.field_size ≡ idx
  idx_at = index_at m m.msg_last_incomplete idx v.last_in hi

  -- On a valid buffer, the status of an index of the sequence space is what its window says.
  pub get_idx_status_refines :
      get_idx_status m idx ≡ Spec.status_at m.max_inprogress m.field_size (abs m).window at
  get_idx_status_refines = ap (get_idx_status m) (sym idx_at) ∙ status_refines v at at_in

  slot_idx : slot_of m idx ≡ (m.msg_last_incomplete + at) % m.max_inprogress
  slot_idx = ap (slot_of m) (sym idx_at) ∙ slot_at v.shape (m.msg_last_incomplete + at)

  -- A write to a slot inside the window sets its cell.
  Holds-put :
      (e : Elem)
      → at < v.count
      → Holds m
          (put_idx m idx e)
          (record { first = m.msg_last_incomplete; window = set (cells v) at (view e) })
  Holds-put e l =
      let kept : IsValid (put_idx m idx e) = record {
        shape = put-Shape v.shape idx e;
        last_in = v.last_in;
        count = v.count;
        count_le = v.count_le;
        next_at = v.next_at;
      } in
      record {
        valid = kept;
        size_same = refl;
        cap_same = refl;
        holds =
            abs_at kept
            ∙ ap (λ w. record { first = m.msg_last_incomplete; window = w })
                (window-set m.max_inprogress m.slots m.msg_last_incomplete v.count at
                  (slot_of m idx) e (omega (arith, v.shape.storage)) l v.count_le slot_idx);
      }

  -- Inside the window `msg_next` stays.
  insert_inside :
      (e : Elem) → at < v.count → advance (rounds m) (put_idx m idx e) idx ≡ some (put_idx m idx e)
  insert_inside e l =
      advance_stop m.field_size (put_idx m idx e) idx (omega (arith, far, v.count_le, v.shape.room))
    where
      after : m.msg_next ≡ (idx + (v.count - at)) % m.field_size
      after =
          let shift : m.msg_last_incomplete + at + (v.count - at)
              ≡ m.msg_last_incomplete + v.count =
            omega arith in
          v.next_at
          ∙ sym (
              ap (λ j. (j + (v.count - at)) % m.field_size) (sym idx_at)
              ∙ mod-add-mod (m.msg_last_incomplete + at) m.field_size (v.count - at)
              ∙ ap (λ j. j % m.field_size) shift)

      far : distance (put_idx m idx e) idx m.msg_next ≡ m.field_size - (v.count - at)
      far =
          ap (distance (put_idx m idx e) idx) after
          ∙ distance_back (put_idx m idx e) v.shape.small idx (v.count - at) hi (omega arith)
              (omega (arith, v.count_le, v.shape.room))

  Holds-Advanced :
      (e : Elem)
      → v.count ≤ at
      → at < m.max_inprogress
      → {m' : Msgbuff} → Advanced (put_idx m idx e) m' v.count (at - v.count)
      → Holds m m' (record {
        first = m.msg_last_incomplete;
        window = cells v ++ (replicate (at - v.count) gap ++ view e ∷ []);
      })
  Holds-Advanced e l c {m'} a = record {
    valid = kept;
    size_same = a.size_same;
    cap_same = a.cap_same;
    holds = abs_at kept ∙ (λ i. record { first = a.last_same i; window = appended i });
  }
    where
      whole : v.count + (at - v.count) ≡ at
      whole = omega arith

      kept : IsValid m'
      kept = record {
        shape = a.shape;
        last_in = omega (arith, a.last_same, a.size_same, v.last_in);
        count = v.count + (at - v.count) + 1;
        count_le = omega (arith, a.cap_same);
        next_at = cc (a.next_at, a.last_same, a.size_same);
      }

      one : v.count + (at - v.count) + 1 ≡ suc (v.count + (at - v.count))
      one = omega arith

      placed :
          get_or
            (put_idx m idx e).slots
            ((m.msg_last_incomplete + (v.count + (at - v.count))) % m.max_inprogress)
            blank
          ≡ e
      placed =
          ap
            (λ j.
              get_or (put_idx m idx e).slots ((m.msg_last_incomplete + j) % m.max_inprogress) blank)
            whole
          ∙ ap (λ j. get_or (put_idx m idx e).slots j blank) (sym slot_idx)
          ∙ get_or-set_self m.slots (slot_of m idx) e blank
              (omega (arith, v.shape.storage, mod-lt idx v.shape.some_slot))

      appended : cells kept ≡ cells v ++ (replicate (at - v.count) gap ++ view e ∷ [])
      appended = cc (
        a.cap_same,
        a.last_same,
        one,
        a.cells,
        window-set_beyond m.max_inprogress m.slots m.msg_last_incomplete v.count at (slot_of m idx)
            e l c slot_idx,
        placed,
      )

  -- Beyond it, gaps and the new cell are appended.
  insert_beyond :
      (e : Elem)
      → v.count ≤ at
      → at < m.max_inprogress
      → (m' : Msgbuff) × (advance (rounds m) (put_idx m idx e) idx ≡ some m')
        × Holds m m' (record {
          first = m.msg_last_incomplete;
          window = cells v ++ (replicate (at - v.count) gap ++ view e ∷ []);
        })
  insert_beyond e l c =
      let whole : v.count + (at - v.count) ≡ at = omega arith in
      let (m', runs, a) =
        advance_total (at - v.count) (rounds m) v.count idx (put_idx m idx e)
          (omega (arith, v.shape.room)) (put-Shape v.shape idx e) v.last_in (omega arith) v.next_at
          (sym idx_at ∙ ap (λ j. (m.msg_last_incomplete + j) % m.field_size) (sym whole)) in
      (m', runs, Holds-Advanced e l c a)

  long : length (cells v) ≡ v.count
  long = length-window m.max_inprogress m.slots m.msg_last_incomplete v.count

  abbrev status : Status
  status = Spec.status_at m.max_inprogress m.field_size (abs m).window at

  long_abs : length (abs m).window ≡ v.count
  long_abs = rw (num_inflight_count v) long

  -- A message that is not started and lies beyond the window still fits into the storage.
  room_beyond : v.count ≤ at → is_notstarted status ≡ true → at < m.max_inprogress
  room_beyond l e =
      Spec.room_beyond m.max_inprogress m.field_size (abs m).window at (omega (arith, long_abs)) e

  -- A message in progress is inside the window.
  inside_window : is_inprogress status ≡ true → at < v.count
  inside_window e =
      omega (arith, long_abs, Spec.inside_window m.max_inprogress m.field_size (abs m).window at e)

  place_inside :
      (c : Cell)
      → at < v.count
      → record { first = m.msg_last_incomplete; window = set (cells v) at c }
        ≡ record (abs m) { window = Spec.place m.max_inprogress m.field_size (abs m).window at c }
  place_inside c l = rw (num_inflight_count v, long, lt→ltb at v.count l)

  place_beyond :
      (c : Cell)
      → v.count ≤ at
      → record {
        first = m.msg_last_incomplete;
        window = cells v ++ (replicate (at - v.count) gap ++ c ∷ []);
      }
        ≡ record (abs m) { window = Spec.place m.max_inprogress m.field_size (abs m).window at c }
  place_beyond c l = rw (num_inflight_count v, long, le→ltb at v.count l)

  -- A message in progress is stored in progress.
  stored_inprogress : is_inprogress status ≡ true → (buff_idx m idx).stat ≡ Status.inprogress
  stored_inprogress h =
      is_inprogress_eq (ap (λ j. (get_or m.slots j blank).stat) slot_idx ∙ sym cell ∙ sym here) h
    where
      l : at < v.count
      l = inside_window h

      cell :
          (get_or (cells v) at gap).status
          ≡ (get_or m.slots ((m.msg_last_incomplete + at) % m.max_inprogress) blank).stat
      cell =
          ap (λ (c : Cell). c.status)
            (get_or-window m.max_inprogress m.slots m.msg_last_incomplete v.count at gap l)

      here : status ≡ (get_or (cells v) at gap).status
      here = rw (num_inflight_count v, long, lt→ltb at v.count l)

  set_inside :
      (c : Cell)
      → record { first = m.msg_last_incomplete; window = set (cells v) at c }
        ≡ record (abs m) { window = set (abs m).window at c }
  set_inside c = rw (num_inflight_count v)

  module _ (elem : Option ℕ) (type : ElemType) where
    abbrev stored : Elem
    stored = record { stat = Status.inprogress; type = type; elem = elem }

    insert_runs :
        {m' : Msgbuff}
        → is_notstarted status ≡ true
        → advance (rounds m) (put_idx m idx stored) idx ≡ some m'
        → insert m idx elem type ≡ some (success, status, m')
    unfolding insert
    insert_runs {m'} h runs =
        rw (get_idx_status_refines, h, runs)
          (ap (λ t. some (success, t, m')) get_idx_status_refines)

    insert_refused :
        is_notstarted status ≡ false → insert m idx elem type ≡ some (invalid_idx, status, m)
    unfolding insert
    insert_refused h = rw (get_idx_status_refines, h)

    -- On a valid buffer, for every index of the sequence space: `nccl_ofi_msgbuff_insert` ends within its rounds, returns the result and the
    -- status of the specification, and leaves a valid buffer that holds the specified window.
    pub insert_refines :
        let (o, s, st) = Spec.insert m.max_inprogress m.field_size (abs m) idx elem type in
        (m' : Msgbuff) × (insert m idx elem type ≡ some (o, s, m')) × Holds m m' st
    insert_refines = elim (Bool-cases (is_notstarted status)) [
      | inl fresh ↦
          rw (Spec.insert_fresh m.max_inprogress m.field_size (abs m) idx elem type fresh)
            (elim (dec_lt at v.count) [
              | yes l ↦ (
                put_idx m idx stored,
                insert_runs fresh (insert_inside stored l),
                rw (← place_inside (busy elem type) l) (Holds-put stored l),
              )
              | no l ↦
                  let le : v.count ≤ at = omega arith in
                  let (m', runs, holds) = insert_beyond stored le (room_beyond le fresh) in
                  (m', insert_runs fresh runs, rw (← place_beyond (busy elem type) le) holds)
            ])
      | inr old ↦
          rw (Spec.insert_refused m.max_inprogress m.field_size (abs m) idx elem type old)
            (m, insert_refused old, Holds-self v)
    ]

    abbrev replaced : Elem
    replaced = record (buff_idx m idx) { elem = elem; type = type }

    view-replaced : is_inprogress status ≡ true → view replaced ≡ busy elem type
    view-replaced h = rw (stored_inprogress h)

    replace_runs :
        is_inprogress status ≡ true
        → replace m idx elem type ≡ (success, status, put_idx m idx replaced)
    unfolding replace
    replace_runs h = rw (get_idx_status_refines, h)

    replace_refused :
        is_inprogress status ≡ false → replace m idx elem type ≡ (invalid_idx, status, m)
    unfolding replace
    replace_refused h = rw (get_idx_status_refines, h)

    -- On a valid buffer, for every index of the sequence space: `nccl_ofi_msgbuff_replace` returns the result and the status of the
    -- specification, and leaves a valid buffer that holds the specified window.
    pub replace_refines :
        let (o, s, st) = Spec.replace m.max_inprogress m.field_size (abs m) idx elem type in
        (m' : Msgbuff) × (replace m idx elem type ≡ (o, s, m')) × Holds m m' st
    replace_refines = elim (Bool-cases (is_inprogress status)) [
      | inl h ↦ rw (Spec.replace_stored m.max_inprogress m.field_size (abs m) idx elem type h) (
        put_idx m idx replaced,
        replace_runs h,
        rw (← set_inside (busy elem type), ← view-replaced h)
            (Holds-put replaced (inside_window h)),
      )
      | inr h ↦
          rw (Spec.replace_refused m.max_inprogress m.field_size (abs m) idx elem type h)
            (m, replace_refused h, Holds-self v)
    ]

  -- The buffer with its message marked complete, before the window settles.
  abbrev marked : Msgbuff
  marked = put_idx m idx (record (buff_idx m idx) { stat = Status.completed; elem = none })

  marked_cells :
      at < v.count
      → window m.max_inprogress marked.slots m.msg_last_incomplete v.count
        ≡ set (abs m).window at done
  marked_cells l = rw (num_inflight_count v) (
      window-set m.max_inprogress m.slots m.msg_last_incomplete v.count at (slot_of m idx)
        (record (buff_idx m idx) { stat = Status.completed; elem = none })
        (omega (arith, v.shape.storage)) l v.count_le slot_idx)

  complete_runs :
      {m' : Msgbuff}
      → is_inprogress status ≡ true
      → retire (rounds m) marked ≡ some m'
      → complete m idx ≡ some (success, status, m')
  unfolding complete
  complete_runs {m'} h runs =
      rw (get_idx_status_refines, h, runs) (ap (λ t. some (success, t, m')) get_idx_status_refines)

  complete_refused :
      is_inprogress status ≡ false → complete m idx ≡ some (invalid_idx, for_reader status, m)
  unfolding complete
  complete_refused h = rw (get_idx_status_refines, h)

  Holds-Retired :
      {st : Spec.State} → Retired marked v.count st → Holds m (with_last marked st.first) st
  Holds-Retired {st} r =
      let kept : IsValid (with_last marked st.first) = record {
        shape = last-Shape (put-Shape v.shape idx _) st.first;
        last_in = r.first_in;
        count = length st.window;
        count_le = omega (arith, r.shorter, v.count_le);
        next_at = r.next_at;
      } in
      record {
        valid = kept;
        size_same = refl;
        cap_same = refl;
        holds = abs_at kept ∙ (λ i. record { first = st.first; window = r.cells i });
      }

  -- On a valid buffer, for every index of the sequence space: `nccl_ofi_msgbuff_complete` ends within its rounds, returns the result and the
  -- status of the specification, and leaves a valid buffer that holds the settled window.
  pub complete_refines :
      let (o, s, st) = Spec.complete m.max_inprogress m.field_size (abs m) idx in
      (m' : Msgbuff) × (complete m idx ≡ some (o, s, m')) × Holds m m' st
  complete_refines = elim (Bool-cases (is_inprogress status)) [
    | inl h ↦
        let (runs, r) =
          retire_total v.count (rounds m) marked (omega (arith, v.count_le, v.shape.room))
            (put-Shape v.shape idx _) v.last_in v.count_le v.next_at in
        rw (Spec.complete-done m.max_inprogress m.field_size (abs m) idx none req h) (
          with_last marked _,
          complete_runs h runs,
          rw (← marked_cells (inside_window h)) (Holds-Retired r),
        )
    | inr h ↦
        rw (Spec.complete_refused m.max_inprogress m.field_size (abs m) idx none req h)
          (m, complete_refused h, Holds-self v)
  ]

  held_at :
      is_inprogress status ≡ true
      → (get_or (abs m).window at gap).held ≡ some ((buff_idx m idx).elem, (buff_idx m idx).type)
  held_at h = rw (
    num_inflight_count v,
    get_or-window m.max_inprogress m.slots m.msg_last_incomplete v.count at gap (inside_window h),
    ← slot_idx,
    stored_inprogress h,
  )

  -- On a valid buffer, for every index of the sequence space: `nccl_ofi_msgbuff_retrieve` gives the answer of the specification, and refuses
  -- to answer when it has no place for the element.
  pub retrieve_refines :
      (retrieve m idx true ≡ Spec.retrieve m.max_inprogress m.field_size (abs m) idx)
      × (retrieve m idx false ≡ (error, none, none))
  unfolding retrieve Spec.retrieve
  retrieve_refines = (
    rw get_idx_status_refines
        (elim (Bool-cases (is_inprogress status)) [ inl h ↦ rw (h, held_at h) | inr h ↦ rw h ]),
    refl,
  )
