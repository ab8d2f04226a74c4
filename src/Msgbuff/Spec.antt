-- ===== src/Msgbuff/Spec.antt =====
-- What a message buffer promises: a window of cells that starts at the oldest incomplete message,
-- inside a circle of `size` sequence numbers. No storage, no slots and no pointers.
use aws_ofi_nccl.Base.{
  ℕ, ◌≡◌, ◌≤◌, ◌<◌, true, false, arith, ◌+◌, ◌-◌, ◌%◌, Option, none, some, List, [], ◌∷◌, ◌++◌, ltb,
  leb, if◌then◌else◌, length, get_or, set, replicate,
}
use aws_ofi_nccl.Msgbuff.{
  Status, Outcome, success, invalid_idx, ElemType, is_inprogress, is_notstarted, is_completed,
  for_reader,
}

-- A cell holds an element only while its message is in progress.
pub record Cell : Type 0 where
  pub status : Status
  pub held : Option (Option ℕ × ElemType)

abbrev pub gap : Cell
gap = record { status = Status.notstarted; held = none }

abbrev pub done : Cell
done = record { status = Status.completed; held = none }

abbrev pub busy : Option ℕ → ElemType → Cell
busy e t = record { status = Status.inprogress; held = some (e, t) }

pub record State : Type 0 where
  pub first : ℕ
  pub window : List Cell

-- How far a cell lies behind the first.
module _ (cap size : ℕ) where
  abbrev pub offset : State → ℕ → ℕ
  offset s idx = (idx + size - s.first) % size

  -- The `cap` numbers below the window are complete, and `cap` is the longest window.
  abbrev pub status_at : List Cell → ℕ → Status
  status_at w k =
      if ltb k (length w)
      then (get_or w k gap).status
      else if leb size (k + cap)
      then Status.completed
      else if ltb k cap
      then Status.notstarted
      else Status.unavailable

  -- A cell inside the window is overwritten; one beyond it is appended behind gaps.
  abbrev pub place : List Cell → ℕ → Cell → List Cell
  place w k c =
      if ltb k (length w) then set w k c else w ++ (replicate (k - length w) gap ++ c ∷ [])

  unfoldable pub insert : State → ℕ → Option ℕ → ElemType → Outcome × Status × State
  insert s idx e t =
      let k = offset s idx in
      let status = status_at s.window k in
      if is_notstarted status
      then (success, status, record s { window = place s.window k (busy e t) })
      else (invalid_idx, status, s)

  unfoldable pub replace : State → ℕ → Option ℕ → ElemType → Outcome × Status × State
  replace s idx e t =
      let k = offset s idx in
      let status = status_at s.window k in
      if is_inprogress status
      then (success, status, record s { window = set s.window k (busy e t) })
      else (invalid_idx, status, s)

  -- Complete cells leave at the front.
  unfoldable pub settle : ℕ → List Cell → State
  settle p [] = record { first = p; window = [] }
  settle p (c ∷ w) =
      let rest = settle ((p + 1) % size) w in
      if is_completed c.status then rest else record { first = p; window = c ∷ w }

  unfoldable pub complete : State → ℕ → Outcome × Status × State
  complete s idx =
      let k = offset s idx in
      let status = status_at s.window k in
      if is_inprogress status
      then (success, status, settle s.first (set s.window k done))
      else (invalid_idx, for_reader status, s)

  pub room_beyond :
      (w : List Cell) (k : ℕ) → length w ≤ k → is_notstarted (status_at w k) ≡ true → k < cap
  room_beyond w k l e = ground arith

  pub inside_window : (w : List Cell) (k : ℕ) → is_inprogress (status_at w k) ≡ true → k < length w
  inside_window w k e = ground arith

  -- The answer about a message depends on its status and on what its cell holds.
  abbrev pub answer :
      Status → Option (Option ℕ × ElemType) → Outcome × Option Status × Option (Option ℕ × ElemType)
  answer status held =
      if is_inprogress status
      then (success, some status, held)
      else (invalid_idx, some (for_reader status), none)

  unfoldable pub retrieve : State → ℕ → Outcome × Option Status × Option (Option ℕ × ElemType)
  retrieve s idx =
      answer (status_at s.window (offset s idx)) (get_or s.window (offset s idx) gap).held

  module _ (s : State) (idx : ℕ) (e : Option ℕ) (t : ElemType) where
    abbrev status_of : Status
    status_of = status_at s.window (offset s idx)

    pub insert_fresh :
        is_notstarted status_of ≡ true
        → insert s idx e t
          ≡ (success, status_of, record s { window = place s.window (offset s idx) (busy e t) })
    unfolding insert
    insert_fresh h = rw h

    pub insert_refused :
        is_notstarted status_of ≡ false → insert s idx e t ≡ (invalid_idx, status_of, s)
    unfolding insert
    insert_refused h = rw h

    pub replace_stored :
        is_inprogress status_of ≡ true
        → replace s idx e t
          ≡ (success, status_of, record s { window = set s.window (offset s idx) (busy e t) })
    unfolding replace
    replace_stored h = rw h

    pub replace_refused :
        is_inprogress status_of ≡ false → replace s idx e t ≡ (invalid_idx, status_of, s)
    unfolding replace
    replace_refused h = rw h

    pub complete-done :
        is_inprogress status_of ≡ true
        → complete s idx ≡ (success, status_of, settle s.first (set s.window (offset s idx) done))
    unfolding complete
    complete-done h = rw h

    pub complete_refused :
        is_inprogress status_of ≡ false → complete s idx ≡ (invalid_idx, for_reader status_of, s)
    unfolding complete
    complete_refused h = rw h
