-- ===== src/Msgbuff/Insert.antt =====
-- The loop of `nccl_ofi_msgbuff_insert`: `msg_next` moves past the inserted index, and the indices
-- that it passes over become gaps.
use native.Mathlib.Nat.{mod-lt, mod-add-mod, mod-eq_of_lt, add-zero}
use mathlib.Core.List.{append_assoc}
use aws_ofi_nccl.Base.{
  ℕ, zero, suc, ◌+◌, ◌-◌, ◌%◌, ◌≤◌, ◌<◌, ◌≡◌, ◌≢◌, refl, sym, ap, ◌∙◌, inl, inr, none, some, [],
  ◌∷◌, ◌++◌, arith, get_or, replicate, length-set, get_or-set_ne, get_or-set_self, bit_and,
  bit_and_mask, ◌==◌, ==_iff, Bool-cases,
}
use aws_ofi_nccl.Msgbuff.{
  Msgbuff, Elem, Status, blank, distance, buff_idx, slot_of, put_idx, advance,
}
use aws_ofi_nccl.Msgbuff.Spec.{gap}
use aws_ofi_nccl.Msgbuff.Window.{window, view, window_snoc, window-set_beyond, slots_differ}
use aws_ofi_nccl.Msgbuff.Inv.{Shape, distance_add, distance_back, slot_at}

-- Writing a slot keeps the shape.
pub put-Shape : {m : Msgbuff} → Shape m → (i : ℕ) (e : Elem) → Shape (put_idx m i e)
put-Shape {m} s i e = record {
  width = s.width;
  quot = s.quot;
  size = s.size;
  mask = s.mask;
  small = s.small;
  room = s.room;
  some_slot = s.some_slot;
  storage = length-set m.slots (slot_of m i) e ∙ s.storage;
  divides = s.divides;
}

-- So does moving the two ends of the window.
pub move-Shape : {m : Msgbuff} → Shape m → (p : ℕ) → Shape (record m { msg_next = p })
move-Shape s p = record {
  width = s.width;
  quot = s.quot;
  size = s.size;
  mask = s.mask;
  small = s.small;
  room = s.room;
  some_slot = s.some_slot;
  storage = s.storage;
  divides = s.divides;
}

-- The mask brings the next number round the circle.
pub mask_step :
    {m : Msgbuff} (s : Shape m) (b n p : ℕ)
    → p ≡ (b + n) % m.field_size
    → bit_and (p + 1) m.field_mask ≡ (b + (n + 1)) % m.field_size
mask_step {m} s b n p e =
    let shift : b + n + 1 ≡ b + (n + 1) = omega arith in
    rw s.mask (
      bit_and_mask s.width (p + 1)
      ∙ ap (λ j. (p + 1) % j) (sym s.size)
      ∙ ap (λ j. (j + 1) % m.field_size) e
      ∙ mod-add-mod (b + n) m.field_size 1
      ∙ ap (λ j. j % m.field_size) shift)

module _ (fuel : ℕ) (m : Msgbuff) (idx : ℕ) where
  abbrev moved : Msgbuff → Msgbuff
  moved c = record c { msg_next = bit_and (m.msg_next + 1) m.field_mask }

  abbrev cleared : Msgbuff
  cleared =
      put_idx m m.msg_next
        (record (buff_idx m m.msg_next) { stat = Status.notstarted; elem = none })

  pub advance_stop :
      m.max_inprogress < distance m idx m.msg_next → advance (suc fuel) m idx ≡ some m
  unfolding advance
  advance_stop h = ground arith

  advance_here :
      m.msg_next ≡ idx
      → distance m idx m.msg_next ≤ m.max_inprogress
      → advance (suc fuel) m idx ≡ advance fuel (moved m) idx
  unfolding advance
  advance_here e h = rw ((==_iff m.msg_next idx).1 e) (ground arith)

  advance_over :
      m.msg_next ≢ idx
      → distance m idx m.msg_next ≤ m.max_inprogress
      → advance (suc fuel) m idx ≡ advance fuel (moved cleared) idx
  unfolding advance
  advance_over ne h = elim (Bool-cases (m.msg_next == idx)) [
    | inl e ↦ absurd (ne ((==_iff m.msg_next idx).0 e))
    | inr e ↦ rw e (ground arith)
  ]

-- What the loop has done: the window of `m`, then `d` gaps, then the cell at the index.
pub record Advanced (m m' : Msgbuff) (n d : ℕ) : Type 0 where
  pub shape : Shape m'
  pub last_same : m'.msg_last_incomplete ≡ m.msg_last_incomplete
  pub size_same : m'.field_size ≡ m.field_size
  pub cap_same : m'.max_inprogress ≡ m.max_inprogress
  pub next_at : m'.msg_next ≡ (m.msg_last_incomplete + (n + d + 1)) % m.field_size
  pub cells :
      window m.max_inprogress m'.slots m.msg_last_incomplete (suc (n + d))
      ≡ window m.max_inprogress m.slots m.msg_last_incomplete n
        ++ (replicate d gap
            ++ view (get_or m.slots ((m.msg_last_incomplete + (n + d)) % m.max_inprogress) blank)
              ∷ [])

-- The index stands `d` places past `msg_next`.
module _ {m : Msgbuff} (s : Shape m) (n d idx : ℕ) (c : n + d < m.max_inprogress)
    (e : m.msg_next ≡ (m.msg_last_incomplete + n) % m.field_size)
    (at : idx ≡ (m.msg_last_incomplete + (n + d)) % m.field_size) where
  next_in : m.msg_next < m.field_size
  next_in = rw e (mod-lt (m.msg_last_incomplete + n) (omega (arith, s.room)))

  ahead : idx ≡ (m.msg_next + d) % m.field_size
  ahead =
      let shift : m.msg_last_incomplete + n + d ≡ m.msg_last_incomplete + (n + d) = omega arith in
      at
      ∙ sym (ap (λ j. j % m.field_size) shift)
      ∙ sym (mod-add-mod (m.msg_last_incomplete + n) m.field_size d)
      ∙ ap (λ j. (j + d) % m.field_size) (sym e)

  dist_at : distance m idx m.msg_next ≡ d
  dist_at =
      ap (λ j. distance m j m.msg_next) ahead
      ∙ distance_add m s.small m.msg_next d next_in (omega (arith, s.room, c))

  moved_next : (moved 0 m idx m).msg_next ≡ (m.msg_last_incomplete + (n + 1)) % m.field_size
  moved_next = mask_step s m.msg_last_incomplete n m.msg_next e

  slot_idx : slot_of m idx ≡ (m.msg_last_incomplete + (n + d)) % m.max_inprogress
  slot_idx = ap (slot_of m) at ∙ slot_at s (m.msg_last_incomplete + (n + d))

  slot_next : slot_of m m.msg_next ≡ (m.msg_last_incomplete + n) % m.max_inprogress
  slot_next = ap (slot_of m) e ∙ slot_at s (m.msg_last_incomplete + n)

  slots_apart : 0 < d → slot_of m m.msg_next ≢ slot_of m idx
  slots_apart pos h =
      let shift : m.msg_last_incomplete + n + d ≡ m.msg_last_incomplete + (n + d) = omega arith in
      slots_differ m.max_inprogress (m.msg_last_incomplete + n) d pos (omega (arith, c))
        (sym slot_next ∙ h ∙ slot_idx ∙ sym (ap (λ j. j % m.max_inprogress) shift))

  -- Stepping past the index itself ends the loop.
  base_stops : d ≡ 0 → (fuel : ℕ) → advance (suc (suc fuel)) m idx ≡ some (moved 0 m idx m)
  base_stops z fuel =
      advance_here (suc fuel) m idx here (omega (arith, dist_at))
      ∙ advance_stop fuel (moved 0 m idx m) idx (omega (arith, past, s.room, s.some_slot))
    where
      here : m.msg_next ≡ idx
      here =
          let none_more : m.msg_next ≡ m.msg_next + d = omega arith in
          sym (mod-eq_of_lt next_in) ∙ ap (λ j. j % m.field_size) none_more ∙ sym ahead

      idx_in : idx < m.field_size
      idx_in = omega (arith, here, next_in)

      mod_again : (m.msg_next + d) % m.field_size ≡ idx % m.field_size
      mod_again = sym ahead ∙ sym (mod-eq_of_lt idx_in)

      past : distance (moved 0 m idx m) idx (moved 0 m idx m).msg_next ≡ m.field_size - 1
      past =
          let here0 : m.msg_next ≡ (idx + 0) % m.field_size =
            here ∙ ahead ∙ mod_again ∙ ap (λ j. j % m.field_size) (sym (add-zero idx)) in
          ap (distance (moved 0 m idx m) idx) (mask_step s idx 0 m.msg_next here0)
          ∙ distance_back (moved 0 m idx m) s.small idx 1 idx_in (omega arith)
              (omega (arith, s.room, s.some_slot))

-- The first gap of the loop.
module _ {m : Msgbuff} (s : Shape m) (n d idx : ℕ) (c : n + suc d < m.max_inprogress)
    (e : m.msg_next ≡ (m.msg_last_incomplete + n) % m.field_size)
    (at : idx ≡ (m.msg_last_incomplete + (n + suc d)) % m.field_size) where
  abbrev next : Msgbuff
  next = moved 0 m idx (cleared 0 m idx)

  idx_kept :
      get_or next.slots ((m.msg_last_incomplete + (n + suc d)) % m.max_inprogress) blank
      ≡ get_or m.slots ((m.msg_last_incomplete + (n + suc d)) % m.max_inprogress) blank
  idx_kept = get_or-set_ne m.slots (slot_of m m.msg_next) _ _ blank (λ h.
      slots_apart s n (suc d) idx c e at (omega arith) (h ∙ sym (slot_idx s n (suc d) idx c e at)))

  first_gap :
      window m.max_inprogress next.slots m.msg_last_incomplete (suc n)
      ≡ window m.max_inprogress m.slots m.msg_last_incomplete n ++ gap ∷ []
  first_gap =
      window_snoc m.max_inprogress next.slots m.msg_last_incomplete n
      ∙ cc (
        window-set_beyond m.max_inprogress m.slots m.msg_last_incomplete n n (slot_of m m.msg_next)
            (record (buff_idx m m.msg_next) { stat = Status.notstarted; elem = none }) (omega arith)
            (omega arith) (slot_next s n (suc d) idx c e at),
        ap (λ j. get_or next.slots j blank) (sym (slot_next s n (suc d) idx c e at)),
        get_or-set_self m.slots (slot_of m m.msg_next)
            (record (buff_idx m m.msg_next) { stat = Status.notstarted; elem = none }) blank
            (omega (arith, s.storage, mod-lt m.msg_next s.some_slot)),
      )

  Advanced-step : {m' : Msgbuff} → Advanced next m' (n + 1) d → Advanced m m' n (suc d)
  Advanced-step {m'} a =
      let same : n + 1 + d ≡ n + suc d = omega arith in
      let one : n + 1 ≡ suc n = omega arith in
      record {
        shape = a.shape;
        last_same = a.last_same;
        size_same = a.size_same;
        cap_same = a.cap_same;
        next_at = rw (← same) a.next_at;
        cells =
            ap (λ j. window m.max_inprogress m'.slots m.msg_last_incomplete (suc j)) (sym same)
            ∙ a.cells
            ∙ cc (
              ap (window m.max_inprogress next.slots m.msg_last_incomplete) one,
              first_gap,
              idx_kept,
              append_assoc (window m.max_inprogress m.slots m.msg_last_incomplete n) (gap ∷ []) (
                  replicate d gap
                  ++ view (
                      get_or m.slots ((m.msg_last_incomplete + (n + suc d)) % m.max_inprogress)
                        blank)
                    ∷ []),
            );
      }

-- With more rounds than there are indices to pass, the loop ends and has done that.
pub advance_total :
    (d fuel n idx : ℕ) (m : Msgbuff)
    → d + 2 ≤ fuel
    → Shape m
    → m.msg_last_incomplete < m.field_size
    → n + d < m.max_inprogress
    → m.msg_next ≡ (m.msg_last_incomplete + n) % m.field_size
    → idx ≡ (m.msg_last_incomplete + (n + d)) % m.field_size
    → (m' : Msgbuff) × (advance fuel m idx ≡ some m') × Advanced m m' n d
advance_total d zero n idx m f s l c e at = absurd (omega arith)
advance_total zero (suc zero) n idx m f s l c e at = absurd (omega arith)
advance_total zero (suc (suc fuel)) n idx m f s l c e at = (
  moved 0 m idx m,
  base_stops s n 0 idx c e at refl fuel,
  record {
    shape = move-Shape s (moved 0 m idx m).msg_next;
    last_same = refl;
    size_same = refl;
    cap_same = refl;
    next_at = rw (add-zero n) (moved_next s n 0 idx c e at);
    cells = rw (add-zero n) (window_snoc m.max_inprogress m.slots m.msg_last_incomplete n);
  },
)
advance_total (suc d) (suc fuel) n idx m f s l c e at =
    let same : n + suc d ≡ n + 1 + d = omega arith in
    let (m', runs, done) =
      advance_total d fuel (n + 1) idx (next s n d idx c e at) (omega arith)
        (move-Shape (put-Shape s m.msg_next _) _) l (omega arith)
        (moved_next s n (suc d) idx c e at)
        (at ∙ ap (λ j. (m.msg_last_incomplete + j) % m.field_size) same) in
    (
      m',
      advance_over fuel m idx
            (λ h. slots_apart s n (suc d) idx c e at (omega arith) (ap (slot_of m) h))
            (omega (arith, dist_at s n (suc d) idx c e at))
          ∙ runs,
      Advanced-step s n d idx c e at done,
    )
