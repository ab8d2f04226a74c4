-- ===== src/Msgbuff/Complete.antt =====
-- The loop of `nccl_ofi_msgbuff_complete`: `msg_last_incomplete` moves past complete messages.
use native.Mathlib.Nat.{mod-lt, mod-add-mod, mod-eq_of_lt, add-zero}
use aws_ofi_nccl.Base.{
  ℕ, zero, suc, ◌+◌, ◌%◌, ◌≤◌, ◌<◌, ◌≡◌, ◌≢◌, refl, sym, ap, ◌∙◌, inl, inr, some, arith, length,
  Bool-cases, bit_and, ◌==◌, true, false, ==_iff, mod_inj,
}
use aws_ofi_nccl.Msgbuff.{Msgbuff, buff_idx, retire, is_completed}
use aws_ofi_nccl.Msgbuff.Spec
use aws_ofi_nccl.Msgbuff.Spec.{Cell, gap, settle}
use aws_ofi_nccl.Msgbuff.Window.{window, window_cong, length-window}
use aws_ofi_nccl.Msgbuff.Inv.{Shape, slot_at}
use aws_ofi_nccl.Msgbuff.Insert.{mask_step}

abbrev pub with_last : Msgbuff → ℕ → Msgbuff
with_last m p = record m { msg_last_incomplete = p }

pub last-Shape : {m : Msgbuff} → Shape m → (p : ℕ) → Shape (with_last m p)
last-Shape s p = record {
  width = s.width;
  quot = s.quot;
  size = s.size;
  mask = s.mask;
  small = s.small;
  room = s.room;
  some_slot = s.some_slot;
  storage = s.storage;
  divides = s.divides;
}

-- What is left of the window `w` of `m` when its complete front is gone.
pub record Retired (m : Msgbuff) (n : ℕ) (st : Spec.State) : Type 0 where
  pub first_in : st.first < m.field_size
  pub shorter : length st.window ≤ n
  pub next_at : m.msg_next ≡ (st.first + length st.window) % m.field_size
  pub cells : window m.max_inprogress m.slots st.first (length st.window) ≡ st.window

module _ (fuel : ℕ) (m : Msgbuff) where
  retire_empty : m.msg_last_incomplete ≡ m.msg_next → retire (suc fuel) m ≡ some m
  unfolding retire
  retire_empty e = rw ((==_iff m.msg_last_incomplete m.msg_next).1 e)

  retire_open :
      is_completed (buff_idx m m.msg_last_incomplete).stat ≡ false → retire (suc fuel) m ≡ some m
  unfolding retire
  retire_open e = elim (Bool-cases (m.msg_last_incomplete == m.msg_next)) [
    | inl h ↦ rw h
    | inr h ↦ rw (h, e)
  ]

  retire_done :
      m.msg_last_incomplete ≢ m.msg_next
      → is_completed (buff_idx m m.msg_last_incomplete).stat ≡ true
      → retire (suc fuel) m
        ≡ retire fuel (with_last m (bit_and (m.msg_last_incomplete + 1) m.field_mask))
  unfolding retire
  retire_done ne e = elim (Bool-cases (m.msg_last_incomplete == m.msg_next)) [
    | inl h ↦ absurd (ne ((==_iff m.msg_last_incomplete m.msg_next).0 h))
    | inr h ↦ rw (h, e)
  ]

-- One complete cell less at the front.
Retired-step :
    (m : Msgbuff) (p n : ℕ) {st : Spec.State} → Retired (with_last m p) n st → Retired m (suc n) st
Retired-step m p n r = record {
  first_in = r.first_in;
  shorter = omega (arith, r.shorter);
  next_at = r.next_at;
  cells = r.cells;
}

-- With more rounds than cells the loop ends, and leaves what `settle` leaves.
pub retire_total :
    (n fuel : ℕ) (m : Msgbuff)
    → n < fuel
    → Shape m
    → m.msg_last_incomplete < m.field_size
    → n ≤ m.max_inprogress
    → m.msg_next ≡ (m.msg_last_incomplete + n) % m.field_size
    → let st =
        settle m.max_inprogress m.field_size m.msg_last_incomplete
          (window m.max_inprogress m.slots m.msg_last_incomplete n) in
      (retire fuel m ≡ some (with_last m st.first)) × Retired m n st
unfolding settle
retire_total n zero m f s l c e = absurd (omega arith)
retire_total zero (suc fuel) m f s l c e = (
  retire_empty fuel m (sym (e ∙ rw add-zero (mod-eq_of_lt l))),
  record { first_in = l; shorter = omega arith; next_at = e; cells = refl },
)
retire_total (suc n) (suc fuel) m f s l c e =
    elim (Bool-cases (is_completed (buff_idx m m.msg_last_incomplete).stat)) [
      | inl h ↦
          let again =
            retire_total n fuel (with_last m p) (omega arith) (last-Shape s p) p_in (omega arith)
              next_from in
          rw (h, ← cells_from)
            (
              retire_done fuel m distinct h
                  ∙ ap (λ j. retire fuel (with_last m j))
                      (mask_step s m.msg_last_incomplete 0 _ here)
                  ∙ again.0,
              Retired-step m p n again.1,
            )
      | inr h ↦ rw h (
        retire_open fuel m h,
        record {
          first_in = l;
          shorter = omega (arith, long);
          next_at = e ∙ ap (λ j. (m.msg_last_incomplete + j) % m.field_size) (sym long);
          cells = ap (window m.max_inprogress m.slots m.msg_last_incomplete) long;
        },
      )
    ]
  where
    p : ℕ
    p = (m.msg_last_incomplete + 1) % m.field_size

    p_in : p < m.field_size
    p_in = mod-lt (m.msg_last_incomplete + 1) (omega arith)

    here : m.msg_last_incomplete ≡ (m.msg_last_incomplete + 0) % m.field_size
    here = rw add-zero (sym (mod-eq_of_lt l))

    next_from : m.msg_next ≡ (p + n) % m.field_size
    next_from =
        let shift : m.msg_last_incomplete + 1 + n ≡ m.msg_last_incomplete + suc n = omega arith in
        e
        ∙ sym (
            mod-add-mod (m.msg_last_incomplete + 1) m.field_size n
            ∙ ap (λ j. j % m.field_size) shift)

    cells_from :
        window m.max_inprogress m.slots p n
        ≡ window m.max_inprogress m.slots (m.msg_last_incomplete + 1) n
    cells_from =
        window_cong m.max_inprogress m.slots p (m.msg_last_incomplete + 1) n
          (slot_at s (m.msg_last_incomplete + 1))

    distinct : m.msg_last_incomplete ≢ m.msg_next
    distinct h = omega (
      arith,
      mod_inj m.field_size m.msg_last_incomplete (m.msg_last_incomplete + suc n) (omega arith)
          (omega (arith, s.room)) (mod-eq_of_lt l ∙ h ∙ e),
    )

    long : suc (length (window m.max_inprogress m.slots (m.msg_last_incomplete + 1) n)) ≡ suc n
    long = ap suc (length-window m.max_inprogress m.slots (m.msg_last_incomplete + 1) n)
