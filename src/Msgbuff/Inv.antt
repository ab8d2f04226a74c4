-- ===== src/Msgbuff/Inv.antt =====
-- The representation invariant of `nccl_ofi_msgbuff_t`, and what `distance` and
-- `nccl_ofi_msgbuff_get_idx_status` compute under it.
use native.Mathlib.Nat.{mod-lt, mod-eq_of_lt, mod-add-mod, mod-mod_of_dvd, dvd-mul_right, add-zero}
use native.Mathlib.Decide.{dec_lt}
use aws_ofi_nccl.Base.{
  ℕ, ◌+◌, ◌-◌, ◌*◌, ◌%◌, ◌^◌, ◌≤◌, ◌<◌, ◌≡◌, sym, ap, ◌∙◌, inl, inr, arith, length, get_or, ◌≢◌,
  not, ◌&&◌, ◌==◌, leb, ltb, lt→ltb, le→ltb, mod_add_cases, mod_unique,
}
use aws_ofi_nccl.Msgbuff.{Msgbuff, distance, num_inflight, get_idx_status, buff_idx, slot_of}
use aws_ofi_nccl.Msgbuff.Spec
use aws_ofi_nccl.Msgbuff.Spec.{Cell, gap}
use aws_ofi_nccl.Msgbuff.Window.{window, length-window, get_or-window}

-- The sequence numbers are `width` bits wide, the storage has a slot for each message in progress,
-- and its length divides the number of sequence numbers.
pub record Shape (m : Msgbuff) : Type 0 where
  pub width : ℕ
  pub quot : ℕ
  pub size : m.field_size ≡ 2 ^ width
  pub mask : m.field_mask ≡ 2 ^ width - 1
  pub small : m.field_size ≤ 32768
  pub room : 2 * m.max_inprogress < m.field_size
  pub some_slot : 0 < m.max_inprogress
  pub storage : length m.slots ≡ m.max_inprogress
  pub divides : m.field_size ≡ m.max_inprogress * quot

pub record IsValid (m : Msgbuff) : Type 0 where
  pub shape : Shape m
  pub last_in : m.msg_last_incomplete < m.field_size
  pub count : ℕ
  pub count_le : count ≤ m.max_inprogress
  pub next_at : m.msg_next ≡ (m.msg_last_incomplete + count) % m.field_size

module _ (m : Msgbuff) (small : m.field_size ≤ 32768) where
  pub distance_add :
      (b d : ℕ) → b < m.field_size → d < m.field_size → distance m ((b + d) % m.field_size) b ≡ d
  unfolding distance
  distance_add b d hb hd = elim (mod_add_cases b d m.field_size hb hd) [
    | inl (p, e) ↦ rw e (ground arith)
    | inr (p, e) ↦ rw e (ground arith)
  ]

  pub distance_back :
      (b d : ℕ)
      → b < m.field_size
      → 0 < d
      → d < m.field_size
      → distance m b ((b + d) % m.field_size) ≡ m.field_size - d
  unfolding distance
  distance_back b d hb h hd = elim (mod_add_cases b d m.field_size hb hd) [
    | inl (p, e) ↦ rw e (ground arith)
    | inr (p, e) ↦ rw e (ground arith)
  ]

  pub distance_room :
      (n : ℕ)
      → n ≤ m.max_inprogress
      → m.max_inprogress < m.field_size
      → distance m m.max_inprogress n ≡ m.max_inprogress - n
  unfolding distance
  distance_room n h k = ground arith

pub inflight : {m : Msgbuff} (v : IsValid m) → distance m m.msg_next m.msg_last_incomplete ≡ v.count
inflight {m} v =
    ap (λ j. distance m j m.msg_last_incomplete) v.next_at
    ∙ distance_add m v.shape.small m.msg_last_incomplete v.count v.last_in
        (omega (arith, v.shape.room, v.count_le))

pub num_inflight_count : {m : Msgbuff} (v : IsValid m) → num_inflight m ≡ v.count
unfolding num_inflight
num_inflight_count v = inflight v

-- The abstract state of a buffer.
abbrev pub abs : Msgbuff → Spec.State
abs m = record {
  first = m.msg_last_incomplete;
  window = window m.max_inprogress m.slots m.msg_last_incomplete (num_inflight m);
}

pub offset-lt :
    (m : Msgbuff) (b idx : ℕ)
    → 0 < m.field_size
    → (idx + m.field_size - b) % m.field_size < m.field_size
offset-lt m b idx h = mod-lt (idx + m.field_size - b) h

-- Every index is the first one plus its offset.
pub index_at :
    (m : Msgbuff) (b idx : ℕ)
    → b < m.field_size
    → idx < m.field_size
    → (b + (idx + m.field_size - b) % m.field_size) % m.field_size ≡ idx
index_at m b idx hb hi = elim (dec_lt idx b) [
  | yes p ↦
      rw (mod-eq_of_lt {n = idx + m.field_size - b} {m = m.field_size} (omega arith))
        (mod_unique _ m.field_size 1 idx (omega arith) hi)
  | no p ↦
      rw (mod_unique (idx + m.field_size - b) m.field_size 1 (idx - b) (omega arith) (omega arith))
        (mod_unique _ m.field_size 0 idx (omega arith) hi)
]

module _ {m : Msgbuff} (s : Shape m) where
  -- A slot depends on the number modulo the storage only.
  pub slot_at : (h : ℕ) → slot_of m (h % m.field_size) ≡ h % m.max_inprogress
  slot_at h =
      mod-mod_of_dvd m.max_inprogress h (rw s.divides (dvd-mul_right m.max_inprogress s.quot))

module _ {m : Msgbuff} (v : IsValid m) (k : ℕ) (h : k < m.field_size) where
  abbrev pub idx_of : ℕ
  idx_of = (m.msg_last_incomplete + k) % m.field_size

  idx-last : k ≡ 0 → idx_of ≡ m.msg_last_incomplete
  idx-last e = rw (e, add-zero) (mod-eq_of_lt v.last_in)

  pub from_last : distance m idx_of m.msg_last_incomplete ≡ k
  from_last = distance_add m v.shape.small m.msg_last_incomplete k v.last_in h

  distance_self : k ≡ distance m m.msg_last_incomplete m.msg_last_incomplete → k ≡ 0
  unfolding distance
  distance_self e = ground arith

  idx-ne-last : 0 < k → idx_of ≢ m.msg_last_incomplete
  idx-ne-last pos e =
      omega (arith, distance_self (sym from_last ∙ ap (λ j. distance m j m.msg_last_incomplete) e))

  to_last : 0 < k → distance m m.msg_last_incomplete idx_of ≡ m.field_size - k
  to_last pos = distance_back m v.shape.small m.msg_last_incomplete k v.last_in pos h

  next_in : m.msg_next < m.field_size
  next_in = rw v.next_at (mod-lt (m.msg_last_incomplete + v.count) (omega arith))

  from_next : v.count ≤ k → distance m idx_of m.msg_next ≡ k - v.count
  from_next le =
      rw (sym again) (distance_add m v.shape.small m.msg_next (k - v.count) next_in (omega arith))
    where
      again : (m.msg_next + (k - v.count)) % m.field_size ≡ idx_of
      again =
          let e : m.msg_last_incomplete + v.count + (k - v.count) ≡ m.msg_last_incomplete + k =
            omega arith in
          rw v.next_at (
            mod-add-mod (m.msg_last_incomplete + v.count) m.field_size (k - v.count)
            ∙ ap (λ j. j % m.field_size) e)

  left : distance m m.max_inprogress v.count ≡ m.max_inprogress - v.count
  left =
      distance_room m v.shape.small v.count v.count_le
        (omega (arith, v.shape.room, v.shape.some_slot))

  both_left : v.count ≤ k → ltb (k - v.count) (m.max_inprogress - v.count) ≡ ltb k m.max_inprogress
  both_left h = ground (arith, v.count_le)

  cell_stat :
      k < v.count
      → (buff_idx m idx_of).stat
        ≡ (get_or (window m.max_inprogress m.slots m.msg_last_incomplete v.count) k gap).status
  cell_stat l = rw (
    slot_at v.shape (m.msg_last_incomplete + k),
    get_or-window m.max_inprogress m.slots m.msg_last_incomplete v.count k gap l,
  )

  last_tests :
      (not (idx_of == m.msg_last_incomplete)
        && leb (distance m m.msg_last_incomplete idx_of) m.max_inprogress)
      ≡ leb m.field_size (k + m.max_inprogress)
  last_tests = elim (dec_lt 0 k) [
    | yes p ↦ ground (arith, idx-ne-last p, to_last p)
    | no p ↦ ground (arith, idx-last (omega arith), v.shape.room)
  ]

  -- The status that the code computes is the one that the window gives.
  pub status_refines :
      get_idx_status m idx_of ≡ Spec.status_at m.max_inprogress m.field_size (abs m).window k
  unfolding get_idx_status
  status_refines =
      simp
        (
          from_last,
          inflight v,
          last_tests,
          num_inflight_count v,
          left,
          length-window m.max_inprogress m.slots m.msg_last_incomplete v.count,
        )
        (elim (dec_lt k v.count) [
          | yes l ↦ rw (lt→ltb k v.count l) (cell_stat l)
          | no l ↦
              let le : v.count ≤ k = omega arith in
              rw (le→ltb k v.count le, from_next le, both_left le)
        ])
