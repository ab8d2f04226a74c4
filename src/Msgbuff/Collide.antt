-- ===== src/Msgbuff/Collide.antt =====
-- A capacity that does not divide the sequence space: the slot of a message is shared.
use native.Mathlib.Nat.{mod-lt, div-add-mod, mul-mod_right, zero-mod}
use aws_ofi_nccl.Base.{
  ℕ, ◌-◌, ◌*◌, ◌/◌, ◌%◌, ◌^◌, ◌<◌, ◌≡◌, ◌≢◌, sym, ◌∙◌, Bool, Option, some, List, arith,
}
use aws_ofi_nccl.Msgbuff.{Msgbuff, Elem, distance, slot_of, init}
use aws_ofi_nccl.Msgbuff.Create.{Made, init-Made}

-- When `nccl_ofi_msgbuff_init` makes a buffer for a capacity that does not divide the number of
-- sequence numbers, then the number 0 and another number, which lies less than the capacity before
-- it, round the end of the space, have one slot.
pub slots_shared :
    (cap width : ℕ) (struct_mem : Bool) (buff_mem : Option (List Elem)) (mutex_ret : ℕ)
    (m : Msgbuff)
    → init cap width struct_mem buff_mem mutex_ret ≡ some m
    → 0 < 2 ^ width % cap
    → let late = m.field_size - 2 ^ width % cap in
      (late ≢ 0)
      × (late < m.field_size)
      × (distance m 0 late < m.max_inprogress)
      × (slot_of m late ≡ slot_of m 0)
unfolding distance
slots_shared cap width struct_mem buff_mem mutex_ret m h left = (
  λ e. omega (arith, rest, made.room, made.size_at, made.positive),
  omega (arith, made.size_at, rest, made.room),
  ground (arith, made.size_at, rest, made.room, made.small, made.cap_at),
  late_slot ∙ sym (zero-mod m.max_inprogress),
)
  where
    made : Made cap width struct_mem buff_mem m
    made = init-Made cap width struct_mem buff_mem mutex_ret m h

    rest : 2 ^ width % cap < cap
    rest = mod-lt (2 ^ width) made.positive

    whole : m.field_size - 2 ^ width % cap ≡ cap * (2 ^ width / cap)
    whole = omega (arith, div-add-mod (2 ^ width) cap, made.size_at)

    late_slot : slot_of m (m.field_size - 2 ^ width % cap) ≡ 0
    late_slot = rw (whole, made.cap_at) (mul-mod_right cap (2 ^ width / cap))
