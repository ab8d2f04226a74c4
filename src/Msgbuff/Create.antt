-- ===== src/Msgbuff/Create.antt =====
-- `nccl_ofi_msgbuff_init`: which parameters it accepts, and what it makes.
use native.Mathlib.Nat.{zero-mod}
use native.Mathlib.Decide.{dec_lt}
use aws_ofi_nccl.Base.{
  ℕ, ◌+◌, ◌-◌, ◌*◌, ◌%◌, ◌^◌, ◌≤◌, ◌<◌, ◌≡◌, ◌↔◌, ◌∙◌, sym, ap, ◌⊎◌, inl, inr, Bool, true, Option,
  none, some, List, [], arith, length, two_pow_mono, two_pow_add, two_pow_pos,
}
use aws_ofi_nccl.Msgbuff.{Msgbuff, Elem, u16, init, distance, num_inflight}
use aws_ofi_nccl.Msgbuff.Window.{window}
use aws_ofi_nccl.Msgbuff.Inv.{IsValid, abs}

-- A width beyond the 16 bits leaves nothing of the size.
width_cases : (w : ℕ) → (u16 (2 ^ w) ≡ 0) ⊎ ((2 ^ w ≤ 32768) × (u16 (2 ^ w) ≡ 2 ^ w))
width_cases w = elim (dec_lt w 16) [
  | yes p ↦ let small : 2 ^ w ≤ 2 ^ 15 = two_pow_mono w 15 (omega arith) in inr (small, omega arith)
  | no p ↦
      let e : w - 16 + 16 ≡ w = omega arith in inl (rw (← e, two_pow_add (w - 16) 16) (omega arith))
]

-- What `init` made.
pub record Made (cap width : ℕ) (struct_mem : Bool) (buff_mem : Option (List Elem)) (m : Msgbuff)
    : Type 0 where
  pub positive : 0 < cap
  pub room : 2 * cap < 2 ^ width
  pub small : 2 ^ width ≤ 32768
  pub struct_ok : struct_mem ≡ true
  pub slots_at : buff_mem ≡ some m.slots
  pub cap_at : m.max_inprogress ≡ cap
  pub size_at : m.field_size ≡ 2 ^ width
  pub mask_at : m.field_mask ≡ 2 ^ width - 1
  pub last_at : m.msg_last_incomplete ≡ 0
  pub next_at : m.msg_next ≡ 0

pub init-Made :
    (cap width : ℕ) (struct_mem : Bool) (buff_mem : Option (List Elem)) (mutex_ret : ℕ)
    (m : Msgbuff)
    → init cap width struct_mem buff_mem mutex_ret ≡ some m
    → Made cap width struct_mem buff_mem m
unfolding init
init-Made cap width struct_mem none mutex_ret m h = ground arith
init-Made cap width struct_mem (some mem) mutex_ret m h = elim (width_cases width) [
  | inl e ↦ ground arith
  | inr e ↦ ground arith
]

num_inflight-Made :
    {cap width : ℕ} {struct_mem : Bool} {buff_mem : Option (List Elem)} {m : Msgbuff}
    → Made cap width struct_mem buff_mem m
    → num_inflight m ≡ 0
unfolding num_inflight distance
num_inflight-Made made = rw (num_inflight, made.next_at, made.last_at) (ground arith)

abs-Made :
    {cap width : ℕ} {struct_mem : Bool} {buff_mem : Option (List Elem)} {m : Msgbuff}
    → Made cap width struct_mem buff_mem m
    → abs m ≡ record { first = 0; window = [] }
abs-Made {m = m} made i = record {
  first = made.last_at i;
  window = window m.max_inprogress m.slots (made.last_at i) (num_inflight-Made made i);
}

Made-IsValid :
    {cap width : ℕ} {struct_mem : Bool} {buff_mem : Option (List Elem)} {m : Msgbuff} (quot : ℕ)
    → Made cap width struct_mem buff_mem m
    → 2 ^ width ≡ cap * quot
    → length m.slots ≡ cap
    → IsValid m
Made-IsValid {cap} {width} {m = m} quot made divides long = record {
  shape = record {
    width = width;
    quot = quot;
    size = made.size_at;
    mask = made.mask_at;
    small = omega (arith, made.size_at, made.small);
    room = omega (arith, made.size_at, made.cap_at, made.room);
    some_slot = omega (arith, made.cap_at, made.positive);
    storage = omega (arith, made.cap_at);
    divides = cc (made.size_at, made.cap_at);
  };
  last_in = omega (arith, made.size_at, made.last_at, two_pow_pos width);
  count = 0;
  count_le = omega arith;
  next_at =
      made.next_at ∙ sym (ap (λ j. (j + 0) % m.field_size) made.last_at ∙ zero-mod m.field_size);
}

-- `nccl_ofi_msgbuff_init` makes a buffer only for a capacity of at least one message and a sequence
-- space of at most 2^15 numbers, more than twice the capacity. The buffer is empty. It is valid
-- exactly when the capacity divides the sequence space and the storage has a slot for each message.
pub init-IsValid :
    (cap width : ℕ) (struct_mem : Bool) (buff_mem : Option (List Elem)) (mutex_ret : ℕ)
    (m : Msgbuff)
    → init cap width struct_mem buff_mem mutex_ret ≡ some m
    → (0 < cap)
      × (2 * cap < 2 ^ width)
      × (2 ^ width ≤ 32768)
      × (abs m ≡ record { first = 0; window = [] })
      × (IsValid m ↔ (((quot : ℕ) × (2 ^ width ≡ cap * quot)) × (length m.slots ≡ cap)))
init-IsValid cap width struct_mem buff_mem mutex_ret m h =
    let made = init-Made cap width struct_mem buff_mem mutex_ret m h in
    (
      made.positive,
      made.room,
      made.small,
      abs-Made made,
      (
        (λ v. (
          (
            v.shape.quot,
            sym made.size_at ∙ v.shape.divides ∙ ap (λ c. c * v.shape.quot) made.cap_at,
          ),
          v.shape.storage ∙ made.cap_at,
        )),
        (λ h. Made-IsValid h.0.0 made h.0.1 h.1),
      ),
    )
