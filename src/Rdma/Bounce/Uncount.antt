-- ===== src/Rdma/Bounce/Uncount.antt =====
-- decrease_bounce_buff_cnt of src/nccl_ofi_rdma.c: a bounce buffer has been used.
use native.Mathlib.Decide.{dec_lt}
use aws_ofi_nccl.Base.{ℕ, ◌-◌, ◌≤◌, ◌<◌, ◌≡◌, refl, true, false, Result, ok, arith, ltb}
use aws_ofi_nccl.Rdma.{Endpoint}
use aws_ofi_nccl.Rdma.Progress.{Fabric}
use aws_ofi_nccl.Rdma.Bounce.{
  set_num_bounce_posted, check_post_bounce_buffers_rail, decrease_bounce_buff_cnt,
}
use aws_ofi_nccl.Rdma.Bounce.Rails.{num_posted, max_posted, Refilled, post_bounce_buffs_on_rail_lem}

-- The count of the rail is one less, and nothing else changes; or it was not above the minimum, and
-- then the rail is filled up from the count that is one less.
pub data Uncounted (rail : ℕ) (ep : Endpoint) (r : Result (Unit {0}) × Endpoint) : Type 0 where
  enough :
      (ep.rails rail).min_bounce_posted < num_posted ep rail
      → r ≡ (ok tt, set_num_bounce_posted rail (num_posted ep rail - 1) ep)
      → Uncounted rail ep r
  refill :
      num_posted ep rail ≤ (ep.rails rail).min_bounce_posted
      → Refilled rail (set_num_bounce_posted rail (num_posted ep rail - 1) ep) r
      → Uncounted rail ep r

pub decrease_bounce_buff_cnt_lem :
    (fab : Fabric) (rail : ℕ) (ep : Endpoint)
    → 0 < num_posted ep rail
    → num_posted ep rail ≤ max_posted ep rail
    → Uncounted rail ep (decrease_bounce_buff_cnt fab rail ep)
unfolding decrease_bounce_buff_cnt check_post_bounce_buffers_rail
decrease_bounce_buff_cnt_lem fab rail ep some_posted h =
    let low = set_num_bounce_posted rail (num_posted ep rail - 1) ep in
    let num : num_posted low rail ≡ num_posted ep rail - 1 = ground arith in
    let top : max_posted low rail ≡ max_posted ep rail = ground arith in
    let least : (low.rails rail).min_bounce_posted ≡ (ep.rails rail).min_bounce_posted =
      ground arith in
    elim (dec_lt (num_posted low rail) (low.rails rail).min_bounce_posted) [
      | yes l ↦
          let t : ltb (num_posted low rail) (low.rails rail).min_bounce_posted ≡ true =
            ground arith in
          refill (omega arith) (
            rw (decrease_bounce_buff_cnt, check_post_bounce_buffers_rail, t)
              (post_bounce_buffs_on_rail_lem fab rail low (omega arith)))
      | no l ↦
          let f : ltb (num_posted low rail) (low.rails rail).min_bounce_posted ≡ false =
            ground arith in
          enough (omega arith)
            (rw (decrease_bounce_buff_cnt, check_post_bounce_buffers_rail, f) refl)
    ]
