-- ===== src/Rdma/Send.antt =====
-- The sending side of src/nccl_ofi_rdma.c: a send meets the control message of its receiver in the message
-- buffer of the communicator, in either order.
pub mod Meet
pub mod Write
pub mod Finish
pub mod Schedules
mod Tests
use aws_ofi_nccl.Base.{
  ℕ, zero, suc, ◌+◌, ◌-◌, Bool, true, false, not, ◌&&◌, ◌||◌, Option, none, some, List, [], ◌∷◌,
  ltb, leb, ◌==◌, if◌then◌else◌, get_or, set, enomem, einval, enotsup, Result, ok, err, bit_and,
}
use aws_ofi_nccl.Freelist.{Freelist, entry_free}
use aws_ofi_nccl.Imm.{get_rdma_write_imm_data, msg_seq_num_mask}
use aws_ofi_nccl.Msgbuff.{Msgbuff}
use aws_ofi_nccl.Scheduler.{Scheduler, Schedule, get_threshold_schedule, release_schedule}
use aws_ofi_nccl.Rdma.{SendData, ReqType, send, Req, Endpoint, update_req, inc_req_completion}
use aws_ofi_nccl.Rdma.Progress.{Fabric, is_eagain, bounce_data_of, send_progress, queue_back}
use aws_ofi_nccl.Rdma.Bounce.{
  next_alloc, zero_nccl_ofi_req, allocate_req, repost_bounce_buff, decrease_bounce_buff_cnt,
  check_post_bounce_req,
}

-- `nccl_net_ofi_rdma_ctrl_msg_t`, with both members of the union of keys.
pub record CtrlMsg : Type 0 where
  pub buff_len : ℕ
  pub buff_addr : ℕ
  pub short_buff_mr_key : List ℕ
  pub long_buff_mr_key : List ℕ

-- The parts of `nccl_net_ofi_rdma_send_comm_t`, of its endpoint and of its device that a send uses;
-- `ctrl_msgs` is what the bounce buffers hold. The device has as many rails as the endpoint.
pub record SendComm : Type 0 where
  pub num_inflight_reqs : ℕ
  pub nccl_ofi_reqs_fl : Freelist
  pub remote_comm_id : ℕ
  pub next_msg_seq_num : ℕ
  pub msgbuff : Msgbuff
  pub scheduler : Scheduler
  pub ep : Endpoint
  pub ctrl_msgs : ℕ → CtrlMsg

-- get_send_data; the source asserts the type.
abbrev pub no_send_data : SendData
no_send_data = record {
  eager = false;
  remote_buff = 0;
  remote_len = 0;
  remote_mr_key = [];
  wdata = 0;
  xferred_rail_id = 0;
  buff = 0;
  buff_len = 0;
  buff_mr_handle = 0;
  schedule = none;
  total_num_compls = 0;
}

abbrev pub send_data_of : ReqType → SendData
send_data_of (send d) = d
send_data_of _ = no_send_data

abbrev pub send_data_at : SendComm → ℕ → SendData
send_data_at c req = send_data_of (c.ep.reqs req).type

abbrev pub on_req : ℕ → (Req → Req) → SendComm → SendComm
on_req req f c = record c { ep = update_req req f c.ep }

abbrev pub set_send_data : ℕ → SendData → SendComm → SendComm
set_send_data req d = on_req req (λ r. record r { type = send d })

-- The message in the bounce buffer of a request.
abbrev pub ctrl_msg_of : SendComm → ℕ → CtrlMsg
ctrl_msg_of c bounce_req = c.ctrl_msgs (bounce_data_of (c.ep.reqs bounce_req).type).bounce_fl_item

-- A schedule for `size` bytes.
abbrev pub get_schedule : Fabric → SendComm → ℕ → Option Schedule × SendComm
get_schedule fab c size =
    let (schedule, s) =
      get_threshold_schedule fab.platform (fab.mmap c.ep.allocs) c.scheduler size fab.num_rails in
    (schedule, record c { scheduler = s; ep = next_alloc c.ep })

-- The loop over the keys of the rails that are left.
pub copy_keys : ℕ → ℕ → List ℕ → List ℕ → List ℕ
copy_keys zero rail_id keys remote_mr_key = remote_mr_key
copy_keys (suc left) rail_id keys remote_mr_key =
    copy_keys left (rail_id + 1) keys (set remote_mr_key rail_id (get_or keys rail_id 0))

-- A receive buffer smaller than the message cuts the message.
abbrev pub clip : ℕ → ℕ → ℕ
clip remote_len len = if ltb remote_len len then remote_len else len

-- The request has the data `d`; its size is set when its message is cut.
abbrev pub clip_req : ℕ → SendData → Req → Req
clip_req remote_len d r = record r {
  size = if ltb remote_len d.buff_len then remote_len else r.size;
  type = send (record d { remote_len = remote_len; buff_len = clip remote_len d.buff_len });
}

pub update_send_data_from_remote : Fabric → ℕ → ℕ → SendComm → Result (Unit {0}) × SendComm
update_send_data_from_remote fab bounce_req req c =
    let msg = ctrl_msg_of c bounce_req in
    let keys = (if fab.use_long_rkeys then msg.long_buff_mr_key else msg.short_buff_mr_key) in
    let old = send_data_at c req in
    let d : SendData = record old {
      remote_mr_key = copy_keys fab.num_rails 0 keys old.remote_mr_key;
      remote_buff = msg.buff_addr;
    } in
    let clipped = clip_req msg.buff_len d (c.ep.reqs req) in
    let d1 = send_data_of clipped.type in
    let (got, c1) = get_schedule fab (on_req req (λ _. clipped) c) d1.buff_len in
    elim got [
      | none ↦ (err einval, set_send_data req (record d1 { schedule = none }) c1)
      | some s ↦ (
        ok tt,
        set_send_data req
            (record d1 {
              schedule = some s;
              total_num_compls = s.num_xfer_infos;
              wdata = get_rdma_write_imm_data c.remote_comm_id clipped.msg_seq_num s.num_xfer_infos;
            })
            c1,
      )
    ]

-- free_base_req on the communicator, which returns 0.
abbrev pub free_base_req : ℕ → Bool → SendComm → SendComm
free_base_req req dec_inflight_reqs c = record (on_req req zero_nccl_ofi_req c) {
  num_inflight_reqs = if dec_inflight_reqs then c.num_inflight_reqs - 1 else c.num_inflight_reqs;
  nccl_ofi_reqs_fl = entry_free c.nccl_ofi_reqs_fl req;
}

pub free_send_req : ℕ → Bool → SendComm → SendComm
free_send_req req dec_inflight_reqs c =
    let c1 : SendComm = elim (send_data_at c req).schedule [
      | none ↦ c
      | some s ↦ record c { scheduler = release_schedule c.scheduler s }
    ] in
    free_base_req req dec_inflight_reqs c1

-- A request that is not in use has no schedule: its memory starts as zeros, and free_send_req resets
-- the field. The fields that are read only after they are set are 0 here.
abbrev pub new_send_data : Bool → ℕ → ℕ → ℕ → SendData
new_send_data eager buff size buff_mr_handle = record no_send_data {
  eager = eager;
  remote_mr_key = 0 ∷ 0 ∷ 0 ∷ 0 ∷ [];
  buff = buff;
  buff_len = size;
  buff_mr_handle = buff_mr_handle;
}

-- On a lack of schedules the request is lost: the caller gets no request to free.
pub alloc_rdma_send_req : Fabric → ℕ → ℕ → ℕ → ℕ → Bool → SendComm → Result ℕ × SendComm
alloc_rdma_send_req fab msg_seq_num buff size buff_mr_handle eager c =
    let (got, fl, ep1) = allocate_req fab c.nccl_ofi_reqs_fl c.ep in
    let c1 = record c { nccl_ofi_reqs_fl = fl; ep = ep1 } in
    let d = new_send_data eager buff size buff_mr_handle in
    elim got [
      | none ↦ (err enomem, c1)
      | some req ↦
          let c2 =
            on_req req (λ r. record r { msg_seq_num = msg_seq_num; size = size; type = send d })
              c1 in
          let (schedule, c3) = get_schedule fab c2 size in
          if eager
          then elim schedule [
            | none ↦ (err einval, c3)
            | some s ↦ (
              ok req,
              set_send_data req
                  (record d {
                    schedule = some s;
                    total_num_compls = s.num_xfer_infos + 1;
                    wdata = get_rdma_write_imm_data c.remote_comm_id msg_seq_num s.num_xfer_infos;
                  })
                  c3,
            )
          ]
          else (ok req, c2)
    ]
