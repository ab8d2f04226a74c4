-- ===== src/Rdma.antt =====
-- The requests of src/nccl_ofi_rdma.c and nccl_ofi_rdma.h, and what their completions do to them.
-- Requests stand in memory at addresses, which are numbers, and 0 is NULL. Each function runs
-- its parts under the lock of a request; a call is one step.
pub mod Receive
pub mod Failure
pub mod Progress
pub mod Bounce
pub mod Send
pub mod Recv
pub mod Samples
mod Tests
use aws_ofi_nccl.Base.{
  ℕ, ◌+◌, Bool, true, false, not, ◌&&◌, Option, none, some, List, ◌==◌, if◌then◌else◌,
}
use aws_ofi_nccl.Deque.{Deque}
use aws_ofi_nccl.Scheduler.{Schedule}
use aws_ofi_nccl.Freelist.{Freelist}

-- `nccl_net_ofi_rdma_req_state_t`
pub data ReqState : Type 0 where
  created pending completed error invalid_state : ReqState

-- `rdma_req_rma_op_data_t`
pub record RmaOpData : Type 0 where
  pub remote_buff : ℕ
  pub remote_mr_key : ℕ
  pub xferred_rail_id : ℕ
  pub buff : ℕ
  pub buff_len : ℕ
  pub desc : ℕ
  pub flags : ℕ
  pub total_num_compls : ℕ

-- `rdma_req_send_data_t`; a NULL schedule is `none`.
pub record SendData : Type 0 where
  pub eager : Bool
  pub remote_buff : ℕ
  pub remote_len : ℕ
  pub remote_mr_key : List ℕ
  pub wdata : ℕ
  pub xferred_rail_id : ℕ
  pub buff : ℕ
  pub buff_len : ℕ
  pub buff_mr_handle : ℕ
  pub schedule : Option Schedule
  pub total_num_compls : ℕ

-- `rdma_req_recv_data_t`
pub record RecvData : Type 0 where
  pub dst_buff : ℕ
  pub dst_len : ℕ
  pub dest_mr_handle : ℕ
  pub send_ctrl_req : ℕ
  pub recv_segms_req : ℕ
  pub eager_copy_req : ℕ
  pub total_num_compls : ℕ

-- `rdma_req_send_ctrl_data_t`
pub record SendCtrlData : Type 0 where
  pub ctrl_fl_item : ℕ
  pub ctrl_schedule : Option Schedule
  pub recv_req : ℕ

-- `rdma_req_send_close_data_t`; recv_comm_insert_send_close_req hands on no request with a NULL
-- schedule, and the source asserts it.
pub record SendCloseData : Type 0 where
  pub ctrl_fl_item : ℕ
  pub ctrl_schedule : Schedule

-- `rdma_req_eager_copy_data_t`
pub record EagerCopyData : Type 0 where
  pub eager_bounce_req : ℕ
  pub recv_req : ℕ

-- `rdma_req_recv_segms_data_t`
pub record RecvSegmsData : Type 0 where
  pub recv_req : ℕ

-- `rdma_req_bounce_data_t`, on one endpoint.
pub record BounceData : Type 0 where
  pub bounce_fl_item : ℕ
  pub buff_len : ℕ
  pub recv_len : ℕ
  pub rail : ℕ

-- `rdma_req_flush_data_t`
pub record FlushData : Type 0 where
  pub buffer : ℕ
  pub mr_handle : ℕ
  pub total_num_compls : ℕ

-- `nccl_net_ofi_rdma_req_type_t`, with the member of the union that each type uses.
pub data ReqType : Type 0 where
  write : RmaOpData → ReqType
  read : RmaOpData → ReqType
  send : SendData → ReqType
  recv : RecvData → ReqType
  send_ctrl : SendCtrlData → ReqType
  send_close : SendCloseData → ReqType
  recv_segms : RecvSegmsData → ReqType
  eager_copy : EagerCopyData → ReqType
  bounce : BounceData → ReqType
  flush : FlushData → ReqType
  send_conn recv_conn recv_conn_resp send_conn_resp invalid_type : ReqType

-- `nccl_net_ofi_rdma_req_t`; `first_word` is the first word of the union, where the buffer of a bounce
-- request stands, as the last bounce request in this memory left it.
pub record Req : Type 0 where
  pub first_word : ℕ
  pub msg_seq_num : ℕ
  pub ncompls : ℕ
  pub size : ℕ
  pub state : ReqState
  pub type : ReqType

-- An operation that libfabric has accepted, with the request as its context.
pub data Operation : Type 0 where
  fi_writedata fi_senddata fi_writemsg fi_recvmsg fi_send fi_read : Operation

pub record Post : Type 0 where
  pub operation : Operation
  pub req : ℕ
  pub rail_id : ℕ
  pub offset : ℕ
  pub len : ℕ

-- `nccl_net_ofi_ep_rail_t`, its counts of bounce buffers.
pub record Rail : Type 0 where
  pub min_bounce_posted : ℕ
  pub max_bounce_posted : ℕ
  pub num_bounce_posted : ℕ

-- The parts of an endpoint and of a receive communicator on it that the modelled calls change; `tries`
-- counts the operations given to libfabric, `posted` lists those it accepted, the last first, and `allocs`
-- counts the entries asked of the free lists.
pub record Endpoint : Type 0 where
  pub reqs : ℕ → Req
  pub rails : ℕ → Rail
  pub pending_reqs_queue : Deque
  pub tries : ℕ
  pub posted : List Post
  pub bounce_buff_reqs_fl : Freelist
  pub bounce_buff_fl : Freelist
  pub bounce_buff_size : ℕ
  pub allocs : ℕ
  pub n_ctrl_delivered : ℕ

abbrev pub update_req : ℕ → (Req → Req) → Endpoint → Endpoint
update_req p f ep = record ep { reqs = λ q. if p == q then f (ep.reqs p) else ep.reqs q }

abbrev pub is_error : ReqState → Bool
is_error error = true
is_error _ = false

-- get_recv_data, and the total of a receive request; the source asserts the type.
abbrev pub total_of_recv : ReqType → ℕ
total_of_recv (recv d) = d.total_num_compls
total_of_recv _ = 0

pub set_request_state_to_error : ℕ → Endpoint → Endpoint
set_request_state_to_error req ep =
    let ep1 = update_req req (λ r. record r { state = error }) ep in
    elim (ep.reqs req).type [
      | send_ctrl d ↦ update_req d.recv_req (λ r. record r { state = error }) ep1
      | recv_segms d ↦ update_req d.recv_req (λ r. record r { state = error }) ep1
      | _ ↦ ep1
    ]

-- The change under the request's lock.
abbrev pub count_completion : ℕ → ℕ → Req → Req
count_completion size total_ncompls r = record r {
  size = r.size + size;
  ncompls = r.ncompls + 1;
  state = if (r.ncompls + 1 == total_ncompls) && not (is_error r.state) then completed else r.state;
}

-- inc_req_completion, which always returns 0.
pub inc_req_completion : ℕ → ℕ → ℕ → Endpoint → Endpoint
inc_req_completion req size total_ncompls ep =
    update_req req (count_completion size total_ncompls) ep

-- set_send_ctrl_completed, for a request with this data. It always returns 0.
pub set_send_ctrl_completed : ℕ → SendCtrlData → Endpoint → Endpoint
unfolding inc_req_completion
set_send_ctrl_completed req send_ctrl_data ep =
    let done = update_req req (λ r. record r { ncompls = 1; state = completed }) ep in
    inc_req_completion send_ctrl_data.recv_req 0
      (total_of_recv (done.reqs send_ctrl_data.recv_req).type)
      (record done { n_ctrl_delivered = ep.n_ctrl_delivered + 1 })

-- inc_recv_seg_completion, for a request with this data. It always returns 0.
pub inc_recv_seg_completion : ℕ → RecvSegmsData → ℕ → ℕ → Endpoint → Endpoint
unfolding inc_req_completion
inc_recv_seg_completion req recv_segms_data size total_nsegms ep =
    let counted =
      update_req req (λ r. record r { size = r.size + size; ncompls = r.ncompls + 1 }) ep in
    if (counted.reqs req).ncompls == total_nsegms
    then inc_req_completion recv_segms_data.recv_req (counted.reqs req).size
        (total_of_recv (counted.reqs recv_segms_data.recv_req).type)
        (update_req req (λ r. record r { state = completed }) counted)
    else counted
