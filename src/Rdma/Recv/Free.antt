-- ===== src/Rdma/Recv/Free.antt =====
-- The requests of a receive in src/nccl_ofi_rdma.c given back.
pub mod Freed
use aws_ofi_nccl.Base.{ℕ, ◌-◌, Bool, false, none, some, ◌==◌, if◌then◌else◌}
use aws_ofi_nccl.Freelist.{entry_free}
use aws_ofi_nccl.Scheduler.{release_schedule}
use aws_ofi_nccl.Rdma.{SendCtrlData, ReqType, send_ctrl}
use aws_ofi_nccl.Rdma.Bounce.{zero_nccl_ofi_req}
use aws_ofi_nccl.Rdma.Recv.{RecvComm, on_req, recv_data_at}

-- free_base_req on the communicator, and free_recv_segms_req and free_eager_copy_req, which call
-- it alone. They return 0.
pub free_base_req : ℕ → Bool → RecvComm → RecvComm
free_base_req req dec_inflight_reqs c = record (on_req req zero_nccl_ofi_req c) {
  num_inflight_reqs = if dec_inflight_reqs then c.num_inflight_reqs - 1 else c.num_inflight_reqs;
  nccl_ofi_reqs_fl = entry_free c.nccl_ofi_reqs_fl req;
}

-- get_send_ctrl_data; the source asserts the type.
abbrev pub send_ctrl_data_of : ReqType → SendCtrlData
send_ctrl_data_of (send_ctrl d) = d
send_ctrl_data_of _ = record { ctrl_fl_item = 0; ctrl_schedule = none; recv_req = 0 }

pub free_send_ctrl_req : ℕ → Bool → RecvComm → RecvComm
free_send_ctrl_req req dec_inflight_reqs c =
    let d = send_ctrl_data_of (c.ep.reqs req).type in
    let c1 : RecvComm = elim d.ctrl_schedule [
      | none ↦ c
      | some s ↦ record c { scheduler = release_schedule c.scheduler s }
    ] in
    let c2 =
      (if d.ctrl_fl_item == 0
        then c1
        else record c1 { ctrl_buff_fl = entry_free c1.ctrl_buff_fl d.ctrl_fl_item }) in
    free_base_req req dec_inflight_reqs c2

-- NULL is 0.
pub free_recv_req : ℕ → Bool → RecvComm → RecvComm
free_recv_req req dec_inflight_reqs c =
    let d = recv_data_at c req in
    let c1 = (if d.send_ctrl_req == 0 then c else free_send_ctrl_req d.send_ctrl_req false c) in
    let c2 = (if d.recv_segms_req == 0 then c1 else free_base_req d.recv_segms_req false c1) in
    let c3 = (if d.eager_copy_req == 0 then c2 else free_base_req d.eager_copy_req false c2) in
    free_base_req req dec_inflight_reqs c3
