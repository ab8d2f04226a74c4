-- ===== src/Rdma/Recv.antt =====
-- The receiving side of src/nccl_ofi_rdma.c: the requests that a receive is made of, with the control
-- message that tells the sender about the receive buffer.
pub mod Free
pub mod Meet
pub mod Arrive
mod Tests
use aws_ofi_nccl.Base.{
  ℕ, zero, suc, ◌+◌, ◌-◌, ◌^◌, Bool, true, false, Option, none, some, List, [], ◌∷◌, ltb, ◌==◌,
  if◌then◌else◌, set, enomem, einval, enotsup, enoent, Result, ok, err,
}
use aws_ofi_nccl.Freelist.{Freelist, entry_free}
use aws_ofi_nccl.Msgbuff.{Msgbuff}
use aws_ofi_nccl.Scheduler.{Scheduler, Schedule, get_threshold_schedule, release_schedule}
use aws_ofi_nccl.Rdma.{
  RecvData, SendCtrlData, ReqType, recv, send_ctrl, recv_segms, eager_copy, Req, Endpoint,
  update_req,
}
use aws_ofi_nccl.Rdma.Progress.{Fabric, rdma_ctrl_msg_size, receive_progress}
use aws_ofi_nccl.Rdma.Bounce.{take_entry, next_alloc, zero_nccl_ofi_req, allocate_req}
use aws_ofi_nccl.Rdma.Send.{CtrlMsg}

-- The surroundings of a receive: those of the posting of requests, the number of control rails,
-- whether registrations are addressed virtually, the size of the flush buffer, and the keys that
-- libfabric gives for a registration on a rail.
pub record Device : Type 0 where
  pub fab : Fabric
  pub num_control_rails : ℕ
  pub virt_addr_mr : Bool
  pub flush_size : ℕ
  pub mr_key : ℕ → ℕ → ℕ

-- A control message with its header, in an entry of `ctrl_buff_fl`.
pub record CtrlItem : Type 0 where
  pub remote_comm_id : ℕ
  pub msg_seq_num : ℕ
  pub msg : CtrlMsg

-- The parts of `nccl_net_ofi_rdma_recv_comm_t`, of its endpoint and of its device that a receive uses;
-- `ctrl_items` is what the control buffers hold.
pub record RecvComm : Type 0 where
  pub num_inflight_reqs : ℕ
  pub nccl_ofi_reqs_fl : Freelist
  pub ctrl_buff_fl : Freelist
  pub remote_comm_id : ℕ
  pub num_rails : ℕ
  pub next_msg_seq_num : ℕ
  pub n_ctrl_sent : ℕ
  pub msgbuff : Msgbuff
  pub scheduler : Scheduler
  pub ep : Endpoint
  pub ctrl_items : ℕ → CtrlItem

abbrev pub on_req : ℕ → (Req → Req) → RecvComm → RecvComm
on_req req f c = record c { ep = update_req req f c.ep }

abbrev pub set_type : ℕ → ReqType → RecvComm → RecvComm
set_type req t = on_req req (λ r. record r { type = t })

-- get_recv_data; the source asserts the type.
abbrev pub recv_data_of : ReqType → RecvData
recv_data_of (recv d) = d
recv_data_of _ = record {
  dst_buff = 0;
  dst_len = 0;
  dest_mr_handle = 0;
  send_ctrl_req = 0;
  recv_segms_req = 0;
  eager_copy_req = 0;
  total_num_compls = 0;
}

abbrev pub recv_data_at : RecvComm → ℕ → RecvData
recv_data_at c req = recv_data_of (c.ep.reqs req).type

abbrev pub update_recv_data : ℕ → (RecvData → RecvData) → RecvComm → RecvComm
update_recv_data req f c = set_type req (recv (f (recv_data_at c req))) c

-- allocate_req from the communicator's list, with the assignments that follow it.
abbrev pub new_req : Fabric → ℕ → ReqType → RecvComm → Option ℕ × RecvComm
new_req fab msg_seq_num t c =
    let (got, fl, ep1) = allocate_req fab c.nccl_ofi_reqs_fl c.ep in
    let c1 = record c { nccl_ofi_reqs_fl = fl; ep = ep1 } in
    elim got [
      | none ↦ (none, c1)
      | some req ↦ (some req, on_req req (λ r. record r { msg_seq_num = msg_seq_num; type = t }) c1)
    ]

-- The loop over the rails that are left: the keys in the control message.
pub write_keys : Device → ℕ → ℕ → ℕ → CtrlMsg → Result (Unit {0}) × CtrlMsg
write_keys dev mr_handle zero rail_id msg = (ok tt, msg)
write_keys dev mr_handle (suc left) rail_id msg =
    let rkey = dev.mr_key mr_handle rail_id in
    let long =
      write_keys dev mr_handle left (rail_id + 1)
        (record msg { long_buff_mr_key = set msg.long_buff_mr_key rail_id rkey }) in
    let short =
      write_keys dev mr_handle left (rail_id + 1)
        (record msg { short_buff_mr_key = set msg.short_buff_mr_key rail_id rkey }) in
    if dev.fab.has_key mr_handle rail_id
    then if dev.fab.use_long_rkeys
      then long
      else if ltb (2 ^ 32 - 1) rkey
      then (err enotsup, msg)
      else short
    else (err enoent, msg)

-- A schedule for the control message, or NULL on one control rail. The schedule has one transfer.
abbrev pub ctrl_schedule_of : Device → RecvComm → Result (Option Schedule) × RecvComm
ctrl_schedule_of dev c =
    let (got, s) =
      get_threshold_schedule dev.fab.platform (dev.fab.mmap c.ep.allocs) c.scheduler
        (rdma_ctrl_msg_size dev.fab.num_rails dev.fab.use_long_rkeys) dev.num_control_rails in
    let c1 = record c { scheduler = s; ep = next_alloc c.ep } in
    if ltb 1 dev.num_control_rails
    then elim got [
      | none ↦ (err einval, c1)
      | some x ↦ if x.num_xfer_infos == 1 then (ok (some x), c1) else (err einval, c1)
    ]
    else (ok none, c)

abbrev pub set_item : ℕ → CtrlItem → RecvComm → RecvComm
set_item item v c = record c { ctrl_items = λ p. if item == p then v else c.ctrl_items p }

-- On an error the new request and its parts are lost: no caller knows of them.
pub insert_send_ctrl_req : Device → ℕ → ℕ → ℕ → ℕ → ℕ → RecvComm → Result (Unit {0}) × RecvComm
insert_send_ctrl_req dev msg_seq_num buff size mr_handle recv_req c =
    let blank : SendCtrlData = record { ctrl_fl_item = 0; ctrl_schedule = none; recv_req = 0 } in
    let (got, c1) = new_req dev.fab msg_seq_num (send_ctrl blank) c in
    elim got [
      | none ↦ (err einval, c1)
      | some req ↦
          let (schedule, c2) = ctrl_schedule_of dev c1 in
          elim schedule [
            | err e ↦ (err e, c2)
            | ok s ↦
                let d : SendCtrlData = record blank { ctrl_schedule = s; recv_req = recv_req } in
                let (item, fl) = take_entry dev.fab c2.ctrl_buff_fl c2.ep in
                let c3 =
                  set_type req (send_ctrl d)
                    (record c2 { ctrl_buff_fl = fl; ep = next_alloc c2.ep }) in
                elim item [
                  | none ↦ (err enomem, c3)
                  | some p ↦
                      let old = (c3.ctrl_items p).msg in
                      let (rc, msg) =
                        write_keys dev mr_handle c.num_rails 0
                          (record old { buff_addr = buff; buff_len = size }) in
                      let written : CtrlItem = record {
                        remote_comm_id = c.remote_comm_id;
                        msg_seq_num = msg_seq_num;
                        msg = msg;
                      } in
                      let c4 = set_item p written c3 in
                      let c5 = set_type req (send_ctrl (record d { ctrl_fl_item = p })) c4 in
                      if dev.virt_addr_mr
                      then elim rc [
                        | err e ↦ (err e, c4)
                        | ok _ ↦ (
                          ok tt,
                          update_recv_data recv_req (λ r. record r { send_ctrl_req = req }) c5,
                        )
                      ]
                      else (err enotsup, c3)
                ]
          ]
    ]

pub insert_recv_segms_req : Device → ℕ → ℕ → RecvComm → Result (Unit {0}) × RecvComm
insert_recv_segms_req dev msg_seq_num recv_req c =
    let (got, c1) = new_req dev.fab msg_seq_num (recv_segms (record { recv_req = recv_req })) c in
    elim got [
      | none ↦ (err enoent, c1)
      | some req ↦ (ok tt, update_recv_data recv_req (λ r. record r { recv_segms_req = req }) c1)
    ]

pub allocate_rdma_recv_req : Device → ℕ → ℕ → ℕ → ℕ → RecvComm → Result ℕ × RecvComm
allocate_rdma_recv_req dev msg_seq_num buff size mr_handle c =
    let d : RecvData = record {
      dst_buff = buff;
      dst_len = size;
      dest_mr_handle = mr_handle;
      send_ctrl_req = 0;
      recv_segms_req = 0;
      eager_copy_req = 0;
      total_num_compls = 2;
    } in
    let (got, c1) = new_req dev.fab msg_seq_num (recv d) c in
    elim got [
      | none ↦ (err einval, c1)
      | some req ↦
          let (rc, c2) = insert_send_ctrl_req dev msg_seq_num buff size mr_handle req c1 in
          let (rc3, c3) = insert_recv_segms_req dev msg_seq_num req c2 in
          elim rc [
            | err e ↦ (err e, c2)
            | ok _ ↦ elim rc3 [ err e ↦ (err e, c3) | ok _ ↦ (ok req, c3) ]
          ]
    ]

pub alloc_eager_copy_req : Device → ℕ → ℕ → RecvComm → Result (Unit {0}) × RecvComm
alloc_eager_copy_req dev recv_req bounce_req c =
    let (got, c1) =
      new_req dev.fab (c.ep.reqs recv_req).msg_seq_num
        (eager_copy (record { eager_bounce_req = bounce_req; recv_req = recv_req })) c in
    elim got [
      | none ↦ (err enomem, c1)
      | some req ↦ (ok tt, update_recv_data recv_req (λ r. record r { eager_copy_req = req }) c1)
    ]
