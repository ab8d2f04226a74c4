-- ===== src/Rdma/Recv/Arrive.antt =====
-- The data of a message arrives: the completions of RDMA writes and of eager copies on the receiving
-- side, in src/nccl_ofi_rdma.c, and the end of a receive in `test`.
pub mod Write
pub mod Finish
use aws_ofi_nccl.Base.{ℕ, Bool, true, false, Option, none, some, einval, Result, ok, err}
use aws_ofi_nccl.Imm.{get_comm_id_from_imm, get_seq_num_from_imm, get_num_seg_from_imm}
use aws_ofi_nccl.Msgbuff
use aws_ofi_nccl.Rdma.{
  completed, error, ReqState, RecvSegmsData, EagerCopyData, FlushData, ReqType, recv_segms,
  eager_copy, inc_req_completion, inc_recv_seg_completion, update_req,
}
use aws_ofi_nccl.Rdma.Bounce.{check_post_bounce_req}
use aws_ofi_nccl.Rdma.Send.Meet.{address}
use aws_ofi_nccl.Rdma.Recv.{Device, RecvComm, recv_data_at}
use aws_ofi_nccl.Rdma.Recv.Free.{free_recv_req}
use aws_ofi_nccl.Rdma.Recv.Meet.{recv_len_of, msg_seq_num_of}

-- `comms` is the table of receive communicators of the device, by their IDs.
pub get_req_from_imm_data : (ℕ → RecvComm) → ℕ → Option ℕ
get_req_from_imm_data comms imm =
    let c = comms (get_comm_id_from_imm imm) in
    let (res, _, out) = Msgbuff.retrieve c.msgbuff (get_seq_num_from_imm imm) true in
    elim res [
      | Msgbuff.success ↦ elim out [ some (elem, Msgbuff.req) ↦ some (address elem) | _ ↦ none ]
      | _ ↦ none
    ]

-- get_recv_segms_data; the source asserts the type.
abbrev pub segms_data_of : ReqType → RecvSegmsData
segms_data_of (recv_segms d) = d
segms_data_of _ = record { recv_req = 0 }

-- The communicator that the immediate data names, after a remote write of `len` bytes.
pub handle_write_comp : (ℕ → RecvComm) → ℕ → ℕ → Result (Unit {0}) × RecvComm
handle_write_comp comms imm len =
    let c = comms (get_comm_id_from_imm imm) in
    elim (get_req_from_imm_data comms imm) [
      | none ↦ (err einval, c)
      | some req ↦
          let segms_req = (recv_data_at c req).recv_segms_req in
          let d = segms_data_of (c.ep.reqs segms_req).type in
          (
            ok tt,
            record c {
              ep = inc_recv_seg_completion segms_req d len (get_num_seg_from_imm imm) c.ep;
            },
          )
    ]

-- handle_flush_comp, for a request with this data. It always returns 0.
pub handle_flush_comp : ℕ → FlushData → RecvComm → RecvComm
handle_flush_comp req flush_data c = record c {
  ep = inc_req_completion req 0 flush_data.total_num_compls c.ep;
}

-- set_eager_copy_completed, for a request with this data.
pub set_eager_copy_completed : Device → ℕ → EagerCopyData → RecvComm → Result (Unit {0}) × RecvComm
set_eager_copy_completed dev req d c =
    let done = update_req req (λ r. record r { ncompls = 1; state = completed }) c.ep in
    let size = recv_len_of c d.eager_bounce_req in
    let (rc, ep1) = check_post_bounce_req dev.fab d.eager_bounce_req done in
    let c1 = record c { ep = ep1 } in
    elim rc [
      | err e ↦ (err e, c1)
      | ok _ ↦ (
        ok tt,
        record c {
          ep = inc_req_completion d.recv_req size (recv_data_at c1 d.recv_req).total_num_compls ep1;
        },
      )
    ]

-- The part of `test` after the polling, for a receive request: the size of the message if it is done.
-- The outer `none` is a loop of the message buffer that did not end.
pub test_recv : ℕ → RecvComm → Option (Result (Option ℕ) × RecvComm)
test_recv req c = elim (c.ep.reqs req).state [
  | completed ↦ elim (Msgbuff.complete c.msgbuff (msg_seq_num_of req c)) [
    | none ↦ none
    | some (res, _, m) ↦
        let c1 = record c { msgbuff = m } in
        elim res [
          | Msgbuff.success ↦ some (ok (some (c.ep.reqs req).size), free_recv_req req true c1)
          | _ ↦ some (err einval, c1)
        ]
  ]
  | error ↦ some (err einval, c)
  | _ ↦ some (ok none, c)
]
