-- ===== src/Rdma/Send/Finish.antt =====
-- The completions of a send, and its end in `test`, in src/nccl_ofi_rdma.c.
pub mod Count
use aws_ofi_nccl.Base.{ℕ, true, Option, none, some, einval, Result, ok, err}
use aws_ofi_nccl.Msgbuff
use aws_ofi_nccl.Rdma.{completed, error, inc_req_completion}
use aws_ofi_nccl.Rdma.Send.{SendComm, send_data_at, free_send_req}
use aws_ofi_nccl.Rdma.Send.Meet.{msg_seq_num_of}

-- process_completions on a send request: a write or an eager message of it is complete. The arrival of
-- the control message of an eager send counts in the same way.
pub complete_send : ℕ → SendComm → SendComm
complete_send req c = record c {
  ep = inc_req_completion req 0 (send_data_at c req).total_num_compls c.ep;
}

-- The part of `test` after the polling, for a send request: the size of the message if it is done.
-- The outer `none` is a loop of the message buffer that did not end.
pub test_send : ℕ → SendComm → Option (Result (Option ℕ) × SendComm)
test_send req c = elim (c.ep.reqs req).state [
  | completed ↦ elim (Msgbuff.complete c.msgbuff (msg_seq_num_of req c)) [
    | none ↦ none
    | some (res, _, m) ↦
        let c1 = record c { msgbuff = m } in
        elim res [
          | Msgbuff.success ↦ some (ok (some (c.ep.reqs req).size), free_send_req req true c1)
          | _ ↦ some (err einval, c1)
        ]
  ]
  | error ↦ some (err einval, c)
  | _ ↦ some (ok none, c)
]
