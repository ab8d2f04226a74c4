-- ===== src/Rdma/Send/Meet/Order.antt =====
-- A send and its control message meet, whichever comes first: the message buffer between `send` and
-- handle_ctrl_recv of src/nccl_ofi_rdma.c.
use aws_ofi_nccl.Base.{ℕ, ◌≡◌, some, false, ok, Result}
use aws_ofi_nccl.Msgbuff
use aws_ofi_nccl.Msgbuff.{Msgbuff}
use aws_ofi_nccl.Msgbuff.Inv.{IsValid}
use aws_ofi_nccl.Rdma.{SendData, Endpoint}
use aws_ofi_nccl.Rdma.Progress.{Fabric, bounce_data_of}
use aws_ofi_nccl.Rdma.Bounce.{decrease_bounce_buff_cnt}
use aws_ofi_nccl.Rdma.Bounce.Uncount.{Uncounted}
use aws_ofi_nccl.Rdma.Send.{SendComm}
use aws_ofi_nccl.Rdma.Send.Meet.Met.{Met}
use aws_ofi_nccl.Rdma.Send.Meet.{find_ctrl, insert_rdma_send_req_into_msgbuff, handle_ctrl_recv}

-- The rail of a bounce buffer, and the endpoint once that buffer is taken out of its count.
abbrev pub rail_of : SendComm → ℕ → ℕ
rail_of c bounce_req = (bounce_data_of (c.ep.reqs bounce_req).type).rail

abbrev pub uncount : Fabric → ℕ → SendComm → Result (Unit {0}) × Endpoint
uncount fab bounce_req c = decrease_bounce_buff_cnt fab (rail_of c bounce_req) c.ep

-- The control message comes first: it waits in the buffer `m`, its bounce buffer is taken out of the
-- count of its rail, and the send finds it there.
pub record CtrlWaits (fab : Fabric) (c : SendComm) (seq bounce_req : ℕ) : Type 0 where
  pub buffer : Msgbuff
  pub valid : IsValid buffer
  pub handled :
      handle_ctrl_recv fab seq bounce_req c
      ≡ some (
        (uncount fab bounce_req c).0,
        record c { msgbuff = buffer; ep = (uncount fab bounce_req c).1 },
      )
  pub uncounted : Uncounted (rail_of c bounce_req) c.ep (uncount fab bounce_req c)
  pub found : find_ctrl buffer seq ≡ ok (some bounce_req)

-- The send comes first: its request, of data `d` by then, waits in the buffer, and the control message
-- meets it there, when the rest of the communicator is that of `later`.
pub record SendWaits (fab : Fabric) (c : SendComm) (seq bounce_req req : ℕ) (d : SendData)
    (later : SendComm) : Type 0 where
  pub buffer : Msgbuff
  pub valid : IsValid buffer
  pub inserted :
      insert_rdma_send_req_into_msgbuff false req c
      ≡ some (ok (some req), record c { msgbuff = buffer })
  pub result : Result (Unit {0}) × SendComm
  pub handled :
      handle_ctrl_recv fab seq bounce_req (record later { msgbuff = buffer }) ≡ some result
  pub met : Met fab bounce_req req d (record later { msgbuff = buffer }) result
