-- ===== src/Rdma/Recv/Meet.antt =====
-- A receive and the eager message of its sender, which meet in the message buffer: `recv` and
-- handle_eager_recv of src/nccl_ofi_rdma.c.
pub mod Order
use aws_ofi_nccl.Base.{
  ℕ, ◌+◌, Bool, true, false, not, Option, none, some, ◌==◌, if◌then◌else◌, einval, enomem, Result,
  ok, err, bit_and,
}
use aws_ofi_nccl.Imm.{msg_seq_num_mask}
use aws_ofi_nccl.Msgbuff
use aws_ofi_nccl.Msgbuff.{Msgbuff}
use aws_ofi_nccl.Rdma.{inc_req_completion}
use aws_ofi_nccl.Rdma.Progress.{bounce_data_of, receive_progress}
use aws_ofi_nccl.Rdma.Bounce.{decrease_bounce_buff_cnt, check_post_bounce_req}
use aws_ofi_nccl.Rdma.Send.Meet.{address, is_some}
use aws_ofi_nccl.Rdma.Recv.{
  Device, RecvComm, recv_data_at, allocate_rdma_recv_req, alloc_eager_copy_req,
}
use aws_ofi_nccl.Rdma.Recv.Free.{free_recv_req}

-- The lookup of `recv`: the bounce request whose eager message has arrived, or `none` for a message
-- that has not started.
pub find_eager : Msgbuff → ℕ → Result (Option ℕ)
find_eager m msg_seq_num =
    let (res, stat, out) = Msgbuff.retrieve m msg_seq_num true in
    elim res [
      | Msgbuff.success ↦ elim out [
        | some (elem, Msgbuff.buff) ↦ ok (some (address elem))
        | _ ↦ err einval
      ]
      | Msgbuff.invalid_idx ↦ elim stat [
        | some Msgbuff.Status.notstarted ↦ ok none
        | _ ↦ err einval
      ]
      | Msgbuff.error ↦ err einval
    ]

abbrev pub recv_len_of : RecvComm → ℕ → ℕ
recv_len_of c bounce_req = (bounce_data_of (c.ep.reqs bounce_req).type).recv_len

abbrev pub msg_seq_num_of : ℕ → RecvComm → ℕ
msg_seq_num_of req c = (c.ep.reqs req).msg_seq_num

-- receive_progress on a part of a receive, which goes to the queue when libfabric is busy.
abbrev pub post_part : Device → ℕ → RecvComm → Result (Unit {0}) × RecvComm
post_part dev req c =
    let (rc, ep1) = receive_progress dev.fab dev.flush_size req true c.ep in
    (rc, record c { ep = ep1 })

-- `none` in place of the request means that an eager message came first, and that the request is
-- freed. The outer `none` is a loop of the message buffer that did not end.
pub insert_rdma_recv_req_into_msgbuff : Bool → ℕ → RecvComm → Option (Result (Option ℕ) × RecvComm)
insert_rdma_recv_req_into_msgbuff eager req c =
    let (rres, _, rm) = Msgbuff.replace c.msgbuff (msg_seq_num_of req c) (some req) Msgbuff.req in
    if eager
    then elim rres [
      | Msgbuff.success ↦ some (ok (some req), record c { msgbuff = rm })
      | _ ↦ some (err einval, record c { msgbuff = rm })
    ]
    else elim (Msgbuff.insert c.msgbuff (msg_seq_num_of req c) (some req) Msgbuff.req) [
      | none ↦ none
      | some (res, stat, m) ↦
          let c1 = record c { msgbuff = m } in
          elim res [
            | Msgbuff.success ↦ some (ok (some req), c1)
            | Msgbuff.invalid_idx ↦
                if Msgbuff.is_inprogress stat
                then some (ok none, free_recv_req req false c1)
                else some (err einval, c1)
            | Msgbuff.error ↦ some (err einval, c1)
          ]
    ]

-- The part of `recv` that deals with an eager message that is there. The Boolean tells that `recv`
-- returns at once, without freeing the request.
pub take_eager : Device → ℕ → Option ℕ → RecvComm → Result (Unit {0}) × Bool × RecvComm
take_eager dev req none c = (ok tt, false, c)
take_eager dev req (some bounce_req) c =
    let (rc, ep1) = check_post_bounce_req dev.fab bounce_req c.ep in
    let (rc2, c2) = alloc_eager_copy_req dev req bounce_req c in
    if recv_len_of c bounce_req == 0 then (rc, true, record c { ep = ep1 }) else (rc2, false, c2)

-- The end of `recv`: the control message, and the eager copy or the completion for an empty eager
-- message.
pub post_recv : Device → ℕ → Bool → RecvComm → Result (Unit {0}) × RecvComm
post_recv dev req eager c =
    let d = recv_data_at c req in
    let (rc, c1) = post_part dev d.send_ctrl_req (record c { n_ctrl_sent = c.n_ctrl_sent + 1 }) in
    let done = record c1 { ep = inc_req_completion req 0 d.total_num_compls c1.ep } in
    let copied = post_part dev d.eager_copy_req c1 in
    elim rc [
      | err e ↦ (err e, c1)
      | ok _ ↦
          if not eager then (ok tt, c1) else if d.eager_copy_req == 0 then (ok tt, done) else copied
    ]

-- `recv` from the lookup of its message on, given what the lookup found: the request that NCCL gets.
pub recv_found : Device → ℕ → ℕ → ℕ → Option ℕ → RecvComm → Option (Result ℕ × RecvComm)
recv_found dev buff size mr_handle bounce c =
    let (rc, c1) = allocate_rdma_recv_req dev c.next_msg_seq_num buff size mr_handle c in
    elim rc [
      | err e ↦ some (err e, c1)
      | ok req ↦
          let (rc2, at_once, c2) = take_eager dev req bounce c1 in
          elim rc2 [
            | err e ↦ some (err e, if at_once then c2 else free_recv_req req false c2)
            | ok _ ↦ elim (insert_rdma_recv_req_into_msgbuff (is_some bounce) req c2) [
              | none ↦ none
              | some (err e, c3) ↦ some (err e, free_recv_req req false c3)
              | some (ok none, c3) ↦ some (err enomem, c3)
              | some (ok (some _), c3) ↦
                  let (rc4, c4) =
                    post_recv dev req (is_some bounce)
                      (record c3 { num_inflight_reqs = c3.num_inflight_reqs + 1 }) in
                  elim rc4 [
                    | err e ↦ some (err e, free_recv_req req false c4)
                    | ok _ ↦ some (
                      ok req,
                      record c4 {
                        next_msg_seq_num = bit_and (c4.next_msg_seq_num + 1) msg_seq_num_mask;
                      },
                    )
                  ]
            ]
          ]
    ]

-- handle_eager_recv once a receive request stands in the message buffer.
pub meet_eager : Device → ℕ → ℕ → RecvComm → Result (Unit {0}) × RecvComm
meet_eager dev bounce_req recv_req c =
    let (rc, ep1) = check_post_bounce_req dev.fab bounce_req c.ep in
    let total = (recv_data_at (record c { ep = ep1 }) recv_req).total_num_compls in
    let (rc2, c2) = alloc_eager_copy_req dev recv_req bounce_req c in
    let copied = post_part dev (recv_data_at c2 recv_req).eager_copy_req c2 in
    let empty : Result (Unit {0}) × RecvComm = elim rc [
      | err e ↦ (err e, record c { ep = ep1 })
      | ok _ ↦ (ok tt, record c { ep = inc_req_completion recv_req 0 total ep1 })
    ] in
    let copy : Result (Unit {0}) × RecvComm = elim rc2 [ err e ↦ (err e, c2) | ok _ ↦ copied ] in
    if recv_len_of c bounce_req == 0 then empty else copy

pub handle_eager_recv : Device → ℕ → ℕ → RecvComm → Option (Result (Unit {0}) × RecvComm)
handle_eager_recv dev msg_seq_num bounce_req c =
    let (rc, ep1) =
      decrease_bounce_buff_cnt dev.fab (bounce_data_of (c.ep.reqs bounce_req).type).rail c.ep in
    let c1 = record c { ep = ep1 } in
    let inserted = Msgbuff.insert c.msgbuff msg_seq_num (some bounce_req) Msgbuff.buff in
    elim rc [
      | err e ↦ some (err e, c1)
      | ok _ ↦ elim inserted [
        | none ↦ none
        | some (res, stat, m) ↦
            let c2 = record c1 { msgbuff = m } in
            let (_, _, out) = Msgbuff.retrieve m msg_seq_num true in
            elim res [
              | Msgbuff.success ↦ some (ok tt, c2)
              | Msgbuff.invalid_idx ↦
                  if not (Msgbuff.is_inprogress stat) then some (err einval, c2) else elim out [
                    | some (elem, Msgbuff.req) ↦ some (meet_eager dev bounce_req (address elem) c2)
                    | _ ↦ some (err einval, c2)
                  ]
              | Msgbuff.error ↦ some (err einval, c2)
            ]
      ]
    ]
