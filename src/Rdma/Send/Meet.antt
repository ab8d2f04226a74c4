-- ===== src/Rdma/Send/Meet.antt =====
-- A send and the control message of its receiver, which meet in the message buffer: `send` and
-- handle_ctrl_recv of src/nccl_ofi_rdma.c.
pub mod Order
pub mod Met
use aws_ofi_nccl.Base.{
  ℕ, ◌+◌, Bool, true, false, not, ◌&&◌, ◌||◌, Option, none, some, leb, ◌==◌, if◌then◌else◌, einval,
  enotsup, Result, ok, err, bit_and,
}
use aws_ofi_nccl.Imm.{msg_seq_num_mask}
use aws_ofi_nccl.Msgbuff
use aws_ofi_nccl.Msgbuff.{Msgbuff}
use aws_ofi_nccl.Rdma.{update_req, inc_req_completion}
use aws_ofi_nccl.Rdma.Progress.{Fabric, is_eagain, bounce_data_of, send_progress, queue_back}
use aws_ofi_nccl.Rdma.Bounce.{repost_bounce_buff, decrease_bounce_buff_cnt, check_post_bounce_req}
use aws_ofi_nccl.Rdma.Send.{
  SendComm, send_data_at, ctrl_msg_of, clip_req, update_send_data_from_remote, free_send_req,
  alloc_rdma_send_req,
}

-- A pointer of the message buffer, 0 for NULL.
abbrev pub address : Option ℕ → ℕ
address none = 0
address (some p) = p

-- The lookup of `send`: the bounce request whose control message has arrived, or `none` for a message
-- that has not started.
pub find_ctrl : Msgbuff → ℕ → Result (Option ℕ)
find_ctrl m msg_seq_num =
    let (res, stat, out) = Msgbuff.retrieve m msg_seq_num true in
    elim res [
      | Msgbuff.success ↦ elim out [
        | some (elem, Msgbuff.buff) ↦ ok (some (address elem))
        | _ ↦ err einval
      ]
      | Msgbuff.invalid_idx ↦ elim stat [
        | some Msgbuff.Status.notstarted ↦ ok none
        | _ ↦ err einval
      ]
      | Msgbuff.error ↦ err einval
    ]

abbrev pub is_some : Option ℕ → Bool
is_some none = false
is_some (some _) = true

abbrev pub is_eager : ℕ → ℕ → Bool → Bool
is_eager eager_max_size size have_ctrl = (not have_ctrl && leb size eager_max_size) || (size == 0)

-- The part of `send` that makes the request: it is eager when it is empty, or when it is small and
-- no control message has arrived. On an error that leaves a request, the request is freed.
pub prepare_send : Fabric → ℕ → ℕ → ℕ → ℕ → ℕ → Option ℕ → SendComm → Result ℕ × SendComm
prepare_send fab eager_max_size msg_seq_num buff size mr_handle ctrl c =
    let (rc, c1) =
      alloc_rdma_send_req fab msg_seq_num buff size mr_handle
        (is_eager eager_max_size size (is_some ctrl)) c in
    elim rc [
      | err e ↦ (err e, c1)
      | ok req ↦ elim ctrl [
        | none ↦ (ok req, c1)
        | some bounce_req ↦
            let (rc2, c2) = update_send_data_from_remote fab bounce_req req c1 in
            elim rc2 [
              | err e ↦ (err e, free_send_req req false c2)
              | ok _ ↦
                  let (rc3, ep3) = check_post_bounce_req fab bounce_req c2.ep in
                  let c3 = record c2 { ep = ep3 } in
                  elim rc3 [ ok _ ↦ (ok req, c3) | err e ↦ (err e, free_send_req req false c3) ]
            ]
      ]
    ]

abbrev pub msg_seq_num_of : ℕ → SendComm → ℕ
msg_seq_num_of req c = (c.ep.reqs req).msg_seq_num

-- `none` in place of the request means that a control message came first, and that the request is
-- freed. The outer `none` is a loop of the message buffer that did not end.
pub insert_rdma_send_req_into_msgbuff : Bool → ℕ → SendComm → Option (Result (Option ℕ) × SendComm)
insert_rdma_send_req_into_msgbuff have_ctrl req c =
    let (rres, _, rm) = Msgbuff.replace c.msgbuff (msg_seq_num_of req c) (some req) Msgbuff.req in
    if have_ctrl
    then elim rres [
      | Msgbuff.success ↦ some (ok (some req), record c { msgbuff = rm })
      | _ ↦ some (err einval, record c { msgbuff = rm })
    ]
    else elim (Msgbuff.insert c.msgbuff (msg_seq_num_of req c) (some req) Msgbuff.req) [
      | none ↦ none
      | some (res, stat, m) ↦
          let c1 = record c { msgbuff = m } in
          elim res [
            | Msgbuff.success ↦ some (ok (some req), c1)
            | Msgbuff.invalid_idx ↦
                if Msgbuff.is_inprogress stat
                then some (ok none, free_send_req req false c1)
                else some (err einval, c1)
            | Msgbuff.error ↦ some (err einval, c1)
          ]
    ]

-- send_progress on a request, which goes to the queue when libfabric is busy.
pub post_send : Fabric → ℕ → SendComm → Result (Unit {0}) × SendComm
post_send fab req c =
    let (rc, ep1) = send_progress fab req c.ep in
    elim rc [
      | ok _ ↦ (ok tt, record c { ep = ep1 })
      | err e ↦
          if is_eagain e
          then (ok tt, record c { ep = queue_back req ep1 })
          else (err e, record c { ep = ep1 })
    ]

-- `send` from the lookup of its message on, given what the lookup found: the request that NCCL gets,
-- or `none` where NCCL has to call again.
pub send_found :
    Fabric → ℕ → ℕ → ℕ → ℕ → Option ℕ → SendComm → Option (Result (Option ℕ) × SendComm)
send_found fab eager_max_size buff size mr_handle ctrl c =
    let have_ctrl = is_some ctrl in
    let (rc, c1) = prepare_send fab eager_max_size c.next_msg_seq_num buff size mr_handle ctrl c in
    elim rc [
      | err e ↦ some (err e, c1)
      | ok req ↦ elim (insert_rdma_send_req_into_msgbuff have_ctrl req c1) [
        | none ↦ none
        | some (err e, c2) ↦ some (err e, free_send_req req false c2)
        | some (ok none, c2) ↦ some (ok none, c2)
        | some (ok (some _), c2) ↦
            let c3 = record c2 { num_inflight_reqs = c2.num_inflight_reqs + 1 } in
            let (rc4, c4) =
              (if have_ctrl || (send_data_at c1 req).eager
                then post_send fab req c3
                else (ok tt, c3)) in
            elim rc4 [
              | err _ ↦ some (err enotsup, free_send_req req false c4)
              | ok _ ↦ some (
                ok (some req),
                record c4 { next_msg_seq_num = bit_and (c4.next_msg_seq_num + 1) msg_seq_num_mask },
              )
            ]
      ]
    ]

-- handle_ctrl_recv once a send request stands in the message buffer.
pub meet_ctrl : Fabric → ℕ → ℕ → SendComm → Result (Unit {0}) × SendComm
meet_ctrl fab bounce_req req c =
    let d = send_data_at c req in
    let remote_len = (ctrl_msg_of c bounce_req).buff_len in
    let (rc1, c1) = update_send_data_from_remote fab bounce_req req c in
    let written : Result (Unit {0}) × SendComm = elim rc1 [
      | ok _ ↦ post_send fab req c1
      | err e ↦ (err e, c1)
    ] in
    let eager_c = record c {
      ep =
          inc_req_completion req 0 d.total_num_compls (update_req req (clip_req remote_len d) c.ep);
    } in
    let (rc3, c3) = (if d.eager then (ok tt, eager_c) else written) in
    let (rc4, ep4) = repost_bounce_buff fab bounce_req c3.ep in
    elim rc3 [ ok _ ↦ (rc4, record c3 { ep = ep4 }) | err e ↦ (err e, c3) ]

pub handle_ctrl_recv : Fabric → ℕ → ℕ → SendComm → Option (Result (Unit {0}) × SendComm)
handle_ctrl_recv fab msg_seq_num bounce_req c =
    elim (Msgbuff.insert c.msgbuff msg_seq_num (some bounce_req) Msgbuff.buff) [
      | none ↦ none
      | some (res, stat, m) ↦
          let c1 = record c { msgbuff = m } in
          let (rc, ep2) =
            decrease_bounce_buff_cnt fab (bounce_data_of (c.ep.reqs bounce_req).type).rail c1.ep in
          let (_, _, out) = Msgbuff.retrieve m msg_seq_num true in
          elim res [
            | Msgbuff.success ↦ some (rc, record c1 { ep = ep2 })
            | Msgbuff.invalid_idx ↦
                if not (Msgbuff.is_inprogress stat) then some (err einval, c1) else elim out [
                  | some (elem, Msgbuff.req) ↦ some (meet_ctrl fab bounce_req (address elem) c1)
                  | _ ↦ some (err einval, c1)
                ]
            | Msgbuff.error ↦ some (err einval, c1)
          ]
    ]
