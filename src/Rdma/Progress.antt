-- ===== src/Rdma/Progress.antt =====
-- The posting of requests to libfabric in src/nccl_ofi_rdma.c, and the queue of those that it was too
-- busy to accept.
pub mod Keeps
pub mod Adds
pub mod Retry
pub mod Posts
pub mod Stripes
pub mod Queue
pub mod Flush
pub mod Close
mod Tests
use aws_ofi_nccl.Base.{
  ℕ, zero, suc, ◌+◌, ◌*◌, Bool, true, false, Option, none, some, List, [], ◌∷◌, ltb, ◌==◌,
  if◌then◌else◌, get_or, take, drop, Error, other, einval, enotsup, Result, ok, err,
}
use aws_ofi_nccl.Deque.{insert_back, insert_front, remove_front}
use aws_ofi_nccl.Freelist.{Platform}
use aws_ofi_nccl.Scheduler.{XferInfo, Schedule}
use aws_ofi_nccl.Rdma.{
  created, pending, SendData, RmaOpData, RecvData, SendCtrlData, SendCloseData, EagerCopyData,
  BounceData, FlushData, ReqType, write, read, send, recv, send_ctrl, send_close, eager_copy,
  bounce, flush, Operation, fi_writedata, fi_senddata, fi_writemsg, fi_recvmsg, fi_send, fi_read,
  Post, Endpoint, update_req,
}

-- What the code asks of its surroundings: from libfabric the return code of each operation given to
-- it, and whether the key of a registered memory on a rail is available; for each entry asked of
-- a free list what mmap gives, should the list grow, and what the mutex initialisation returns.
pub record Fabric : Type 0 where
  pub answer : ℕ → Result (Unit {0})
  pub has_key : ℕ → ℕ → Bool
  pub num_rails : ℕ
  pub use_long_rkeys : Bool
  pub platform : Platform
  pub mmap : ℕ → ℕ → ℕ × ℕ
  pub mutex_ret : ℕ → ℕ

-- -FI_EAGAIN, -EIO and -FI_ENODATA
abbrev pub eagain : Error
eagain = other 11

abbrev pub eio : Error
eio = other 5

abbrev pub enodata : Error
enodata = other 61

abbrev pub is_eagain : Error → Bool
is_eagain (other n) = n == 11
is_eagain _ = false

-- One operation given to libfabric.
unfoldable pub post : Fabric → Post → Endpoint → Result (Unit {0}) × Endpoint
post fab p ep = elim (fab.answer ep.tries) [
  | ok _ ↦ (ok tt, record ep { tries = ep.tries + 1; posted = p ∷ ep.posted })
  | err e ↦ (err e, record ep { tries = ep.tries + 1 })
]

-- nccl_net_ofi_rdma_ctrl_msg_size
pub rdma_ctrl_msg_size : ℕ → Bool → ℕ
rdma_ctrl_msg_size num_rails use_long_rkeys = 16 + num_rails * (if use_long_rkeys then 8 else 4)

abbrev pub sizeof_close_msg : ℕ
sizeof_close_msg = 24

-- post_rdma_write and post_rdma_eager_send
abbrev pub post_rdma_write : Fabric → ℕ → XferInfo → Endpoint → Result (Unit {0}) × Endpoint
post_rdma_write fab req x = post fab (record {
  operation = fi_writedata;
  req = req;
  rail_id = x.rail_id;
  offset = x.offset;
  len = x.msg_size;
})

abbrev pub post_rdma_eager_send : Fabric → ℕ → XferInfo → Endpoint → Result (Unit {0}) × Endpoint
post_rdma_eager_send fab req x = post fab (record {
  operation = fi_senddata;
  req = req;
  rail_id = x.rail_id;
  offset = x.offset;
  len = x.msg_size;
})

-- An operation on the whole of a buffer.
abbrev pub post_whole : Fabric → Operation → ℕ → ℕ → ℕ → Endpoint → Result (Unit {0}) × Endpoint
post_whole fab operation req rail_id len =
    post fab (record { operation = operation; req = req; rail_id = rail_id; offset = 0; len = len })

-- post_rma_write and post_rma_read
abbrev pub post_rma_write : Fabric → ℕ → RmaOpData → Endpoint → Result (Unit {0}) × Endpoint
post_rma_write fab req d = post_whole fab fi_writemsg req 0 d.buff_len

abbrev pub post_rma_read : Fabric → ℕ → RmaOpData → Endpoint → Result (Unit {0}) × Endpoint
post_rma_read fab req d = post_whole fab fi_read req 0 d.buff_len

-- post_bounce_buffer; FI_MORE is a hint, left out.
unfoldable pub post_bounce_buffer :
    Fabric → ℕ → BounceData → Endpoint → Result (Unit {0}) × Endpoint
post_bounce_buffer fab req d ep =
    post_whole fab fi_recvmsg req d.rail d.buff_len
      (update_req req (λ r. record r { state = created }) ep)

abbrev pub first_rail : Option Schedule → ℕ
first_rail none = 0
first_rail (some s) =
    (get_or s.rail_xfer_infos 0 (record { rail_id = 0; offset = 0; msg_size = 0 })).rail_id

pub post_rdma_ctrl : Fabric → ℕ → SendCtrlData → Endpoint → Result (Unit {0}) × Endpoint
post_rdma_ctrl fab req d =
    post_whole fab fi_send req (first_rail d.ctrl_schedule)
      (rdma_ctrl_msg_size fab.num_rails fab.use_long_rkeys)

pub post_close_msg : Fabric → ℕ → SendCloseData → Endpoint → Result (Unit {0}) × Endpoint
post_close_msg fab req d ep =
    post_whole fab fi_send req (first_rail (some d.ctrl_schedule)) sizeof_close_msg
      (update_req req (λ r. record r { state = pending }) ep)

-- get_bounce_data and get_recv_data; the source asserts the types.
abbrev pub bounce_data_of : ReqType → BounceData
bounce_data_of (bounce d) = d
bounce_data_of _ = record { bounce_fl_item = 0; buff_len = 0; recv_len = 0; rail = 0 }

abbrev pub dst_len_of : ReqType → ℕ
dst_len_of (recv d) = d.dst_len
dst_len_of _ = 0

pub post_eager_copy : Fabric → ℕ → EagerCopyData → Endpoint → Result (Unit {0}) × Endpoint
post_eager_copy fab req d ep =
    let bounce_data = bounce_data_of (ep.reqs d.eager_bounce_req).type in
    let dst_len = dst_len_of (ep.reqs d.recv_req).type in
    let recv_len = (if ltb dst_len bounce_data.recv_len then dst_len else bounce_data.recv_len) in
    let ep1 =
      update_req d.eager_bounce_req
        (λ r. record r { type = bounce (record bounce_data { recv_len = recv_len }) }) ep in
    if fab.has_key bounce_data.bounce_fl_item bounce_data.rail
    then post_whole fab fi_read req bounce_data.rail recv_len ep1
    else (err eio, ep1)

-- The loop of post_flush_req over the `left` rails from `rail_id` on; `rc` is the last return code,
-- and `size` the size of the flush buffer. A mr_handle of NULL is 0.
pub flush_rails :
    Fabric → ℕ → FlushData → ℕ → ℕ → ℕ → Result (Unit {0}) → Endpoint → Result (Unit {0}) × Endpoint
flush_rails fab req d size zero rail_id rc ep = (rc, ep)
flush_rails fab req d size (suc left) rail_id rc ep =
    let (rc', ep1) =
      post fab
        (record { operation = fi_read; req = req; rail_id = rail_id; offset = 0; len = size }) ep in
    let rest = flush_rails fab req d size left (rail_id + 1) rc' ep1 in
    let read_rail : Result (Unit {0}) × Endpoint = elim rc' [
      | ok _ ↦ rest
      | err e ↦ if is_eagain e then rest else (err e, ep1)
    ] in
    if d.mr_handle == 0
    then read_rail
    else if fab.has_key d.mr_handle rail_id
    then read_rail
    else (err enodata, ep)

pub post_flush_req : Fabric → ℕ → ℕ → FlushData → Endpoint → Result (Unit {0}) × Endpoint
post_flush_req fab size req d ep = flush_rails fab req d size fab.num_rails 0 (ok tt) ep

abbrev pub count_xfer : ReqType → ReqType
count_xfer (send d) = send (record d { xferred_rail_id = d.xferred_rail_id + 1 })
count_xfer (write d) = write (record d { xferred_rail_id = d.xferred_rail_id + 1 })
count_xfer t = t

-- `xferred_rail_id++`
abbrev pub count_sent : ℕ → Endpoint → Endpoint
count_sent req ep = update_req req (λ r. record r { type = count_xfer r.type }) ep

-- The loop of send_progress over the transfers that are left.
pub send_rails : Fabric → ℕ → List XferInfo → Endpoint → Result (Unit {0}) × Endpoint
send_rails fab req [] ep = (ok tt, ep)
send_rails fab req (x ∷ xs) ep =
    let (rc, ep1) = post_rdma_write fab req x ep in
    let rest = send_rails fab req xs (count_sent req ep1) in
    elim rc [ ok _ ↦ rest | err e ↦ (err e, ep1) ]

pub send_progress : Fabric → ℕ → Endpoint → Result (Unit {0}) × Endpoint
send_progress fab req ep = elim (ep.reqs req).type [
  | send d ↦ elim d.schedule [
    | none ↦ (err enotsup, ep)
    | some s ↦
        if d.eager
        then post_rdma_eager_send fab req
            (get_or s.rail_xfer_infos 0 (record { rail_id = 0; offset = 0; msg_size = 0 })) ep
        else send_rails fab req (drop d.xferred_rail_id (take s.num_xfer_infos s.rail_xfer_infos))
            ep
  ]
  | write d ↦
      let (rc, ep1) = post_rma_write fab req d ep in
      elim rc [ ok _ ↦ (ok tt, count_sent req ep1) | err e ↦ (err e, ep1) ]
  | bounce d ↦ post_bounce_buffer fab req d ep
  | _ ↦ (err einval, ep)
]

-- The first part of receive_progress; `size` is the size of the flush buffer.
pub post_receive : Fabric → ℕ → ℕ → Endpoint → Result (Unit {0}) × Endpoint
post_receive fab size req ep = elim (ep.reqs req).type [
  | eager_copy d ↦ post_eager_copy fab req d ep
  | send_ctrl d ↦ post_rdma_ctrl fab req d ep
  | send_close d ↦ post_close_msg fab req d ep
  | flush d ↦ post_flush_req fab size req d ep
  | read d ↦ post_rma_read fab req d ep
  | _ ↦ (err einval, ep)
]

-- A request that libfabric did not take goes to the end of the queue. An element of the queue has
-- the address of its request.
unfoldable pub queue_back : ℕ → Endpoint → Endpoint
queue_back req ep = record ep { pending_reqs_queue = insert_back ep.pending_reqs_queue req }

pub receive_progress : Fabric → ℕ → ℕ → Bool → Endpoint → Result (Unit {0}) × Endpoint
receive_progress fab size req add_to_pending ep =
    let (rc, ep1) = post_receive fab size req ep in
    elim rc [
      | ok _ ↦ (ok tt, ep1)
      | err e ↦ elim add_to_pending [
        | true ↦ if is_eagain e then (ok tt, queue_back req ep1) else (err e, ep1)
        | false ↦ (err e, ep1)
      ]
    ]

-- The switch of process_pending_reqs: `none` for a type that has no place in the queue.
pub retry : Fabric → ℕ → ℕ → Endpoint → Option (Result (Unit {0}) × Endpoint)
retry fab size req ep = elim (ep.reqs req).type [
  | write _ ↦ some (send_progress fab req ep)
  | send _ ↦ some (send_progress fab req ep)
  | bounce _ ↦ some (send_progress fab req ep)
  | read _ ↦ some (receive_progress fab size req false ep)
  | eager_copy _ ↦ some (receive_progress fab size req false ep)
  | send_ctrl _ ↦ some (receive_progress fab size req false ep)
  | flush _ ↦ some (receive_progress fab size req false ep)
  | _ ↦ none
]

-- process_pending_reqs, with a bound on its rounds; `none` means that they ran out.
pub process_pending_reqs : ℕ → Fabric → ℕ → Endpoint → Option (Result (Unit {0}) × Endpoint)
process_pending_reqs zero fab size ep = none
process_pending_reqs (suc n) fab size ep =
    let (elem, queue) = remove_front ep.pending_reqs_queue ep.pending_reqs_queue in
    let ep1 = record ep { pending_reqs_queue = queue } in
    elim elem [
      | none ↦ some (ok tt, ep1)
      | some req ↦ elim (retry fab size req ep1) [
        | none ↦ some (err einval, ep1)
        | some (rc, ep2) ↦ elim rc [
          | ok _ ↦ process_pending_reqs n fab size ep2
          | err e ↦
              if is_eagain e
              then some (
                ok tt,
                record ep2 { pending_reqs_queue = insert_front ep2.pending_reqs_queue req },
              )
              else some (err e, ep2)
        ]
      ]
    ]
