-- ===== src/Rdma/Progress/Tests.antt =====
-- A busy network: a send in two attempts, a queue, a flush on two rails and a close message.
use aws_ofi_nccl.Base.{
  ℕ, ◌≤◌, ◌≡◌, ◌↔◌, refl, some, true, false, [], ◌∷◌, arith, length, ◌==◌, inr, ok, err, einval,
  if◌then◌else◌,
}
use aws_ofi_nccl.Deque.{insert_back}
use aws_ofi_nccl.Deque.Links.{Holds}
use aws_ofi_nccl.Scheduler.{Schedule}
use aws_ofi_nccl.Rdma.{
  SendData, SendCloseData, FlushData, send, send_close, flush, ReqType, Endpoint,
}
use aws_ofi_nccl.Rdma.Samples.{request, endpoint}
use aws_ofi_nccl.Rdma.Progress.{
  Fabric, eagain, post, send_rails, send_progress, flush_rails, post_flush_req, receive_progress,
  process_pending_reqs,
}
use aws_ofi_nccl.Rdma.Progress.Stripes.{Sending, send_progress_lem}
use aws_ofi_nccl.Rdma.Progress.Flush.{post_flush_req_lem}
use aws_ofi_nccl.Rdma.Progress.Close.{close_dropped}

-- Busy on the first operation only.
abbrev fabric : Fabric
fabric = record {
  answer = λ n. if n == 0 then err eagain else ok tt;
  has_key = λ h r. true;
  num_rails = 2;
  use_long_rkeys = false;
  platform = record { system_page_size = 4096; memcheck_redzone_size = 0 };
  mmap = λ n size. (12, 0);
  mutex_ret = λ n. 0;
}

abbrev schedule : Schedule
schedule = record {
  entry = 4096;
  num_xfer_infos = 2;
  rail_xfer_infos =
      record { rail_id = 0; offset = 0; msg_size = 128 }
      ∷ record { rail_id = 1; offset = 128; msg_size = 72 }
      ∷ [];
}

abbrev sending : SendData
sending = record {
  eager = false;
  remote_buff = 8192;
  remote_len = 200;
  remote_mr_key = 7 ∷ 8 ∷ [];
  wdata = 0;
  xferred_rail_id = 0;
  buff = 4096;
  buff_len = 200;
  buff_mr_handle = 5;
  schedule = some schedule;
  total_num_compls = 2;
}

abbrev closing : SendCloseData
closing = record {
  ctrl_fl_item = 9;
  ctrl_schedule = record {
    entry = 4096;
    num_xfer_infos = 1;
    rail_xfer_infos = record { rail_id = 1; offset = 0; msg_size = 24 } ∷ [];
  };
}

abbrev flushing : FlushData
flushing = record { buffer = 4096; mr_handle = 5; total_num_compls = 2 }

abbrev with_req : ReqType → Endpoint
with_req t = record endpoint { reqs = λ q. request t }

sends_later : (send_progress fabric 1 (record (with_req (send sending)) { tries = 1 })).0 ≡ ok tt
unfolding send_progress send_rails post
sends_later = refl

send_progress_lem_example :
    let r = send_progress fabric 1 (with_req (send sending)) in
    (k' : ℕ) × Sending 1 schedule [] k' r.1 × (0 ≤ k') × (k' ≤ 2) × ((r.0 ≡ ok tt) ↔ (k' ≡ 2))
send_progress_lem_example =
    send_progress_lem fabric 1 schedule [] 0 (with_req (send sending)) (omega arith) (record {
      info = sending;
      type = refl;
      late = refl;
      schedule = refl;
      xferred = refl;
      posts = refl;
    })

-- The read on rail 0 is lost, and 0 is returned.
flush_lost :
    let r = post_flush_req fabric 64 1 flushing (with_req (flush flushing)) in
    (r.0 ≡ ok tt) × (length r.1.posted ≡ 1)
unfolding post_flush_req flush_rails post
flush_lost = (refl, refl)

post_flush_req_lem_example :
    let r = post_flush_req fabric 64 1 flushing (with_req (flush flushing)) in
    (r.0 ≡ ok tt) × (length r.1.posted ≡ 1)
post_flush_req_lem_example =
    post_flush_req_lem fabric 64 1 flushing (with_req (flush flushing)) (inr (λ r. refl))
      (refl, (refl, tt))

empty-Holds : Holds endpoint.pending_reqs_queue []
empty-Holds = record { chain = (refl, refl); distinct = (((λ e. omega arith), tt), (tt, tt)) }

abbrev one_queued : Endpoint
one_queued = record (with_req (send sending)) {
  pending_reqs_queue = insert_back endpoint.pending_reqs_queue 1;
}

close_dropped_example :
    let r = receive_progress fabric 64 1 true (with_req (send_close closing)) in
    (r.0 ≡ ok tt)
    × Holds r.1.pending_reqs_queue (1 ∷ [])
    × ((ep' : Endpoint) × (process_pending_reqs 2 fabric 64 r.1 ≡ some (err einval, ep'))
        × Holds ep'.pending_reqs_queue []
        × (ep'.posted ≡ []))
close_dropped_example =
    close_dropped fabric 64 1 1 closing (with_req (send_close closing)) refl refl
      ((λ e. omega arith), ((λ e. omega arith), tt)) empty-Holds
