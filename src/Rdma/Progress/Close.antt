-- ===== src/Rdma/Progress/Close.antt =====
-- A close message that libfabric is too busy for.
use aws_ofi_nccl.Base.{ℕ, suc, ◌≡◌, refl, ap, true, some, List, [], ◌∷◌, ok, err, einval, arith}
use aws_ofi_nccl.Deque.{remove_front}
use aws_ofi_nccl.Deque.Links.{Holds, IsFresh, Holds-isempty, insert_back-Holds, remove_front-Holds}
use aws_ofi_nccl.Rdma.{SendCloseData, send_close, pending, Endpoint, update_req}
use aws_ofi_nccl.Rdma.Progress.Posts.{refused, post_err}
use aws_ofi_nccl.Rdma.Progress.{
  Fabric, eagain, post_close_msg, post_receive, receive_progress, queue_back, retry,
  process_pending_reqs,
}

abbrev pub refused_close : ℕ → Endpoint → Endpoint
refused_close req ep = refused (update_req req (λ r. record r { state = pending }) ep)

close_refused :
    (fab : Fabric) (size req : ℕ) (d : SendCloseData) (ep : Endpoint)
    → (ep.reqs req).type ≡ send_close d
    → fab.answer ep.tries ≡ err eagain
    → post_receive fab size req ep ≡ (err eagain, refused_close req ep)
unfolding post_receive post_close_msg
close_refused fab size req d ep t a =
    let waiting = update_req req (λ r. record r { state = pending }) ep in
    rw (post_receive, t, post_close_msg) (post_err fab _ waiting eagain a)

queued :
    (fab : Fabric) (size req : ℕ) (d : SendCloseData) (ep : Endpoint)
    → (ep.reqs req).type ≡ send_close d
    → fab.answer ep.tries ≡ err eagain
    → receive_progress fab size req true ep ≡ (ok tt, queue_back req (refused_close req ep))
unfolding receive_progress
queued fab size req d ep t a =
    let e = close_refused fab size req d ep t a in
    rw (receive_progress, ap (λ r. r.0) e) (ap (λ r. (ok tt, queue_back req r.1)) e)

-- A close message in front of the queue.
dropped :
    (fab : Fabric) (size req n : ℕ) (d : SendCloseData) (reqs : List ℕ) (ep : Endpoint)
    → (ep.reqs req).type ≡ send_close d
    → Holds ep.pending_reqs_queue (req ∷ reqs)
    → (ep' : Endpoint) × (process_pending_reqs (suc n) fab size ep ≡ some (err einval, ep'))
      × Holds ep'.pending_reqs_queue reqs
      × (ep'.posted ≡ ep.posted)
unfolding process_pending_reqs retry
dropped fab size req n d reqs ep t h =
    let q = ep.pending_reqs_queue in
    let pop = remove_front-Holds q req reqs q (Holds-isempty q req reqs h) h in
    let ep' = record ep { pending_reqs_queue = (remove_front q q).1 } in
    (ep', rw (process_pending_reqs, pop.0, retry, t), pop.1, refl)

-- A close message that libfabric is too busy for, on an endpoint whose queue is empty: receive_progress
-- puts it in the queue and returns 0. However many rounds follow, process_pending_reqs then
-- returns -EINVAL, leaves the queue empty and has not posted the message.
pub close_dropped :
    (fab : Fabric) (size req n : ℕ) (d : SendCloseData) (ep : Endpoint)
    → (ep.reqs req).type ≡ send_close d
    → fab.answer ep.tries ≡ err eagain
    → IsFresh ep.pending_reqs_queue.head [] req
    → Holds ep.pending_reqs_queue []
    → let r = receive_progress fab size req true ep in
      (r.0 ≡ ok tt)
      × Holds r.1.pending_reqs_queue (req ∷ [])
      × ((ep' : Endpoint) × (process_pending_reqs (suc n) fab size r.1 ≡ some (err einval, ep'))
          × Holds ep'.pending_reqs_queue []
          × (ep'.posted ≡ ep.posted))
unfolding queue_back
close_dropped fab size req n d ep t a fresh h =
    let held = insert_back-Holds ep.pending_reqs_queue [] req fresh h in
    rw (queued fab size req d ep t a) (
      refl,
      held,
      dropped fab size req n d [] (queue_back req (refused_close req ep)) (ground (arith, t)) held,
    )
