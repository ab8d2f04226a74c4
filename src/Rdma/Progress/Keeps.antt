-- ===== src/Rdma/Progress/Keeps.antt =====
-- What the posting of a request leaves as it was: the queue, and which requests may be queued.
use aws_ofi_nccl.Base.{
  ℕ, zero, suc, ◌+◌, ◌≡◌, refl, ◌∙◌, Bool, true, false, Option, none, some, List, [], ◌∷◌, ◌==◌,
  if◌then◌else◌, take, drop, Result, ok, err, arith, Bool-cases, Result-cases, ltb, inl, inr,
}
use aws_ofi_nccl.Scheduler.{XferInfo, Schedule}
use aws_ofi_nccl.Rdma.{
  created, pending, fi_read, SendData, SendCtrlData, SendCloseData, EagerCopyData, BounceData,
  FlushData, ReqType, write, read, send, send_ctrl, send_close, eager_copy, bounce, flush, Post,
  Req, Endpoint, update_req,
}
use aws_ofi_nccl.Rdma.Progress.{
  bounce_data_of, count_sent, post_rma_write, dst_len_of, is_eagain, post_rdma_write, Fabric, post,
  post_bounce_buffer, post_rdma_ctrl, post_close_msg, post_eager_copy, flush_rails, post_flush_req,
  count_xfer, send_rails, send_progress, post_receive, receive_progress,
}

-- The types that process_pending_reqs posts.
abbrev pub is_queueable : ReqType → Bool
is_queueable (write _) = true
is_queueable (read _) = true
is_queueable (send _) = true
is_queueable (eager_copy _) = true
is_queueable (send_ctrl _) = true
is_queueable (bounce _) = true
is_queueable (flush _) = true
is_queueable _ = false

pub record Keeps (ep ep' : Endpoint) : Type 0 where
  pub queue : ep'.pending_reqs_queue ≡ ep.pending_reqs_queue
  pub queueable :
      (q : ℕ) → is_queueable (ep.reqs q).type ≡ true → is_queueable (ep'.reqs q).type ≡ true

Keeps-self : (ep : Endpoint) → Keeps ep ep
Keeps-self ep = record { queue = refl; queueable = λ q h. h }

Keeps-trans : {a b c : Endpoint} → Keeps a b → Keeps b c → Keeps a c
Keeps-trans k l = record {
  queue = l.queue ∙ k.queue;
  queueable = λ q h. l.queueable q (k.queueable q h);
}

update-Keeps :
    (p : ℕ) (f : Req → Req) (ep : Endpoint)
    → ((r : Req) → is_queueable r.type ≡ true → is_queueable (f r).type ≡ true)
    → Keeps ep (update_req p f ep)
update-Keeps p f ep h = record {
  queue = refl;
  queueable = λ q k. ground (arith, h (ep.reqs p), h (ep.reqs q));
}

post-Keeps : (fab : Fabric) (p : Post) (ep : Endpoint) → Keeps ep (post fab p ep).1
unfolding post
post-Keeps fab p ep = record { queue = ground arith; queueable = λ q h. ground arith }

bounce-Keeps :
    (fab : Fabric) (req : ℕ) (d : BounceData) (ep : Endpoint)
    → Keeps ep (post_bounce_buffer fab req d ep).1
unfolding post_bounce_buffer
bounce-Keeps fab req d ep =
    Keeps-trans (update-Keeps req (λ r. record r { state = created }) ep (λ r h. h))
      (post-Keeps fab _ _)

close-Keeps :
    (fab : Fabric) (req : ℕ) (d : SendCloseData) (ep : Endpoint)
    → Keeps ep (post_close_msg fab req d ep).1
unfolding post_close_msg
close-Keeps fab req d ep =
    Keeps-trans (update-Keeps req (λ r. record r { state = pending }) ep (λ r h. h))
      (post-Keeps fab _ _)

ctrl-Keeps :
    (fab : Fabric) (req : ℕ) (d : SendCtrlData) (ep : Endpoint)
    → Keeps ep (post_rdma_ctrl fab req d ep).1
unfolding post_rdma_ctrl
ctrl-Keeps fab req d ep = post-Keeps fab _ ep

copy-Keeps :
    (fab : Fabric) (req : ℕ) (d : EagerCopyData) (ep : Endpoint)
    → Keeps ep (post_eager_copy fab req d ep).1
unfolding post_eager_copy
copy-Keeps fab req d ep =
    let b = bounce_data_of (ep.reqs d.eager_bounce_req).type in
    let dst_len = dst_len_of (ep.reqs d.recv_req).type in
    let cut =
      update-Keeps d.eager_bounce_req
        (λ r. record r {
          type =
              bounce
                (record b { recv_len = if ltb dst_len b.recv_len then dst_len else b.recv_len });
        })
        ep (λ r h. refl) in
    elim (Bool-cases (fab.has_key b.bounce_fl_item b.rail)) [
      | inl have ↦ rw have (Keeps-trans cut (post-Keeps fab _ _))
      | inr lack ↦ rw lack cut
    ]

flush_rails-Keeps :
    (fab : Fabric) (req : ℕ) (d : FlushData) (size left rail : ℕ) (rc : Result (Unit {0}))
    (ep : Endpoint)
    → Keeps ep (flush_rails fab req d size left rail rc ep).1
unfolding flush_rails
flush_rails-Keeps fab req d size zero rail rc ep = Keeps-self ep
flush_rails-Keeps fab req d size (suc left) rail rc ep =
    let p : Post = record {
      operation = fi_read;
      req = req;
      rail_id = rail;
      offset = 0;
      len = size;
    } in
    let one = post-Keeps fab p ep in
    let rest =
      flush_rails-Keeps fab req d size left (rail + 1) (post fab p ep).0 (post fab p ep).1 in
    let again = flush_rails fab req d size left (rail + 1) (post fab p ep).0 (post fab p ep).1 in
    elim (Bool-cases (d.mr_handle == 0)) [
      | inl null ↦ rw null (read_on again (post fab p ep).0 one (Keeps-trans one rest))
      | inr some_key ↦ elim (Bool-cases (fab.has_key d.mr_handle rail)) [
        | inl have ↦
            rw (some_key, have) (read_on again (post fab p ep).0 one (Keeps-trans one rest))
        | inr lack ↦ rw (some_key, lack) (Keeps-self ep)
      ]
    ]
  where
    read_on :
        {ep1 : Endpoint} (rest : Result (Unit {0}) × Endpoint) (rc' : Result (Unit {0}))
        → Keeps ep ep1
        → Keeps ep rest.1
        → Keeps ep
            (elim rc' as (λ _. Result (Unit {0}) × Endpoint) [
              | ok _ ↦ rest
              | err e ↦ if is_eagain e then rest else (err e, ep1)
            ]).1
    read_on rest (ok _) one more = more
    read_on rest (err e) one more = elim (Bool-cases (is_eagain e)) [
      | inl again ↦ rw again more
      | inr hard ↦ rw hard one
    ]

counted : (t : ReqType) → is_queueable t ≡ true → is_queueable (count_xfer t) ≡ true
counted (send d) h = h
counted (write d) h = h
counted t h = ground arith

count-Keeps : (req : ℕ) (ep : Endpoint) → Keeps ep (count_sent req ep)
count-Keeps req ep =
    update-Keeps req (λ r. record r { type = count_xfer r.type }) ep (λ r h. counted r.type h)

send_rails-Keeps :
    (fab : Fabric) (req : ℕ) (xs : List XferInfo) (ep : Endpoint)
    → Keeps ep (send_rails fab req xs ep).1
unfolding send_rails
send_rails-Keeps fab req [] ep = Keeps-self ep
send_rails-Keeps fab req (x ∷ xs) ep =
    let (rc, ep1) = post_rdma_write fab req x ep in
    let one = post-Keeps fab _ ep in
    let rest = send_rails-Keeps fab req xs (count_sent req ep1) in
    elim (Result-cases rc) [
      | inl (u, e) ↦ rw (e, send_rails) (Keeps-trans one (Keeps-trans (count-Keeps req _) rest))
      | inr (e, h) ↦ rw (h, send_rails) one
    ]

pub send_progress-Keeps :
    (fab : Fabric) (req : ℕ) (ep : Endpoint) → Keeps ep (send_progress fab req ep).1
unfolding send_progress
send_progress-Keeps fab req ep = go (ep.reqs req).type refl
  where
    sends :
        (d : SendData) (s : Option Schedule)
        → d.schedule ≡ s
        → (ep.reqs req).type ≡ send d
        → Keeps ep (send_progress fab req ep).1
    sends d none h e = rw (e, send_progress, h) (Keeps-self ep)
    sends d (some s) h e = elim (Bool-cases d.eager) [
      | inl eager ↦ rw (e, send_progress, h, eager) (post-Keeps fab _ ep)
      | inr late ↦
          rw (e, send_progress, h, late)
            (send_rails-Keeps fab req
              (drop d.xferred_rail_id (take s.num_xfer_infos s.rail_xfer_infos)) ep)
    ]

    go : (t : ReqType) → (ep.reqs req).type ≡ t → Keeps ep (send_progress fab req ep).1
    go (send d) e = sends d d.schedule refl e
    go (write d) e =
        let (rc, ep1) = post_rma_write fab req d ep in
        elim (Result-cases rc) [
          | inl (u, h) ↦
              rw (e, send_progress, h) (Keeps-trans (post-Keeps fab _ ep) (count-Keeps req _))
          | inr (u, h) ↦ rw (e, send_progress, h) (post-Keeps fab _ ep)
        ]
    go (bounce d) e = rw (e, send_progress) (bounce-Keeps fab req d ep)
    go t e = rw (e, send_progress) (Keeps-self ep)

post_receive-Keeps :
    (fab : Fabric) (size req : ℕ) (ep : Endpoint) → Keeps ep (post_receive fab size req ep).1
unfolding post_receive post_flush_req
post_receive-Keeps fab size req ep = go (ep.reqs req).type refl
  where
    go : (t : ReqType) → (ep.reqs req).type ≡ t → Keeps ep (post_receive fab size req ep).1
    go (eager_copy d) e = rw (e, post_receive) (copy-Keeps fab req d ep)
    go (send_ctrl d) e = rw (e, post_receive) (ctrl-Keeps fab req d ep)
    go (send_close d) e = rw (e, post_receive) (close-Keeps fab req d ep)
    go (flush d) e =
        rw (e, post_receive) (flush_rails-Keeps fab req d size fab.num_rails 0 (ok tt) ep)
    go (read d) e = rw (e, post_receive) (post-Keeps fab _ ep)
    go t e = rw (e, post_receive) (Keeps-self ep)

-- receive_progress as process_pending_reqs calls it.
pub receive_progress-Keeps :
    (fab : Fabric) (size req : ℕ) (ep : Endpoint)
    → Keeps ep (receive_progress fab size req false ep).1
unfolding receive_progress
receive_progress-Keeps fab size req ep =
    let (rc, ep1) = post_receive fab size req ep in
    elim (Result-cases rc) [
      | inl (u, h) ↦ rw (h, receive_progress) (post_receive-Keeps fab size req ep)
      | inr (u, h) ↦ rw (h, receive_progress) (post_receive-Keeps fab size req ep)
    ]
