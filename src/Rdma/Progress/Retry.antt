-- ===== src/Rdma/Progress/Retry.antt =====
-- What an attempt to post a request from the queue does.
use aws_ofi_nccl.Base.{
  ℕ, ◌≤◌, ◌≡◌, refl, true, false, Bool-cases, Option, none, some, length, take, drop, Result, ok,
  err, Result-cases, inl, inr, arith, if◌then◌else◌,
}
use aws_ofi_nccl.Scheduler.{Schedule}
use aws_ofi_nccl.Rdma.{
  SendData, ReqType, write, read, send, eager_copy, send_ctrl, bounce, flush, EagerCopyData,
  Endpoint,
}
use aws_ofi_nccl.Rdma.Progress.{
  Fabric, send_progress, post_receive, post_eager_copy, receive_progress, retry, bounce_data_of,
  count_sent, post_rma_write, post_bounce_buffer, post_rdma_ctrl, post_flush_req,
}
use aws_ofi_nccl.Rdma.Progress.Keeps.{
  is_queueable, Keeps, send_progress-Keeps, receive_progress-Keeps,
}
use aws_ofi_nccl.Rdma.Progress.Adds.{
  Exact, Grows, Grows-self, post-Grows, send_rails-Grows, flush_rails-Grows,
}

-- The operations that a request has still to go: those of a send by the transfers of its schedule
-- that are left, and one of each other request.
abbrev pub send_due : SendData → Option Schedule → ℕ
send_due d none = 1
send_due d (some s) =
    if d.eager then 1 else length (drop d.xferred_rail_id (take s.num_xfer_infos s.rail_xfer_infos))

abbrev pub due : ReqType → ℕ
due (send d) = send_due d d.schedule
due _ = 1

-- A flush posts at most one read per rail, of which it may leave out some; any other request posts
-- what is due, or fewer when the attempt fails.
abbrev pub Count : Fabric → ReqType → Result (Unit {0}) → ℕ → Type 0
Count fab (flush d) rc n = n ≤ fab.num_rails
Count fab t rc n = Exact (due t) rc n

-- An attempt to post the request took the endpoint from `ep` to `ep'` and returned `rc`: it posted as
-- many operations as `Count` says, all of this request, in front of those already posted.
pub record Tried (fab : Fabric) (req : ℕ) (ep : Endpoint) (rc : Result (Unit {0})) (ep' : Endpoint)
    : Type 0 where
  pub n : ℕ
  pub grows : Grows req n ep.posted ep'.posted
  pub count : Count fab (ep.reqs req).type rc n

abbrev Adds : ℕ → ℕ → Endpoint → Result (Unit {0}) × Endpoint → Type 0
Adds req k ep r = (n : ℕ) × Grows req n ep.posted r.1.posted × Exact k r.0 n

counted-Adds :
    (req : ℕ) (ep ep1 : Endpoint) (rc : Result (Unit {0}))
    → Adds req 1 ep (rc, ep1)
    → Adds req 1 ep (elim rc as (λ _. Result (Unit {0}) × Endpoint) [
      | ok _ ↦ (ok tt, count_sent req ep1)
      | err e ↦ (err e, ep1)
    ])
counted-Adds req ep ep1 (ok u) a = a
counted-Adds req ep ep1 (err e) a = a

send_progress-Adds :
    (fab : Fabric) (req : ℕ) (t : ReqType) (ep : Endpoint)
    → (ep.reqs req).type ≡ t
    → Adds req (due t) ep (send_progress fab req ep)
unfolding send_progress post_bounce_buffer
send_progress-Adds fab req t ep = go t
  where
    sends :
        (d : SendData) (s : Option Schedule)
        → d.schedule ≡ s
        → (ep.reqs req).type ≡ send d
        → Adds req (send_due d s) ep (send_progress fab req ep)
    sends d none h e = rw (e, send_progress, h) (0, Grows-self req ep.posted, omega arith)
    sends d (some s) h e = elim (Bool-cases d.eager) [
      | inl eager ↦ rw (e, send_progress, h, eager) (post-Grows fab _ ep)
      | inr late ↦ rw (e, send_progress, h, late) (send_rails-Grows fab req _ ep)
    ]

    go : (t : ReqType) → (ep.reqs req).type ≡ t → Adds req (due t) ep (send_progress fab req ep)
    go (send d) e = sends d d.schedule refl e
    go (write d) e =
        let (rc, ep1) = post_rma_write fab req d ep in
        rw (e, send_progress) (counted-Adds req ep ep1 rc (post-Grows fab _ ep))
    go (bounce d) e = rw (e, send_progress) (post-Grows fab _ _)
    go t e = rw (e, send_progress) (0, Grows-self req ep.posted, omega arith)

copy-Adds :
    (fab : Fabric) (req : ℕ) (d : EagerCopyData) (ep : Endpoint)
    → Adds req 1 ep (post_eager_copy fab req d ep)
unfolding post_eager_copy
copy-Adds fab req d ep =
    let b = bounce_data_of (ep.reqs d.eager_bounce_req).type in
    elim (Bool-cases (fab.has_key b.bounce_fl_item b.rail)) [
      | inl have ↦ rw have (post-Grows fab _ _)
      | inr lack ↦ rw lack (0, Grows-self req ep.posted, omega arith)
    ]

-- receive_progress as process_pending_reqs calls it queues nothing.
receive_only_posts :
    (fab : Fabric) (size req : ℕ) (ep : Endpoint)
    → receive_progress fab size req false ep ≡ post_receive fab size req ep
unfolding receive_progress
receive_only_posts fab size req ep =
    let (rc, ep1) = post_receive fab size req ep in
    elim (Result-cases rc) [
      | inl (u, h) ↦ rw (receive_progress, h) refl
      | inr (u, h) ↦ rw (receive_progress, h) refl
    ]

-- A request of a type that may be queued is tried, and the queue stays as it is.
pub retry-Tried :
    (fab : Fabric) (size req : ℕ) (ep : Endpoint)
    → is_queueable (ep.reqs req).type ≡ true
    → (r : Result (Unit {0}) × Endpoint) × (retry fab size req ep ≡ some r)
      × Keeps ep r.1
      × Tried fab req ep r.0 r.1
unfolding retry post_receive post_rdma_ctrl post_flush_req
retry-Tried fab size req ep h = go (ep.reqs req).type refl
  where
    Kept : Type 0
    Kept =
        (r : Result (Unit {0}) × Endpoint) × (retry fab size req ep ≡ some r)
        × Keeps ep r.1
        × Tried fab req ep r.0 r.1

    by_send :
        Tried fab req ep (send_progress fab req ep).0 (send_progress fab req ep).1
        → retry fab size req ep ≡ some (send_progress fab req ep)
        → Kept
    by_send t e = (send_progress fab req ep, e, send_progress-Keeps fab req ep, t)

    by_receive :
        Tried fab req ep (post_receive fab size req ep).0 (post_receive fab size req ep).1
        → retry fab size req ep ≡ some (receive_progress fab size req false ep)
        → Kept
    by_receive t e = (
      receive_progress fab size req false ep,
      e,
      receive_progress-Keeps fab size req ep,
      rw (receive_only_posts fab size req ep) t,
    )

    counts :
        (t : ReqType) (r : Result (Unit {0}) × Endpoint)
        → (ep.reqs req).type ≡ t
        → ((n : ℕ) × Grows req n ep.posted r.1.posted × Count fab t r.0 n)
        → Tried fab req ep r.0 r.1
    counts t r e a = record { n = a.0; grows = a.1; count = rw e a.2 }

    go : (t : ReqType) → (ep.reqs req).type ≡ t → Kept
    go (write d) e =
        by_send (counts (write d) _ e (send_progress-Adds fab req (write d) ep e)) (rw (e, retry))
    go (send d) e =
        by_send (counts (send d) _ e (send_progress-Adds fab req (send d) ep e)) (rw (e, retry))
    go (bounce d) e =
        by_send (counts (bounce d) _ e (send_progress-Adds fab req (bounce d) ep e)) (rw (e, retry))
    go (read d) e =
        by_receive (counts (read d) _ e (rw (e, post_receive) (post-Grows fab _ ep)))
          (rw (e, retry))
    go (eager_copy d) e =
        by_receive (counts (eager_copy d) _ e (rw (e, post_receive) (copy-Adds fab req d ep)))
          (rw (e, retry))
    go (send_ctrl d) e =
        by_receive (counts (send_ctrl d) _ e (rw (e, post_receive) (post-Grows fab _ ep)))
          (rw (e, retry))
    go (flush d) e =
        by_receive
          (counts (flush d) _ e
            (rw (e, post_receive) (flush_rails-Grows fab req d size fab.num_rails 0 (ok tt) ep)))
          (rw (e, retry))
    go t e = let f : is_queueable t ≡ true = rw e at h in absurd (ground (arith, f))
