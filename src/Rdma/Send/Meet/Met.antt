-- ===== src/Rdma/Send/Meet/Met.antt =====
-- The control message of a send that waits: handle_ctrl_recv of src/nccl_ofi_rdma.c once it has found the
-- request of the send.
use aws_ofi_nccl.Base.{
  ℕ, ◌+◌, ◌<◌, ◌≡◌, ◌≢◌, refl, ap, ◌∙◌, inl, inr, Bool, Bool-cases, Result-cases, Option-cases,
  true, false, not, ◌&&◌, some, none, length, einval, Error, Result, ok, err, arith, ltb, ◌==◌,
  if◌then◌else◌,
}
use aws_ofi_nccl.Scheduler.{Schedule}
use aws_ofi_nccl.Rdma.{completed, SendData, send, is_error, inc_req_completion, update_req}
use aws_ofi_nccl.Rdma.Progress.{Fabric, is_eagain, send_progress, queue_back}
use aws_ofi_nccl.Rdma.Progress.Stripes.{Sending, transfers, send_progress_lem}
use aws_ofi_nccl.Rdma.Bounce.{repost_bounce_buff}
use aws_ofi_nccl.Rdma.Send.{
  SendComm, send_data_at, send_data_of, ctrl_msg_of, clip, clip_req, update_send_data_from_remote,
}
use aws_ofi_nccl.Rdma.Send.Write.{after, answer, no_schedule, with_schedule, data_after, kept_after}
use aws_ofi_nccl.Rdma.Send.Meet.{post_send, meet_ctrl}

-- The bounce buffer goes back to libfabric, and the call returns what that returns.
abbrev pub reposted : Fabric → ℕ → SendComm → Result (Unit {0}) × SendComm
reposted fab bounce_req c =
    let (rc, ep) = repost_bounce_buff fab bounce_req c.ep in (rc, record c { ep = ep })

-- An eager send of data `d` whose receiver has room for `remote_len` bytes counts one completion.
pub record Completes (remote_len req : ℕ) (d : SendData) (c c1 : SendComm) : Type 0 where
  pub ncompls : (c1.ep.reqs req).ncompls ≡ (c.ep.reqs req).ncompls + 1
  pub state : (c1.ep.reqs req).state ≡ (
      if ((c.ep.reqs req).ncompls + 1 == d.total_num_compls) && not (is_error (c.ep.reqs req).state)
      then completed
      else (c.ep.reqs req).state)
  pub type :
      (c1.ep.reqs req).type
      ≡ send (record d { remote_len = remote_len; buff_len = clip remote_len d.buff_len })
  pub size :
      (c1.ep.reqs req).size
      ≡ (if ltb remote_len d.buff_len then remote_len else (c.ep.reqs req).size)
  pub others : (q : ℕ) → q ≢ req → c1.ep.reqs q ≡ c.ep.reqs q
  pub posts : c1.ep.posted ≡ c.ep.posted

-- What the control message does to the send request at `req`, of data `d`.
pub data Met (fab : Fabric) (bounce_req req : ℕ) (d : SendData) (c : SendComm)
    (r : Result (Unit {0}) × SendComm) : Type 0 where
  -- The send is eager: the completion counts.
  counted :
      (c1 : SendComm)
      → d.eager ≡ true
      → Completes (ctrl_msg_of c bounce_req).buff_len req d c c1
      → r ≡ reposted fab bounce_req c1
      → Met fab bounce_req req d c r
  -- There is no schedule: nothing is posted.
  unscheduled :
      d.eager ≡ false
      → r.0 ≡ err einval
      → r.1.ep.posted ≡ c.ep.posted
      → Met fab bounce_req req d c r
  -- All transfers of the schedule are posted.
  written :
      (s : Schedule) (c1 : SendComm)
      → d.eager ≡ false
      → Sending req s c.ep.posted (length (transfers s)) c1.ep
      → r ≡ reposted fab bounce_req c1
      → Met fab bounce_req req d c r
  -- Libfabric was busy after `k` of them: the request goes to the queue.
  queued :
      (s : Schedule) (k : ℕ) (c1 : SendComm)
      → d.eager ≡ false
      → Sending req s c.ep.posted k c1.ep
      → k < length (transfers s)
      → r ≡ reposted fab bounce_req (record c1 { ep = queue_back req c1.ep })
      → Met fab bounce_req req d c r
  -- Libfabric failed after `k` of them, and the error is returned.
  broken :
      (s : Schedule) (k : ℕ) (c1 : SendComm) (e : Error)
      → d.eager ≡ false
      → Sending req s c.ep.posted k c1.ep
      → k < length (transfers s)
      → is_eagain e ≡ false
      → r ≡ (err e, c1)
      → Met fab bounce_req req d c r

module _ (fab : Fabric) (bounce_req req : ℕ) (c : SendComm) where
  abbrev d : SendData
  d = send_data_at c req

  abbrev after_count : SendComm
  after_count = record c {
    ep =
        inc_req_completion req 0 d.total_num_compls
          (update_req req (clip_req (ctrl_msg_of c bounce_req).buff_len d) c.ep);
  }

  abbrev after_update : Result (Unit {0}) → Result (Unit {0}) × SendComm
  after_update rc = elim rc as (λ _. Result (Unit {0}) × SendComm) [
    | ok _ ↦ post_send fab req (after fab bounce_req req c)
    | err e ↦ (err e, after fab bounce_req req c)
  ]

  -- The bounce buffer is handed back where the first part succeeded.
  abbrev finish : Result (Unit {0}) × SendComm → Result (Unit {0}) × SendComm
  finish x = elim x.0 as (λ _. Result (Unit {0}) × SendComm) [
    | ok _ ↦ reposted fab bounce_req x.1
    | err e ↦ (err e, x.1)
  ]

  in_two_parts :
      meet_ctrl fab bounce_req req c
      ≡ finish (
          if d.eager
          then (ok tt, after_count)
          else after_update (update_send_data_from_remote fab bounce_req req c).0)
  unfolding meet_ctrl
  in_two_parts = refl

  if_eager : d.eager ≡ true → meet_ctrl fab bounce_req req c ≡ finish (ok tt, after_count)
  if_eager eager = rw (in_two_parts, eager) refl

  if_late :
      (rc : Result (Unit {0}))
      → d.eager ≡ false
      → (update_send_data_from_remote fab bounce_req req c).0 ≡ rc
      → meet_ctrl fab bounce_req req c ≡ finish (after_update rc)
  if_late rc late e =
      in_two_parts ∙ ap finish (choose (ok tt, after_count) _ d.eager late ∙ ap after_update e)
    where
      choose :
          (x y : Result (Unit {0}) × SendComm) (b : Bool) → b ≡ false → (if b then x else y) ≡ y
      choose x y true h = absurd (ground (arith, h))
      choose x y false h = refl

  eager_Met : d.eager ≡ true → Met fab bounce_req req d c (meet_ctrl fab bounce_req req c)
  unfolding inc_req_completion
  eager_Met eager =
      counted after_count eager
        (record {
          ncompls = ground arith;
          state = ground arith;
          type = ground arith;
          size = ground arith;
          others = λ q ne. ground arith;
          posts = refl;
        })
        (if_eager eager)

  unscheduled_Met :
      (answer fab bounce_req req c).0 ≡ none
      → d.eager ≡ false
      → Met fab bounce_req req d c (meet_ctrl fab bounce_req req c)
  unscheduled_Met e late =
      let fails = if_late (err einval) late (no_schedule fab bounce_req req c e) in
      unscheduled late (ap (λ r. r.0) fails)
        (ap (λ r. r.1.ep.posted) fails ∙ (kept_after fab bounce_req req c).0)

  posts_ok :
      (c1 : SendComm) (u : Unit {0})
      → (send_progress fab req c1.ep).0 ≡ ok u
      → post_send fab req c1 ≡ (ok tt, record c1 { ep = (send_progress fab req c1.ep).1 })
  unfolding post_send
  posts_ok c1 u h = rw (post_send, h) refl

  posts_busy :
      (c1 : SendComm) (e : Error)
      → (send_progress fab req c1.ep).0 ≡ err e
      → is_eagain e ≡ true
      → post_send fab req c1
        ≡ (ok tt, record c1 { ep = queue_back req (send_progress fab req c1.ep).1 })
  unfolding post_send
  posts_busy c1 e h again = rw (post_send, h, again) refl

  posts_err :
      (c1 : SendComm) (e : Error)
      → (send_progress fab req c1.ep).0 ≡ err e
      → is_eagain e ≡ false
      → post_send fab req c1 ≡ (err e, record c1 { ep = (send_progress fab req c1.ep).1 })
  unfolding post_send
  posts_err c1 e h hard = rw (post_send, h, hard) refl

  late_Met :
      (s : Schedule)
      → (answer fab bounce_req req c).0 ≡ some s
      → d.eager ≡ false
      → d.xferred_rail_id ≡ 0
      → Met fab bounce_req req d c (meet_ctrl fab bounce_req req c)
  late_Met s e late first =
      let c1 = after fab bounce_req req c in
      let (sched, _, _, _, eag, _, rail) = data_after fab bounce_req req c s e in
      let (posted, _, _, type) = kept_after fab bounce_req req c in
      let start : Sending req s c.ep.posted 0 c1.ep = record {
        info = send_data_at c1 req;
        type = type;
        late = eag ∙ late;
        schedule = sched;
        xferred = rail ∙ first;
        posts = posted;
      } in
      let (rc, ep1) = send_progress fab req c1.ep in
      let (k, sends, _, le, ends) =
        send_progress_lem fab req s c.ep.posted 0 c1.ep (omega arith) start in
      let runs = if_late (ok tt) late (with_schedule fab bounce_req req c s e) in
      elim (Result-cases rc) [
        | inl (u, h) ↦
            let all : k ≡ length (transfers s) = ends.0 h in
            written s (record c1 { ep = ep1 }) late (rw all at sends)
              (runs ∙ ap finish (posts_ok c1 u h))
        | inr (x, h) ↦
            let some_left : k ≢ length (transfers s) =
              (λ q. absurd (let t = ends.1 q in ground (arith, t, h))) in
            elim (Bool-cases (is_eagain x)) [
              | inl again ↦
                  queued s k (record c1 { ep = ep1 }) late sends (omega (arith, some_left, le))
                    (runs ∙ ap finish (posts_busy c1 x h again))
              | inr hard ↦
                  broken s k (record c1 { ep = ep1 }) x late sends (omega (arith, some_left, le))
                    hard (runs ∙ ap finish (posts_err c1 x h hard))
            ]
      ]

  pub meet_ctrl_lem :
      (d : SendData)
      → (c.ep.reqs req).type ≡ send d
      → d.xferred_rail_id ≡ 0
      → Met fab bounce_req req d c (meet_ctrl fab bounce_req req c)
  meet_ctrl_lem e typed first =
      let same : d ≡ e = ap send_data_of typed in
      let start : d.xferred_rail_id ≡ 0 = ap (λ x. x.xferred_rail_id) same ∙ first in
      rw (← same) (elim (Bool-cases d.eager) [
        | inl eager ↦ eager_Met eager
        | inr late ↦ elim (Option-cases (answer fab bounce_req req c).0) [
          | inl none_left ↦ unscheduled_Met none_left late
          | inr (s, found) ↦ late_Met s found late start
        ]
      ])
