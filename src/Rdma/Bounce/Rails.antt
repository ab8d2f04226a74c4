-- ===== src/Rdma/Bounce/Rails.antt =====
-- The count of posted bounce buffers of a rail, on every path of posting more.
use aws_ofi_nccl.Base.{
  ℕ, zero, suc, ◌+◌, ◌-◌, ◌≤◌, ◌<◌, ◌≡◌, refl, ap, ◌∙◌, length, Error, enomem, Result, ok, err,
  arith, Bool-cases, Option-cases, Result-cases, inl, inr,
}
use aws_ofi_nccl.Deque.{insert_back}
use aws_ofi_nccl.Rdma.{created, BounceData, Rail, Endpoint, update_req}
use aws_ofi_nccl.Rdma.Progress.{Fabric, is_eagain, post_bounce_buffer, queue_back}
use aws_ofi_nccl.Rdma.Progress.Posts.{post_ok, post_err}
use aws_ofi_nccl.Freelist.{Freelist}
use aws_ofi_nccl.Rdma.Bounce.{
  take_entry, next_alloc, allocate_req, free_bounce_req, alloc_bounce_req, set_num_bounce_posted,
  handle_bounce_eagain, post_buffs, post_bounce_buffs_on_rail,
}

-- The rails, the queue and the posted operations are the same.
pub record Same (ep ep' : Endpoint) : Type 0 where
  pub rails : ep'.rails ≡ ep.rails
  pub queue : ep'.pending_reqs_queue ≡ ep.pending_reqs_queue
  pub posted : ep'.posted ≡ ep.posted

Same-trans : {a b c : Endpoint} → Same a b → Same b c → Same a c
Same-trans k l = record {
  rails = l.rails ∙ k.rails;
  queue = l.queue ∙ k.queue;
  posted = l.posted ∙ k.posted;
}

allocate-Same : (fab : Fabric) (fl : Freelist) (ep : Endpoint) → Same ep (allocate_req fab fl ep).2
unfolding allocate_req
allocate-Same fab fl ep = record {
  rails = ground arith;
  queue = ground arith;
  posted = ground arith;
}

free-Same : (req : ℕ) (ep : Endpoint) → Same ep (free_bounce_req req ep)
unfolding free_bounce_req
free-Same req ep = record { rails = refl; queue = refl; posted = refl }

alloc-Same : (fab : Fabric) (rail : ℕ) (ep : Endpoint) → Same ep (alloc_bounce_req fab rail ep).1
unfolding alloc_bounce_req
alloc-Same fab rail ep =
    let s = allocate-Same fab ep.bounce_buff_reqs_fl ep in
    let (got, reqs_fl, ep0) = allocate_req fab ep.bounce_buff_reqs_fl ep in
    let ep1 = record ep0 { bounce_buff_reqs_fl = reqs_fl } in
    let s1 : Same ep ep1 = record { rails = s.rails; queue = s.queue; posted = s.posted } in
    elim (Option-cases got) [
      | inl e ↦ rw (alloc_bounce_req, e) s1
      | inr (req, e) ↦ elim (Option-cases (take_entry fab ep1.bounce_buff_fl ep1).0) [
        | inl lack ↦
            rw (alloc_bounce_req, e, lack)
              (Same-trans (record { rails = s.rails; queue = s.queue; posted = s.posted })
                (free-Same req (
                  next_alloc
                    (record ep1 { bounce_buff_fl = (take_entry fab ep1.bounce_buff_fl ep1).1 }))))
        | inr (item, have) ↦
            rw (alloc_bounce_req, e, have)
              (record { rails = s.rails; queue = s.queue; posted = s.posted })
      ]
    ]

bounce_ok :
    (fab : Fabric) (req : ℕ) (d : BounceData) (ep : Endpoint)
    → fab.answer ep.tries ≡ ok tt
    → let r = post_bounce_buffer fab req d ep in
      (r.0 ≡ ok tt)
      × (r.1.rails ≡ ep.rails)
      × (r.1.pending_reqs_queue ≡ ep.pending_reqs_queue)
      × (length r.1.posted ≡ length ep.posted + 1)
unfolding post_bounce_buffer
bounce_ok fab req d ep a =
    let p = post_ok fab _ (update_req req (λ r. record r { state = created }) ep) a in
    (
      ap (λ r. r.0) p,
      ap (λ r. r.1.rails) p,
      ap (λ r. r.1.pending_reqs_queue) p,
      ap (λ r. length r.1.posted) p ∙ omega arith,
    )

bounce_err :
    (fab : Fabric) (req : ℕ) (d : BounceData) (ep : Endpoint) (e : Error)
    → fab.answer ep.tries ≡ err e
    → let r = post_bounce_buffer fab req d ep in
      (r.0 ≡ err e)
      × (r.1.rails ≡ ep.rails)
      × (r.1.pending_reqs_queue ≡ ep.pending_reqs_queue)
      × (r.1.posted ≡ ep.posted)
unfolding post_bounce_buffer
bounce_err fab req d ep e a =
    let p = post_err fab _ (update_req req (λ r. record r { state = created }) ep) e a in
    (
      ap (λ r. r.0) p,
      ap (λ r. r.1.rails) p,
      ap (λ r. r.1.pending_reqs_queue) p,
      ap (λ r. r.1.posted) p,
    )

abbrev pub num_posted : Endpoint → ℕ → ℕ
num_posted ep rail = (ep.rails rail).num_bounce_posted

abbrev pub max_posted : Endpoint → ℕ → ℕ
max_posted ep rail = (ep.rails rail).max_bounce_posted

-- What the loop makes of `left` buffers to post: it posts them all; or libfabric is busy after `k` of
-- them, and one more is in the queue and counts as posted; or it fails after `k` of them.
pub data Posting (rail left : ℕ) (ep : Endpoint) (r : Result (Unit {0}) × Endpoint) : Type 0 where
  all :
      r.0 ≡ ok tt
      → num_posted r.1 rail ≡ num_posted ep rail
      → length r.1.posted ≡ length ep.posted + left
      → r.1.pending_reqs_queue ≡ ep.pending_reqs_queue
      → Posting rail left ep r
  waits :
      (k req : ℕ)
      → k < left
      → r.0 ≡ ok tt
      → num_posted r.1 rail ≡ num_posted ep rail - (left - k - 1)
      → length r.1.posted ≡ length ep.posted + k
      → r.1.pending_reqs_queue ≡ insert_back ep.pending_reqs_queue req
      → Posting rail left ep r
  fails :
      (k : ℕ) (e : Error)
      → k < left
      → r.0 ≡ err e
      → num_posted r.1 rail ≡ num_posted ep rail
      → length r.1.posted ≡ length ep.posted + k
      → r.1.pending_reqs_queue ≡ ep.pending_reqs_queue
      → Posting rail left ep r

-- One more buffer posted before the rest.
later :
    (rail left : ℕ) (ep ep1 : Endpoint) (r : Result (Unit {0}) × Endpoint)
    → num_posted ep1 rail ≡ num_posted ep rail
    → ep1.pending_reqs_queue ≡ ep.pending_reqs_queue
    → length ep1.posted ≡ length ep.posted + 1
    → Posting rail left ep1 r
    → Posting rail (suc left) ep r
later rail left ep ep1 r n q p (all rc num posted queue) =
    all rc (num ∙ n) (posted ∙ omega (arith, p)) (queue ∙ q)
later rail left ep ep1 r n q p (waits k req lt rc num posted queue) =
    waits (suc k) req (omega arith) rc (num ∙ omega (arith, n)) (posted ∙ omega (arith, p))
      (queue ∙ ap (λ d. insert_back d req) q)
later rail left ep ep1 r n q p (fails k e lt rc num posted queue) =
    fails (suc k) e (omega arith) rc (num ∙ n) (posted ∙ omega (arith, p)) (queue ∙ q)

busy :
    (fab : Fabric) (rail left req : ℕ) (ep ep2 : Endpoint)
    → num_posted ep2 rail ≡ num_posted ep rail
    → ep2.pending_reqs_queue ≡ ep.pending_reqs_queue
    → length ep2.posted ≡ length ep.posted + 0
    → Posting rail (suc left) ep (ok tt, handle_bounce_eagain rail req left ep2)
unfolding handle_bounce_eagain queue_back
busy fab rail left req ep ep2 num queue posted =
    waits 0 req (omega arith) refl (ground (arith, num)) posted (ap (λ d. insert_back d req) queue)

post_buffs_lem :
    (fab : Fabric) (rail left : ℕ) (ep : Endpoint)
    → Posting rail left ep (post_buffs fab rail left ep)
unfolding post_buffs
post_buffs_lem fab rail zero ep = all refl refl (omega arith) refl
post_buffs_lem fab rail (suc left) ep =
    let s = alloc-Same fab rail ep in
    let ep1 = (alloc_bounce_req fab rail ep).1 in
    elim (Option-cases (alloc_bounce_req fab rail ep).0) [
      | inl e ↦
          rw (post_buffs, e)
            (fails 0 enomem (omega arith) refl (ap (λ f. (f rail).num_bounce_posted) s.rails)
              (ap length s.posted ∙ omega arith) s.queue)
      | inr (x, e) ↦
          let ep2 = (post_bounce_buffer fab x.0 x.1 ep1).1 in
          elim (Result-cases (fab.answer ep1.tries)) [
            | inl (u, a) ↦
                let p = bounce_ok fab x.0 x.1 ep1 a in
                rw (post_buffs, e, p.0)
                  (later rail left ep ep2 (post_buffs fab rail left ep2) (count (p.1 ∙ s.rails))
                    (p.2 ∙ s.queue) (p.3 ∙ ap (λ l. length l + 1) s.posted)
                    (post_buffs_lem fab rail left ep2))
            | inr (u, a) ↦
                let p = bounce_err fab x.0 x.1 ep1 u a in
                let num : num_posted ep2 rail ≡ num_posted ep rail = count (p.1 ∙ s.rails) in
                let same : length ep2.posted ≡ length ep.posted + 0 =
                  ap length (p.3 ∙ s.posted) ∙ omega arith in
                elim (Bool-cases (is_eagain u)) [
                  | inl again ↦
                      rw (post_buffs, e, p.0, again)
                        (busy fab rail left x.0 ep ep2 num (p.2 ∙ s.queue) same)
                  | inr hard ↦
                      rw (post_buffs, e, p.0, hard)
                        (fails 0 u (omega arith) refl num same (p.2 ∙ s.queue))
                ]
          ]
    ]
  where
    count : {f : ℕ → Rail} → f ≡ ep.rails → (f rail).num_bounce_posted ≡ num_posted ep rail
    count e = ap (λ (f : ℕ → Rail). (f rail).num_bounce_posted) e

-- All missing buffers are posted, libfabric is busy, or an error is returned.
pub data Refilled (rail : ℕ) (ep : Endpoint) (r : Result (Unit {0}) × Endpoint) : Type 0 where
  full :
      r.0 ≡ ok tt
      → num_posted r.1 rail ≡ max_posted ep rail
      → length r.1.posted + num_posted ep rail ≡ length ep.posted + max_posted ep rail
      → r.1.pending_reqs_queue ≡ ep.pending_reqs_queue
      → Refilled rail ep r
  waiting :
      (k req : ℕ)
      → num_posted ep rail + k < max_posted ep rail
      → r.0 ≡ ok tt
      → num_posted r.1 rail ≡ num_posted ep rail + k + 1
      → length r.1.posted ≡ length ep.posted + k
      → r.1.pending_reqs_queue ≡ insert_back ep.pending_reqs_queue req
      → Refilled rail ep r
  failed :
      (k : ℕ) (e : Error)
      → num_posted ep rail + k < max_posted ep rail
      → r.0 ≡ err e
      → num_posted r.1 rail ≡ max_posted ep rail
      → length r.1.posted ≡ length ep.posted + k
      → r.1.pending_reqs_queue ≡ ep.pending_reqs_queue
      → Refilled rail ep r

refilled :
    (rail : ℕ) (ep : Endpoint) (r : Result (Unit {0}) × Endpoint)
    → num_posted ep rail ≤ max_posted ep rail
    → Posting rail
        (max_posted ep rail - num_posted ep rail)
        (set_num_bounce_posted rail (max_posted ep rail) ep)
        r
    → Refilled rail ep r
refilled rail ep r h (all rc num posted queue) =
    full rc (ground (arith, num)) (omega (arith, posted)) queue
refilled rail ep r h (waits k req lt rc num posted queue) =
    waiting k req (omega arith) rc (ground (arith, num)) posted queue
refilled rail ep r h (fails k e lt rc num posted queue) =
    failed k e (omega arith) rc (ground (arith, num)) posted queue

pub post_bounce_buffs_on_rail_lem :
    (fab : Fabric) (rail : ℕ) (ep : Endpoint)
    → num_posted ep rail ≤ max_posted ep rail
    → Refilled rail ep (post_bounce_buffs_on_rail fab rail ep)
unfolding post_bounce_buffs_on_rail
post_bounce_buffs_on_rail_lem fab rail ep h =
    refilled rail ep (post_bounce_buffs_on_rail fab rail ep) h (
      post_buffs_lem fab rail (max_posted ep rail - num_posted ep rail)
        (set_num_bounce_posted rail (max_posted ep rail) ep))
