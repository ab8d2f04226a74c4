-- ===== src/Rdma/Progress/Queue.antt =====
-- The queue of requests that libfabric was too busy for is served in order.
use aws_ofi_nccl.Base.{ℕ, ◌≡◌, true, false, some, List, [], ◌∷◌, Error, Result, ok, err}
use aws_ofi_nccl.Deque.{Deque}
use aws_ofi_nccl.Rdma.{Endpoint}
use aws_ofi_nccl.Rdma.Progress.{Fabric, is_eagain, retry}
use aws_ofi_nccl.Rdma.Progress.Retry.{Tried}

abbrev pub with_queue : Endpoint → Deque → Endpoint
with_queue ep d = record ep { pending_reqs_queue = d }

-- How the requests of a queue are served, from the first on, up to the endpoint `fin`: what is
-- returned and what stays in the queue. Apart from its queue, an endpoint changes in the attempts only.
pub data Served (fab : Fabric) (size : ℕ) (rc : Result (Unit {0})) (rest : List ℕ) (fin : Endpoint)
    : List ℕ → Endpoint → Type 0 where
  -- All are posted.
  all :
      {ep : Endpoint} (d : Deque)
      → rc ≡ ok tt
      → rest ≡ []
      → fin ≡ with_queue ep d
      → Served fab size rc rest fin [] ep
  -- The first one is posted, and the others follow.
  posted :
      {req : ℕ} {reqs : List ℕ} {ep : Endpoint} (d : Deque) (ep' : Endpoint)
      → retry fab size req (with_queue ep d) ≡ some (ok tt, ep')
      → Tried fab req (with_queue ep d) (ok tt) ep'
      → Served fab size rc rest fin reqs ep'
      → Served fab size rc rest fin (req ∷ reqs) ep
  -- Libfabric is busy: the first one stays in front.
  busy :
      {req : ℕ} {reqs : List ℕ} {ep : Endpoint} (d : Deque) (ep' : Endpoint) (e : Error)
      (d' : Deque)
      → retry fab size req (with_queue ep d) ≡ some (err e, ep')
      → Tried fab req (with_queue ep d) (err e) ep'
      → is_eagain e ≡ true
      → rc ≡ ok tt
      → rest ≡ req ∷ reqs
      → fin ≡ with_queue ep' d'
      → Served fab size rc rest fin (req ∷ reqs) ep
  -- The first one fails and is dropped, and the others stay.
  failed :
      {req : ℕ} {reqs : List ℕ} {ep : Endpoint} (d : Deque) (ep' : Endpoint) (e : Error)
      → retry fab size req (with_queue ep d) ≡ some (err e, ep')
      → Tried fab req (with_queue ep d) (err e) ep'
      → is_eagain e ≡ false
      → rc ≡ err e
      → rest ≡ reqs
      → fin ≡ ep'
      → Served fab size rc rest fin (req ∷ reqs) ep
