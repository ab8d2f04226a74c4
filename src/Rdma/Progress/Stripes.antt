-- ===== src/Rdma/Progress/Stripes.antt =====
-- A send that libfabric takes in several attempts: every stripe is posted once.
use aws_ofi_nccl.Base.{
  ℕ, zero, suc, ◌+◌, ◌≤◌, ◌≡◌, ◌↔◌, refl, ap, false, some, List, [], ◌∷◌, length, take, drop, Error,
  ok, err, arith, Result-cases, inl, inr,
}
use aws_ofi_nccl.Scheduler.{XferInfo, Schedule}
use aws_ofi_nccl.Rdma.{SendData, send, Post, fi_writedata, Endpoint}
use aws_ofi_nccl.Rdma.Progress.Posts.{accepted, refused, post_ok, post_err}
use aws_ofi_nccl.Rdma.Progress.{Fabric, count_sent, send_rails, send_progress}

abbrev pub post_of : ℕ → XferInfo → Post
post_of req x = record {
  operation = fi_writedata;
  req = req;
  rail_id = x.rail_id;
  offset = x.offset;
  len = x.msg_size;
}

-- The posts of these transfers after those in `base`, the last first.
abbrev pub sent : ℕ → List XferInfo → List Post → List Post
sent req [] base = base
sent req (x ∷ xs) base = sent req xs (post_of req x ∷ base)

abbrev pub transfers : Schedule → List XferInfo
transfers s = take s.num_xfer_infos s.rail_xfer_infos

-- The request is a send by this schedule whose first `k` transfers are posted, each once and in order,
-- after the posts in `base`.
pub record Sending (req : ℕ) (s : Schedule) (base : List Post) (k : ℕ) (ep : Endpoint)
    : Type 0 where
  pub info : SendData
  pub type : (ep.reqs req).type ≡ send info
  pub late : info.eager ≡ false
  pub schedule : info.schedule ≡ some s
  pub xferred : info.xferred_rail_id ≡ k
  pub posts : ep.posted ≡ sent req (take k (transfers s)) base

take_next :
    (req k : ℕ) (all : List XferInfo) (x : XferInfo) (xs : List XferInfo) (base : List Post)
    → drop k all ≡ x ∷ xs
    → (drop (suc k) all ≡ xs)
      × (sent req (take (suc k) all) base ≡ post_of req x ∷ sent req (take k all) base)
      × (suc k ≤ length all)
take_next req zero [] x xs base e = absurd (ground (arith, e))
take_next req zero (a ∷ all) x xs base e = (ground arith, ground arith, omega arith)
take_next req (suc k) [] x xs base e = absurd (ground (arith, e))
take_next req (suc k) (a ∷ all) x xs base e =
    let r = take_next req k all x xs (post_of req a ∷ base) e in (r.0, r.1, omega (arith, r.2))

drop_all : (k : ℕ) (all : List XferInfo) → k ≤ length all → drop k all ≡ [] → k ≡ length all
drop_all zero [] h e = refl
drop_all zero (a ∷ all) h e = absurd (ground (arith, e))
drop_all (suc k) [] h e = absurd (omega arith)
drop_all (suc k) (a ∷ all) h e = ap suc (drop_all k all (omega arith) e)

rails_ok :
    (fab : Fabric) (req : ℕ) (x : XferInfo) (xs : List XferInfo) (ep : Endpoint)
    → fab.answer ep.tries ≡ ok tt
    → send_rails fab req (x ∷ xs) ep
      ≡ send_rails fab req xs (count_sent req (accepted ep (post_of req x)))
unfolding send_rails
rails_ok fab req x xs ep a =
    let p = post_ok fab (post_of req x) ep a in
    rw (send_rails, ap (λ r. r.0) p) (ap (λ r. send_rails fab req xs (count_sent req r.1)) p)

rails_err :
    (fab : Fabric) (req : ℕ) (x : XferInfo) (xs : List XferInfo) (ep : Endpoint) (e : Error)
    → fab.answer ep.tries ≡ err e
    → send_rails fab req (x ∷ xs) ep ≡ (err e, refused ep)
unfolding send_rails
rails_err fab req x xs ep e a =
    let p = post_err fab (post_of req x) ep e a in
    rw (send_rails, ap (λ r. r.0) p) (ap (λ r. (err e, r.1)) p)

send_rails_lem :
    (fab : Fabric) (req : ℕ) (s : Schedule) (base : List Post) (rest : List XferInfo) (k : ℕ)
    (ep : Endpoint)
    → k ≤ length (transfers s)
    → drop k (transfers s) ≡ rest
    → Sending req s base k ep
    → let r = send_rails fab req rest ep in
      (k' : ℕ) × Sending req s base k' r.1
      × (k ≤ k')
      × (k' ≤ length (transfers s))
      × ((r.0 ≡ ok tt) ↔ (k' ≡ length (transfers s)))
send_rails_lem fab req s base [] k ep h e v =
    unfold send_rails in
    let full = drop_all k (transfers s) h e in (k, v, omega arith, h, ((λ _. full), (λ _. refl)))
send_rails_lem fab req s base (x ∷ xs) k ep h e v =
    let next = take_next req k (transfers s) x xs base e in
    elim (Result-cases (fab.answer ep.tries)) [
      | inl (u, a) ↦
          let ep1 = count_sent req (accepted ep (post_of req x)) in
          let sending : Sending req s base (suc k) ep1 = record {
            info = record v.info { xferred_rail_id = v.info.xferred_rail_id + 1 };
            type = ground (arith, v.type);
            late = v.late;
            schedule = v.schedule;
            xferred = ground (arith, v.xferred);
            posts = ground (arith, v.posts, next.1);
          } in
          let (k', sends, more, few, ends) =
            send_rails_lem fab req s base xs (suc k) ep1 next.2 next.0 sending in
          rw (rails_ok fab req x xs ep a) (k', sends, omega arith, few, ends)
      | inr (u, a) ↦ rw (rails_err fab req x xs ep u a) (
        k,
        record {
          info = v.info;
          type = v.type;
          late = v.late;
          schedule = v.schedule;
          xferred = v.xferred;
          posts = v.posts;
        },
        omega arith,
        h,
        ((λ r. absurd (ground arith)), (λ r. absurd (omega (arith, next.2)))),
      )
    ]

-- send_progress on a send that is not eager, with the first `k` transfers of its schedule posted:
-- whatever libfabric answers, some further transfers are posted, in order, so that the first
-- `k'` are, each once; it returns 0 exactly when all are. So a request that is tried again after
-- EAGAIN goes on where it stopped.
pub send_progress_lem :
    (fab : Fabric) (req : ℕ) (s : Schedule) (base : List Post) (k : ℕ) (ep : Endpoint)
    → k ≤ length (transfers s)
    → Sending req s base k ep
    → let r = send_progress fab req ep in
      (k' : ℕ) × Sending req s base k' r.1
      × (k ≤ k')
      × (k' ≤ length (transfers s))
      × ((r.0 ≡ ok tt) ↔ (k' ≡ length (transfers s)))
unfolding send_progress
send_progress_lem fab req s base k ep h v =
    rw (v.type, send_progress, v.schedule, v.late, v.xferred)
      (send_rails_lem fab req s base (drop k (transfers s)) k ep h refl v)
