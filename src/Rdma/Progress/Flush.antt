-- ===== src/Rdma/Progress/Flush.antt =====
-- A flush on several rails when libfabric is busy on some of them.
use aws_ofi_nccl.Base.{
  ℕ, zero, suc, ◌+◌, ◌≡◌, refl, ap, ◌∙◌, ◌⊎◌, inl, inr, Bool, true, false, length, Error, Result,
  ok, err, arith, ◌==◌, if◌then◌else◌, Result-cases, Bool-cases,
}
use aws_ofi_nccl.Rdma.{FlushData, Post, fi_read, Endpoint}
use aws_ofi_nccl.Rdma.Progress.Posts.{accepted, refused, post_ok, post_err}
use aws_ofi_nccl.Rdma.Progress.{Fabric, is_eagain, flush_rails, post_flush_req}

abbrev pub is_taken : Result (Unit {0}) → Bool
is_taken (ok _) = true
is_taken (err _) = false

-- Libfabric accepts the operation or is busy.
abbrev pub is_soft : Result (Unit {0}) → Bool
is_soft (ok _) = true
is_soft (err e) = is_eagain e

-- The answers to `n` operations from the operation `t` on: whether none is a failure, the last
-- one, and how many are accepted.
abbrev pub AreSoft : Fabric → ℕ → ℕ → Type 0
AreSoft fab t zero = Unit {0}
AreSoft fab t (suc n) = (is_soft (fab.answer t) ≡ true) × AreSoft fab (t + 1) n

abbrev pub last_answer : Fabric → ℕ → ℕ → Result (Unit {0}) → Result (Unit {0})
last_answer fab t zero rc = rc
last_answer fab t (suc n) rc = last_answer fab (t + 1) n (fab.answer t)

abbrev pub num_taken : Fabric → ℕ → ℕ → ℕ
num_taken fab t zero = 0
num_taken fab t (suc n) = (if is_taken (fab.answer t) then 1 else 0) + num_taken fab (t + 1) n

-- The key of the flushed memory is at hand on every rail, or none is needed.
abbrev pub HasKeys : Fabric → FlushData → Type 0
HasKeys fab d = (d.mr_handle ≡ 0) ⊎ ((r : ℕ) → fab.has_key d.mr_handle r ≡ true)

module _ (fab : Fabric) (req : ℕ) (d : FlushData) (size : ℕ) (keys : HasKeys fab d) where
  read_of : ℕ → Post
  read_of rail = record { operation = fi_read; req = req; rail_id = rail; offset = 0; len = size }

  key : (rail : ℕ) → (d.mr_handle == 0) ≡ false → fab.has_key d.mr_handle rail ≡ true
  key rail mr = elim keys [ inl null ↦ absurd (ground arith) | inr have ↦ have rail ]

  flush_ok :
      (left rail : ℕ) (rc : Result (Unit {0})) (ep : Endpoint)
      → fab.answer ep.tries ≡ ok tt
      → flush_rails fab req d size (suc left) rail rc ep
        ≡ flush_rails fab req d size left (rail + 1) (ok tt) (accepted ep (read_of rail))
  unfolding flush_rails read_of
  flush_ok left rail rc ep a =
      let p = post_ok fab (read_of rail) ep a in
      let rest = ap (λ r. flush_rails fab req d size left (rail + 1) r.0 r.1) p in
      elim (Bool-cases (d.mr_handle == 0)) [
        | inl null ↦ rw (flush_rails, null, ap (λ r. r.0) p) rest
        | inr mr ↦ rw (flush_rails, mr, key rail mr, ap (λ r. r.0) p) rest
      ]

  flush_again :
      (left rail : ℕ) (rc : Result (Unit {0})) (ep : Endpoint) (e : Error)
      → fab.answer ep.tries ≡ err e
      → is_eagain e ≡ true
      → flush_rails fab req d size (suc left) rail rc ep
        ≡ flush_rails fab req d size left (rail + 1) (err e) (refused ep)
  unfolding flush_rails read_of
  flush_again left rail rc ep e a again =
      let p = post_err fab (read_of rail) ep e a in
      let rest = ap (λ r. flush_rails fab req d size left (rail + 1) r.0 r.1) p in
      elim (Bool-cases (d.mr_handle == 0)) [
        | inl null ↦ rw (flush_rails, null, ap (λ r. r.0) p, again) rest
        | inr mr ↦ rw (flush_rails, mr, key rail mr, ap (λ r. r.0) p, again) rest
      ]

  flush_rails_lem :
      (left rail : ℕ) (rc : Result (Unit {0})) (ep : Endpoint)
      → AreSoft fab ep.tries left
      → let r = flush_rails fab req d size left rail rc ep in
        (r.0 ≡ last_answer fab ep.tries left rc)
        × (length r.1.posted ≡ length ep.posted + num_taken fab ep.tries left)
  flush_rails_lem zero rail rc ep s = unfold flush_rails in (refl, omega arith)
  flush_rails_lem (suc left) rail rc ep s = elim (Result-cases (fab.answer ep.tries)) [
    | inl (u, a) ↦
        let ih = flush_rails_lem left (rail + 1) (ok tt) (accepted ep (read_of rail)) s.1 in
        rw (flush_ok left rail rc ep a, a) (ih.0, ih.1 ∙ omega arith)
    | inr (e, a) ↦
        let again : is_eagain e ≡ true = ground (arith, s.0, a) in
        let ih = flush_rails_lem left (rail + 1) (err e) (refused ep) s.1 in
        rw (flush_again left rail rc ep e a again, a) (ih.0, ih.1 ∙ omega arith)
  ]

-- post_flush_req, where the keys are at hand and libfabric accepts or is busy on each rail: it returns
-- what libfabric answered for the last rail alone, and adds as many reads as libfabric accepted.
pub post_flush_req_lem :
    (fab : Fabric) (size req : ℕ) (d : FlushData) (ep : Endpoint)
    → HasKeys fab d
    → AreSoft fab ep.tries fab.num_rails
    → let r = post_flush_req fab size req d ep in
      (r.0 ≡ last_answer fab ep.tries fab.num_rails (ok tt))
      × (length r.1.posted ≡ length ep.posted + num_taken fab ep.tries fab.num_rails)
unfolding post_flush_req
post_flush_req_lem fab size req d ep keys soft =
    flush_rails_lem fab req d size keys fab.num_rails 0 (ok tt) ep soft
