-- ===== src/Rdma/Progress/Adds.antt =====
-- How many operations an attempt to post a request gives to libfabric.
use mathlib.Core.List.{append_assoc}
use aws_ofi_nccl.Base.{
  ℕ, zero, suc, ◌+◌, ◌≤◌, ◌<◌, ◌≡◌, refl, sym, ap, ◌∙◌, Bool-cases, List, [], ◌∷◌, ◌++◌, length,
  length-append, All, All-append, Result, ok, err, Result-cases, inl, inr, arith, ◌==◌,
  if◌then◌else◌,
}
use aws_ofi_nccl.Scheduler.{XferInfo}
use aws_ofi_nccl.Rdma.{FlushData, fi_read, Post, Endpoint}
use aws_ofi_nccl.Rdma.Progress.Stripes.{post_of}
use aws_ofi_nccl.Rdma.Progress.{
  Fabric, is_eagain, post, post_rdma_write, flush_rails, count_sent, send_rails,
}

-- An attempt with `due` operations to go posts all of them if it succeeds, and fewer if not.
abbrev pub Exact : ℕ → Result (Unit {0}) → ℕ → Type 0
Exact due (ok _) n = n ≡ due
Exact due (err _) n = n < due

-- The posts are `n` more than those in `old`, all of this request.
pub record Grows (req n : ℕ) (old now : List Post) : Type 0 where
  pub new : List Post
  pub posts : now ≡ new ++ old
  pub own : All (λ p. p.req ≡ req) new
  pub long : length new ≡ n

pub Grows-self : (req : ℕ) (old : List Post) → Grows req 0 old old
Grows-self req old = record { new = []; posts = refl; own = tt; long = refl }

pub Grows-trans :
    {req n k : ℕ} {old mid now : List Post}
    → Grows req n old mid
    → Grows req k mid now
    → Grows req (n + k) old now
Grows-trans {req} {old = old} g h = record {
  new = h.new ++ g.new;
  posts = h.posts ∙ ap (λ t. h.new ++ t) g.posts ∙ sym (append_assoc h.new g.new old);
  own = All-append (λ p. p.req ≡ req) h.new g.new h.own g.own;
  long = omega (arith, length-append h.new g.new, g.long, h.long);
}

-- One operation is posted, or not.
pub post-Grows :
    (fab : Fabric) (p : Post) (ep : Endpoint)
    → let r = post fab p ep in (n : ℕ) × Grows p.req n ep.posted r.1.posted × Exact 1 r.0 n
unfolding post
post-Grows fab p ep = elim (Result-cases (fab.answer ep.tries)) [
  | inl (u, e) ↦
      rw (post, e) (1, record { new = p ∷ []; posts = refl; own = (refl, tt); long = refl }, refl)
  | inr (u, e) ↦
      rw (post, e) (0, record { new = []; posts = refl; own = tt; long = refl }, omega arith)
]

Exact-suc :
    (rc : Result (Unit {0})) (n k due : ℕ) → n ≡ 1 → Exact due rc k → Exact (suc due) rc (n + k)
Exact-suc (ok _) n k due e h = omega arith
Exact-suc (err _) n k due e h = omega arith

pub send_rails-Grows :
    (fab : Fabric) (req : ℕ) (xs : List XferInfo) (ep : Endpoint)
    → let r = send_rails fab req xs ep in
      (n : ℕ) × Grows req n ep.posted r.1.posted × Exact (length xs) r.0 n
unfolding send_rails
send_rails-Grows fab req [] ep = (0, Grows-self req ep.posted, refl)
send_rails-Grows fab req (x ∷ xs) ep =
    let (rc, ep1) = post_rdma_write fab req x ep in
    let (n, one, exact) = post-Grows fab (post_of req x) ep in
    let (k, rest, all) = send_rails-Grows fab req xs (count_sent req ep1) in
    elim (Result-cases rc) [
      | inl (u, e) ↦
          let once : Exact 1 (ok u) n = rw e at exact in
          rw (e, send_rails)
            (
              n + k,
              Grows-trans one rest,
              Exact-suc (send_rails fab req xs (count_sent req ep1)).0 n k (length xs) once all,
            )
      | inr (u, e) ↦
          let none_of : Exact 1 (err u) n = rw e at exact in
          rw (e, send_rails) (n, one, omega (arith, none_of))
    ]

Exact-le : (rc : Result (Unit {0})) (n : ℕ) → Exact 1 rc n → n ≤ 1
Exact-le (ok _) n h = omega arith
Exact-le (err _) n h = omega arith

pub flush_rails-Grows :
    (fab : Fabric) (req : ℕ) (d : FlushData) (size left rail : ℕ) (rc : Result (Unit {0}))
    (ep : Endpoint)
    → (n : ℕ) × Grows req n ep.posted (flush_rails fab req d size left rail rc ep).1.posted
      × (n ≤ left)
unfolding flush_rails
flush_rails-Grows fab req d size zero rail rc ep = (0, Grows-self req ep.posted, omega arith)
flush_rails-Grows fab req d size (suc left) rail rc ep =
    let p : Post = record {
      operation = fi_read;
      req = req;
      rail_id = rail;
      offset = 0;
      len = size;
    } in
    let (rc', ep1) = post fab p ep in
    let (n, one, exact) = post-Grows fab p ep in
    let few = Exact-le rc' n exact in
    let (k, rest, le) = flush_rails-Grows fab req d size left (rail + 1) rc' ep1 in
    let again = flush_rails fab req d size left (rail + 1) rc' ep1 in
    let both : Few again.1 = (n + k, Grows-trans one rest, omega arith) in
    elim (Bool-cases (d.mr_handle == 0)) [
      | inl null ↦ rw null (read_on again ep1 rc' (n, one, omega arith) both)
      | inr some_key ↦ elim (Bool-cases (fab.has_key d.mr_handle rail)) [
        | inl have ↦ rw (some_key, have) (read_on again ep1 rc' (n, one, omega arith) both)
        | inr lack ↦ rw (some_key, lack) (0, Grows-self req ep.posted, omega arith)
      ]
    ]
  where
    Few : Endpoint → Type 0
    Few ep' = (n : ℕ) × Grows req n ep.posted ep'.posted × (n ≤ suc left)

    read_on :
        (rest : Result (Unit {0}) × Endpoint) (ep1 : Endpoint) (rc' : Result (Unit {0}))
        → Few ep1
        → Few rest.1
        → Few
            (elim rc' as (λ _. Result (Unit {0}) × Endpoint) [
              | ok _ ↦ rest
              | err e ↦ if is_eagain e then rest else (err e, ep1)
            ]).1
    read_on rest ep1 (ok _) one more = more
    read_on rest ep1 (err e) one more = elim (Bool-cases (is_eagain e)) [
      | inl again ↦ rw again more
      | inr hard ↦ rw hard one
    ]
