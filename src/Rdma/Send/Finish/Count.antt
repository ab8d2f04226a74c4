-- ===== src/Rdma/Send/Finish/Count.antt =====
-- A send ends after exactly the completions that it expects.
use aws_ofi_nccl.Base.{
  ℕ, zero, suc, ◌+◌, ◌≤◌, ◌<◌, ◌≡◌, refl, ap, ◌∙◌, some, ok, true, arith, ◌==◌, if◌then◌else◌,
}
use aws_ofi_nccl.Msgbuff.{Msgbuff, Status, get_idx_status}
use aws_ofi_nccl.Msgbuff.Inv.{IsValid}
use aws_ofi_nccl.Msgbuff.Fresh.{complete-inprogress}
use aws_ofi_nccl.Rdma.{created, completed, SendData, send, count_completion, inc_req_completion}
use aws_ofi_nccl.Rdma.Send.{SendComm, free_send_req, send_data_at, send_data_of}
use aws_ofi_nccl.Rdma.Send.Meet.{msg_seq_num_of}
use aws_ofi_nccl.Rdma.Send.Finish.{complete_send, test_send}

-- `k` completions.
unfoldable pub completions : ℕ → ℕ → SendComm → SendComm
completions zero req c = c
completions (suc k) req c = complete_send req (completions k req c)

-- A request with this data and size after `k` completions.
pub record Counted (req k : ℕ) (d : SendData) (bytes : ℕ) (c : SendComm) : Type 0 where
  pub type : (c.ep.reqs req).type ≡ send d
  pub ncompls : (c.ep.reqs req).ncompls ≡ k
  pub state : (c.ep.reqs req).state ≡ (if k == d.total_num_compls then completed else created)
  pub size : (c.ep.reqs req).size ≡ bytes

counted_req :
    (req : ℕ) (c : SendComm)
    → (complete_send req c).ep.reqs req
      ≡ count_completion 0 (send_data_at c req).total_num_compls (c.ep.reqs req)
unfolding complete_send inc_req_completion
counted_req req c = ground arith

complete-Counted :
    (req k bytes : ℕ) (d : SendData) (c : SendComm)
    → k < d.total_num_compls
    → Counted req k d bytes c
    → Counted req (suc k) d bytes (complete_send req c)
complete-Counted req k bytes d c l v =
    let r = counted_req req c in
    let before : (c.ep.reqs req).state ≡ created = v.state ∙ ground arith in
    let total : (send_data_at c req).total_num_compls ≡ d.total_num_compls =
      ap (λ t. (send_data_of t).total_num_compls) v.type in
    record {
      type = ap (λ q. q.type) r ∙ v.type;
      ncompls = ap (λ q. q.ncompls) r ∙ ap (λ n. n + 1) v.ncompls ∙ omega arith;
      state = ap (λ q. q.state) r ∙ rw (before, total, v.ncompls) (ground arith);
      size = ap (λ q. q.size) r ∙ ap (λ n. n + 0) v.size ∙ omega arith;
    }

-- A send request that has no completion yet and expects some: after `k` completions, as many as it
-- expects at most, it has counted `k`, it is completed if these are all and otherwise still created,
-- and its size is the same.
pub send_done_lem :
    (req bytes : ℕ) (d : SendData) (c : SendComm) (k : ℕ)
    → 0 < d.total_num_compls
    → k ≤ d.total_num_compls
    → (c.ep.reqs req).type ≡ send d
    → (c.ep.reqs req).ncompls ≡ 0
    → (c.ep.reqs req).state ≡ created
    → (c.ep.reqs req).size ≡ bytes
    → Counted req k d bytes (completions k req c)
unfolding completions
send_done_lem req bytes d c zero some_compl l t n s z = record {
  type = t;
  ncompls = n;
  state = s ∙ ground arith;
  size = z;
}
send_done_lem req bytes d c (suc k) some_compl l t n s z =
    complete-Counted req k bytes d (completions k req c) (omega arith)
      (send_done_lem req bytes d c k some_compl (omega arith) t n s z)

-- A completed send whose message is in progress in a valid buffer is done, with its size: the message
-- is then complete in the buffer, which stays valid, and the request is freed with its schedule and no
-- longer counts as in flight.
pub test_send_lem :
    (req : ℕ) (c : SendComm)
    → IsValid c.msgbuff
    → msg_seq_num_of req c < c.msgbuff.field_size
    → get_idx_status c.msgbuff (msg_seq_num_of req c) ≡ Status.inprogress
    → (c.ep.reqs req).state ≡ completed
    → (m : Msgbuff) × (test_send req c
        ≡ some (ok (some (c.ep.reqs req).size), free_send_req req true (record c { msgbuff = m })))
      × IsValid m
      × (get_idx_status m (msg_seq_num_of req c) ≡ Status.completed)
unfolding test_send
test_send_lem req c v in_size busy done =
    let (m, runs, valid, status) = complete-inprogress v (msg_seq_num_of req c) in_size busy in
    (m, rw (test_send, done, runs) refl, valid, status)
