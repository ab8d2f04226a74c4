-- ===== src/Rdma/Failure.antt =====
-- What a completion with an error does to a receive operation.
use aws_ofi_nccl.Base.{ℕ, ◌≤◌, ◌<◌, ◌≡◌, ◌≢◌, ◌⊎◌, inl, inr, false, List, arith}
use aws_ofi_nccl.Rdma.{
  ReqState, error, is_error, RecvData, SendCtrlData, EagerCopyData, recv, send_ctrl, recv_segms,
  eager_copy, Endpoint, set_request_state_to_error,
}
use aws_ofi_nccl.Rdma.Receive.{
  Event, Parts, segms_data, arrive, ctrls, segments, Apart, IsPosted, receive_lem, arrive-error,
}

-- The requests of a receive operation have their types, and their parts know the receive request; the
-- control message may have any buffer and schedule.
pub record IsTyped (p : Parts) (ep : Endpoint) : Type 0 where
  pub main : (d : RecvData) × ((ep.reqs p.main).type ≡ recv d)
  pub ctrl_info : SendCtrlData
  pub ctrl_type : (ep.reqs p.ctrl_req).type ≡ send_ctrl ctrl_info
  pub ctrl_parent : ctrl_info.recv_req ≡ p.main
  pub segms_type : (ep.reqs p.segms_req).type ≡ recv_segms (segms_data p)

main_fails :
    (p : Parts) (ep : Endpoint)
    → IsTyped p ep
    → ((set_request_state_to_error p.main ep).reqs p.main).state ≡ error
unfolding set_request_state_to_error
main_fails p ep t = ground (arith, t.main.1)

ctrl_fails :
    (p : Parts) (ep : Endpoint)
    → IsTyped p ep
    → ((set_request_state_to_error p.ctrl_req ep).reqs p.main).state ≡ error
unfolding set_request_state_to_error
ctrl_fails p ep t = ground (arith, t.ctrl_type, t.ctrl_parent)

segms_fails :
    (p : Parts) (ep : Endpoint)
    → IsTyped p ep
    → ((set_request_state_to_error p.segms_req ep).reqs p.main).state ≡ error
unfolding set_request_state_to_error
segms_fails p ep t = ground (arith, t.segms_type)

-- When the receive request, its control message request or its segments request completes with an
-- error, the receive request is in the state ERROR, and stays in it whatever completions of the
-- control message and of segments come in later.
pub failed_receive :
    (p : Parts) (req n : ℕ) (es : List Event) (ep : Endpoint)
    → Apart p
    → IsTyped p ep
    → (req ≡ p.main) ⊎ ((req ≡ p.ctrl_req) ⊎ (req ≡ p.segms_req))
    → ((arrive p n es (set_request_state_to_error req ep)).reqs p.main).state ≡ error
failed_receive p req n es ep apart t (inl e) =
    arrive-error p n es _ apart (rw e (main_fails p ep t))
failed_receive p req n es ep apart t (inr (inl e)) =
    arrive-error p n es _ apart (rw e (ctrl_fails p ep t))
failed_receive p req n es ep apart t (inr (inr e)) =
    arrive-error p n es _ apart (rw e (segms_fails p ep t))

copy_fails :
    (req : ℕ) (d : EagerCopyData) (ep : Endpoint) (q : ℕ)
    → (ep.reqs req).type ≡ eager_copy d
    → req ≢ q
    → (set_request_state_to_error req ep).reqs q ≡ ep.reqs q
unfolding set_request_state_to_error
copy_fails req d ep q t h = ground (arith, t)

-- When the eager copy of a posted receive operation completes with an error, the receive request
-- is left as it is: whether or not the control message completes, as long as no segment comes in the
-- request stays in the state that it had, neither COMPLETED nor ERROR.
pub failed_copy :
    (p : Parts) (start : ReqState) (req n : ℕ) (d : EagerCopyData) (es : List Event) (ep : Endpoint)
    → (ep.reqs req).type ≡ eager_copy d
    → (req ≢ p.main) × (req ≢ p.segms_req)
    → is_error start ≡ false
    → 0 < n
    → ctrls es ≤ 1
    → segments es ≡ 0
    → IsPosted p start ep
    → ((arrive p n es (set_request_state_to_error req ep)).reqs p.main).state ≡ start
failed_copy p start req n d es ep t off sound hn hc hk v =
    let main = copy_fails req d ep p.main t off.0 in
    let segms = copy_fails req d ep p.segms_req t off.1 in
    let posted : IsPosted p start (set_request_state_to_error req ep) = record {
      apart = v.apart;
      total = rw main v.total;
      main_ncompls = rw main v.main_ncompls;
      main_size = rw main v.main_size;
      main_state = rw main v.main_state;
      segms_ncompls = rw segms v.segms_ncompls;
      segms_size = rw segms v.segms_size;
    } in
    ground (
      arith,
      (receive_lem p start n es (set_request_state_to_error req ep) sound hn hc (omega arith)
          posted).0,
    )
