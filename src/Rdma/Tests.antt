-- ===== src/Rdma/Tests.antt =====
-- A message that comes in two segments.
use aws_ofi_nccl.Base.{◌≡◌, refl, inl, inr, List, [], ◌∷◌, arith}
use aws_ofi_nccl.Rdma.{
  created, completed, error, set_send_ctrl_completed, inc_recv_seg_completion,
  set_request_state_to_error,
}
use aws_ofi_nccl.Rdma.Receive.{Event, ctrl, segment, arrive, IsPosted, receive_lem}
use aws_ofi_nccl.Rdma.Samples.{parts, endpoint}
use aws_ofi_nccl.Rdma.Failure.{failed_receive, failed_copy}

abbrev events : List Event
events = segment 128 ∷ ctrl ∷ segment 72 ∷ []

completes : ((arrive parts 2 events endpoint).reqs 1).state ≡ completed
unfolding arrive set_send_ctrl_completed inc_recv_seg_completion
completes = refl

endpoint-IsPosted : IsPosted parts created endpoint
endpoint-IsPosted = record {
  apart = ((λ e. omega arith), (λ e. omega arith), (λ e. omega arith));
  total = refl;
  main_ncompls = refl;
  main_size = refl;
  main_state = refl;
  segms_ncompls = refl;
  segms_size = refl;
}

receive_lem_example :
    let main = (arrive parts 2 events endpoint).reqs 1 in
    (main.state ≡ completed) × (main.size ≡ 200)
receive_lem_example =
    receive_lem parts created 2 events endpoint refl (omega arith) (omega arith) (omega arith)
      endpoint-IsPosted

failed_receive_example :
    ((arrive parts 2 events (set_request_state_to_error 2 endpoint)).reqs 1).state ≡ error
failed_receive_example =
    failed_receive parts 2 2 events endpoint endpoint-IsPosted.apart
      (record {
        main = (_, refl);
        ctrl_info = _;
        ctrl_type = refl;
        ctrl_parent = refl;
        segms_type = refl;
      })
      (inr (inl refl))

failed_copy_example :
    ((arrive parts 2 (ctrl ∷ []) (set_request_state_to_error 4 endpoint)).reqs 1).state ≡ created
failed_copy_example =
    failed_copy parts created 4 2 (record { eager_bounce_req = 8; recv_req = 1 }) (ctrl ∷ [])
      endpoint refl ((λ e. omega arith), (λ e. omega arith)) refl (omega arith) (omega arith) refl
      endpoint-IsPosted
