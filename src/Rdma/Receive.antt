-- ===== src/Rdma/Receive.antt =====
-- When a receive request is complete, whatever the order in which its parts complete.
use mathlib.Core.Path.{subst}
use native.Mathlib.Nat.{add-zero}
use aws_ofi_nccl.Base.{
  ℕ, suc, ◌+◌, ◌≤◌, ◌<◌, ◌≡◌, ◌≢◌, false, ◌&&◌, none, List, [], ◌∷◌, ◌==◌, if◌then◌else◌, arith,
}
use aws_ofi_nccl.Rdma.{
  ReqState, completed, error, is_error, total_of_recv, SendCtrlData, RecvSegmsData, Endpoint,
  count_completion, set_send_ctrl_completed, inc_recv_seg_completion,
}

-- The control message is sent, or a segment of some size has arrived.
pub data Event : Type 0 where
  ctrl : Event
  segment : ℕ → Event

-- The requests of one receive operation: the main one, and those of the control message and the segments.
pub record Parts : Type 0 where
  pub main : ℕ
  pub ctrl_req : ℕ
  pub segms_req : ℕ

abbrev pub ctrl_data : Parts → SendCtrlData
ctrl_data p = record { ctrl_fl_item = 0; ctrl_schedule = none; recv_req = p.main }

abbrev pub segms_data : Parts → RecvSegmsData
segms_data p = record { recv_req = p.main }

-- `n` is the number of segments that the sender announces in each of them.
unfoldable pub arrive : Parts → ℕ → List Event → Endpoint → Endpoint
arrive p n [] ep = ep
arrive p n (ctrl ∷ es) ep = arrive p n es (set_send_ctrl_completed p.ctrl_req (ctrl_data p) ep)
arrive p n (segment len ∷ es) ep =
    arrive p n es (inc_recv_seg_completion p.segms_req (segms_data p) len n ep)

abbrev pub ctrls : List Event → ℕ
ctrls [] = 0
ctrls (ctrl ∷ es) = suc (ctrls es)
ctrls (segment len ∷ es) = ctrls es

abbrev pub segments : List Event → ℕ
segments [] = 0
segments (ctrl ∷ es) = segments es
segments (segment len ∷ es) = suc (segments es)

abbrev pub bytes : List Event → ℕ
bytes [] = 0
bytes (ctrl ∷ es) = bytes es
bytes (segment len ∷ es) = len + bytes es

-- The requests of the parts differ, and the main one expects two completions.
abbrev pub Apart : Parts → Type 0
Apart p = (p.main ≢ p.ctrl_req) × (p.main ≢ p.segms_req) × (p.ctrl_req ≢ p.segms_req)

-- The requests after `c` control messages and `k` of `n` segments with `z` bytes, where the main
-- request was in the state `start`.
pub record After (p : Parts) (start : ReqState) (n c k z : ℕ) (ep : Endpoint) : Type 0 where
  pub total : total_of_recv (ep.reqs p.main).type ≡ 2
  pub main_ncompls : (ep.reqs p.main).ncompls ≡ c + (if k == n then 1 else 0)
  pub main_size : (ep.reqs p.main).size ≡ (if k == n then z else 0)
  pub main_state : (ep.reqs p.main).state ≡ (if (c == 1) && (k == n) then completed else start)
  pub segms_ncompls : (ep.reqs p.segms_req).ncompls ≡ k
  pub segms_size : (ep.reqs p.segms_req).size ≡ z

module _ (p : Parts) (ep : Endpoint) (apart : Apart p) where
  ctrl-main :
      (set_send_ctrl_completed p.ctrl_req (ctrl_data p) ep).reqs p.main
      ≡ count_completion 0 (total_of_recv (ep.reqs p.main).type) (ep.reqs p.main)
  unfolding set_send_ctrl_completed
  ctrl-main = ground (arith, apart.0)

  ctrl-segms :
      (set_send_ctrl_completed p.ctrl_req (ctrl_data p) ep).reqs p.segms_req ≡ ep.reqs p.segms_req
  unfolding set_send_ctrl_completed
  ctrl-segms = ground (arith, apart.1, apart.2)

  segment-segms :
      (len n : ℕ)
      → let r = (inc_recv_seg_completion p.segms_req (segms_data p) len n ep).reqs p.segms_req in
        let old = ep.reqs p.segms_req in (r.ncompls ≡ old.ncompls + 1) × (r.size ≡ old.size + len)
  unfolding inc_recv_seg_completion
  segment-segms len n = ground (arith, apart.1)

  segment-main :
      (len n : ℕ)
      → let old = ep.reqs p.segms_req in
        (inc_recv_seg_completion p.segms_req (segms_data p) len n ep).reqs p.main ≡ (
          if old.ncompls + 1 == n
          then count_completion
              (old.size + len)
              (total_of_recv (ep.reqs p.main).type)
              (ep.reqs p.main)
          else ep.reqs p.main)
  unfolding inc_recv_seg_completion
  segment-main len n = ground (arith, apart.1)

ctrl-After :
    (p : Parts) (start : ReqState) (n k z : ℕ) (ep : Endpoint)
    → Apart p
    → is_error start ≡ false
    → After p start n 0 k z ep
    → After p start n 1 k z (set_send_ctrl_completed p.ctrl_req (ctrl_data p) ep)
ctrl-After p start n k z ep apart sound a =
    let main = ctrl-main p ep apart in
    let segms = ctrl-segms p ep apart in
    record {
      total = rw main a.total;
      main_ncompls = ground (arith, main);
      main_size = ground (arith, main);
      main_state = ground (arith, main);
      segms_ncompls = ground (arith, segms);
      segms_size = ground (arith, segms);
    }

segment-After :
    (p : Parts) (start : ReqState) (n c k z len : ℕ) (ep : Endpoint)
    → Apart p
    → is_error start ≡ false
    → c ≤ 1
    → k < n
    → After p start n c k z ep
    → After p start n c
        (suc k)
        (z + len)
        (inc_recv_seg_completion p.segms_req (segms_data p) len n ep)
segment-After p start n c k z len ep apart sound one lt a =
    let main = segment-main p ep apart len n in
    let segms = segment-segms p ep apart len n in
    record {
      total = ground (arith, main);
      main_ncompls = ground (arith, main);
      main_size = ground (arith, main);
      main_state = ground (arith, main);
      segms_ncompls = ground (arith, segms.0);
      segms_size = ground (arith, segms.1);
    }

arrive-After :
    (p : Parts) (start : ReqState) (n : ℕ) (es : List Event) (c k z : ℕ) (ep : Endpoint)
    → Apart p
    → is_error start ≡ false
    → c + ctrls es ≤ 1
    → k + segments es ≤ n
    → After p start n c k z ep
    → After p start n (c + ctrls es) (k + segments es) (z + bytes es) (arrive p n es ep)
unfolding arrive
arrive-After p start n [] c k z ep apart sound hc hk a = rw (add-zero, add-zero, add-zero) a
arrive-After p start n (ctrl ∷ es) c k z ep apart sound hc hk a =
    let none_yet : c ≡ 0 = omega arith in
    let ih =
      arrive-After p start n es 1 k z (set_send_ctrl_completed p.ctrl_req (ctrl_data p) ep) apart
        sound (omega arith) hk
        (ctrl-After p start n k z ep apart sound
          (subst (λ x. After p start n x k z ep) none_yet a)) in
    let count : 1 + ctrls es ≡ c + suc (ctrls es) = omega arith in rw (← count) ih
arrive-After p start n (segment len ∷ es) c k z ep apart sound hc hk a =
    let ih =
      arrive-After p start n es c (suc k) (z + len)
        (inc_recv_seg_completion p.segms_req (segms_data p) len n ep) apart sound hc (omega arith)
        (segment-After p start n c k z len ep apart sound (omega arith) (omega arith) a) in
    let count : suc k + segments es ≡ k + suc (segments es) = omega arith in
    let sizes : z + len + bytes es ≡ z + (len + bytes es) = omega arith in rw (← count, ← sizes) ih

-- A receive operation that is posted, in the state `start`, with no completion so far.
pub record IsPosted (p : Parts) (start : ReqState) (ep : Endpoint) : Type 0 where
  pub apart : Apart p
  pub total : total_of_recv (ep.reqs p.main).type ≡ 2
  pub main_ncompls : (ep.reqs p.main).ncompls ≡ 0
  pub main_size : (ep.reqs p.main).size ≡ 0
  pub main_state : (ep.reqs p.main).state ≡ start
  pub segms_ncompls : (ep.reqs p.segms_req).ncompls ≡ 0
  pub segms_size : (ep.reqs p.segms_req).size ≡ 0

IsPosted-After :
    (p : Parts) (start : ReqState) (n : ℕ) (ep : Endpoint)
    → 0 < n
    → IsPosted p start ep
    → After p start n 0 0 0 ep
IsPosted-After p start n ep h v = record {
  total = v.total;
  main_ncompls = ground arith;
  main_size = ground arith;
  main_state = ground arith;
  segms_ncompls = v.segms_ncompls;
  segms_size = v.segms_size;
}

-- A posted receive operation without a completion so far, of which the sender announces at least one
-- segment: when at most one completion of the control message and at most the announced number of
-- segments have come in, in any order, the request is COMPLETED if the control message and all
-- segments have, and otherwise in the state it was in. Its size is the number of bytes of all
-- segments once the last has come in, and 0 before.
pub receive_lem :
    (p : Parts) (start : ReqState) (n : ℕ) (es : List Event) (ep : Endpoint)
    → is_error start ≡ false
    → 0 < n
    → ctrls es ≤ 1
    → segments es ≤ n
    → IsPosted p start ep
    → let main = (arrive p n es ep).reqs p.main in
      (main.state ≡ (if (ctrls es == 1) && (segments es == n) then completed else start))
      × (main.size ≡ (if segments es == n then bytes es else 0))
receive_lem p start n es ep sound hn hc hk v =
    let r =
      arrive-After p start n es 0 0 0 ep v.apart sound (omega arith) (omega arith)
        (IsPosted-After p start n ep hn v) in
    (ground (arith, r.main_state), ground (arith, r.main_size))

-- An error of the main request stays, whatever else arrives.
pub arrive-error :
    (p : Parts) (n : ℕ) (es : List Event) (ep : Endpoint)
    → Apart p
    → (ep.reqs p.main).state ≡ error
    → ((arrive p n es ep).reqs p.main).state ≡ error
unfolding arrive
arrive-error p n [] ep apart e = e
arrive-error p n (ctrl ∷ es) ep apart e =
    arrive-error p n es (set_send_ctrl_completed p.ctrl_req (ctrl_data p) ep) apart
      (ground (arith, ctrl-main p ep apart))
arrive-error p n (segment len ∷ es) ep apart e =
    arrive-error p n es (inc_recv_seg_completion p.segms_req (segms_data p) len n ep) apart
      (ground (arith, segment-main p ep apart len n))
