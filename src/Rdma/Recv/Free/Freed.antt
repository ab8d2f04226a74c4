-- ===== src/Rdma/Recv/Free/Freed.antt =====
-- What goes back to the free lists when a receive of src/nccl_ofi_rdma.c is freed.
use mathlib.Core.List.{append_assoc}
use aws_ofi_nccl.Base.{
  ℕ, ◌+◌, ◌-◌, ◌≡◌, ◌≢◌, refl, sym, ap, ◌∙◌, Bool, true, false, Bool-cases, Option, none, some,
  List, [], ◌∷◌, ◌++◌, All, All-map, All-append, append_nil, ◌==◌, if◌then◌else◌, inl, inr, arith,
}
use aws_ofi_nccl.Freelist.{entry_free}
use aws_ofi_nccl.Freelist.Run.{entries-entry_free}
use aws_ofi_nccl.Scheduler.{Schedule, release_schedule}
use aws_ofi_nccl.Scheduler.Laws.{entries-release_schedule}
use aws_ofi_nccl.Rdma.{RecvData, SendCtrlData, recv, send_ctrl, invalid_type}
use aws_ofi_nccl.Rdma.Recv.{RecvComm}
use aws_ofi_nccl.Rdma.Recv.Free.{free_base_req, free_send_ctrl_req, free_recv_req}

-- The requests, control buffers and schedules that are given back, each in front of its free list, and
-- what stays: the other requests and the message buffer.
pub record Gave (finished : ℕ) (requests items schedules : List ℕ) (c c' : RecvComm) : Type 0 where
  pub requests_back : c'.nccl_ofi_reqs_fl.entries ≡ requests ++ c.nccl_ofi_reqs_fl.entries
  pub items_back : c'.ctrl_buff_fl.entries ≡ items ++ c.ctrl_buff_fl.entries
  pub schedules_back :
      c'.scheduler.schedule_fl.entries ≡ schedules ++ c.scheduler.schedule_fl.entries
  pub invalid : All (λ q. (c'.ep.reqs q).type ≡ invalid_type) requests
  pub still_invalid :
      (q : ℕ) → (c.ep.reqs q).type ≡ invalid_type → (c'.ep.reqs q).type ≡ invalid_type
  pub others : (q : ℕ) → All (λ p. p ≢ q) requests → c'.ep.reqs q ≡ c.ep.reqs q
  pub inflight : c'.num_inflight_reqs ≡ c.num_inflight_reqs - finished
  pub buffer : c'.msgbuff ≡ c.msgbuff

All-parts : (P : ℕ → Type 0) (xs ys : List ℕ) → All P (xs ++ ys) → All P xs × All P ys
All-parts P [] ys h = (tt, h)
All-parts P (x ∷ xs) ys h = let r = All-parts P xs ys h.1 in ((h.0, r.0), r.1)

Gave-self : (c : RecvComm) → Gave 0 [] [] [] c c
Gave-self c = record {
  requests_back = refl;
  items_back = refl;
  schedules_back = refl;
  invalid = tt;
  still_invalid = λ q h. h;
  others = λ q h. refl;
  inflight = omega arith;
  buffer = refl;
}

Gave-trans :
    {n k : ℕ} {rs is ss rs' is' ss' : List ℕ} {a b c : RecvComm}
    → Gave n rs is ss a b
    → Gave k rs' is' ss' b c
    → Gave (n + k) (rs' ++ rs) (is' ++ is) (ss' ++ ss) a c
Gave-trans {rs = rs} {is = is} {ss = ss} {rs' = rs'} {is' = is'} {ss' = ss'} {a = a} {c = c} g h =
    record {
      requests_back =
          h.requests_back
          ∙ ap (λ t. rs' ++ t) g.requests_back
          ∙ sym (append_assoc rs' rs a.nccl_ofi_reqs_fl.entries);
      items_back =
          h.items_back
          ∙ ap (λ t. is' ++ t) g.items_back
          ∙ sym (append_assoc is' is a.ctrl_buff_fl.entries);
      schedules_back =
          h.schedules_back
          ∙ ap (λ t. ss' ++ t) g.schedules_back
          ∙ sym (append_assoc ss' ss a.scheduler.schedule_fl.entries);
      invalid =
          All-append (λ q. (c.ep.reqs q).type ≡ invalid_type) rs' rs h.invalid
            (All-map h.still_invalid rs g.invalid);
      still_invalid = λ q i. h.still_invalid q (g.still_invalid q i);
      others = λ q o. let r = All-parts _ rs' rs o in h.others q r.0 ∙ g.others q r.1;
      inflight = h.inflight ∙ omega (arith, g.inflight);
      buffer = h.buffer ∙ g.buffer;
    }

base-Gave :
    (req : ℕ) (dec : Bool) (c : RecvComm)
    → Gave (if dec then 1 else 0) (req ∷ []) [] [] c (free_base_req req dec c)
unfolding free_base_req
base-Gave req dec c = record {
  requests_back = entries-entry_free c.nccl_ofi_reqs_fl req;
  items_back = refl;
  schedules_back = refl;
  invalid = (ground arith, tt);
  still_invalid = λ q i. ground (arith, i);
  others = λ q o. let n = o.0 in ground (arith, n);
  inflight = ground arith;
  buffer = refl;
}

-- What a pointer that may be NULL gives back.
abbrev pub unless_null : ℕ → List ℕ
unless_null p = if p == 0 then [] else p ∷ []

abbrev pub entry_of : Option Schedule → List ℕ
entry_of none = []
entry_of (some s) = s.entry ∷ []

base-unless_null :
    (req : ℕ) (c : RecvComm)
    → Gave 0 (unless_null req) [] [] c (if req == 0 then c else free_base_req req false c)
base-unless_null req c = elim (Bool-cases (req == 0)) [
  | inl e ↦ rw e (Gave-self c)
  | inr e ↦ rw e (base-Gave req false c)
]

schedule-Gave :
    (s : Option Schedule) (c : RecvComm)
    → Gave 0 [] []
        (entry_of s)
        c
        (elim s [ none ↦ c | some s ↦ record c { scheduler = release_schedule c.scheduler s } ])
schedule-Gave none c = Gave-self c
schedule-Gave (some s) c = record {
  requests_back = refl;
  items_back = refl;
  schedules_back = entries-release_schedule c.scheduler s;
  invalid = tt;
  still_invalid = λ q i. i;
  others = λ q o. refl;
  inflight = omega arith;
  buffer = refl;
}

item-Gave :
    (item : ℕ) (c : RecvComm)
    → Gave 0 []
        (unless_null item)
        []
        c
        (if item == 0 then c else record c { ctrl_buff_fl = entry_free c.ctrl_buff_fl item })
item-Gave item c = elim (Bool-cases (item == 0)) [
  | inl e ↦ rw e (Gave-self c)
  | inr e ↦ rw e (record {
    requests_back = refl;
    items_back = entries-entry_free c.ctrl_buff_fl item;
    schedules_back = refl;
    invalid = tt;
    still_invalid = λ q i. i;
    others = λ q o. refl;
    inflight = omega arith;
    buffer = refl;
  })
]

ctrl-Gave :
    (req : ℕ) (cd : SendCtrlData) (c : RecvComm)
    → (c.ep.reqs req).type ≡ send_ctrl cd
    → Gave 0
        (req ∷ [])
        (unless_null cd.ctrl_fl_item)
        (entry_of cd.ctrl_schedule)
        c
        (free_send_ctrl_req req false c)
unfolding free_send_ctrl_req
ctrl-Gave req cd c typed =
    let s = schedule-Gave cd.ctrl_schedule c in
    let i = item-Gave cd.ctrl_fl_item _ in
    let all = Gave-trans (Gave-trans s i) (base-Gave req false _) in
    rw (free_send_ctrl_req, typed) (rw (append_nil (unless_null cd.ctrl_fl_item)) at all)

-- A freed receive gives back itself and its parts.
pub free_recv_req-Gave :
    (req : ℕ) (d : RecvData) (cd : SendCtrlData) (c : RecvComm)
    → (c.ep.reqs req).type ≡ recv d
    → d.send_ctrl_req ≢ 0
    → (c.ep.reqs d.send_ctrl_req).type ≡ send_ctrl cd
    → Gave 1
        (req
          ∷ (unless_null d.eager_copy_req
              ++ (unless_null d.recv_segms_req ++ (d.send_ctrl_req ∷ []))))
        (unless_null cd.ctrl_fl_item)
        (entry_of cd.ctrl_schedule)
        c
        (free_recv_req req true c)
unfolding free_recv_req
free_recv_req-Gave req d cd c is_recv has is_ctrl =
    let e : (d.send_ctrl_req == 0) ≡ false = ground (arith, has) in
    let control = ctrl-Gave d.send_ctrl_req cd c is_ctrl in
    let segments = base-unless_null d.recv_segms_req _ in
    let copy = base-unless_null d.eager_copy_req _ in
    rw (free_recv_req, is_recv, e)
      (Gave-trans (Gave-trans (Gave-trans control segments) copy) (base-Gave req true _))
