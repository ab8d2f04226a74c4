-- ===== src/Rdma/Send/Schedules.antt =====
-- The schedules of a send in src/nccl_ofi_rdma.c: what a send takes, and what it gives back when it is freed.
use aws_ofi_nccl.Base.{
  ℕ, ◌≡◌, refl, ap, ◌∙◌, Bool, true, false, Option, none, some, List, ◌∷◌, arith, ok, if◌then◌else◌,
  ◌==◌, ◌&&◌, inl, inr, Bool-cases,
}
use aws_ofi_nccl.Scheduler.{Schedule}
use aws_ofi_nccl.Scheduler.Laws.{entries-release_schedule, get_threshold_schedule-cons}
use aws_ofi_nccl.Rdma.Progress.{Fabric}
use aws_ofi_nccl.Rdma.Bounce.{allocate_req}
use aws_ofi_nccl.Rdma.Bounce.Requests.{allocate_req-cons}
use aws_ofi_nccl.Rdma.Send.{
  SendComm, send_data_at, ctrl_msg_of, clip, update_send_data_from_remote, alloc_rdma_send_req,
  free_send_req,
}
use aws_ofi_nccl.Rdma.Send.Write.{data_after, scheduler_after}
use aws_ofi_nccl.Rdma.Send.Meet.{is_eager, is_some}

-- The entries of the schedules that are free.
abbrev pub free_schedules : SendComm → List ℕ
free_schedules c = c.scheduler.schedule_fl.entries

module _ (fab : Fabric) (c : SendComm) (req a : ℕ) (es : List ℕ) where
  -- Freeing a request gives back the schedule that it has.
  free_send_req-some :
      (s : Schedule) (dec : Bool)
      → (send_data_at c req).schedule ≡ some s
      → free_schedules (free_send_req req dec c) ≡ s.entry ∷ free_schedules c
  unfolding free_send_req
  free_send_req-some s dec e = rw (free_send_req, e) (entries-release_schedule c.scheduler s)

  -- A control message takes a schedule for the request.
  update-takes :
      (bounce_req : ℕ)
      → free_schedules c ≡ a ∷ es
      → let c' = (update_send_data_from_remote fab bounce_req req c).1 in
        (s : Schedule) × ((send_data_at c' req).schedule ≡ some s)
        × (s.entry ≡ a)
        × (free_schedules c' ≡ es)
  update-takes bounce_req e =
      let msg = ctrl_msg_of c bounce_req in
      let (s, got, entry, fl) =
        get_threshold_schedule-cons fab.platform (fab.mmap c.ep.allocs) c.scheduler
          (clip msg.buff_len (send_data_at c req).buff_len) fab.num_rails a es e in
      let sched = (data_after fab bounce_req req c s got).0 in
      (
        s,
        sched,
        entry,
        ap (λ t. t.schedule_fl.entries) (scheduler_after fab bounce_req req c)
            ∙ ap (λ t. t.entries) fl,
      )

  free_send_req-none :
      (dec : Bool)
      → (send_data_at c req).schedule ≡ none
      → free_schedules (free_send_req req dec c) ≡ free_schedules c
  unfolding free_send_req
  free_send_req-none dec e = rw (free_send_req, e) refl

-- The request at `req` has a schedule in the entry `a`, and `free` are free.
abbrev Has : ℕ → ℕ → List ℕ → SendComm → Type 0
Has req a free c =
    (s : Schedule) × ((send_data_at c req).schedule ≡ some s)
    × (s.entry ≡ a)
    × (free_schedules c ≡ free)

module _ (fab : Fabric) (msg_seq_num buff size mr_handle req a : ℕ) (rest es : List ℕ)
    (c : SendComm) (reqs : c.nccl_ofi_reqs_fl.entries ≡ req ∷ rest)
    (mutex : fab.mutex_ret c.ep.allocs ≡ 0) (free : free_schedules c ≡ a ∷ es) where
  eager_takes :
      let (rc, c1) = alloc_rdma_send_req fab msg_seq_num buff size mr_handle true c in
      (rc ≡ ok req) × Has req a es c1
  unfolding alloc_rdma_send_req
  eager_takes =
      let q = allocate_req-cons fab c.nccl_ofi_reqs_fl c.ep req rest reqs mutex in
      let (s, got, entry, fl) =
        get_threshold_schedule-cons fab.platform
          (fab.mmap (allocate_req fab c.nccl_ofi_reqs_fl c.ep).2.allocs) c.scheduler size
          fab.num_rails a es free in
      rw (alloc_rdma_send_req, ap (λ r. r.0) q, got)
        (refl, (s, ground arith, entry, ap (λ t. t.entries) fl))

  late_takes_none :
      let (rc, c1) = alloc_rdma_send_req fab msg_seq_num buff size mr_handle false c in
      (rc ≡ ok req) × ((send_data_at c1 req).schedule ≡ none) × (free_schedules c1 ≡ a ∷ es)
  unfolding alloc_rdma_send_req
  late_takes_none =
      let q = allocate_req-cons fab c.nccl_ofi_reqs_fl c.ep req rest reqs mutex in
      rw (alloc_rdma_send_req, ap (λ r. r.0) q) (refl, ground arith, free)

-- The control message that arrives before the send, if there is one.
abbrev pub tell : Fabric → ℕ → Option ℕ → SendComm → SendComm
tell fab req none c = c
tell fab req (some bounce_req) c = (update_send_data_from_remote fab bounce_req req c).1

give_back :
    (fab : Fabric) (c : SendComm) (req a : ℕ) (free : List ℕ)
    → Has req a free c
    → free_schedules (free_send_req req false c) ≡ a ∷ free
give_back fab c req a free (s, sched, entry, e) =
    free_send_req-some fab c req a free s false sched
    ∙ ap (λ x. x ∷ free_schedules c) entry
    ∙ ap (λ xs. a ∷ xs) e

-- A send request made and freed again, with two schedules free, a free entry for the request and a
-- mutex: the schedules are free as before, with the control message there or not; but where the
-- message is empty and its control message is there, the schedule that the request took first is
-- lost.
pub free-alloc_rdma_send_req :
    (fab : Fabric) (eager_max_size msg_seq_num buff size mr_handle : ℕ) (ctrl : Option ℕ)
    (c : SendComm) (req a b : ℕ) (rest es : List ℕ)
    → c.nccl_ofi_reqs_fl.entries ≡ req ∷ rest
    → fab.mutex_ret c.ep.allocs ≡ 0
    → free_schedules c ≡ a ∷ b ∷ es
    → let (rc, c1) =
        alloc_rdma_send_req fab msg_seq_num buff size mr_handle
          (is_eager eager_max_size size (is_some ctrl))
          c in
      (rc ≡ ok req)
      × (free_schedules (free_send_req req false (tell fab req ctrl c1))
          ≡ (if is_some ctrl && (size == 0) then b ∷ es else a ∷ b ∷ es))
free-alloc_rdma_send_req fab most seq buff size mr none c req a b rest es reqs mutex free =
    elim (Bool-cases (is_eager most size false)) [
      | inl e ↦
          let (made, has) =
            eager_takes fab seq buff size mr req a rest (b ∷ es) c reqs mutex free in
          rw e (made, give_back fab _ req a (b ∷ es) has)
      | inr e ↦
          let (made, lacks, same) =
            late_takes_none fab seq buff size mr req a rest (b ∷ es) c reqs mutex free in
          rw e (made, free_send_req-none fab _ req a es false lacks ∙ same)
    ]
free-alloc_rdma_send_req fab most seq buff size mr (some p) c req a b rest es reqs mutex free =
    elim (Bool-cases (size == 0)) [
      | inl e ↦
          let (made, has) =
            eager_takes fab seq buff size mr req a rest (b ∷ es) c reqs mutex free in
          rw e (made, give_back fab _ req b es (update-takes fab _ req b es p has.3))
      | inr e ↦
          let (made, lacks, same) =
            late_takes_none fab seq buff size mr req a rest (b ∷ es) c reqs mutex free in
          rw e (made, give_back fab _ req a (b ∷ es) (update-takes fab _ req a (b ∷ es) p same))
    ]
