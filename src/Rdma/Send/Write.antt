-- ===== src/Rdma/Send/Write.antt =====
-- update_send_data_from_remote of src/nccl_ofi_rdma.c: what a send writes once it knows the receive buffer.
use mathlib.Core.Path.{subst}
use aws_ofi_nccl.Base.{
  ℕ, ◌+◌, ◌-◌, ◌≤◌, ◌<◌, ◌≡◌, ◌≢◌, refl, sym, ◌∙◌, ◌⊎◌, inl, inr, false, Option, none, some, List,
  [], ◌∷◌, length, arith, einval, ok, err, Result, if◌then◌else◌, ltb,
}
use aws_ofi_nccl.Math.{word}
use aws_ofi_nccl.Freelist.Carve.{Sound}
use aws_ofi_nccl.Freelist.Grow.{Growable}
use aws_ofi_nccl.Scheduler.{XferInfo, Scheduler, Schedule, get_threshold_schedule}
use aws_ofi_nccl.Scheduler.Tiles.{Tiles, Cuts}
use aws_ofi_nccl.Scheduler.Laws.{Scheduled, get_threshold_schedule_lem}
use aws_ofi_nccl.Rdma.{send}
use aws_ofi_nccl.Rdma.Progress.{Fabric}
use aws_ofi_nccl.Rdma.Progress.Stripes.{Sending}
use aws_ofi_nccl.Rdma.Send.{
  CtrlMsg, SendComm, send_data_at, ctrl_msg_of, clip, update_send_data_from_remote,
}

-- No transfer ends beyond the first `n` bytes.
unfoldable pub Within : ℕ → List XferInfo → Type 0
Within n [] = Unit {0}
Within n (x ∷ xs) = (x.offset + x.msg_size ≤ n) × Within n xs

Tiles-Within :
    (n offset left : ℕ) (xs : List XferInfo)
    → offset + left ≤ n
    → Tiles offset left xs
    → Within n xs
unfolding Tiles Within
Tiles-Within n offset left [] h t = tt
Tiles-Within n offset left (x ∷ xs) h (e, le, t) =
    (omega arith, Tiles-Within n (offset + x.msg_size) (left - x.msg_size) xs (omega arith) t)

-- The request at `req` knows the receive buffer of `msg`, and stands before the first transfer of the
-- schedule `s`, which cuts what fits in that buffer.
pub record Ready (num_rails : ℕ) (msg : CtrlMsg) (req : ℕ) (c : SendComm) (s : Schedule)
    (c' : SendComm) : Type 0 where
  pub remote_buff : (send_data_at c' req).remote_buff ≡ msg.buff_addr
  pub sending : Sending req s c.ep.posted 0 c'.ep
  pub cuts :
      Cuts num_rails 128
        (clip msg.buff_len (send_data_at c req).buff_len)
        c.scheduler.rr_counter
        s.rail_xfer_infos
  pub within : Within msg.buff_len s.rail_xfer_infos
  pub total : (send_data_at c' req).total_num_compls ≡ length s.rail_xfer_infos
  pub size : (c'.ep.reqs req).size ≡ (
      if ltb msg.buff_len (send_data_at c req).buff_len then msg.buff_len else (c.ep.reqs req).size)
  pub others : (q : ℕ) → q ≢ req → c'.ep.reqs q ≡ c.ep.reqs q

-- What a send request learns from a control message.
unfoldable pub Told :
    ℕ → ℕ → List ℕ → ℕ → CtrlMsg → ℕ → SendComm → Result (Unit {0}) × SendComm → Type 0
Told es rz live num_rails msg req c r =
    ((r.0 ≡ err einval) × (c.scheduler.schedule_fl.entries ≡ []))
    ⊎ ((r.0 ≡ ok tt)
        × (s : Schedule) × Ready num_rails msg req c s r.1
        × Sound es rz r.1.scheduler.schedule_fl (s.entry ∷ live)
        × (r.1.scheduler.rr_counter < num_rails))

clip-le : (m n : ℕ) → (clip m n ≤ m) × (clip m n ≤ n)
clip-le m n = ground arith

module _ (fab : Fabric) (bounce_req req : ℕ) (c : SendComm) where
  abbrev size : ℕ
  size = clip (ctrl_msg_of c bounce_req).buff_len (send_data_at c req).buff_len

  abbrev pub answer : Option Schedule × Scheduler
  answer = get_threshold_schedule fab.platform (fab.mmap c.ep.allocs) c.scheduler size fab.num_rails

  pub no_schedule :
      answer.0 ≡ none → (update_send_data_from_remote fab bounce_req req c).0 ≡ err einval
  unfolding update_send_data_from_remote
  no_schedule e = rw (update_send_data_from_remote, e) refl

  pub with_schedule :
      (s : Schedule)
      → answer.0 ≡ some s
      → (update_send_data_from_remote fab bounce_req req c).0 ≡ ok tt
  unfolding update_send_data_from_remote
  with_schedule s e = rw (update_send_data_from_remote, e) refl

  pub data_after :
      (s : Schedule)
      → answer.0 ≡ some s
      → let d = send_data_at (update_send_data_from_remote fab bounce_req req c).1 req in
        (d.schedule ≡ some s)
        × (d.remote_buff ≡ (ctrl_msg_of c bounce_req).buff_addr)
        × (d.buff_len ≡ size)
        × (d.total_num_compls ≡ s.num_xfer_infos)
        × (d.eager ≡ (send_data_at c req).eager)
        × (d.buff ≡ (send_data_at c req).buff)
        × (d.xferred_rail_id ≡ (send_data_at c req).xferred_rail_id)
  unfolding update_send_data_from_remote
  data_after s e = rw (update_send_data_from_remote, e) (ground arith)

  abbrev pub after : SendComm
  after = (update_send_data_from_remote fab bounce_req req c).1

  pub scheduler_after : after.scheduler ≡ answer.1
  unfolding update_send_data_from_remote
  scheduler_after = ground arith

  -- The other parts of the endpoint that matter here.
  pub kept_after :
      (after.ep.posted ≡ c.ep.posted)
      × ((q : ℕ) → q ≢ req → after.ep.reqs q ≡ c.ep.reqs q)
      × ((after.ep.reqs req).size ≡ (
          if ltb (ctrl_msg_of c bounce_req).buff_len (send_data_at c req).buff_len
          then (ctrl_msg_of c bounce_req).buff_len
          else (c.ep.reqs req).size))
      × ((after.ep.reqs req).type ≡ send (send_data_at after req))
  unfolding update_send_data_from_remote
  kept_after = (ground arith, (λ q ne. ground arith), ground arith, ground arith)

  -- update_send_data_from_remote for a send request that is not eager and has posted nothing, with a
  -- sound free list of schedules, at least one rail, a counter below their number, and a size that is
  -- not close to 2 ^ 64: it fails with -EINVAL, where no schedule is free; or the request gets a
  -- schedule that cuts exactly the part of the message that fits in the receive buffer, so that no
  -- transfer ends beyond that buffer. The request then stands before the first transfer, it expects
  -- one completion for each, and its size is the smaller of the two where the buffer is too
  -- small. Nothing is posted, no other request changes, and the schedules stay sound.
  pub update_send_data_from_remote_lem :
      (k es rz : ℕ) (live : List ℕ)
      → Sound es rz c.scheduler.schedule_fl live
      → Growable fab.platform k es
          (fab.mmap c.ep.allocs)
          c.scheduler.schedule_fl
          c.scheduler.schedule_fl.increase_entry_count
      → 0 < fab.num_rails
      → c.scheduler.rr_counter < fab.num_rails
      → (send_data_at c req).buff_len + 128 ≤ word
      → (send_data_at c req).eager ≡ false
      → (send_data_at c req).xferred_rail_id ≡ 0
      → Told es rz live fab.num_rails
          (ctrl_msg_of c bounce_req)
          req
          c
          (update_send_data_from_remote fab bounce_req req c)
  unfolding Told Scheduled
  update_send_data_from_remote_lem k es rz live sound g rails rr fits late first =
      let le = clip-le (ctrl_msg_of c bounce_req).buff_len (send_data_at c req).buff_len in
      elim (get_threshold_schedule_lem fab.platform k es rz (fab.mmap c.ep.allocs) c.scheduler live
        size fab.num_rails sound g rails rr (omega (arith, le))) [
          | inl (e, nil, _) ↦ inl (no_schedule e, nil)
          | inr (s, e, sound', cuts, num, moved, below) ↦
              let (sched, buff, len, total, eag, _, rail) = data_after s e in
              let (posted, others, sz, type) = kept_after in
              inr (
                with_schedule s e,
                s,
                record {
                  remote_buff = buff;
                  sending = record {
                    info = send_data_at after req;
                    type = type;
                    late = eag ∙ late;
                    schedule = sched;
                    xferred = rail ∙ first;
                    posts = posted;
                  };
                  cuts = cuts;
                  within =
                      Tiles-Within (ctrl_msg_of c bounce_req).buff_len 0 size s.rail_xfer_infos
                        (omega (arith, le)) cuts.tiles;
                  total = total ∙ num;
                  size = sz;
                  others = others;
                },
                subst (λ t. Sound es rz t.schedule_fl (s.entry ∷ live)) (sym scheduler_after)
                    sound',
                subst (λ t. t.rr_counter < fab.num_rails) (sym scheduler_after) below,
              )
        ]
