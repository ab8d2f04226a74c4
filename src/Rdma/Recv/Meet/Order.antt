-- ===== src/Rdma/Recv/Meet/Order.antt =====
-- A receive and its eager message meet, whichever comes first: the message buffer between `recv` and
-- handle_eager_recv of src/nccl_ofi_rdma.c.
use aws_ofi_nccl.Base.{ℕ, ◌≡◌, ◌<◌, refl, ap, ◌∙◌, none, some, true, false, ok, err, enomem, Result}
use aws_ofi_nccl.Msgbuff
use aws_ofi_nccl.Msgbuff.{Msgbuff, Status, get_idx_status}
use aws_ofi_nccl.Msgbuff.Inv.{IsValid}
use aws_ofi_nccl.Msgbuff.Fresh.{insert-inprogress, insert-notstarted}
use aws_ofi_nccl.Rdma.{Endpoint}
use aws_ofi_nccl.Rdma.Progress.{bounce_data_of}
use aws_ofi_nccl.Rdma.Bounce.{decrease_bounce_buff_cnt}
use aws_ofi_nccl.Rdma.Recv.{Device, RecvComm, allocate_rdma_recv_req}
use aws_ofi_nccl.Rdma.Recv.Free.{free_recv_req}
use aws_ofi_nccl.Rdma.Recv.Meet.{
  find_eager, msg_seq_num_of, insert_rdma_recv_req_into_msgbuff, meet_eager, handle_eager_recv,
  take_eager, recv_found,
}

-- The endpoint once a bounce buffer is taken out of the count of its rail.
abbrev pub uncount : Device → ℕ → RecvComm → Result (Unit {0}) × Endpoint
uncount dev bounce_req c =
    decrease_bounce_buff_cnt dev.fab (bounce_data_of (c.ep.reqs bounce_req).type).rail c.ep

-- The eager message comes first: it waits in the buffer, and the receive finds it there.
pub record EagerWaits (dev : Device) (c : RecvComm) (seq bounce_req : ℕ) : Type 0 where
  pub buffer : Msgbuff
  pub valid : IsValid buffer
  pub handled :
      handle_eager_recv dev seq bounce_req c
      ≡ some (ok tt, record c { msgbuff = buffer; ep = (uncount dev bounce_req c).1 })
  pub found : find_eager buffer seq ≡ ok (some bounce_req)

-- The receive comes first: its request waits in the buffer, and the eager message then meets that
-- request, whatever else has happened to the communicator.
pub record RecvWaits (dev : Device) (c : RecvComm) (seq bounce_req req : ℕ) : Type 0 where
  pub buffer : Msgbuff
  pub valid : IsValid buffer
  pub inserted :
      insert_rdma_recv_req_into_msgbuff false req c
      ≡ some (ok (some req), record c { msgbuff = buffer })
  pub met :
      (c' : RecvComm)
      → c'.msgbuff ≡ buffer
      → (uncount dev bounce_req c').0 ≡ ok tt
      → handle_eager_recv dev seq bounce_req c'
        ≡ some (meet_eager dev bounce_req req (record c' { ep = (uncount dev bounce_req c').1 }))

finds_request :
    (dev : Device) (seq bounce_req req : ℕ) (c : RecvComm)
    → (uncount dev bounce_req c).0 ≡ ok tt
    → get_idx_status c.msgbuff seq ≡ Status.inprogress
    → Msgbuff.retrieve c.msgbuff seq true
      ≡ (Msgbuff.success, some Status.inprogress, some (some req, Msgbuff.req))
    → handle_eager_recv dev seq bounce_req c
      ≡ some (meet_eager dev bounce_req req (record c { ep = (uncount dev bounce_req c).1 }))
unfolding handle_eager_recv
finds_request dev seq bounce_req req c counted status read =
    let full = insert-inprogress c.msgbuff seq (some bounce_req) Msgbuff.buff status in
    rw (handle_eager_recv, counted, full, read) refl

module _ (c : RecvComm) (seq : ℕ) (v : IsValid c.msgbuff) (in_size : seq < c.msgbuff.field_size)
    (fresh : get_idx_status c.msgbuff seq ≡ Status.notstarted) where
  -- The request in the buffer.
  pub recv_waits :
      (req : ℕ)
      → msg_seq_num_of req c ≡ seq
      → (m : Msgbuff) × IsValid m
        × (insert_rdma_recv_req_into_msgbuff false req c
            ≡ some (ok (some req), record c { msgbuff = m }))
        × (get_idx_status m seq ≡ Status.inprogress)
        × (Msgbuff.retrieve m seq true
            ≡ (Msgbuff.success, some Status.inprogress, some (some req, Msgbuff.req)))
  unfolding insert_rdma_recv_req_into_msgbuff
  recv_waits req e =
      let (m, runs, valid, status, read) =
        insert-notstarted v seq in_size (some req) Msgbuff.req fresh in
      (m, valid, rw (insert_rdma_recv_req_into_msgbuff, e, runs) refl, status, read)

module _ (dev : Device) (c : RecvComm) (seq : ℕ) (v : IsValid c.msgbuff)
    (in_size : seq < c.msgbuff.field_size)
    (fresh : get_idx_status c.msgbuff seq ≡ Status.notstarted) where
  eager_first :
      (bounce_req : ℕ) → (uncount dev bounce_req c).0 ≡ ok tt → EagerWaits dev c seq bounce_req
  unfolding handle_eager_recv find_eager
  eager_first bounce_req counted =
      let (m, runs, valid, status, read) =
        insert-notstarted v seq in_size (some bounce_req) Msgbuff.buff fresh in
      record {
        buffer = m;
        valid = valid;
        handled = rw (handle_eager_recv, counted, runs) refl;
        found = rw (find_eager, ap (λ r. r.0) read, ap (λ r. r.2) read) refl;
      }

  recv_first :
      (bounce_req req : ℕ) → msg_seq_num_of req c ≡ seq → RecvWaits dev c seq bounce_req req
  recv_first bounce_req req e =
      let (m, valid, inserted, status, read) = recv_waits c seq v in_size fresh req e in
      record {
        buffer = m;
        valid = valid;
        inserted = inserted;
        met = λ c' same counted.
            finds_request dev seq bounce_req req c' counted
              (ap (λ b. get_idx_status b seq) same ∙ status)
              (ap (λ b. Msgbuff.retrieve b seq true) same ∙ read);
      }

  -- On a valid message buffer, for a message that has not started, where the count of bounce buffers
  -- is restored without an error: an eager message that comes first waits in the buffer, and the
  -- lookup of `recv` then finds it; a receive that comes first leaves its request in the buffer, and
  -- the eager message then meets that request. The buffer stays valid in both orders.
  pub eager_in_any_order :
      (bounce_req req : ℕ)
      → msg_seq_num_of req c ≡ seq
      → (uncount dev bounce_req c).0 ≡ ok tt
      → EagerWaits dev c seq bounce_req × RecvWaits dev c seq bounce_req req
  eager_in_any_order bounce_req req e counted =
      (eager_first bounce_req counted, recv_first bounce_req req e)

-- An eager message that comes between the lookup of `recv` and its insertion, once the request is
-- made: `recv` frees the request, keeps the message buffer and the sequence number, and returns
-- -ENOMEM.
pub overtaken_recv :
    (dev : Device) (buff size mr_handle req : ℕ) (c : RecvComm)
    → let (made, c1) = allocate_rdma_recv_req dev c.next_msg_seq_num buff size mr_handle c in
      made ≡ ok req
      → get_idx_status c1.msgbuff (msg_seq_num_of req c1) ≡ Status.inprogress
      → recv_found dev buff size mr_handle none c ≡ some (err enomem, free_recv_req req false c1)
unfolding recv_found insert_rdma_recv_req_into_msgbuff take_eager
overtaken_recv dev buff size mr_handle req c made status =
    let c1 = (allocate_rdma_recv_req dev c.next_msg_seq_num buff size mr_handle c).1 in
    let full = insert-inprogress c1.msgbuff (msg_seq_num_of req c1) (some req) Msgbuff.req status in
    rw (recv_found, made, insert_rdma_recv_req_into_msgbuff, full) refl
