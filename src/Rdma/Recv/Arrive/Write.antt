-- ===== src/Rdma/Recv/Arrive/Write.antt =====
-- The completion of a write reaches the receive that it is for.
use aws_ofi_nccl.Base.{ℕ, ◌≡◌, ◌<◌, ◌^◌, refl, ap, ◌∙◌, true, false, some, ok}
use aws_ofi_nccl.Imm.{
  get_comm_id_from_imm, get_seq_num_from_imm, get_num_seg_from_imm, get_rdma_write_imm_data,
  seq_bits, comm_id_bits, num_num_seg_bits,
}
use aws_ofi_nccl.Imm.Fields.{get_rdma_write_imm_data_lem}
use aws_ofi_nccl.Msgbuff
use aws_ofi_nccl.Msgbuff.{Msgbuff, Status, get_idx_status}
use aws_ofi_nccl.Msgbuff.Inv.{IsValid}
use aws_ofi_nccl.Rdma.{inc_recv_seg_completion}
use aws_ofi_nccl.Rdma.Recv.{RecvComm, recv_data_at}
use aws_ofi_nccl.Rdma.Recv.Meet.{msg_seq_num_of, insert_rdma_recv_req_into_msgbuff}
use aws_ofi_nccl.Rdma.Recv.Meet.Order.{recv_waits}
use aws_ofi_nccl.Rdma.Recv.Arrive.{segms_data_of, get_req_from_imm_data, handle_write_comp}

-- The communicator after one of `n` segments, of `len` bytes, of the message of a receive request.
abbrev pub with_segment : ℕ → ℕ → ℕ → RecvComm → RecvComm
with_segment req len n c =
    let segms_req = (recv_data_at c req).recv_segms_req in
    record c {
      ep = inc_recv_seg_completion segms_req (segms_data_of (c.ep.reqs segms_req).type) len n c.ep;
    }

request_found :
    (comms : ℕ → RecvComm) (imm req : ℕ)
    → Msgbuff.retrieve (comms (get_comm_id_from_imm imm)).msgbuff (get_seq_num_from_imm imm) true
      ≡ (Msgbuff.success, some Status.inprogress, some (some req, Msgbuff.req))
    → get_req_from_imm_data comms imm ≡ some req
unfolding get_req_from_imm_data
request_found comms imm req read =
    rw (get_req_from_imm_data, ap (λ r. r.0) read, ap (λ r. r.2) read) refl

write_counted :
    (comms : ℕ → RecvComm) (imm len req : ℕ)
    → get_req_from_imm_data comms imm ≡ some req
    → handle_write_comp comms imm len
      ≡ (ok tt, with_segment req len (get_num_seg_from_imm imm) (comms (get_comm_id_from_imm imm)))
unfolding handle_write_comp
write_counted comms imm len req e = rw (handle_write_comp, e) refl

-- A receive request is inserted into the valid buffer of its communicator, for a message that has not
-- started. A write of that message carries the immediate data that the sender makes of the
-- communicator's ID, the sequence number and the number of segments, which have 18, 10 and 4 bits.
-- Its completion is counted in the segments of that request, in the communicator of that ID, against
-- that number of segments, as long as the buffer holds the message.
pub write_reaches_recv :
    (c : RecvComm) (req seq comm_id n : ℕ)
    → IsValid c.msgbuff
    → seq < c.msgbuff.field_size
    → get_idx_status c.msgbuff seq ≡ Status.notstarted
    → msg_seq_num_of req c ≡ seq
    → comm_id < 2 ^ comm_id_bits
    → seq < 2 ^ seq_bits
    → n < 2 ^ num_num_seg_bits
    → (m : Msgbuff) × (insert_rdma_recv_req_into_msgbuff false req c
        ≡ some (ok (some req), record c { msgbuff = m }))
      × ((comms : ℕ → RecvComm) (len : ℕ)
          → (comms comm_id).msgbuff ≡ m
          → handle_write_comp comms (get_rdma_write_imm_data comm_id seq n) len
            ≡ (ok tt, with_segment req len n (comms comm_id)))
write_reaches_recv c req seq comm_id n v in_size fresh e hc hs hn =
    let (m, valid, inserted, status, read) = recv_waits c seq v in_size fresh req e in
    let (id, num, segs, _) = get_rdma_write_imm_data_lem comm_id seq n hc hs hn in
    let imm = get_rdma_write_imm_data comm_id seq n in
    (
      m,
      inserted,
      λ comms len same.
          let found =
            (λ i. Msgbuff.retrieve (comms (id i)).msgbuff (num i) true)
            ∙ ap (λ b. Msgbuff.retrieve b seq true) same
            ∙ read in
          write_counted comms imm len req (request_found comms imm req found)
          ∙ (λ i. (ok tt, with_segment req len (segs i) (comms (id i)))),
    )
