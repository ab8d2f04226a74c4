-- ===== src/Rdma/Recv/Arrive/Finish.antt =====
-- The end of a receive in `test` of src/nccl_ofi_rdma.c.
use aws_ofi_nccl.Base.{ℕ, ◌≡◌, ◌≢◌, ◌<◌, refl, true, some, [], ◌∷◌, ◌++◌, ok}
use aws_ofi_nccl.Msgbuff.{Msgbuff, Status, get_idx_status}
use aws_ofi_nccl.Msgbuff.Inv.{IsValid}
use aws_ofi_nccl.Msgbuff.Fresh.{complete-inprogress}
use aws_ofi_nccl.Rdma.{completed, RecvData, SendCtrlData, recv, send_ctrl}
use aws_ofi_nccl.Rdma.Recv.{RecvComm}
use aws_ofi_nccl.Rdma.Recv.Free.{free_recv_req}
use aws_ofi_nccl.Rdma.Recv.Free.Freed.{Gave, unless_null, entry_of, free_recv_req-Gave}
use aws_ofi_nccl.Rdma.Recv.Meet.{msg_seq_num_of}
use aws_ofi_nccl.Rdma.Recv.Arrive.{test_recv}

-- A completed receive whose message is in progress in a valid buffer is done, with its size. The
-- message is then complete in the buffer, which stays valid. One request less is in flight. The receive
-- request, its eager copy and its segments request, if any, and its control request have no type any
-- more and stand in front of the free list of requests; the control buffer and the schedule of
-- the control message, if any, stand in front of theirs. The other requests are as before.
pub test_recv_lem :
    (req : ℕ) (d : RecvData) (cd : SendCtrlData) (c : RecvComm)
    → IsValid c.msgbuff
    → msg_seq_num_of req c < c.msgbuff.field_size
    → get_idx_status c.msgbuff (msg_seq_num_of req c) ≡ Status.inprogress
    → (c.ep.reqs req).state ≡ completed
    → (c.ep.reqs req).type ≡ recv d
    → d.send_ctrl_req ≢ 0
    → (c.ep.reqs d.send_ctrl_req).type ≡ send_ctrl cd
    → (m : Msgbuff) × (c' : RecvComm) × (test_recv req c
        ≡ some (ok (some (c.ep.reqs req).size), c'))
      × IsValid m
      × (get_idx_status m (msg_seq_num_of req c) ≡ Status.completed)
      × Gave 1
          (req
            ∷ (unless_null d.eager_copy_req
                ++ (unless_null d.recv_segms_req ++ (d.send_ctrl_req ∷ []))))
          (unless_null cd.ctrl_fl_item)
          (entry_of cd.ctrl_schedule)
          (record c { msgbuff = m })
          c'
unfolding test_recv
test_recv_lem req d cd c v in_size busy done is_recv has is_ctrl =
    let (m, runs, valid, status) = complete-inprogress v (msg_seq_num_of req c) in_size busy in
    let c1 = record c { msgbuff = m } in
    (
      m,
      free_recv_req req true c1,
      rw (test_recv, done, runs) refl,
      valid,
      status,
      free_recv_req-Gave req d cd c1 is_recv has is_ctrl,
    )
