-- ===== src/Rdma/Recv/Tests.antt =====
-- A receive that meets an eager message.
use aws_ofi_nccl.Base.{
  ℕ, ◌+◌, ◌≡◌, refl, some, true, false, [], ◌∷◌, arith, ◌==◌, if◌then◌else◌, ok,
}
use aws_ofi_nccl.Msgbuff.Samples.{
  one_busy, one_busy-IsValid, one_busy-inprogress, empty, empty-IsValid, empty-fresh,
}
use aws_ofi_nccl.Scheduler.Samples.{one_free, page, no_mmap, scheduler}
use aws_ofi_nccl.Rdma.{completed, RecvData, SendCtrlData, recv, send_ctrl, bounce}
use aws_ofi_nccl.Rdma.Samples.{request, endpoint}
use aws_ofi_nccl.Rdma.Bounce.{decrease_bounce_buff_cnt, check_post_bounce_buffers_rail}
use aws_ofi_nccl.Rdma.Recv.{Device, RecvComm}
use aws_ofi_nccl.Imm.{get_rdma_write_imm_data}
use aws_ofi_nccl.Msgbuff.{Msgbuff, Status, get_idx_status}
use aws_ofi_nccl.Msgbuff.Inv.{IsValid}
use aws_ofi_nccl.Rdma.Recv.Free.Freed.{Gave}
use aws_ofi_nccl.Rdma.Recv.Arrive.Finish.{test_recv_lem}
use aws_ofi_nccl.Rdma.Recv.Meet.{insert_rdma_recv_req_into_msgbuff}
use aws_ofi_nccl.Rdma.Recv.Arrive.{handle_write_comp, test_recv}
use aws_ofi_nccl.Rdma.Recv.Arrive.Write.{with_segment, write_reaches_recv}
use aws_ofi_nccl.Rdma.Recv.Meet.Order.{uncount, EagerWaits, RecvWaits, eager_in_any_order}

abbrev device : Device
device = record {
  fab = record {
    answer = λ n. ok tt;
    has_key = λ h r. true;
    num_rails = 2;
    use_long_rkeys = false;
    platform = page;
    mmap = λ n. no_mmap;
    mutex_ret = λ n. 0;
  };
  num_control_rails = 1;
  virt_addr_mr = true;
  flush_size = 4096;
  mr_key = λ h r. 10 + r;
}

-- The receive request stands at 1 and the bounce request at 2, on a rail with two posted buffers.
abbrev comm : RecvComm
comm = record {
  num_inflight_reqs = 0;
  nccl_ofi_reqs_fl = one_free;
  ctrl_buff_fl = one_free;
  remote_comm_id = 3;
  num_rails = 2;
  next_msg_seq_num = 7;
  n_ctrl_sent = 0;
  msgbuff = empty;
  scheduler = scheduler;
  ep = record endpoint {
    reqs = λ q.
        if q == 2
        then request
            (bounce (record { bounce_fl_item = 512; buff_len = 64; recv_len = 48; rail = 0 }))
        else request (
            recv (record {
              dst_buff = 4096;
              dst_len = 300;
              dest_mr_handle = 5;
              send_ctrl_req = 3;
              recv_segms_req = 4;
              eager_copy_req = 0;
              total_num_compls = 2;
            }));
    rails = λ q. record { min_bounce_posted = 1; max_bounce_posted = 2; num_bounce_posted = 2 };
  };
  ctrl_items = λ p. record {
    remote_comm_id = 0;
    msg_seq_num = 0;
    msg = record { buff_len = 0; buff_addr = 0; short_buff_mr_key = []; long_buff_mr_key = [] };
  };
}

counted : (uncount device 2 comm).0 ≡ ok tt
unfolding decrease_bounce_buff_cnt check_post_bounce_buffers_rail
counted = refl

eager_in_any_order_example : EagerWaits device comm 7 2 × RecvWaits device comm 7 2 1
eager_in_any_order_example =
    eager_in_any_order device comm 7 empty-IsValid (omega arith) empty-fresh 2 1 refl counted

write_reaches_recv_example :
    (m : Msgbuff) × (insert_rdma_recv_req_into_msgbuff false 1 comm
      ≡ some (ok (some 1), record comm { msgbuff = m }))
    × ((comms : ℕ → RecvComm) (len : ℕ)
        → (comms 9).msgbuff ≡ m
        → handle_write_comp comms (get_rdma_write_imm_data 9 7 2) len
          ≡ (ok tt, with_segment 1 len 2 (comms 9)))
write_reaches_recv_example =
    write_reaches_recv comm 1 7 9 2 empty-IsValid (omega arith) empty-fresh refl (omega arith)
      (omega arith) (omega arith)

-- The receive request, with an eager copy at 6, and its control request with a buffer and a schedule.
abbrev done_recv : RecvData
done_recv = record {
  dst_buff = 4096;
  dst_len = 300;
  dest_mr_handle = 5;
  send_ctrl_req = 3;
  recv_segms_req = 4;
  eager_copy_req = 6;
  total_num_compls = 2;
}

abbrev done_ctrl : SendCtrlData
done_ctrl = record {
  ctrl_fl_item = 512;
  ctrl_schedule = some (record {
    entry = 8192;
    num_xfer_infos = 1;
    rail_xfer_infos = record { rail_id = 1; offset = 0; msg_size = 24 } ∷ [];
  });
  recv_req = 1;
}

abbrev finished : RecvComm
finished = record comm {
  num_inflight_reqs = 1;
  msgbuff = one_busy;
  ep = record comm.ep {
    reqs = λ q. record (request (if q == 3 then send_ctrl done_ctrl else recv done_recv)) {
      state = completed;
      size = 300;
    };
  };
}

test_recv_lem_example :
    (m : Msgbuff) × (c' : RecvComm) × (test_recv 1 finished ≡ some (ok (some 300), c'))
    × IsValid m
    × (get_idx_status m 7 ≡ Status.completed)
    × Gave 1 (1 ∷ 6 ∷ 4 ∷ 3 ∷ []) (512 ∷ []) (8192 ∷ []) (record finished { msgbuff = m }) c'
test_recv_lem_example =
    test_recv_lem 1 done_recv done_ctrl finished one_busy-IsValid (omega arith) one_busy-inprogress
      refl refl (λ e. omega arith) refl
