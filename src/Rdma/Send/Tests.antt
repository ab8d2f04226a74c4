-- ===== src/Rdma/Send/Tests.antt =====
-- A send on two rails that meets its control message.
use aws_ofi_nccl.Base.{◌≡◌, refl, true, false, some, [], ◌∷◌, arith, ◌==◌, if◌then◌else◌, ok}
use aws_ofi_nccl.Msgbuff.Samples.{empty}
use aws_ofi_nccl.Scheduler.Samples.{
  one_free, one_free-Sound, one_free-Growable, page, no_mmap, scheduler,
}
use aws_ofi_nccl.Rdma.{SendData, send, bounce}
use aws_ofi_nccl.Rdma.Samples.{request, endpoint}
use aws_ofi_nccl.Rdma.Progress.{Fabric}
use aws_ofi_nccl.Rdma.Send.{
  SendComm, new_send_data, update_send_data_from_remote, alloc_rdma_send_req, free_send_req,
}
use aws_ofi_nccl.Rdma.Send.Meet.{is_eager}
use aws_ofi_nccl.Rdma.Send.Finish.Count.{completions, Counted, send_done_lem}
use aws_ofi_nccl.Rdma.Send.Write.{Told, update_send_data_from_remote_lem}
use aws_ofi_nccl.Rdma.Send.Schedules.{free_schedules, tell, free-alloc_rdma_send_req}

abbrev fabric : Fabric
fabric = record {
  answer = λ n. ok tt;
  has_key = λ h r. true;
  num_rails = 4;
  use_long_rkeys = false;
  platform = page;
  mmap = λ n. no_mmap;
  mutex_ret = λ n. 0;
}

-- The send request stands at 1, of 9000 bytes, and the bounce request at 2.
abbrev comm : SendComm
comm = record {
  num_inflight_reqs = 0;
  nccl_ofi_reqs_fl = record one_free { entries = 1 ∷ [] };
  remote_comm_id = 3;
  next_msg_seq_num = 7;
  msgbuff = empty;
  scheduler = scheduler;
  ep = record endpoint {
    reqs = λ q.
        if q == 2
        then request
            (bounce (record { bounce_fl_item = 512; buff_len = 64; recv_len = 48; rail = 0 }))
        else request (send (new_send_data false 4096 9000 5));
  };
  ctrl_msgs = λ item. record {
    buff_len = 8000;
    buff_addr = 65536;
    short_buff_mr_key = 1 ∷ 2 ∷ 3 ∷ 4 ∷ [];
    long_buff_mr_key = [];
  };
}

-- Both bounce buffers of the rail are posted.
abbrev two_posted : SendComm
two_posted = record comm {
  ep = record comm.ep {
    rails = λ q. record { min_bounce_posted = 1; max_bounce_posted = 2; num_bounce_posted = 2 };
  };
}

update_send_data_from_remote_lem_example :
    Told 64 0 [] 4 (comm.ctrl_msgs 512) 1 comm (update_send_data_from_remote fabric 2 1 comm)
update_send_data_from_remote_lem_example =
    update_send_data_from_remote_lem fabric 2 1 comm 12 64 0 [] one_free-Sound one_free-Growable
      (omega arith) (omega arith) (omega arith) refl refl

abbrev two_schedules : SendComm
two_schedules = record comm {
  scheduler = record scheduler { schedule_fl = record one_free { entries = 4096 ∷ 4160 ∷ [] } };
}

free-alloc_rdma_send_req_example :
    let (rc, c1) = alloc_rdma_send_req fabric 7 4096 0 5 (is_eager 8192 0 true) two_schedules in
    (rc ≡ ok 1) × (free_schedules (free_send_req 1 false (tell fabric 1 (some 2) c1)) ≡ 4160 ∷ [])
free-alloc_rdma_send_req_example =
    free-alloc_rdma_send_req fabric 8192 7 4096 0 5 (some 2) two_schedules 1 4096 4160 [] [] refl
      refl refl

-- A send with two transfers.
abbrev two_transfers : SendData
two_transfers = record (new_send_data false 4096 9000 5) { total_num_compls = 2 }

abbrev posted : SendComm
posted = record comm { ep = record comm.ep { reqs = λ q. request (send two_transfers) } }

send_done_lem_example : Counted 1 2 two_transfers 0 (completions 2 1 posted)
send_done_lem_example =
    send_done_lem 1 0 two_transfers posted 2 (omega arith) (omega arith) refl refl refl refl
