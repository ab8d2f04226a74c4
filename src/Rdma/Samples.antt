-- ===== src/Rdma/Samples.antt =====
-- Requests and an endpoint for the tests: a receive request at 1 with its control message request at 2,
-- its segments request at 3 and an eager copy at 4.
use aws_ofi_nccl.Base.{ℕ, false, none, [], ◌==◌, if◌then◌else◌}
use aws_ofi_nccl.Freelist.{Freelist}
use aws_ofi_nccl.Rdma.{created, recv, send_ctrl, recv_segms, eager_copy, ReqType, Req, Endpoint}
use aws_ofi_nccl.Rdma.Receive.{Parts, segms_data}

abbrev pub no_entries : Freelist
no_entries = record {
  entry_size = 64;
  num_allocated_entries = 0;
  max_entry_count = 0;
  increase_entry_count = 0;
  entries = [];
  blocks = [];
  have_reginfo = false;
  regmr_fn = none;
  deregmr_fn = none;
  infos = [];
  memcheck_redzone_size = 0;
}

abbrev pub request : ReqType → Req
request type = record {
  first_word = 0;
  msg_seq_num = 7;
  ncompls = 0;
  size = 0;
  state = created;
  type = type;
}

abbrev pub parts : Parts
parts = record { main = 1; ctrl_req = 2; segms_req = 3 }

abbrev pub types : ℕ → ReqType
types q =
    if q == 1
    then recv (record {
      dst_buff = 4096;
      dst_len = 300;
      dest_mr_handle = 5;
      send_ctrl_req = 2;
      recv_segms_req = 3;
      eager_copy_req = 4;
      total_num_compls = 2;
    })
    else if q == 2
    then send_ctrl (record { ctrl_fl_item = 512; ctrl_schedule = none; recv_req = 1 })
    else if q == 3
    then recv_segms (segms_data parts)
    else eager_copy (record { eager_bounce_req = 8; recv_req = 1 })

abbrev pub endpoint : Endpoint
endpoint = record {
  reqs = λ q. request (types q);
  rails = λ q. record { min_bounce_posted = 1; max_bounce_posted = 2; num_bounce_posted = 0 };
  pending_reqs_queue = record { head = 100; next = λ q. 100; prev = λ q. 100 };
  tries = 0;
  posted = [];
  bounce_buff_reqs_fl = no_entries;
  bounce_buff_fl = no_entries;
  bounce_buff_size = 64;
  allocs = 0;
  n_ctrl_delivered = 0;
}
