-- ===== src/Rdma/Bounce/Tests.antt =====
-- A rail with no buffer posted, and free lists that are empty and cannot grow.
use aws_ofi_nccl.Base.{true, false, ok}
use aws_ofi_nccl.Rdma.Progress.{Fabric}

abbrev fabric : Fabric
fabric = record {
  answer = λ n. ok tt;
  has_key = λ h r. true;
  num_rails = 2;
  use_long_rkeys = false;
  platform = record { system_page_size = 4096; memcheck_redzone_size = 0 };
  mmap = λ n size. (12, 0);
  mutex_ret = λ n. 0;
}
