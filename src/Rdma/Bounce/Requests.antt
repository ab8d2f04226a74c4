-- ===== src/Rdma/Bounce/Requests.antt =====
-- allocate_req of src/nccl_ofi_rdma.c.
use aws_ofi_nccl.Base.{ℕ, ◌≡◌, ap, some, List, ◌∷◌}
use aws_ofi_nccl.Freelist.{Freelist}
use aws_ofi_nccl.Freelist.Run.{entry_alloc-cons}
use aws_ofi_nccl.Rdma.{Endpoint, update_req}
use aws_ofi_nccl.Rdma.Progress.{Fabric}
use aws_ofi_nccl.Rdma.Bounce.{next_alloc, zero_nccl_ofi_req, allocate_req}

-- With a free entry and a mutex, the entry becomes the request.
pub allocate_req-cons :
    (fab : Fabric) (fl : Freelist) (ep : Endpoint) (req : ℕ) (rest : List ℕ)
    → fl.entries ≡ req ∷ rest
    → fab.mutex_ret ep.allocs ≡ 0
    → allocate_req fab fl ep
      ≡ (some req, record fl { entries = rest }, update_req req zero_nccl_ofi_req (next_alloc ep))
unfolding allocate_req
allocate_req-cons fab fl ep req rest e m =
    let q = entry_alloc-cons fab.platform (fab.mmap ep.allocs) fl req rest e in
    rw (allocate_req, ap (λ r. r.0) q, m)
      (ap (λ r. (some req, r.1, update_req req zero_nccl_ofi_req (next_alloc ep))) q)
