-- ===== src/Rdma/Bounce.antt =====
-- The bounce buffers of src/nccl_ofi_rdma.c: receive buffers that each rail keeps posted for control and
-- eager messages, with a count of how many there are.
pub mod Rails
pub mod Uncount
pub mod Requests
mod Tests
use aws_ofi_nccl.Base.{
  ℕ, zero, suc, ◌+◌, ◌-◌, Bool, true, false, not, Option, none, some, ltb, ◌==◌, if◌then◌else◌,
  Error, enomem, Result, ok, err,
}
use aws_ofi_nccl.Freelist.{Freelist, entry_alloc, entry_free}
use aws_ofi_nccl.Rdma.{created, BounceData, bounce, invalid_type, Rail, Req, Endpoint, update_req}
use aws_ofi_nccl.Rdma.Progress.{
  Fabric, eio, is_eagain, bounce_data_of, post_bounce_buffer, send_progress, queue_back,
}

-- zero_nccl_ofi_req, which leaves the union.
abbrev pub zero_nccl_ofi_req : Req → Req
zero_nccl_ofi_req r = record r { size = 0; state = created; ncompls = 0; type = invalid_type }

-- An entry of a free list, with the growth that mmap allows at this time.
abbrev pub take_entry : Fabric → Freelist → Endpoint → Option ℕ × Freelist
take_entry fab fl ep = entry_alloc fab.platform (fab.mmap ep.allocs) fl

abbrev pub next_alloc : Endpoint → Endpoint
next_alloc ep = record ep { allocs = ep.allocs + 1 }

-- allocate_req from this free list of requests.
pub allocate_req : Fabric → Freelist → Endpoint → Option ℕ × Freelist × Endpoint
allocate_req fab reqs_fl ep =
    let (got, fl) = take_entry fab reqs_fl ep in
    elim got [
      | none ↦ (none, fl, next_alloc ep)
      | some req ↦
          let ep1 = update_req req zero_nccl_ofi_req (next_alloc ep) in
          if fab.mutex_ret ep.allocs == 0
          then (some req, fl, ep1)
          else (none, entry_free fl req, ep1)
    ]

-- free_bounce_req, with free_base_req. Both lists are there, so that it returns 0.
pub free_bounce_req : ℕ → Endpoint → Endpoint
free_bounce_req req ep =
    let item = (ep.reqs req).first_word in
    let buffers = (if item == 0 then ep.bounce_buff_fl else entry_free ep.bounce_buff_fl item) in
    record (update_req req zero_nccl_ofi_req ep) {
      bounce_buff_fl = buffers;
      bounce_buff_reqs_fl = entry_free ep.bounce_buff_reqs_fl req;
    }

pub alloc_bounce_req : Fabric → ℕ → Endpoint → Option (ℕ × BounceData) × Endpoint
alloc_bounce_req fab rail ep =
    let (got, reqs_fl, ep0) = allocate_req fab ep.bounce_buff_reqs_fl ep in
    let ep1 = record ep0 { bounce_buff_reqs_fl = reqs_fl } in
    elim got [
      | none ↦ (none, ep1)
      | some req ↦
          let (item, fl) = take_entry fab ep1.bounce_buff_fl ep1 in
          let ep2 = next_alloc (record ep1 { bounce_buff_fl = fl }) in
          elim item [
            | none ↦ (none, free_bounce_req req ep2)
            | some bounce_fl_item ↦
                let d : BounceData = record {
                  bounce_fl_item = bounce_fl_item;
                  buff_len = ep.bounce_buff_size;
                  recv_len = 0;
                  rail = rail;
                } in
                (
                  some (req, d),
                  update_req req (λ r. record r { first_word = bounce_fl_item; type = bounce d })
                      ep2,
                )
          ]
    ]

abbrev pub set_num_bounce_posted : ℕ → ℕ → Endpoint → Endpoint
set_num_bounce_posted rail n ep = record ep {
  rails = λ q. if rail == q then record (ep.rails rail) { num_bounce_posted = n } else ep.rails q;
}

-- handle_bounce_eagain, which always returns 0.
pub handle_bounce_eagain : ℕ → ℕ → ℕ → Endpoint → Endpoint
handle_bounce_eagain rail req num_buffs_failed ep =
    let ep1 = queue_back req ep in
    set_num_bounce_posted rail ((ep1.rails rail).num_bounce_posted - num_buffs_failed) ep1

-- The loop of post_bounce_buffs_on_rail, with `left` buffers to post.
pub post_buffs : Fabric → ℕ → ℕ → Endpoint → Result (Unit {0}) × Endpoint
post_buffs fab rail zero ep = (ok tt, ep)
post_buffs fab rail (suc left) ep =
    let (got, ep1) = alloc_bounce_req fab rail ep in
    elim got [
      | none ↦ (err enomem, ep1)
      | some (req, d) ↦
          let (rc, ep2) = post_bounce_buffer fab req d ep1 in
          elim rc [
            | ok _ ↦ post_buffs fab rail left ep2
            | err e ↦
                if is_eagain e
                then (ok tt, handle_bounce_eagain rail req left ep2)
                else (err e, ep2)
          ]
    ]

pub post_bounce_buffs_on_rail : Fabric → ℕ → Endpoint → Result (Unit {0}) × Endpoint
post_bounce_buffs_on_rail fab rail ep =
    let r = ep.rails rail in
    post_buffs fab rail (r.max_bounce_posted - r.num_bounce_posted)
      (set_num_bounce_posted rail r.max_bounce_posted ep)

unfoldable pub check_post_bounce_buffers_rail : Fabric → ℕ → Endpoint → Result (Unit {0}) × Endpoint
check_post_bounce_buffers_rail fab rail ep =
    if ltb (ep.rails rail).num_bounce_posted (ep.rails rail).min_bounce_posted
    then post_bounce_buffs_on_rail fab rail ep
    else (ok tt, ep)

-- The part that repost_bounce_buff and check_post_bounce_req share: post the buffer again, queue it if
-- libfabric is busy, and post more if needed.
pub repost : Fabric → ℕ → ℕ → Endpoint → Result (Unit {0}) × Endpoint
repost fab rail bounce_req ep =
    let (rc, ep1) = send_progress fab bounce_req ep in
    elim rc [
      | ok _ ↦ check_post_bounce_buffers_rail fab rail ep1
      | err e ↦ if is_eagain e then (ok tt, queue_back bounce_req ep1) else (err e, ep1)
    ]

pub repost_bounce_buff : Fabric → ℕ → Endpoint → Result (Unit {0}) × Endpoint
repost_bounce_buff fab bounce_req ep =
    repost fab (bounce_data_of (ep.reqs bounce_req).type).rail bounce_req ep

-- The source asserts that a buffer is posted.
unfoldable pub decrease_bounce_buff_cnt : Fabric → ℕ → Endpoint → Result (Unit {0}) × Endpoint
decrease_bounce_buff_cnt fab rail ep =
    check_post_bounce_buffers_rail fab rail
      (set_num_bounce_posted rail ((ep.rails rail).num_bounce_posted - 1) ep)

pub check_post_bounce_req : Fabric → ℕ → Endpoint → Result (Unit {0}) × Endpoint
check_post_bounce_req fab bounce_req ep =
    let rail = (bounce_data_of (ep.reqs bounce_req).type).rail in
    let r = ep.rails rail in
    if ltb r.num_bounce_posted r.max_bounce_posted
    then repost fab rail bounce_req (set_num_bounce_posted rail (r.num_bounce_posted + 1) ep)
    else (ok tt, free_bounce_req bounce_req ep)
