-- ===== src/Lib.antt =====
-- The core of the AWS OFI NCCL plugin: its data structures, and the requests of its RDMA transport.
--
-- The plugin lets NCCL send messages over libfabric. Its RDMA transport cuts a message into stripes
-- for several rails (the scheduler), tracks the messages in flight by their sequence numbers (the
-- message buffer), numbers its communicators (the ID pool), takes requests and buffers from free
-- lists, and keeps memory registrations in a cache. A write carries its sequence number and
-- communicator as immediate data. Requests that libfabric is too busy for wait in a deque, and bounce
-- buffers receive the control messages and eager data. A send and the control message of its receiver
-- meet in the message buffer of the sender, a receive and an eager message in that of the receiver. The list of endpoints spreads the connections
-- to one address over several endpoints. The rest of the RDMA transport, the send/receive transport,
-- the interfaces to NCCL and the tuner are not modelled; nor are logging, tracing and the hints to
-- memory checkers.
--
-- Files, and the code that each is about:
--   Base        numbers, lists, words, bits, result codes and bags, which all files share.
--   Math        include/nccl_ofi_math.h: the macros on size_t.
--   Msgbuff     src/nccl_ofi_msgbuff.c: the buffer, and each operation under the name it has there
--               without its prefix. Msgbuff.Spec is the specification: a window of cells from the
--               first message that is not complete on. Msgbuff.Window relates indices to it,
--               Msgbuff.Inv is the invariant, Msgbuff.Insert and Msgbuff.Complete are about the two
--               loops, and Msgbuff.Refine, Laws, Settle, Create and Collide have the theorems.
--   Idpool      src/nccl_ofi_idpool.c: the pool as words of bits. Idpool.Scan and Idpool.Fill are
--               about the bits, Idpool.Laws about single calls, Idpool.Create about init and fini,
--               and Idpool.Live about runs of calls against the list of IDs in use.
--   Freelist    src/nccl_ofi_freelist.c and its header: entries and blocks as addresses.
--               Freelist.Sizes is about the sizes of blocks, Carve and Grow about growth, Run about
--               runs of calls, and Create about initialisation.
--   Scheduler   src/nccl_ofi_scheduler.c, over Freelist: Scheduler.Stripes is about the number of
--               stripes, Tiles about the cutting of a message, and Laws about whole calls.
--   Mr          src/nccl_ofi_mr.c and its header: the cache over its slots in use. Mr.Pages is about
--               page arithmetic, Loop and Entries about the slots, Lookup, Insert and Delete about
--               the calls, and Failures about what follows a failed insertion.
--   EpAddrList  src/nccl_ofi_ep_addr_list.c: endpoints with their sets of addresses. EpAddrList.Sets has
--               the relations between them, Get and Laws the theorems on the calls.
--   Imm         src/nccl_ofi_rdma.c: the immediate data of a write, and its fields in Imm.Fields.
--   Deque       include/nccl_ofi_deque.h and src/nccl_ofi_deque.c: the circular list over the `next` and
--               `prev` fields of the elements in memory. Deque.Chain is about stretches of the list,
--               Links about each call, Refine about sequences of calls against a list, and Foreach
--               about the walk over the elements.
--   Rdma        src/nccl_ofi_rdma.c and its header: requests and their completions. Rdma.Receive is about
--               a receive operation and Failure about one that fails; Samples has states for tests.
--               Rdma.Progress posts requests: Posts is about one operation, Keeps about what
--               posting leaves, Adds and Retry about what an attempt posts, Stripes about a send in
--               several attempts, Queue about pending requests, and Flush and Close about those two kinds of requests. Rdma.Bounce keeps the bounce
--               buffers of a rail posted; Bounce.Rails and Uncount are about their count, Requests about the allocation of
--               a request. Rdma.Send makes a send request and tells it the receive buffer: Write is about
--               what it writes then, Schedules about the schedules it takes. Rdma.Send.Meet is `send`
--               from the lookup of its message on, and handle_ctrl_recv; Meet.Order is about the
--               order in which the two come, Meet.Met about the send that a control message finds. Send.Finish has the completions of a send and its end in
--               `test`, and Finish.Count is about both. Rdma.Recv makes the requests of a receive and its control
--               message, and Recv.Free gives them back, of which Free.Freed has the effects. Rdma.Recv.Meet is `recv` from the lookup of its
--               message on, and handle_eager_recv; Meet.Order is about their order. Recv.Arrive has
--               the completions on the receiving side and the end of a receive in `test`; Arrive.Write
--               is about a write and the receive that it is for, Arrive.Finish about that end.
-- Tests modules apply the theorems to small states.
--
-- Conventions. Integers are natural numbers, with the wrap-around of the C type written out where
-- it can happen. A pointer is a number or an option. Each call holds its structure's mutex, so that
-- a call is one step from state to state. What malloc, calloc, realloc, mmap, the mutex calls and
-- the registration callback return is an argument of the model; the hypotheses on it are that
-- memory has the length asked for and that mmap gives memory that is not in use. The hash table of
-- uthash is an interface: a search finds the addresses that were added. Libfabric is a sequence of
-- return codes, one for each operation that is given to it. Where a call returns an `int` made from
-- a `size_t`, the value is cut to 32 bits and a negative one is an error. The union in a request is
-- merged with the request's type, so that a getter that asserts the type reads its data.
--
-- The two loops of the message buffer run on fuel, one more round than there are sequence numbers;
-- the refinement theorems show that they end within it. The loop over the pending requests and the
-- walk over a deque run on fuel too: one more round than there are elements is enough, as their
-- theorems show. The other loops are structural.
--
-- Not modelled of these files: nccl_ofi_mr_cache_finalize and nccl_ofi_ep_addr_list_fini, which only
-- free memory, and the helpers for the name and the attributes of a registration key. Of src/nccl_ofi_rdma.c, what is not named above: the start of send and
-- recv, which poll for completions, connections and the setup of devices.
pub mod Base
pub mod Math
pub mod Idpool
pub mod Msgbuff
pub mod Freelist
pub mod Scheduler
pub mod Mr
pub mod EpAddrList
pub mod Deque
pub mod Rdma
pub mod Imm
