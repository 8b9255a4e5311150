-- ===== src/Lib.antt =====
-- Models of the OSAI kernel's core data structures and policies, with the theorems that make them
-- correct. Everything is translated from the C code under kernel/.
--
-- The parts and their files:
-- - Prelude: native numbers and machine words, Boolean tests, lists, arrays as functions, and the
--   status codes of kernel/include/xaios/status.h.
-- - CircularBuffer: the window of a circular array, shared by the two byte rings.
-- - SocketBuffer (kernel/net/socket_buffer.c): `SocketBuffer` is `socket_buffer_t`, and `write`,
--   `read`, `available`, `used` are `sockbuf_write` and so on; `BufferPool` is `g_pool`, with `alloc`
--   and `free`. A null pointer is none. Fifo has the ring, Pool the pool.
-- - KlogRing (kernel/core/klog_ring.c): the log ring, under the source's names. Window has writing,
--   Read reading. Flush and rotation, which write files, are not modelled.
-- - RateLimit (kernel/runtime/rate_limit.c): token buckets and quotas per cell. Bucket has the
--   buckets, Quota the memory quota. The clock is an argument.
-- - KvCache (kernel/runtime/paged_kv_cache.c): blocks, sequences and the append loop (Append),
--   initialisation (Init), and the caches that clients reach (Reach). The append loop runs on fuel,
--   one unit for each token and each free block, and is proved to end within it. An initialisation
--   with more blocks than the array of free indices holds is none.
-- - Numa and Pmm (kernel/mm/numa.c, kernel/mm/pmm.c): the page allocator of one node and of the
--   machine; a bitmap is a function to Bool, and the pointer to the page at address 0 is null. Pmm
--   calls Numa as the source does.
-- - Scheduler (kernel/sched/scheduler.c): task tables and run queues; Cpu has the state of all
--   processors, stealing and registration, Placement the choice of a new task's processor, Tick the
--   timer tick and the yield, Balance the initial state and load balancing, and Queue, Pick, Dropped
--   and Yield the theorems on queues, picking, the tick and the yield. What the rest of the kernel
--   decides (the running processor, its domains, who is online, whether a lock is free) is the record
--   `Machine`.
-- - Routing (kernel/net/routing.c): the table as the list of its entries.
-- - Sha256 (kernel/runtime/sha256.c): `Context` is `xaios_sha256_ctx_t`. Compress has the compression
--   function, Stream hashing byte by byte, Absorb `xaios_sha256_update`, Digest `xaios_sha256_final`.
--   The padding loop has 64 rounds of fuel; it takes at most 63.
-- - CoreLease (kernel/runtime/core_lease.c and kernel/arch/aarch64/smp.c): leases of processors. A mask
--   is the function of its bits, and a failed assertion is none. Cores has the loops over a mask,
--   Exclusive the release, Acquired, Granted and Requests the acquisition, Runs any sequence of both.
--   The roles of processors are those of Scheduler.
-- - Network (kernel/runtime/network_stack.c): TCP over IPv4. Rings and Packets have the queues and the
--   packet descriptors, Backlog the listening ports, Flow the table of connections, Reassembly and
--   Receive what a connection does with a segment, Frame `network_stack_process_tcp_frame`, Timers the
--   clock, Send the socket calls and `tcp_drain_pending`, and Events runs of all these calls. Slots,
--   Change, Quietly, Accepted, Expired and Reached carry the invariant of the table; Idle, Lifecycle,
--   Allocated, Balanced and Resting that of the packets, and Handshake has a peer that connects. A
--   connection holds its socket buffers as indices of the pool of SocketBuffer. The loop over stored
--   segments has 5 rounds; it takes at most that many. What a frame says (`parse_tcp`), the clock, and
--   which link addresses are known are arguments.
-- - Kheap (kernel/mm/kheap.c): the kernel heap. `Heap` has the file's variables and the fields of the
--   headers by address. Chain has the free list and what taking a block out leaves of it, Scan the
--   search, Mapped the mapping of pages, Pairs and Sound that blocks lie apart, Alloc an allocation,
--   Runs any calls, Lost a block that is lost. The search has one unit of fuel more than headers fit
--   into the heap, the mapping one more than its pages.
-- - Arena (kernel/mm/arena.c): arenas of mapped pages, on Kheap and Pmm. Loops has the loops over
--   pages, Counted the two counters, Runs any calls.
-- - Update (kernel/runtime/update.c): system updates. Target has the checks of names, Update.antt the
--   transaction, Chunks the delivery, Diagram the calls on a transaction (all but the initialiser and
--   the parser) and the states they lead to, Runs runs of these calls, Returns that they end, Balance
--   and Stuck what holds of them, Image and Delivered what was delivered, Manifest the parser, Render,
--   RoundTrip and Parsed its theorems. The hash is that of Sha256; what the file system, persistence
--   and security answer is the record `Answers`. The parser has one unit of fuel more than the text
--   is long; each line uses one.
-- - Arp (kernel/net/arp.c): the cache as the list of its entries; the clock is an argument.
--
-- Words are native numbers, with the wrap written out where the C code adds or subtracts.
-- Locks, log output, memory contents of pages and the self tests of the source are not modelled, nor
-- are interleavings of processors: an operation is one step. Not modelled at all are the
-- file systems, IP, UDP and TCP over IPv6, services, cells and inference, and all
-- architecture and device code.
pub mod Sha256
pub mod Arp
pub mod Routing
pub mod Scheduler
pub mod Pmm
pub mod Numa
pub mod KvCache
pub mod RateLimit
pub mod KlogRing
pub mod SocketBuffer
pub mod CircularBuffer
pub mod Prelude
pub mod Network
pub mod CoreLease
pub mod Update
pub mod Kheap
pub mod Arena
