-- ===== src/Lib.antt =====
-- gain: an event-driven networking library for Linux over io_uring. A server accepts connections in
-- workers; each worker has a submission queue, a completion queue and the connections it serves. A
-- connection has two ring buffers over memory that is mapped twice, so that any stretch of a ring is
-- one slice. The kernel fills the inbound buffer and drains the outbound one; in between the event
-- handler has the connection, and what it left decides on the next request.
--
-- The files, and the code that each is about:
--   Errors        the error values (pkg/errors/errors.go)
--   SyncPool      a typed sync.Pool (pkg/pool/sync/sync.go)
--   VirtualMem    mirrored memory as a file of bytes that is seen twice, and its size rounding
--                 (pkg/pool/virtualmem/virtualmem.go); VirtualMem/Pool: the 32 classes of memories
--                 kept for reuse (virtualmem_pool.go), with what they hold in Pool/Classes and what
--                 `Get` may return in Pool/Reuse
--   ByteQueue     what a ring promises: a queue of bytes
--   MagicRing     every operation of RingBuffer (pkg/buffer/magicring/ringbuffer.go); the files below
--                 it relate them to the queue, one per group of operations
--   Buffer        the interface that a connection uses, with its laws; Buffer/Ring fills it
--   RingPool      rings kept for reuse, and the sizes learnt from the calls
--                 (pkg/pool/ringbuffer/ringbuffer.go)
--   ByteSlices    byte slices kept for reuse (pkg/pool/byteslice/byteslice_pool.go)
--   Stack         the lock-free stack, each atomic access of a thread a step (pkg/stack/stack_lf.go)
--   Flags         request kinds and keys in 64-bit user data (flags.go)
--   LoadBalancer  RoundRobin, LeastConnections and SourceIPHash (load_balancer.go)
--   KeyPool       the keys of connections (key_pool.go)
--   Conn          a connection and its guards (conn.go); Conn/User: the programs that an event
--                 handler may run on it (interfaces.go, gain.go)
--   ConnPool      connections kept for reuse (conn_pool.go)
--   ConnManager   the connections of a worker (conn_manager.go)
--   Requests      the entries of reads, writes, closes and accepts (read.go, write.go, conn_closer.go,
--                 acceptor.go)
--   Worker        what follows a completion (read_write_worker.go)
--   Submitter     how many completions a submission waits for (submitter_batch.go)
--   Looper        the loop of a worker over its completions (looper.go)
--   Consumer      the completions of a worker that the acceptor feeds (consumer_worker.go, worker.go);
--                 Consumer/Loop puts them into the loop (consumer_worker.go)
--   Shard         the completions of a worker with a listening socket (shard_worker.go, acceptor.go);
--                 Shard/Loop puts them into the loop (shard_worker.go)
--   Shutdowner    the flags and the wait group by which a worker is shut down (shutdown.go)
--   Acceptor      the worker that accepts and hands on (acceptor_worker.go, acceptor.go); Acceptor/Loop
--                 puts it into the loop (acceptor_worker.go)
--   Sockaddr      socket addresses as Go's (pkg/socket/socktoaddr.go)
--   Config        settings and options (config.go)
--   Listener      the server's address and its listening sockets (socket.go, pkg/net/net.go)
--   Launch        the workers that a start makes (server.go)
--   Server        the engine's state, channels, calls and goroutines (server.go)
--
-- How the parts work together: Server's start leads to Launch, which registers consumers with the
-- balancer of an Acceptor; the acceptor chooses by LoadBalancer, tells the consumer the peer's address
-- and sends it the descriptor, by a message of Requests or by the consumer's queue; Consumer takes it
-- up in the rounds of Looper and serves it with Worker, ConnManager and Conn, whose buffers are
-- MagicRing's by way of Buffer.
--
-- The operations have the names of the Go functions, in snake case, and take and return the state that
-- the Go code mutates. A Go panic is the outcome `panic` (Base/Panic); a returned error is a value.
-- Loops are structural recursion, but for three on fuel, one for each binary digit of a machine word:
-- `bits.Len32` has 32, the loops of `indexRingBufferPool` and `int2decimal` have 64, more than an int
-- needs. Sizes, positions and counts are natural numbers: an int of 64 bits holds them, and where Go
-- code would see a negative argument the operation's comment says so. The lengths that go to the kernel
-- are reduced to 32 bits (Requests). Goroutines that share memory are
-- step relations: in Stack a step is one atomic access of a thread, in Server one access of a call or
-- goroutine to the state or to a channel; elsewhere a worker's own goroutine runs alone, and a round of
-- Looper says what others have done in between.
--
-- Parameters stand for what is not in the repository: the page size, what a sync.Pool returns, the
-- checksum of an address, whether giouring's queue has room for an entry, the system's sockets, the
-- order that a sort leaves open, whether a ring of io_uring can be created, the reader, the writer
-- and the event handler of the caller. Not modelled are the system calls themselves and the socket
-- options of a connection, CPU affinity, packet filters, logging, the lock-free queue, and what the
-- creation of a ring makes.
pub mod Base
pub mod Errors
pub mod SyncPool
pub mod VirtualMem
pub mod ByteQueue
pub mod MagicRing
pub mod RingPool
pub mod ByteSlices
pub mod Stack
pub mod Flags
pub mod LoadBalancer
pub mod Buffer
pub mod KeyPool
pub mod Conn
pub mod ConnPool
pub mod ConnManager
pub mod Requests
pub mod Worker
pub mod Submitter
pub mod Looper
pub mod Shutdowner
pub mod Consumer
pub mod Shard
pub mod Acceptor
pub mod Sockaddr
pub mod Config
pub mod Listener
pub mod Launch
pub mod Server
