-- ===== src/Lib.antt =====
-- A verification library for the low latency WebSocket client: its lock-free queue, memory pool,
-- connection manager, clients and command line.
--
-- The program: a receiver thread reads messages from a WebSocket and pushes them to a lock-free
-- queue with one producer and one consumer; the main thread sends messages and pops the answers. A
-- connection manager may own the client: it reconnects with exponential backoff, watches the
-- connection and sends pings, each in a thread of its own. A memory pool hands out fixed blocks.
--
--   Spsc     SPSCQueue of include/spsc_queue.h. `new`, `try_push`, `try_pop`, `empty`, `size_approx`
--            and `capacity` are the members of these names on a record of head, tail and buffer.
--            Spsc.Bounds: index arithmetic and the masks. Spsc.Holds: the items that a state holds.
--            Spsc.Refine: the queue against Fifo. Spsc.Concurrent: the same code as atomic steps
--            of two threads, one access of a shared variable each. Spsc.Concurrent.Invariant, Views,
--            Safety: its reachable states; Atomic: its steps against Fifo; WaitFree: its progress.
--   Fifo     What a bounded queue promises, as lists, and the interface that Client takes.
--   Pool     MemoryPool of include/memory_pool.h, the free list in the memory of the blocks.
--            Pool.Client: any sequence of allocations, releases and writes into held blocks.
--            Pool.Ptr: PoolPtr, each operation on a store of pools.
--   Client   WebSocketClient of include/websocket_client.h and Message of include/message.h, over any
--            queue of Fifo. Client.Inbox, Client.Receive: `receive_loop`, `try_receive` and
--            `close` against an inbox. Client.Session: `connect`, `close` and the destructor. Client.Spin:
--            `spin_receive`. Client.Secure: the client of include/secure_websocket_client.h.
--            Client.Instance: the client over the queue of Spsc.
--   Manager  ConnectionManager of include/connection_manager.h: `start`, `stop`, `try_connect`.
--            Manager.Loops: `reconnect_loop`, `monitor_loop`, `heartbeat_loop`. Manager.Backoff,
--            Manager.Retries: rounds of the reconnect loop. Manager.Lifecycle: `start` and `stop`.
--            Manager.Restart: the reconnect loop after them and in the monitor. In Manager the
--            functions run one at a time; Manager.Threads has the same functions as the steps of
--            four threads (Threads.Loops, Threads.Steps) in any interleaving, with the objects that
--            `client_` owns numbered. Threads.Invariant: which threads run. Threads.Joins: what
--            `stop()` leaves. Threads.Restarts: which threads are started again. Threads.Objects: who uses a dead client. 
--            Threads.Progress and Threads.Ending: that `stop()` ends; its bound of 22 steps is the sum of what each thread
--            can have left. Threads.Equations, Agree, Rounds: the two models of
--            `reconnect_loop` agree.
--   Args     `parse_args` of src/main.cpp.
--   Latency  LatencyStats of include/latency_stats.h: `record`, `percentile` and the figures of
--            `print_report`.
--   Chat     `chat_session` of src/main.cpp over any client, with Pool and Latency. Chat.Blocks,
--            Chat.Session: its use of the pool and what it leaves. Chat.Online: the session over
--            Client; Chat.Closing: how it leaves that client.
--   Display  The boxes that the programs print: Display.Report, Tables and System; Display.Widths,
--            Drawn: how many columns their lines take.
--   Config   The constants and wait policies of include/config.h.
--   Program  `main` of src/main.cpp, over Args, Manager and Chat. Program.Selection: which client the
--            arguments select; Program.Wait: how long it waits for the manager.
--   Threads  include/thread_utils.h and the pinning in `receive_loop`; Threads.Pinning: which core.
--   Benchmark  benchmarks/benchmark_client.cpp. Benchmark.Payload: the payloads and a line of the
--            table. Benchmark.Throughput: whether the burst ends. Benchmark.Suite: `main`, which polls
--            at most as often as given; Benchmark.Closing, Online: how it leaves its client.
--   FirstClient  main.cpp, the first version of the client: its two threads as atomic steps.
--            FirstClient.Invariant, Delivery, Progress, Stuck: `getResponse`. FirstClient.Session:
--            `chatSession`, `close` and `main`; FirstClient.Outcomes, Exits: how they end.
--   Prelude  Shared names, tests on numbers, lists, bits and words.
--
-- Words of the machine are natural numbers with the wrap-around at 2^64 written out; the backoff is
-- converted to 32 bits as in the source, with the undefined case as a value. What the network does,
-- and what other threads do while one sleeps, are inputs of the functions: one `Round`, `Poll`,
-- `Beat`, `Read` or `Connection` for each turn of a loop, so that a loop over given inputs ends; one
-- that has not returned when they run out says so in its result. `chat_rounds` of FirstClient, whose
-- input may end without an end of the loop, runs for a given number of rounds.
--
-- In Manager.Threads each call of the client, and its destructor, is one step that returns: that
-- `close()`, which joins the receiver thread, can wait for a read is outside the model of the threads.
--
-- Not modelled: Boost.Beast and Asio, whose outcomes are inputs; the memory order of the atomics,
-- taken as sequentially consistent; socket options; thread priorities; the loading of TLS
-- certificates; log lines and the formatting of doubles; the square root in the standard
-- deviation of a report; and the build. A double is an exact fraction.
pub mod Args
pub mod Benchmark
pub mod Chat
pub mod Client
pub mod Config
pub mod Display
pub mod Fifo
pub mod FirstClient
pub mod Latency
pub mod Manager
pub mod Pool
pub mod Prelude
pub mod Program
pub mod Spsc
pub mod Threads
