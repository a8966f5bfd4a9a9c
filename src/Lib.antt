-- ===== src/Lib.antt =====
-- libuv: an event loop library in C, as it stands in the folder libuv of the repository.
--
-- A loop (`uv_loop_t`) owns handles. Each handle has flags; those that are active and referenced are
-- counted in `active_handles`, which keeps the loop alive. The timers of a loop stand in a binary heap
-- (libuv/src/heap-inl.h), from which libuv/src/timer.c takes them when they are due and by which it says
-- how long the loop may wait. Handles and pending work stand in intrusive queues (libuv/src/queue.h).
-- libuv/src/idna.c decodes UTF-8 and writes host names in ASCII, libuv/src/inet.c reads and prints addresses.
-- libuv/src/threadpool.c hands requests to threads, which hand them back to the loop. A watcher
-- (`uv__io_t`) ties a descriptor to a callback; the loop keeps a table of the watchers by descriptor. A stream
-- (libuv/src/unix/stream.c) keeps its requests to write in queues until the system has taken their bytes.
-- uv_run goes round: timers, pending watchers, idle and prepare handles, the poll, check handles, closing handles.
--
-- Which file models which part:
--   Base: library names, Boolean tests, lists, bits, tables over small numbers.
--   Queue: libuv/src/queue.h, the macros on a store of `next` and `prev` pointers. A ring of addresses
--     (Queue/Ring) says which list a queue holds; the children prove the macros on rings.
--   Heap: libuv/src/heap-inl.h, on a store of `left`, `right` and `parent` pointers. Heap/Complete says
--     that the store holds a complete tree, whose nodes are numbered row by row; Heap/Order that no node is
--     less than its parent. heap_insert and heap_remove find the last place by the bits of its number
--     (Heap/Path) and move a node up (Heap/SiftUp) or down (Heap/SiftDown) by heap_node_swap (Heap/Swap).
--   Loop: the records of the loop and of its handles, and the macros uv__handle_init, _start, _stop, _ref
--     and _unref of libuv/src/uv-common.h. Loop/Handles has the invariant of the count, Loop/Walk is uv_walk of
--     libuv/src/uv-common.c.
--   Timer: libuv/src/timer.c. The order is a strict order (Timer/Order), the operations keep the heap of the
--     active timers (Timer/Stop, Timer/Start, Timer/Operations), Timer/Next is about uv__next_timeout and
--     Timer/Run and Timer/Ends about uv__run_timers.
--   Watcher: libuv/src/unix/loop-watcher.c, the functions that its macro makes for the idle, prepare and
--     check handles. Watcher/Queues says which handles stand in the queues, Watcher/Start is about
--     uv_idle_start and its kin, Watcher/Round about uv__run_idle and its kin. The local queue of a
--     round is a field of the loop, since a callback that stops a handle may change it.
--   Iteration: parts of libuv/src/unix/core.c, uv__finish_close and the list of the closing handles
--     (Iteration/Finish), uv__backend_timeout (Iteration/Wait), and uv_stop of libuv/src/uv-common.c. The callbacks,
--     the counts of signals and the release of streams are parameters, a record.
--   Io: the watchers of descriptors of libuv/src/unix/core.c, that is uv__io_init to uv__fd_exists and maybe_resize.
--     Io/Bound is about next_power_of_two, Io/Count about the table of the watchers and the count `nfds`.
--   Strings: libuv/src/strscpy.c.
--   Threadpool: libuv/src/threadpool.c. Threadpool holds the functions; a turn of a thread at the queue is
--     Threadpool/Pick, Threadpool/Round and Threadpool/Turn, the interleaved steps are Threadpool/Steps,
--     the start is Threadpool/Init.
--     Threadpool/Sound has the invariant of the counts, Threadpool/Fate that of the requests, and
--     Threadpool/Runs what holds in every run. The condition variable is as in POSIX: uv_cond_signal unblocks
--     one of the threads that wait, and a thread may also wake up by itself. In a run uv_cancel is not called
--     for a request that was cancelled and whose `done` has been called since.
--   Inet: libuv/src/inet.c. Inet/Print has uv_inet_ntop, inet_ntop4 and inet_ntop6, Inet/Parse has uv_inet_pton,
--     inet_pton4 and inet_pton6. Inet/Dotted, Inet/Octets and Inet/Canonical relate inet_pton4 to the text that
--     inet_ntop4 prints, Inet/Gap is about the shift at the end of inet_pton6, Inet/Size and Inet/Room about the
--     buffer of inet_ntop6. `%u` and `%x` print at most 10 digits, those of an `unsigned int`.
--   HostName: uv__idna_toascii_label and uv__idna_toascii of libuv/src/idna.c. HostName/Written and
--     HostName/Buffer are about the bytes written, HostName/Least, HostName/Ends and HostName/Total about the end
--     of the loops. The loop over the digits has 11 rounds, since a round divides a number of 32 bits by 10
--     at least; the loop over `bias` has 7, since a round divides by 35.
--   Stream: the output of libuv/src/unix/stream.c. Stream/Output has the queues (uv__write, uv__try_write,
--     uv__write_req_update, uv__write_req_finish, uv__write_callbacks, uv__stream_flush_write_queue),
--     Stream/Calls the functions on them (uv_write2, uv_try_write2, uv_shutdown, uv__drain, uv__stream_connect,
--     uv__stream_destroy). Stream/Balance and Stream/Turns are about the size of the queues, Stream/Bytes about
--     the order of the bytes, Stream/Prompt and Stream/Progress about the end of uv__write, Stream/Request
--     and Stream/Outcome about uv_write2, Stream/Drained about uv__stream_destroy. The system answers from a list; uv__write and the
--     loop over the callbacks run on fuel.
--   Run: uv_run and uv__run_pending of libuv/src/unix/core.c, over the parts of Timer, Watcher and Iteration.
--     Run/Sound says what a loop is to be between two phases and what is asked of the callbacks; Run/Timers,
--     Run/Round and Run/Closing are about the phases, Run/Phases about one iteration, Run/Ends about uv_run. The
--     clock and uv__io_poll of each iteration are an input; uv_run stops where no input is left.
--   Close: uv_close of libuv/src/unix/core.c, whose switch calls a parameter for the kinds that are not modelled, and
--     uv_loop_close of libuv/src/uv-common.c, of which uv__loop_close is a parameter. Close/Stopped is about the stop
--     of a handle, Close/Sound about uv_close, Close/Ends about uv_loop_close.
--   Utf8: uv__utf8_decode1 and uv__utf8_decode1_slow of libuv/src/idna.c.
--
-- How the code is rendered. A pointer is a number, 0 is NULL; a struct is a record of functions on
-- addresses, or a function from addresses to records. A handle, its node in a heap and its node in a
-- queue have one address. The queues of a loop are lists. A flag is a Boolean. An `unsigned int` is
-- taken modulo 2 ^ 32 and a `uint64_t` modulo 2 ^ 64. A callback is a function on the loop, which is a
-- parameter. An assertion is a hypothesis of the theorems that need it.
--
-- Loops run on fuel. heap_insert and heap_remove halve the number of a place in each round, so the number of
-- the nodes is enough; it is part of the definition. The walk up and the walk down of a node take at most
-- as many rounds as there are nodes. uv__run_timers returns `none` where the fuel ends; one round
-- more than there are timers due is enough. So does a round over the idle, prepare or check handles, for
-- which one turn more than the queue has handles is enough. In uv_run the fuel of each such loop is one more than
-- the bound on the handles and on the entries of the queues of the loop. uv__write takes one answer of the
-- system for each call of it.
--
-- Not modelled: the back ends of each platform, files, sockets, processes, signals, threads and
-- everything else that is a call of the system, since each of these is little more than that call; the Windows
-- implementation, which stands on other system interfaces; the close functions of the handles that are not
-- modelled; the reading side of the streams; uv_loop_init.
pub mod Base
pub mod Close
pub mod Heap
pub mod HostName
pub mod Inet
pub mod Io
pub mod Iteration
pub mod Loop
pub mod Queue
pub mod Run
pub mod Stream
pub mod Strings
pub mod Threadpool
pub mod Timer
pub mod Utf8
pub mod Watcher
