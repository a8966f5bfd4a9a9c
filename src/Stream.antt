-- ===== src/Stream.antt =====
-- The output of a stream: libuv/src/unix/stream.c. What its parts share: the stream with its requests to write,
-- what the system answers, and the size of buffers.
pub mod Output
pub mod Calls
pub mod Sizes
pub mod Balance
pub mod Turns
pub mod Bytes
pub mod Drained
pub mod Prompt
pub mod Progress
pub mod Request
pub mod Outcome
mod Tests
use libuv_analyse.Base.{
  ℕ, zero, suc, ◌+◌, ◌-◌, ◌%◌, ◌^◌, Bool, List, [], ◌∷◌, ◌++◌, Option, none, some, length,
}
use libuv_analyse.Heap.{Ptr}
use libuv_analyse.Loop.{HandleType}

-- The errors; those of the system are their numbers.
pub data Errno : Type 0 where
  eagain ebadf epipe einval enomem ecanceled enotconn einprogress : Errno
  system : ℕ → Errno

-- `uv_buf_t`: the bytes from `base` on, `len` of them.
abbrev pub Buf : Type 0
Buf = List ℕ

-- `uv_write_t`. `bufs` are the buffers from `write_index` on, so that `nbufs - write_index` is their number:
-- those in front of it are empty and are not read again. `none` is NULL. The error `none` is 0.
pub record Req : Type 0 where
  pub self : Ptr
  pub cb : Ptr
  pub bufs : Option (List Buf)
  pub error : Option Errno
  pub send_handle : Ptr

-- `uv_stream_t`. The flags are Booleans. `moved` is the local queue of the uv__write_callbacks that is running;
-- `pollout` is the bit POLLOUT of the events of the watcher, `fed` says that uv__io_feed has queued the watcher.
-- `active_reqs` is that of the loop. `sent` is what the system has taken, in order.
pub record Stream : Type 0 where
  pub type : HandleType
  pub ipc : Bool
  pub fd : Option ℕ
  pub writable : Bool
  pub shutting : Bool
  pub shut : Bool
  pub closing : Bool
  pub closed : Bool
  pub blocking_writes : Bool
  pub connect_req : Option Ptr
  pub shutdown_req : Option Ptr
  pub delayed_error : Option Errno
  pub write_queue : List Req
  pub write_completed_queue : List Req
  pub moved : List Req
  pub write_queue_size : ℕ
  pub pollout : Bool
  pub fed : Bool
  pub active_reqs : ℕ
  pub sent : List ℕ

-- A handle that is sent over a pipe.
pub record Peer : Type 0 where
  pub type : HandleType
  pub fd : Option ℕ
  pub closing : Bool

-- What a call of write, writev or sendmsg answers: it takes so many of the bytes that it is offered, all of them
-- where there are fewer; or it fails, with EINTR, with EAGAIN, EWOULDBLOCK or ENOBUFS, or with another error.
pub data Answer : Type 0 where
  accepts : ℕ → Answer
  interrupted : Answer
  would_block : Answer
  refuses : ℕ → Answer

-- What stands outside of the file: uv__getiovmax, the handles that are sent, and the callbacks of the requests,
-- which are called with their address, the request and the error.
pub record World : Type 0 where
  pub iovmax : ℕ
  pub peer : Ptr → Peer
  pub call : Ptr → Ptr → Option Errno → Stream → Stream

-- uv__count_bufs, with `bytes` counted so far.
pub count_loop : ℕ → List Buf → ℕ
count_loop bytes [] = bytes
count_loop bytes (b ∷ bs) = count_loop ((bytes + length b) % 2 ^ 64) bs

unfoldable pub count_bufs : List Buf → ℕ
unfolding count_loop
count_bufs bs = count_loop 0 bs

-- The bytes of the buffers, in order.
unfoldable pub bytes_of : List Buf → List ℕ
bytes_of [] = []
bytes_of (b ∷ bs) = b ++ bytes_of bs
