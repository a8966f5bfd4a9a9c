-- ===== src/Stream/Output.antt =====
-- The queues of the requests to write (libuv/src/unix/stream.c): uv__write_req_size, uv__write_req_update,
-- uv__write_req_finish, uv__handle_fd, uv__try_write, uv__write, uv__write_callbacks,
-- uv__stream_flush_write_queue.
use Prim.Native.Nat.{min}
use libuv_analyse.Base.{
  ℕ, zero, suc, ◌-◌, Bool, true, false, ◌&&◌, not, List, [], ◌∷◌, ◌++◌, Option, none, some, length,
  take, drop, ltb, ◌==◌, if◌then◌else◌,
}
use libuv_analyse.Heap.{Ptr, null}
use libuv_analyse.Loop.{req_unregister, HandleType}
use libuv_analyse.Stream.{
  Errno, ebadf, system, Buf, Req, Stream, Peer, Answer, accepts, interrupted, would_block, refuses,
  World, count_bufs, bytes_of,
}

-- 0 of a request whose buffers are freed, of which it is not called.
unfoldable pub write_req_size : Req → ℕ
write_req_size r = elim r.bufs [ none ↦ 0 | some bs ↦ count_bufs bs ]

-- The loop of uv__write_req_update: the buffers that are left when `n` bytes have been written. While there are more
-- to take off, the buffer in front has become empty.
unfoldable pub advance : ℕ → List Buf → List Buf
advance n [] = []
advance n (b ∷ bs) =
    let len = if ltb n (length b) then n else length b in
    let rest = advance (n - len) bs in
    if n - len == 0 then (if length b - len == 0 then bs else drop len b ∷ bs) else rest

unfoldable pub write_req_update : ℕ → List Buf → Stream → List Buf × Stream
unfolding advance
write_req_update n bs s = (advance n bs, record s { write_queue_size = s.write_queue_size - n })

abbrev pub is_done : List Buf → Bool
is_done [] = true
is_done (b ∷ bs) = false

-- The buffers of a request that is written are freed.
unfoldable pub freed : Req → Req
freed r = elim r.error [ none ↦ record r { bufs = none } | some e ↦ r ]

-- The head of the queue, with its new fields, goes to the completed ones.
unfoldable pub write_req_finish : Req → List Req → Stream → Stream
write_req_finish r rest s = record s {
  write_queue = rest;
  write_completed_queue = s.write_completed_queue ++ (freed r ∷ []);
  fed = true;
}

unfoldable pub handle_fd : Peer → Option ℕ
handle_fd p = elim p.type [
  | HandleType.named_pipe ↦ p.fd
  | HandleType.tcp ↦ p.fd
  | HandleType.udp ↦ p.fd
  | _ ↦ none
]

-- What uv__try_write returns.
pub data Tried : Type 0 where
  wrote : ℕ → Tried
  again : Tried
  fails : Errno → Tried

-- The calls of the system, again while they are interrupted, with the answers that they get; `none` where there is
-- no answer left.
unfoldable pub call_system : ℕ → List Answer → Option (Tried × List Answer)
call_system offered [] = none
call_system offered (interrupted ∷ answers) = call_system offered answers
call_system offered (accepts k ∷ answers) = some (wrote (min k offered), answers)
call_system offered (would_block ∷ answers) = some (again, answers)
call_system offered (refuses e ∷ answers) = some (fails (system e), answers)

unfoldable pub try_write : World → List Buf → Ptr → List Answer → Option (Tried × List Answer)
try_write w bs send_handle answers =
    if not (send_handle == null) && (w.peer send_handle).closing
    then some (fails ebadf, answers)
    else call_system (length (bytes_of (take w.iovmax bs))) answers

-- What uv__write does after uv__try_write: leave the function, or go round again.
pub data Turn : Type 0 where
  returns : Stream → Turn
  goes_round : Stream → Turn

abbrev pub stream_of : Turn → Stream
stream_of (returns s) = s
stream_of (goes_round s) = s

-- The request is not written yet: `continue` for a stream that blocks, else the wait for POLLOUT.
unfoldable pub wait_for_room : Stream → Turn
wait_for_room s = if s.blocking_writes then goes_round s else returns (record s { pollout = true })

-- `n` bytes of the request at the head of the queue have been written.
unfoldable pub written : ℕ → Req → List Buf → List Req → Stream → Turn
unfolding write_req_update write_req_finish wait_for_room
written n r bs rest s =
    let taken = record s { sent = s.sent ++ take n (bytes_of bs) } in
    let (left, s₁) = write_req_update n bs taken in
    let r₁ = record r { bufs = some left; send_handle = null } in
    if is_done left
    then returns (write_req_finish r₁ rest s₁)
    else wait_for_room (record s₁ { write_queue = r₁ ∷ rest })

-- Behind the loop.
unfoldable pub fail_write : Errno → Req → List Req → Stream → Stream
unfolding write_req_finish
fail_write e r rest s = record (write_req_finish (record r { error = some e }) rest s) {
  pollout = false;
}

unfoldable pub after_try : Tried → Req → List Buf → List Req → Stream → Turn
unfolding written fail_write wait_for_room
after_try (wrote n) r bs rest s = written n r bs rest s
after_try again r bs rest s = wait_for_room s
after_try (fails e) r bs rest s = returns (fail_write e r rest s)

-- The buffers of a request in the queue: these are not freed before it leaves the queue.
abbrev pub bufs_of : Req → List Buf
bufs_of r = elim r.bufs [ none ↦ [] | some bs ↦ bs ]

unfoldable pub tried :
    Req → List Req → Stream → Option (Tried × List Answer) → Option (Turn × List Answer)
unfolding after_try
tried r rest s none = none
tried r rest s (some (t, left)) = some (after_try t r (bufs_of r) rest s, left)

-- One round of the loop of uv__write, with the queue of the stream.
unfoldable pub write_turn : World → List Answer → List Req → Stream → Option (Turn × List Answer)
unfolding try_write call_system tried
write_turn w answers [] s = some (returns s, answers)
write_turn w answers (r ∷ rest) s = tried r rest s (try_write w (bufs_of r) r.send_handle answers)

abbrev pub Written : Type 0
Written = Option (Stream × List Answer)

-- `continue`, and the other ends of a round.
unfoldable pub go_on : Option (Turn × List Answer) → (List Answer → Stream → Written) → Written
go_on none again_from = none
go_on (some (returns s, left)) again_from = some (s, left)
go_on (some (goes_round s, left)) again_from = again_from left s

-- uv__write, on fuel. The stream it leaves, and the answers that it has not used; `none` where the fuel or the
-- answers end.
unfoldable pub write : ℕ → World → List Answer → Stream → Written
unfolding write_turn go_on
write zero w answers s = none
write (suc fuel) w answers s =
    go_on (write_turn w answers s.write_queue s) (λ left t. write fuel w left t)

-- One round of the loop of uv__write_callbacks.
unfoldable pub complete : World → Req → List Req → Stream → Stream
unfolding write_req_size
complete w r rest s =
    let s₁ = record s {
      moved = rest;
      active_reqs = req_unregister s.active_reqs;
      write_queue_size = s.write_queue_size - write_req_size r;
    } in
    if r.cb == null then s₁ else w.call r.cb r.self r.error s₁

-- The loop, over the queue `moved` of the stream.
unfoldable pub complete_next : List Req → Stream → (Req → List Req → Option Stream) → Option Stream
complete_next [] s f = some s
complete_next (r ∷ rest) s f = f r rest

unfoldable pub complete_all : ℕ → World → Stream → Option Stream
unfolding complete complete_next
complete_all zero w s = none
complete_all (suc fuel) w s =
    complete_next s.moved s (λ r rest. complete_all fuel w (complete w r rest s))

unfoldable pub write_callbacks : ℕ → World → Stream → Option Stream
unfolding complete_all
write_callbacks fuel w s =
    complete_all fuel w (record s { moved = s.write_completed_queue; write_completed_queue = [] })

-- The requests that are not written get the error.
unfoldable pub with_error : Errno → List Req → List Req
with_error e [] = []
with_error e (r ∷ q) = record r { error = some e } ∷ with_error e q

unfoldable pub stream_flush_write_queue : Errno → Stream → Stream
unfolding with_error
stream_flush_write_queue e s = record s {
  write_queue = [];
  write_completed_queue = s.write_completed_queue ++ with_error e s.write_queue;
}
