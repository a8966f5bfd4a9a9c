-- ===== src/Stream/Calls.antt =====
-- The calls that write (libuv/src/unix/stream.c): uv__drain, uv__check_before_write, uv_write2, uv_write, uv_try_write2,
-- uv_try_write, uv_shutdown, uv__stream_connect, uv__stream_destroy, and the output of uv__stream_io.
use libuv_analyse.Base.{
  ℕ, ◌+◌, ◌%◌, ◌^◌, Bool, true, false, ◌&&◌, ◌||◌, not, List, [], ◌∷◌, ◌++◌, Option, none, some,
  length, take, ltb, ◌==◌, if◌then◌else◌,
}
use libuv_analyse.Heap.{Ptr, null}
use libuv_analyse.Loop.{req_register, req_unregister, HandleType}
use libuv_analyse.Stream.{
  Errno, ebadf, epipe, einval, enomem, ecanceled, enotconn, einprogress, system, Buf, Req, Stream,
  Answer, World, count_bufs, bytes_of,
}
use libuv_analyse.Stream.Output.{
  handle_fd, Written, Tried, wrote, again, fails, try_write, write, write_callbacks,
  stream_flush_write_queue,
}

abbrev pub is_some {ℓ} : {A : Type ℓ} → Option A → Bool
is_some none = false
is_some (some a) = true

abbrev pub is_pipe : HandleType → Bool
is_pipe t = elim t [ HandleType.named_pipe ↦ true | _ ↦ false ]

-- What uv__check_before_write asserts of the buffers and of the type of the stream.
abbrev pub check_asserts : List Buf → Stream → Bool
check_asserts bs s = ltb 0 (length bs) && elim s.type [
  | HandleType.tcp ↦ true
  | HandleType.named_pipe ↦ true
  | HandleType.tty ↦ true
  | _ ↦ false
]

-- What uv_write2 asserts where the stream is not connecting and its queue has bytes: it does not block.
abbrev pub queue_asserts : Stream → Bool
queue_asserts s = is_some s.connect_req || (s.write_queue_size == 0) || not s.blocking_writes

-- 0 is `none`. The program aborts where `check_asserts` is false; the theorems on the calls have it as a hypothesis.
unfoldable pub check_before_write : World → Ptr → Stream → Option Errno
unfolding handle_fd
check_before_write w send_handle s =
    if not (is_some s.fd)
    then some ebadf
    else if not s.writable
    then some epipe
    else if send_handle == null
    then none
    else if not (is_pipe s.type) || not s.ipc
    then some einval
    else if not (is_some (handle_fd (w.peer send_handle)))
    then some ebadf
    else none

-- ARRAY_SIZE(req->bufsml).
abbrev pub bufsml_size : ℕ
bufsml_size = 4

-- The request in its queue.
unfoldable pub enqueue : Ptr → List Buf → Ptr → Ptr → Stream → Stream
enqueue self bs send_handle cb s =
    let r : Req = record {
      self = self;
      cb = cb;
      bufs = some bs;
      error = none;
      send_handle = send_handle;
    } in
    record s {
      active_reqs = req_register s.active_reqs;
      write_queue_size = (s.write_queue_size + count_bufs bs) % 2 ^ 64;
      write_queue = s.write_queue ++ (r ∷ []);
    }

-- What a function returns, the stream, and the answers of the system that are left.
pub data Called : Type 0 where
  ok : Stream → List Answer → Called
  error : Errno → Stream → Called

unfoldable pub to_called : Written → Option Called
to_called none = none
to_called (some (s, left)) = some (ok s left)

-- The rest of uv_write2, where `memory` says whether uv__malloc has memory, which is asked for more buffers than
-- a request has itself: without it, the request is registered and the call fails. In the last branch the
-- program aborts where `queue_asserts` is false; the theorems on the call have it as a hypothesis.
unfoldable pub write_checked :
    ℕ → World → Bool → List Answer → Ptr → List Buf → Ptr → Ptr → Stream → Option Called
unfolding enqueue write to_called
write_checked fuel w memory answers self bs send_handle cb s =
    let s₁ = enqueue self bs send_handle cb s in
    if ltb bufsml_size (length bs) && not memory
    then some (error enomem (record s { active_reqs = req_register s.active_reqs }))
    else if is_some s.connect_req
    then some (ok s₁ answers)
    else if s.write_queue_size == 0
    then to_called (write fuel w answers s₁)
    else some (ok (record s₁ { pollout = true }) answers)

unfoldable pub if_valid : Option Errno → Stream → Option Called → Option Called
if_valid (some e) s r = some (error e s)
if_valid none s r = r

-- uv_write2; `none` is the end of the fuel or of the answers. uv_write is it with a `send_handle` of NULL.
unfoldable pub write2 :
    ℕ → World → Bool → List Answer → Ptr → List Buf → Ptr → Ptr → Stream → Option Called
unfolding check_before_write write_checked if_valid
write2 fuel w memory answers self bs send_handle cb s =
    if_valid (check_before_write w send_handle s) s
      (write_checked fuel w memory answers self bs send_handle cb s)

-- The handle that is sent is not checked.
unfoldable pub try_write2 : World → List Answer → List Buf → Ptr → Stream → Option (Tried × Stream)
unfolding check_before_write try_write
try_write2 w answers bs send_handle s =
    if is_some s.connect_req || not (s.write_queue_size == 0)
    then some (again, s)
    else elim (check_before_write w null s) [
      | some e ↦ some (fails e, s)
      | none ↦ elim (try_write w bs send_handle answers) [
        | none ↦ none
        | some (wrote n, left) ↦ some (wrote n, record s { sent = s.sent ++ take n (bytes_of bs) })
        | some (again, left) ↦ some (again, s)
        | some (fails e, left) ↦ some (fails e, s)
      ]
    ]

-- `shutdown(2)` answers with an error or none. The callback of the request is `cb` of it.
unfoldable pub drain : World → Option ℕ → (Ptr → Ptr) → Stream → Stream
drain w shutdown cb s =
    let s₁ = record s { pollout = false } in
    let due = s.shutting && not s.closing && not s.shut in
    let err : Option Errno = elim shutdown [ none ↦ none | some e ↦ some (system e) ] in
    let told =
      λ (req : Ptr) (t : Stream). if cb req == null then t else w.call (cb req) req err t in
    elim s.shutdown_req [
      | none ↦ s₁
      | some req ↦
          if due
          then told req (record s₁ {
            shutdown_req = none;
            shutting = false;
            active_reqs = req_unregister s₁.active_reqs;
            shut = not (is_some err);
          })
          else s₁
    ]

unfoldable pub shutdown : Ptr → Stream → Option Errno × Stream
shutdown req s =
    if not s.writable || s.shut || s.shutting || (s.closing || s.closed)
    then (some enotconn, s)
    else (
      none,
      record s {
        active_reqs = req_register s.active_reqs;
        shutdown_req = some req;
        shutting = true;
        writable = false;
        pollout = true;
      },
    )

-- A request to connect that has an answer: `err` is `none` for success. `cb` gives the callback of the request.
unfoldable pub connected : ℕ → World → (Ptr → Ptr) → Ptr → Option Errno → Stream → Option Stream
unfolding stream_flush_write_queue write_callbacks
connected fuel w cb req err s =
    let s₁ = record s { connect_req = none; active_reqs = req_unregister s.active_reqs } in
    let s₂ = record s₁ {
      pollout = if is_some err || (length s₁.write_queue == 0) then false else s₁.pollout;
    } in
    let s₃ = if cb req == null then s₂ else w.call (cb req) req err s₂ in
    let flushed = write_callbacks fuel w (stream_flush_write_queue ecanceled s₃) in
    if not (is_some s₃.fd) then some s₃ else if is_some err then flushed else some s₃

abbrev pub is_einprogress : Errno → Bool
is_einprogress e = elim e [ einprogress ↦ true | _ ↦ false ]

-- `pending` is what getsockopt answers, asked where no error is delayed.
unfoldable pub stream_connect : ℕ → World → (Ptr → Ptr) → Option Errno → Stream → Option Stream
unfolding connected
stream_connect fuel w cb pending s =
    let err : Option Errno = elim s.delayed_error [ none ↦ pending | some e ↦ some e ] in
    let s₁ = record s { delayed_error = none } in
    let unfinished : Bool = elim err [ none ↦ false | some e ↦ is_einprogress e ] in
    elim s.connect_req [
      | none ↦ some s
      | some req ↦ if unfinished then some s₁ else connected fuel w cb req err s₁
    ]

-- `if (events & (POLLOUT | POLLERR | POLLHUP))` of uv__stream_io.
unfoldable pub stream_output :
    ℕ → World → Option ℕ → (Ptr → Ptr) → List Answer → Stream → Option Stream
unfolding write write_callbacks drain
stream_output fuel w answer cb answers s = elim (write fuel w answers s) [
  | none ↦ none
  | some (s₁, left) ↦ elim (write_callbacks fuel w s₁) [
    | none ↦ none
    | some s₂ ↦ some (if length s₂.write_queue == 0 then drain w answer cb s₂ else s₂)
  ]
]

-- `if (req) { uv__req_unregister(...); req->cb(req, UV_ECANCELED); ... }`.
unfoldable pub cancel : World → (Ptr → Ptr) → Option Ptr → Stream → Stream
cancel w cb none s = s
cancel w cb (some req) s =
    w.call (cb req) req (some ecanceled) (record s { active_reqs = req_unregister s.active_reqs })

unfoldable pub cancel_shutdown : World → (Ptr → Ptr) → Option Stream → Option Stream
unfolding cancel
cancel_shutdown w cb none = none
cancel_shutdown w cb (some s) = some (record (cancel w cb s.shutdown_req s) { shutdown_req = none })

unfoldable pub stream_destroy : ℕ → World → (Ptr → Ptr) → Stream → Option Stream
unfolding stream_flush_write_queue write_callbacks cancel cancel_shutdown
stream_destroy fuel w cb s =
    let s₁ = record (cancel w cb s.connect_req s) { connect_req = none } in
    cancel_shutdown w cb (write_callbacks fuel w (stream_flush_write_queue ecanceled s₁))
