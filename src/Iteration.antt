-- ===== src/Iteration.antt =====
-- The ends of a handle and of an iteration: uv__make_close_pending, uv__finish_close, uv__run_closing_handles,
-- uv__loop_alive, uv_stop and uv__backend_timeout (libuv/src/unix/core.c, libuv/src/uv-common.c).
pub mod Finish
pub mod Wait
pub mod Tests
use libuv_analyse.Base.{
  ℕ, zero, suc, ◌+◌, Bool, true, false, ◌&&◌, ◌||◌, not, ltb, Option, none, some, List, [], ◌∷◌,
  ◌==◌, if◌then◌else◌,
}
use libuv_analyse.Heap.{Ptr, null}
use libuv_analyse.Loop.{
  HandleType, Handle, Loop, set_handle, has_active_handles, has_active_reqs, handle_unref,
}
use libuv_analyse.Timer.{next_timeout}
use libuv_analyse.Watcher.{without}

unfoldable pub empty : List Ptr → Bool
empty [] = true
empty (p ∷ q) = false

-- What the closing of a handle uses of the other parts: the callbacks, the counts of a signal handle, and
-- the release of a stream and of a UDP handle.
pub record Closers : Type 0 where
  pub call : Ptr → Ptr → Loop → Loop
  pub caught_signals : Ptr → Loop → ℕ
  pub dispatched_signals : Ptr → Loop → ℕ
  pub stream_destroy : Ptr → Loop → Loop
  pub udp_finish_close : Ptr → Loop → Loop

-- `next_closing` links the list, the newest handle first.
unfoldable pub make_close_pending : Ptr → Loop → Loop
make_close_pending p l = record l { closing_handles = p ∷ l.closing_handles }

-- The switch on the type, but for the signal handles.
unfoldable pub release : Closers → Ptr → Loop → Loop
release c p l = elim (l.handle p).type [
  | HandleType.named_pipe ↦ c.stream_destroy p l
  | HandleType.tcp ↦ c.stream_destroy p l
  | HandleType.tty ↦ c.stream_destroy p l
  | HandleType.udp ↦ c.udp_finish_close p l
  | _ ↦ l
]

-- A signal handle with signals that have not been dispatched.
unfoldable pub signals_left : Closers → Ptr → Loop → Bool
signals_left c p l = elim (l.handle p).type [
  | HandleType.signal ↦ ltb (c.dispatched_signals p l) (c.caught_signals p l)
  | _ ↦ false
]

-- What follows the switch.
unfoldable pub forget : Closers → Ptr → Loop → Loop
unfolding without
forget c p l =
    let l₁ = handle_unref p l in
    let l₂ = record l₁ { handle_queue = without p l₁.handle_queue } in
    if (l₂.handle p).close_cb == null then l₂ else c.call (l₂.handle p).close_cb p l₂

unfoldable pub finish_close : Closers → Ptr → Loop → Loop
finish_close c p l =
    let l₁ = set_handle p (record (l.handle p) { closed = true }) l in
    if signals_left c p l₁ then make_close_pending p l else forget c p (release c p l₁)

-- The list is taken before the first handle is closed, so what a callback closes waits for the next round.
unfoldable pub finish_all : Closers → List Ptr → Loop → Loop
finish_all c [] l = l
finish_all c (p ∷ q) l = finish_all c q (finish_close c p l)

unfoldable pub run_closing_handles : Closers → Loop → Loop
run_closing_handles c l = finish_all c l.closing_handles (record l { closing_handles = [] })

unfoldable pub stop : Loop → Loop
stop l = record l { stop_flag = 1 }

unfoldable pub loop_alive : Loop → Bool
loop_alive l =
    has_active_handles l
    || has_active_reqs l
    || not (empty l.pending_queue)
    || not (empty l.closing_handles)

-- -1, to block for ever, is `none`.
unfoldable pub backend_timeout : Loop → Option ℕ
backend_timeout l =
    if (l.stop_flag == 0)
      && (has_active_handles l || has_active_reqs l)
      && empty l.pending_queue
      && empty l.idle_handles
      && empty l.closing_handles
    then next_timeout l
    else some 0
