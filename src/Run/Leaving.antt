-- ===== src/Run/Leaving.antt =====
-- A handle that is closed leaves the queue of its loop: the end of uv__finish_close (libuv/src/unix/core.c).
use libuv_analyse.Base.{ℕ, ◌≡◌, false, ◌∙◌, arith}
use libuv_analyse.Heap.{Ptr}
use libuv_analyse.Loop.{Loop, handle_unref, active_handle_rm}
use libuv_analyse.Timer.Stop.{is_timer}
use libuv_analyse.Watcher.{without}
use libuv_analyse.Watcher.Queues.{occurrences-without}
use libuv_analyse.Iteration.Finish.{length-without}
use libuv_analyse.Run.Sound.{IsSound, queued}
use libuv_analyse.Run.Times.{SameTimes, timed-IsReady}

-- uv__handle_unref, and the handle leaves the queue of the loop.
abbrev pub left : Ptr → Loop → Loop
left p l = let l₁ = handle_unref p l in record l₁ { handle_queue = without p l₁.handle_queue }

unref-SameTimes : (p x : Ptr) (l : Loop) → SameTimes ((handle_unref p l).handle x) (l.handle x)
unfolding handle_unref active_handle_rm is_timer
unref-SameTimes p x l = record {
  timeout = ground arith;
  start_id = ground arith;
  repeat = ground arith;
  timer = ground arith;
}

pub unref-closing :
    (p x : Ptr) (l : Loop) → ((handle_unref p l).handle x).closing ≡ (l.handle x).closing
unfolding handle_unref active_handle_rm
unref-closing p x l = ground arith

pub unref-closed :
    (p x : Ptr) (l : Loop) → ((handle_unref p l).handle x).closed ≡ (l.handle x).closed
unfolding handle_unref active_handle_rm
unref-closed p x l = ground arith

unref-active : (p x : Ptr) (l : Loop) → ((handle_unref p l).handle x).active ≡ (l.handle x).active
unfolding handle_unref active_handle_rm
unref-active p x l = ground arith

pub unref-closing_handles :
    (p : Ptr) (l : Loop) → (handle_unref p l).closing_handles ≡ l.closing_handles
unfolding handle_unref active_handle_rm
unref-closing_handles p l = ground arith

unref-handle_queue : (p : Ptr) (l : Loop) → (handle_unref p l).handle_queue ≡ l.handle_queue
unfolding handle_unref active_handle_rm
unref-handle_queue p l = ground arith

unref-timer_heap : (p : Ptr) (l : Loop) → (handle_unref p l).timer_heap ≡ l.timer_heap
unfolding handle_unref active_handle_rm
unref-timer_heap p l = ground arith

unref-time : (p : Ptr) (l : Loop) → (handle_unref p l).time ≡ l.time
unfolding handle_unref active_handle_rm
unref-time p l = ground arith

unref-queued : (p : Ptr) (l : Loop) → queued (handle_unref p l) ≡ queued l
unfolding handle_unref active_handle_rm
unref-queued p l = ground arith

pub unref-moved : (p : Ptr) (l : Loop) → (handle_unref p l).moved ≡ l.moved
unfolding handle_unref active_handle_rm
unref-moved p l = ground arith

pub left-IsSound :
    {n : ℕ} (p : Ptr) (l : Loop) → IsSound n l → (l.handle p).active ≡ false → IsSound n (left p l)
left-IsSound p l s stopped = record {
  ready =
      timed-IsReady s.ready (λ x. unref-SameTimes p x l) (unref-timer_heap p l)
        (λ x on. rw (unref-handle_queue p l) (
          ground (arith, occurrences-without x p l.handle_queue, s.ready.listed x on, on, stopped)))
        (rw (unref-time p l) s.ready.now);
  few = rw (unref-handle_queue p l) (omega (arith, length-without p l.handle_queue, s.few));
  room = rw (unref-queued p l) s.room;
  off = λ x c. unref-active p x l ∙ s.off x (rw (unref-closing p x l) at c);
  once = λ x. rw (unref-closing_handles p l) (s.once x);
  pending = λ x here.
      let was = s.pending x (rw (unref-closing_handles p l) at here) in
      record {
        closing = unref-closing p x l ∙ was.closing;
        open_yet = unref-closed p x l ∙ was.open_yet;
      };
}
