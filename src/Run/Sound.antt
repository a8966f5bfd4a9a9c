-- ===== src/Run/Sound.antt =====
-- What uv_run (libuv/src/unix/core.c) keeps of a loop, and what it asks of the callbacks.
use libuv_analyse.Base.{ℕ, ◌+◌, ◌-◌, ◌^◌, ◌≤◌, ◌<◌, ◌≡◌, ◌≢◌, Option, true, false, length}
use libuv_analyse.Heap.{Ptr}
use libuv_analyse.Loop.{Handle, Loop}
use libuv_analyse.Loop.Count.{occurrences}
use libuv_analyse.Timer.Run.{IsReady, due_count}
use libuv_analyse.Run.{Input, Outside}
use libuv_analyse.Iteration.{release}

-- The handles and watchers that stand in a queue of the loop.
abbrev pub queued : Loop → ℕ
queued l =
    length l.idle_handles
    + length l.prepare_handles
    + length l.check_handles
    + length l.pending_queue
    + length l.moved

-- uv_close has been called, uv__finish_close not yet.
pub record IsPending (h : Handle) : Type 0 where
  pub closing : h.closing ≡ true
  pub open_yet : h.closed ≡ false

-- The timers stand as uv__run_timers asks, a loop has at most `n` handles and entries in its queues, a handle that is
-- being closed is not active, and the list of the closing handles has those that wait for uv__finish_close, each once.
pub record IsSound (n : ℕ) (l : Loop) : Type 0 where
  pub ready : IsReady l
  pub few : length l.handle_queue ≤ n
  pub room : queued l ≤ n
  pub off : (x : Ptr) → (l.handle x).closing ≡ true → (l.handle x).active ≡ false
  pub once : (x : Ptr) → occurrences x l.closing_handles ≤ 1
  pub pending : (x : Ptr) → occurrences x l.closing_handles ≢ 0 → IsPending (l.handle x)

-- What uv_run asks of code that it calls: it keeps the loop sound, puts nothing into a queue that is being run, and
-- neither ends the closing of a handle nor closes it again.
pub record IsFair (n : ℕ) (f : Loop → Loop) : Type 0 where
  pub keeps : (l : Loop) → IsSound n l → IsSound n (f l)
  pub no_more : (l : Loop) → length (f l).moved ≤ length l.moved
  pub waits :
      (l : Loop) (x : Ptr)
      → IsPending (l.handle x)
      → IsPending ((f l).handle x)
        × (occurrences x (f l).closing_handles ≡ occurrences x l.closing_handles)

-- The callbacks, and the release of streams and UDP handles. A callback makes no timer due at the present time.
pub record IsOrderly (n : ℕ) (w : Outside) : Type 0 where
  pub call : (cb p : Ptr) → IsFair n (w.closers.call cb p)
  pub none_due :
      (cb p : Ptr) (l : Loop) → IsSound n l → due_count (w.closers.call cb p l) ≤ due_count l
  pub releases : (p : Ptr) → IsFair n (release w.closers p)
  pub release_active :
      (p : Ptr) (l : Loop) → ((release w.closers p l).handle p).active ≡ (l.handle p).active
  pub ready : (p : Ptr) → IsFair n (w.ready p)

-- uv__io_poll calls the callbacks of watchers; the times are below the greatest `uint64_t`.
pub record IsTimely (n : ℕ) (i : Input) : Type 0 where
  pub poll : (t : Option ℕ) → IsFair n (i.poll t)
  pub now : i.now < 2 ^ 64 - 1
  pub later : i.later < 2 ^ 64 - 1
