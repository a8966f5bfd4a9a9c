-- ===== src/Iteration/Tests.antt =====
-- Runs of the closing of handles and of the wait (libuv/src/unix/core.c).
use libuv_analyse.Base.{
  ◌-◌, ◌≡◌, ◌⊎◌, refl, true, false, none, some, [], ◌∷◌, ◌==◌, if◌then◌else◌, arith,
}
use Prim.Native.Nat.{min}
use libuv_analyse.Heap.{Ptr}
use libuv_analyse.Loop.{HandleType, Handle, Loop}
use libuv_analyse.Loop.Count.{weight, counted, occurrences}
use libuv_analyse.Loop.Handles.{IsCounted}
use libuv_analyse.Timer.{int_max}
use libuv_analyse.Timer.Stop.{is_timer, is_active_timer, HasTimers}
use libuv_analyse.Timer.Next.{IsFirst}
use libuv_analyse.Iteration.{Closers, release, finish_close, backend_timeout}
use libuv_analyse.Iteration.Finish.{IsTidy, finish_close-IsCounted}
use libuv_analyse.Iteration.Wait.{IsAtRest, backend_timeout_lem}

abbrev check_handle : Handle
check_handle = record {
  type = HandleType.check;
  closing = false;
  closed = false;
  active = false;
  referenced = true;
  internal = false;
  close_cb = 70;
  watcher_cb = 0;
  timer_cb = 0;
  timeout = 0;
  repeat = 0;
  start_id = 0;
}

-- An active check handle at 2 and one at 3 that is being closed.
abbrev closing_loop : Loop
closing_loop = record {
  handle = λ x.
      if x == 2
      then record check_handle { active = true }
      else if x == 3
      then record check_handle { closing = true }
      else check_handle;
  handle_queue = 2 ∷ 3 ∷ [];
  closing_handles = [];
  idle_handles = [];
  prepare_handles = [];
  check_handles = 2 ∷ [];
  moved = [];
  pending_queue = [];
  watcher_queue = [];
  timer_heap = record { min = 0; nelts = 0; left = λ x. 0; right = λ x. 0; parent = λ x. 0 };
  timer_counter = 0;
  time = 0;
  active_handles = 1;
  active_reqs = 0;
  stop_flag = 0;
}

closing_loop-IsCounted : IsCounted closing_loop
unfolding counted occurrences weight
closing_loop-IsCounted = record {
  active_count = refl;
  once = λ p. ground arith;
  few = omega arith;
  stopped = λ p. ground arith;
}

closing_loop-HasTimers : HasTimers closing_loop
unfolding is_timer
closing_loop-HasTimers = record {
  place = λ i. 0;
  n = 0;
  few = omega arith;
  heap = record {
    size = refl;
    complete = record {
      root = ground arith;
      left = λ i li hi. absurd (omega arith);
      right = λ i li hi. absurd (omega arith);
      parent = λ i li hi. absurd (omega arith);
      used = λ i li hi. absurd (omega arith);
      apart = λ i j li hi lj hj e. absurd (omega arith);
    };
    ordered = λ k lk hk. absurd (omega arith);
  };
  members = λ p. (λ (i, lo, hi, e). absurd (omega arith), λ e. absurd (ground arith));
}

-- Callbacks that call uv_stop, and releases with nothing to do.
abbrev stopping : Closers
stopping = record {
  call = λ cb p l. record l { stop_flag = 1 };
  caught_signals = λ p l. 0;
  dispatched_signals = λ p l. 0;
  stream_destroy = λ p l. l;
  udp_finish_close = λ p l. l;
}

release_same : (p : Ptr) (l : Loop) → release stopping p l ≡ l
unfolding release
release_same p l = ground arith

stopping-IsTidy : IsTidy stopping
stopping-IsTidy = record {
  call_keeps = λ cb p l inv. record {
    active_count = inv.active_count;
    once = inv.once;
    few = inv.few;
    stopped = inv.stopped;
  };
  release_keeps = λ p l inv. rw (release_same p l) inv;
  release_queue = λ p l. rw (release_same p l) refl;
  release_active = λ p l. rw (release_same p l) refl;
}

finish_3_example : IsCounted (finish_close stopping 3 closing_loop)
unfolding occurrences
finish_3_example =
    finish_close-IsCounted stopping-IsTidy 3 closing_loop closing_loop-IsCounted refl refl

wait_example :
    (backend_timeout closing_loop ≡ some 0)
    ⊎ IsAtRest closing_loop
      × ((backend_timeout closing_loop ≡ none)
            × ((x : Ptr) → is_active_timer (closing_loop.handle x) ≡ false)
          ⊎ (p : Ptr) × IsFirst closing_loop p
            × (backend_timeout closing_loop
                ≡ some (min ((closing_loop.handle p).timeout - closing_loop.time) int_max)))
wait_example = backend_timeout_lem closing_loop closing_loop-HasTimers
