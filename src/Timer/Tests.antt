-- ===== src/Timer/Tests.antt =====
-- Runs of the timers of libuv/src/timer.c.
use libuv_analyse.Base.{
  ◌+◌, ◌-◌, ◌^◌, ◌≡◌, ◌⊎◌, refl, true, false, none, some, [], ◌∷◌, ◌==◌, if◌then◌else◌, arith,
}
use Prim.Native.Nat.{min}
use libuv_analyse.Heap.{Ptr}
use libuv_analyse.Heap.Order.{IsStrictOrder}
use libuv_analyse.Loop.{HandleType, Handle, Loop}
use libuv_analyse.Loop.Count.{counted, occurrences}
use libuv_analyse.Timer.{
  Call, clamped_timeout, timer_less_than, timer_stop, timer_start, timer_again, next_timeout,
  int_max, run_timers,
}
use libuv_analyse.Timer.Order.{timer_less_than-IsStrictOrder}
use libuv_analyse.Timer.Stop.{is_timer, is_active_timer, HasTimers, timer_stop-HasTimers}
use libuv_analyse.Timer.Operations.{
  timer_start-HasTimers, timer_again-HasTimers, clamped_timeout_lem,
}
use libuv_analyse.Timer.Next.{IsFirst, next_timeout_lem}
use libuv_analyse.Timer.Run.{IsReady, due, due_count}
use libuv_analyse.Timer.Ends.{IsQuiet, IsRun, run_timers-IsRun}

abbrev pub blank : Handle
blank = record {
  type = HandleType.async;
  closing = false;
  closed = false;
  active = false;
  referenced = true;
  internal = false;
  close_cb = 0;
  watcher_cb = 0;
  timer_cb = 0;
  timeout = 0;
  repeat = 0;
  start_id = 0;
}

-- A repeating timer that is due, at 7, and one that has not been started, at 8.
abbrev pub handles : Ptr → Handle
handles x =
    if x == 7
    then record blank {
      type = HandleType.timer;
      active = true;
      timer_cb = 90;
      timeout = 5;
      repeat = 10;
    }
    else if x == 8
    then record blank { type = HandleType.timer }
    else blank

abbrev pub late : Loop
late = record {
  handle = handles;
  handle_queue = 7 ∷ 8 ∷ [];
  closing_handles = [];
  idle_handles = [];
  prepare_handles = [];
  check_handles = [];
  moved = [];
  pending_queue = [];
  watcher_queue = [];
  timer_heap = record { min = 7; nelts = 1; left = λ x. 0; right = λ x. 0; parent = λ x. 0 };
  timer_counter = 1;
  time = 6;
  active_handles = 1;
  active_reqs = 0;
  stop_flag = 0;
}

late-HasTimers : HasTimers late
unfolding is_timer
late-HasTimers = record {
  place = λ i. 7;
  n = 1;
  few = omega arith;
  heap = record {
    size = refl;
    complete = record {
      root = ground arith;
      left = λ i li hi. ground arith;
      right = λ i li hi. ground arith;
      parent = λ i li hi. ground arith;
      used = λ i li hi. ground arith;
      apart = λ i j li hi lj hj e. omega arith;
    };
    ordered = λ k lk hk. absurd (omega arith);
  };
  members = λ p. (λ (i, lo, hi, e). ground arith, λ e. (1, omega arith, omega arith, ground arith));
}

pub late-IsReady : IsReady late
unfolding is_timer occurrences
late-IsReady = record {
  timers = late-HasTimers;
  listed = λ x on. ground arith;
  now = omega arith;
  word = λ x. ground arith;
}

-- A callback that calls uv_stop.
abbrev stopping : Call
stopping cb p l = record l { stop_flag = 1 }

stopping-IsQuiet : IsQuiet stopping
unfolding due_count due
stopping-IsQuiet = record {
  keeps = λ cb p l r. record {
    timers =
        let t = r.timers in
        record { place = t.place; n = t.n; few = t.few; heap = t.heap; members = t.members };
    listed = r.listed;
    now = r.now;
    word = r.word;
  };
  no_more = λ cb p l r. omega arith;
}

order_example : IsStrictOrder (timer_less_than handles)
order_example = timer_less_than-IsStrictOrder handles

stop_example : HasTimers (timer_stop 7 late)
unfolding is_timer
stop_example = timer_stop-HasTimers 7 late late-HasTimers refl

start_example : HasTimers (timer_start 8 91 100 0 late).1
unfolding is_timer late-HasTimers
start_example =
    timer_start-HasTimers 8 late 91 100 0 late-HasTimers refl (omega arith) (omega arith)

again_example : HasTimers (timer_again 7 late).1
unfolding is_timer late-HasTimers
again_example = timer_again-HasTimers 7 late late-HasTimers refl (omega arith) (omega arith)

clamped_example : clamped_timeout 6 (2 ^ 64 - 1) ≡ min (6 + (2 ^ 64 - 1)) (2 ^ 64 - 1)
clamped_example = clamped_timeout_lem 6 (2 ^ 64 - 1) (omega arith) (omega arith)

next_example :
    (next_timeout late ≡ none) × ((x : Ptr) → is_active_timer (late.handle x) ≡ false)
    ⊎ (p : Ptr) × IsFirst late p
      × (next_timeout late ≡ some (min ((late.handle p).timeout - late.time) int_max))
next_example = next_timeout_lem late late-HasTimers

ends_example : (l' : Loop) × (run_timers stopping 3 late ≡ some l') × IsRun l'
unfolding due_count due is_timer counted
ends_example = run_timers-IsRun stopping-IsQuiet 3 late late-IsReady (ground arith)
