-- ===== src/Run/Tests.antt =====
-- Runs of uv_run (libuv/src/unix/core.c).
use libuv_analyse.Base.{ℕ, ◌≡◌, refl, true, ◌&&◌, List, [], ◌∷◌, length, ◌==◌, if◌then◌else◌, arith}
use libuv_analyse.Heap.{Ptr}
use libuv_analyse.Loop.{HandleType, Loop}
use libuv_analyse.Loop.Count.{occurrences}
use libuv_analyse.Timer.Stop.{is_timer}
use libuv_analyse.Timer.Run.{due, due_count}
use libuv_analyse.Timer.Tests.{blank, handles, late, late-IsReady}
use libuv_analyse.Iteration.{release, loop_alive}
use libuv_analyse.Run.{
  run_default, run_once, Outside, Input, Outcome, returned, goes_on, out_of_fuel, run,
}
use libuv_analyse.Run.Sound.{IsSound, IsFair, IsOrderly, IsTimely}
use libuv_analyse.Run.Times.{timed_refl, timed-IsReady}
use libuv_analyse.Run.Ends.{nil, cons, AtEnd, run-AtEnd}

-- A timer that is due at 7, a check handle at 9 that is being closed, and a watcher at 20 that is pending.
abbrev pub busy : Loop
busy = record late {
  handle = λ x.
      if x == 9
      then record blank { type = HandleType.check; closing = true; close_cb = 70 }
      else handles x;
  handle_queue = 7 ∷ 8 ∷ 9 ∷ [];
  closing_handles = 9 ∷ [];
  pending_queue = 20 ∷ [];
}

-- A callback that calls uv_stop.
abbrev stop_it : Loop → Loop
stop_it l = record l { stop_flag = 1 }

abbrev stopping : Outside
stopping = record {
  closers = record {
    call = λ cb p l. stop_it l;
    caught_signals = λ p l. 0;
    dispatched_signals = λ p l. 0;
    stream_destroy = λ p l. l;
    udp_finish_close = λ p l. l;
  };
  ready = λ p l. l;
}

abbrev quiet_input : Input
quiet_input = record { now = 8; poll = λ t l. l; later = 30 }

pub busy-IsSound : IsSound 3 busy
unfolding occurrences is_timer
busy-IsSound = record {
  ready =
      timed-IsReady late-IsReady
        (λ x. record {
          timeout = ground arith;
          start_id = ground arith;
          repeat = ground arith;
          timer = ground arith;
        })
        refl (λ x on. ground arith) (omega arith);
  few = omega arith;
  room = omega arith;
  off = λ x. ground arith;
  once = λ x. ground arith;
  pending = λ x here. record { closing = ground arith; open_yet = ground arith };
}

same-IsFair : (n : ℕ) → IsFair n (λ l. l)
same-IsFair n = record { keeps = λ l s. s; no_more = λ l. omega arith; waits = λ l x p. (p, refl) }

stop_it-IsFair : (n : ℕ) → IsFair n stop_it
stop_it-IsFair n = record {
  keeps = λ l s. record {
    ready = timed-IsReady s.ready (λ x. timed_refl (l.handle x)) refl s.ready.listed s.ready.now;
    few = s.few;
    room = s.room;
    off = s.off;
    once = s.once;
    pending = s.pending;
  };
  no_more = λ l. omega arith;
  waits = λ l x p. (p, refl);
}

release_same : (p : Ptr) (l : Loop) → release stopping.closers p l ≡ l
unfolding release
release_same p l = ground arith

stopping-IsOrderly : IsOrderly 3 stopping
unfolding due_count due
stopping-IsOrderly = record {
  call = λ cb p. stop_it-IsFair 3;
  none_due = λ cb p l s. omega arith;
  releases = λ p. record {
    keeps = λ l s. rw (release_same p l) s;
    no_more = λ l. rw (release_same p l) (omega arith);
    waits = λ l x q. rw (release_same p l) (q, refl);
  };
  release_active = λ p l. rw (release_same p l) refl;
  ready = λ p. same-IsFair 3;
}

quiet-IsTimely : IsTimely 3 quiet_input
quiet-IsTimely = record { poll = λ t. same-IsFair 3; now = omega arith; later = omega arith }

run-AtEnd_example :
    AtEnd 3 run_once
      (quiet_input ∷ [])
      (loop_alive busy && (busy.stop_flag == 0))
      (run 4 stopping run_once 8 (quiet_input ∷ []) busy)
run-AtEnd_example =
    run-AtEnd stopping-IsOrderly run_once 8 (quiet_input ∷ []) busy (cons quiet-IsTimely nil)
      busy-IsSound refl (omega arith)

-- The fields of an outcome that the tests read.
abbrev shown : Outcome → List ℕ
shown (returned r l left) =
    (if r then 1 else 0)
    ∷ length left
    ∷ length l.closing_handles
    ∷ l.stop_flag
    ∷ (l.handle 7).timeout
    ∷ []
shown (goes_on l) = length l.closing_handles ∷ []
shown out_of_fuel = []

-- A loop without timers, kept alive by a request.
abbrev calm : Loop
calm = record busy {
  timer_heap = record { min = 0; nelts = 0; left = λ x. 0; right = λ x. 0; parent = λ x. 0 };
  active_handles = 0;
  active_reqs = 1;
}

-- Nothing is done, and the flag is reset.
run_stopped_test :
    shown (run 4 stopping run_default 8 (quiet_input ∷ []) (stop_it calm)) ≡ 1 ∷ 1 ∷ 1 ∷ 0 ∷ 5 ∷ []
unfolding run loop_alive
run_stopped_test = refl
