-- ===== src/Timer/Ends.antt =====
-- uv__run_timers (libuv/src/timer.c) ends once no timer is due.
use libuv_analyse.Base.{ℕ, zero, suc, ◌≤◌, ◌<◌, ◌≡◌, true, Bool-cases, inl, inr, some, ltb, arith}
use libuv_analyse.Heap.{Ptr, heap_min}
use libuv_analyse.Loop.{Loop}
use libuv_analyse.Timer.{Call, timer_again, timer_stop, run_timer, run_timers}
use libuv_analyse.Timer.Stop.{is_active_timer}
use libuv_analyse.Timer.Next.{IsFirst, heap_min-IsFirst}
use libuv_analyse.Timer.Run.{IsReady, due_count, round_due}

-- What uv__run_timers asks of the callbacks: they leave a loop in which it may be called, with no more
-- timers due than before.
pub record IsQuiet (call : Call) : Type 0 where
  pub keeps : (cb p : Ptr) (l : Loop) → IsReady l → IsReady (call cb p l)
  pub no_more : (cb p : Ptr) (l : Loop) → IsReady l → due_count (call cb p l) ≤ due_count l

-- The loop after uv__run_timers.
pub record IsRun (l : Loop) : Type 0 where
  pub ready : IsReady l
  pub none_due : (x : Ptr) → is_active_timer (l.handle x) ≡ true → l.time < (l.handle x).timeout

module _ {call : Call} (quiet : IsQuiet call) where
  run_timer_due :
      (p : Ptr) (l : Loop)
      → IsReady l
      → IsFirst l p
      → (l.handle p).timeout ≤ l.time
      → IsReady (run_timer call p l) × (due_count (run_timer call p l) < due_count l)
  unfolding run_timer
  run_timer_due p l r first late =
      let (ready, fewer) = round_due p l r first late in
      (
        quiet.keeps _ p _ ready,
        omega (
          arith,
          fewer,
          quiet.no_more ((timer_again p (timer_stop p l)).1.handle p).timer_cb p
              (timer_again p (timer_stop p l)).1 ready,
        ),
      )

  -- uv__run_timers returns, after at most one round more than there are timers due, where the callbacks
  -- leave the loop well-formed and make no further timer due: a repeating timer is started again behind
  -- the present time. Then no active timer is due any more.
  pub run_timers-IsRun :
      (fuel : ℕ) (l : Loop)
      → IsReady l
      → due_count l < fuel
      → (l' : Loop) × (run_timers call fuel l ≡ some l') × IsRun l'
  unfolding run_timers
  run_timers-IsRun zero l r enough = absurd (omega arith)
  run_timers-IsRun (suc fuel) l r enough = elim (heap_min-IsFirst l r.timers) [
    | inl (empty, none_on) ↦ (
      l,
      ground (arith, empty),
      record { ready = r; none_due = λ x on. absurd (ground (arith, none_on x, on)) },
    )
    | inr first ↦ elim (Bool-cases (ltb l.time (l.handle (heap_min l.timer_heap)).timeout)) [
      | inl early ↦ (
        l,
        ground (arith, first.some_p),
        record { ready = r; none_due = λ x on. ground (arith, first.first x on) },
      )
      | inr late ↦
          let (ready, fewer) = run_timer_due (heap_min l.timer_heap) l r first (ground arith) in
          let (l', ends, run) =
            run_timers-IsRun fuel (run_timer call (heap_min l.timer_heap) l) ready
              (omega (arith, fewer)) in
          (l', ground (arith, first.some_p, ends), run)
    ]
  ]
