-- ===== src/Run.antt =====
-- The loop of events: uv_run, uv__run_pending (libuv/src/unix/core.c) and uv__update_time
-- (libuv/src/unix/internal.h), over the parts of the modules Timer, Watcher and Iteration.
pub mod Sound
pub mod Times
pub mod Timers
pub mod Leaving
pub mod Closing
pub mod Round
pub mod Phases
pub mod Ends
pub mod Tests
use libuv_analyse.Base.{
  ℕ, zero, suc, Bool, true, false, ◌&&◌, ◌||◌, not, Option, none, some, List, [], ◌∷◌, ◌==◌,
  if◌then◌else◌,
}
use libuv_analyse.Heap.{Ptr}
use libuv_analyse.Loop.{Loop}
use libuv_analyse.Timer.{run_timers}
use libuv_analyse.Watcher.{prepare, check, idle, run_watchers}
use libuv_analyse.Iteration.{Closers, empty, run_closing_handles, loop_alive, backend_timeout}

-- uv_run_mode.
pub data Mode : Type 0 where
  run_default run_once run_nowait : Mode

abbrev pub is_once : Mode → Bool
is_once m = elim m [ run_once ↦ true | _ ↦ false ]

abbrev pub is_default : Mode → Bool
is_default m = elim m [ run_default ↦ true | _ ↦ false ]

-- The callbacks of the handles are in `closers`; `ready` is the callback of a watcher of a descriptor, called with
-- POLLOUT.
pub record Outside : Type 0 where
  pub closers : Closers
  pub ready : Ptr → Loop → Loop

-- What stands outside in one iteration: the two times that the clock shows, in milliseconds, and uv__io_poll, which
-- waits for as long as it is told (`none` is -1) and calls the watchers of the descriptors that are ready.
pub record Input : Type 0 where
  pub now : ℕ
  pub poll : Option ℕ → Loop → Loop
  pub later : ℕ

unfoldable pub update_time : ℕ → Loop → Loop
update_time now l = record l { time = now }

abbrev pub and_then {ℓ ℓ'} : {A : Type ℓ} {B : Type ℓ'} → Option A → (A → Option B) → Option B
and_then none f = none
and_then (some a) f = f a

-- The first watcher of the local queue, which is the queue `moved` of the loop.
unfoldable pub pending_next : List Ptr → Loop → (Ptr → Loop → Option Loop) → Option Loop
pending_next [] l f = some l
pending_next (p ∷ rest) l f = f p (record l { moved = rest })

unfoldable pub pending_all : ℕ → (Ptr → Loop → Loop) → Loop → Option Loop
unfolding pending_next
pending_all zero ready l = none
pending_all (suc fuel) ready l = pending_next l.moved l (λ p t. pending_all fuel ready (ready p t))

unfoldable pub run_pending : ℕ → (Ptr → Loop → Loop) → Loop → Option (Bool × Loop)
unfolding pending_all
run_pending fuel ready l =
    if empty l.pending_queue
    then some (false, l)
    else and_then
        (pending_all fuel ready (record l { moved = l.pending_queue; pending_queue = [] }))
        (λ t. some (true, t))

-- How long uv__io_poll may wait.
unfoldable pub wait_of : Mode → Bool → Loop → Option ℕ
wait_of mode ran_pending l =
    if (is_once mode && not ran_pending) || is_default mode then backend_timeout l else some 0

-- From uv__update_time to uv__io_poll.
unfoldable pub first_half : ℕ → Outside → Mode → Input → Loop → Option Loop
unfolding run_pending wait_of
first_half fuel w mode i l = and_then (run_timers w.closers.call fuel (update_time i.now l)) (λ l₁.
    and_then (run_pending fuel w.ready l₁) (λ r.
      and_then (run_watchers w.closers.call idle fuel r.1) (λ l₃.
        and_then (run_watchers w.closers.call prepare fuel l₃)
          (λ l₄. some (i.poll (wait_of mode r.0 l₄) l₄)))))

unfoldable pub timers_again : ℕ → Outside → Mode → Input → Loop → Option Loop
timers_again fuel w run_once i l = run_timers w.closers.call fuel (update_time i.later l)
timers_again fuel w run_default i l = some l
timers_again fuel w run_nowait i l = some l

-- The rest of the body of the loop of uv_run.
unfoldable pub second_half : ℕ → Outside → Mode → Input → Loop → Option Loop
unfolding timers_again
second_half fuel w mode i l =
    and_then (run_watchers w.closers.call check fuel l)
      (λ l₁. timers_again fuel w mode i (run_closing_handles w.closers l₁))

unfoldable pub iteration : ℕ → Outside → Mode → Input → Loop → Option Loop
unfolding first_half second_half
iteration fuel w mode i l = and_then (first_half fuel w mode i l) (λ t. second_half fuel w mode i t)

-- What uv_run returns, the loop, and the iterations that were not begun; or it goes on behind the iterations that are
-- given; or the fuel of an iteration has run out.
pub data Outcome : Type 0 where
  returned : Bool → Loop → List Input → Outcome
  goes_on : Loop → Outcome
  out_of_fuel : Outcome

-- Behind the loop: the flag is 0 afterwards, whether it was set or not.
unfoldable pub leave : Bool → Loop → List Input → Outcome
leave r l left = returned r (record l { stop_flag = 0 }) left

-- The end of an iteration, with its `break`.
unfoldable pub break_or : Mode → List Input → Option Loop → (Loop → Outcome) → Outcome
unfolding leave
break_or mode left none again = out_of_fuel
break_or run_default left (some l) again = again l
break_or run_once left (some l) again = leave (loop_alive l) l left
break_or run_nowait left (some l) again = leave (loop_alive l) l left

-- `while (r != 0 && loop->stop_flag == 0)`.
unfoldable pub while_on : Bool → Outcome → (Loop → Outcome) → Loop → Outcome
while_on false out body l = out
while_on true out body l = body l

unfoldable pub run_loop : ℕ → Outside → Mode → List Input → Bool → Loop → Outcome
unfolding while_on break_or
run_loop fuel w mode [] r l = while_on (r && (l.stop_flag == 0)) (leave r l []) goes_on l
run_loop fuel w mode (i ∷ is) r l =
    while_on (r && (l.stop_flag == 0)) (leave r l (i ∷ is))
      (λ t.
        break_or mode is (iteration fuel w mode i t)
          (λ u. run_loop fuel w mode is (loop_alive u) u))
      l

-- `now` is the time that the clock shows where nothing is alive.
unfoldable pub run : ℕ → Outside → Mode → ℕ → List Input → Loop → Outcome
unfolding run_loop
run fuel w mode now is l =
    run_loop fuel w mode is (loop_alive l) (if loop_alive l then l else update_time now l)
