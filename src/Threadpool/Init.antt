-- ===== src/Threadpool/Init.antt =====
-- The start of the thread pool: init_threads (libuv/src/threadpool.c).
use libuv_analyse.Base.{
  ℕ, zero, suc, ◌≤◌, ◌≡◌, refl, Bool, false, Option, none, some, [], replicate, length-replicate,
  ltb, ◌==◌, if◌then◌else◌, arith,
}
use libuv_analyse.Loop.Count.{occurrences}
use libuv_analyse.Threadpool.{null_work, Pc, top, Pool, jobs}
use libuv_analyse.Threadpool.Tally.{tally, is_waiting, is_busy, is_exited, is_slow, runs}
use libuv_analyse.Threadpool.Sound.{messages, blocked, IsSound, backlog}
use libuv_analyse.Threadpool.Steps.{places}
use libuv_analyse.Threadpool.Fate.{IsTracked}

-- ARRAY_SIZE(default_threads).
abbrev pub default_threads : ℕ
default_threads = 4

abbrev pub max_threadpool_size : ℕ
max_threadpool_size = 1024

-- The number of threads. `val` is what atoi makes of UV_THREADPOOL_SIZE, as an `unsigned int`, where that is
-- set, and `allocated` says whether uv__malloc gave memory.
unfoldable pub threads_to_start : Option ℕ → Bool → ℕ
threads_to_start val allocated =
    let wanted : ℕ = elim val [ none ↦ default_threads | some n ↦ n ] in
    let at_least = if wanted == 0 then 1 else wanted in
    let n = if ltb max_threadpool_size at_least then max_threadpool_size else at_least in
    if ltb default_threads n then (if allocated then n else default_threads) else n

-- The pool once its threads have been created.
unfoldable pub init_threads : Option ℕ → Bool → Pool
unfolding threads_to_start
init_threads val allocated = record {
  nthreads = threads_to_start val allocated;
  idle_threads = 0;
  slow_io_work_running = 0;
  wq = [];
  slow_io_pending_wq = [];
  threads = replicate (threads_to_start val allocated) top;
  signalled = 0;
  work = λ w. null_work;
  loop_wq = [];
  async_sent = false;
  delivering = [];
  called = [];
  stale = λ w. false;
  active_reqs = 0;
}

pub threads_to_start_bounds :
    (val : Option ℕ) (allocated : Bool)
    → (1 ≤ threads_to_start val allocated) × (threads_to_start val allocated ≤ max_threadpool_size)
unfolding threads_to_start
threads_to_start_bounds none allocated = ground arith
threads_to_start_bounds (some n) allocated = ground arith

tally-replicate : (f : Pc → ℕ) (n : ℕ) → f top ≡ 0 → tally f (replicate n top) ≡ 0
unfolding tally
tally-replicate f zero e = refl
tally-replicate f (suc n) e = omega (arith, e, tally-replicate f n e)

-- The pool starts with between 1 and 1024 threads, whatever the environment says, sound and with no request.
pub init_threads-IsSound :
    (val : Option ℕ) (allocated : Bool)
    → IsSound (init_threads val allocated)
      × IsTracked (init_threads val allocated)
      × (1 ≤ (init_threads val allocated).nthreads)
      × ((init_threads val allocated).nthreads ≤ max_threadpool_size)
unfolding init_threads is_waiting is_slow is_busy is_exited runs messages blocked backlog places
    occurrences jobs
init_threads-IsSound val allocated =
    let n = threads_to_start val allocated in
    let bounds = threads_to_start_bounds val allocated in
    (
      record {
        size = length-replicate n top;
        fits = bounds.1;
        idle = omega (arith, tally-replicate is_waiting n refl);
        slow = omega (arith, tally-replicate is_slow n refl);
        limit = omega arith;
        one_message = omega arith;
        scheduled = λ some_slow. absurd (omega arith);
        unblocked = omega arith;
        awake = λ free. absurd (ground (arith, free));
      },
      record {
        unique = λ w. omega (arith, tally-replicate (runs w) n refl);
        ready = λ w some_place. absurd (omega (arith, tally-replicate (runs w) n refl));
        ended = λ w some_place. absurd (omega arith);
        sent = λ some_left. absurd (omega arith);
      },
      bounds.0,
      bounds.1,
    )
