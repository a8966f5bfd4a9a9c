-- ===== src/Threadpool/Tests.antt =====
-- Runs of the thread pool (libuv/src/threadpool.c).
use libuv_analyse.Base.{◌+◌, ◌≤◌, ◌<◌, ◌≡◌, ◌≢◌, ◌⊎◌, refl, true, false, some, [], ◌∷◌, arith}
use libuv_analyse.Loop.{success, ebusy}
use libuv_analyse.Loop.Count.{occurrences}
use libuv_analyse.Threadpool.{
  null_work, cancelled_work, user_work, cpu, top, running, Pool, pick, turn, placed, post, enqueue,
  work_submit, work_cancel, jobs,
}
use libuv_analyse.Threadpool.Tally.{tally, is_exited, runs}
use libuv_analyse.Threadpool.Sound.{IsSound, blocked, backlog}
use libuv_analyse.Threadpool.Steps.{
  ThreadStep, begins, Step, threads_step, submits, places, IsPrompt,
}
use libuv_analyse.Threadpool.Fate.{IsTracked}
use libuv_analyse.Threadpool.Cancel.{queued, work_cancel_lem}
use libuv_analyse.Threadpool.Init.{
  init_threads, threads_to_start, init_threads-IsSound, max_threadpool_size,
}
use libuv_analyse.Threadpool.Runs.{
  Reach, starts, and_then, Accounts, submitted, Reach-IsSound, Step-Accounts, Reach-progress,
  Reach-running,
}

-- Two threads; a request at 7 is submitted and the first thread takes it.
abbrev pool_0 : Pool
pool_0 = init_threads (some 2) true

abbrev pool_1 : Pool
pool_1 = work_submit 7 cpu pool_0

abbrev pool_2 : Pool
pool_2 = record pool_1 { wq = []; threads = running 7 false ∷ top ∷ [] }

submit_7 : Step pool_0 pool_1
unfolding places backlog tally runs occurrences jobs init_threads threads_to_start
submit_7 = submits 7 cpu refl refl

start_run : Reach (some 2) true pool_0
start_run = starts

submitted_run : Reach (some 2) true pool_1
submitted_run = and_then starts submit_7

taken_run : Reach (some 2) true pool_2
unfolding turn placed pick work_submit post enqueue init_threads threads_to_start
taken_run = and_then submitted_run (threads_step (begins 0 refl refl))

invariants_example : IsSound pool_2 × IsTracked pool_2
invariants_example = Reach-IsSound taken_run

conserved_example : Accounts (submitted submit_7) pool_0 pool_1
conserved_example = Step-Accounts start_run submit_7

progress_example : (p' : Pool) × (step : ThreadStep pool_1 p') × IsPrompt step × IsSound p'
unfolding tally is_exited blocked work_submit post enqueue init_threads threads_to_start
progress_example = Reach-progress pool_1 submitted_run refl (omega arith)

running_example :
    (pool_2.work 7 ≡ user_work)
    × (tally (runs 7) pool_2.threads ≡ 1)
    × (jobs 7 pool_2.wq
          + occurrences 7 pool_2.slow_io_pending_wq
          + occurrences 7 pool_2.loop_wq
          + occurrences 7 pool_2.delivering
        ≡ 0)
running_example = Reach-running pool_2 0 7 false taken_run refl

cancel_example :
    (0 < queued 7 pool_1)
      × (pool_1.work 7 ≢ null_work)
      × (tally (runs 7) pool_1.threads ≡ 0)
      × ((work_cancel 7 pool_1).0 ≡ success)
      × (backlog 7 (work_cancel 7 pool_1).1 ≡ 0)
      × (occurrences 7 (work_cancel 7 pool_1).1.loop_wq ≡ 1)
      × ((work_cancel 7 pool_1).1.work 7 ≡ cancelled_work)
    ⊎ ((queued 7 pool_1 ≡ 0) ⊎ (pool_1.work 7 ≡ null_work))
      × (work_cancel 7 pool_1 ≡ (ebusy, pool_1))
unfolding work_submit init_threads
cancel_example = work_cancel_lem 7 pool_1 (Reach-IsSound submitted_run).1 refl

-- uv_cancel of a request that was cancelled and whose `done` has been called: it returns 0 and queues the
-- request for the loop once more.
abbrev delivered_once : Pool
delivered_once = record pool_0 { work = λ w. cancelled_work; stale = λ w. true }

cancelled_again :
    ((work_cancel 7 delivered_once).0 ≡ success)
    × ((work_cancel 7 delivered_once).1.loop_wq ≡ 7 ∷ [])
unfolding work_cancel init_threads
cancelled_again = (refl, refl)

init_example :
    IsSound pool_0
    × IsTracked pool_0
    × (1 ≤ pool_0.nthreads)
    × (pool_0.nthreads ≤ max_threadpool_size)
init_example = init_threads-IsSound (some 2) true
