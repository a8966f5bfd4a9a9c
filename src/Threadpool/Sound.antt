-- ===== src/Threadpool/Sound.antt =====
-- The counts of the thread pool (libuv/src/threadpool.c), the message for slow requests and the wake-ups.
use libuv_analyse.Base.{
  ℕ, ◌+◌, ◌/◌, ◌≤◌, ◌<◌, ◌≡◌, ◌⊎◌, ◌∙◌, Bool, true, false, List, [], ◌∷◌, ◌++◌, length, set, arith,
}
use libuv_analyse.Loop.Count.{occurrences}
use libuv_analyse.Threadpool.{
  Ptr, Entry, job, exit_message, run_slow_work_message, Pc, Pool, at_threshold, jobs,
}
use libuv_analyse.Threadpool.Tally.{tally, is_waiting, is_busy, is_exited, is_slow, runs}

unfoldable pub messages : List Entry → ℕ
messages [] = 0
messages (run_slow_work_message ∷ q) = 1 + messages q
messages (exit_message ∷ q) = messages q
messages (job w ∷ q) = messages q

-- The test of the inner loop of `worker`: nothing that a thread may do now.
unfoldable pub blocked : List Entry → Bool → Bool
blocked [] full = true
blocked (run_slow_work_message ∷ []) full = full
blocked (run_slow_work_message ∷ e ∷ q) full = false
blocked (exit_message ∷ q) full = false
blocked (job w ∷ q) full = false

-- What holds of the pool between two steps: the counters count the threads, at most half of the threads,
-- rounded up, run slow requests, the message stands in `wq` once at most, and does where slow requests are
-- pending, and where there is something to do, a thread is awake or has been unblocked, or all have ended.
pub record IsSound (p : Pool) : Type 0 where
  pub size : length p.threads ≡ p.nthreads
  pub fits : p.nthreads ≤ 1024
  pub idle : p.idle_threads ≡ tally is_waiting p.threads
  pub slow : p.slow_io_work_running ≡ tally is_slow p.threads
  pub limit : p.slow_io_work_running ≤ (p.nthreads + 1) / 2
  pub one_message : messages p.wq ≤ 1
  pub scheduled : 0 < length p.slow_io_pending_wq → messages p.wq ≡ 1
  pub unblocked : p.signalled ≤ p.idle_threads
  pub awake :
      blocked p.wq (at_threshold p) ≡ false
      → (0 < p.signalled + tally is_busy p.threads) ⊎ (tally is_exited p.threads ≡ p.nthreads)

-- The requests that are to run or run now, by how often each is there.
unfoldable pub backlog : Ptr → Pool → ℕ
backlog w p = jobs w p.wq + occurrences w p.slow_io_pending_wq + tally (runs w) p.threads

-- What a turn of a thread at the queue leaves as it was.
pub record IsKept (p p' : Pool) : Type 0 where
  pub backlogs : (w : Ptr) → backlog w p' ≡ backlog w p
  pub works : p'.work ≡ p.work
  pub handed : p'.loop_wq ≡ p.loop_wq
  pub delivered : p'.delivering ≡ p.delivering
  pub sent : p'.async_sent ≡ p.async_sent
  pub calls : p'.called ≡ p.called
  pub total : p'.nthreads ≡ p.nthreads

pub IsKept-trans : {p q r : Pool} → IsKept p q → IsKept q r → IsKept p r
IsKept-trans k l = record {
  backlogs = λ w. l.backlogs w ∙ k.backlogs w;
  works = l.works ∙ k.works;
  handed = l.handed ∙ k.handed;
  delivered = l.delivered ∙ k.delivered;
  sent = l.sent ∙ k.sent;
  calls = l.calls ∙ k.calls;
  total = l.total ∙ k.total;
}

-- Thread `i` is at `pc`.
abbrev pub place : ℕ → Pc → Pool → Pool
place i pc p = record p { threads = set p.threads i pc }

pub messages-append : (q r : List Entry) → messages (q ++ r) ≡ messages q + messages r
unfolding messages
messages-append [] r = omega arith
messages-append (run_slow_work_message ∷ q) r = omega (arith, messages-append q r)
messages-append (exit_message ∷ q) r = messages-append q r
messages-append (job w ∷ q) r = messages-append q r

pub jobs-append : (w : Ptr) (q r : List Entry) → jobs w (q ++ r) ≡ jobs w q + jobs w r
unfolding jobs
jobs-append w [] r = omega arith
jobs-append w (job v ∷ q) r = omega (arith, jobs-append w q r)
jobs-append w (exit_message ∷ q) r = jobs-append w q r
jobs-append w (run_slow_work_message ∷ q) r = jobs-append w q r
