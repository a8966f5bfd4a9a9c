-- ===== src/Threadpool/Runs.antt =====
-- Every run of the thread pool (libuv/src/threadpool.c), from its start on.
use libuv_analyse.Base.{
  ℕ, ◌+◌, ◌≤◌, ◌<◌, ◌≡◌, ◌≢◌, by_if, sym, subst, ap, Bool, false, ◌&&◌, Option, some, List, [], ◌∷◌,
  get_elem?, ◌==◌, if◌then◌else◌, arith,
}
use libuv_analyse.Loop.{Status}
use libuv_analyse.Loop.Count.{occurrences}
use libuv_analyse.Threadpool.{
  Ptr, jobs, WorkKind, is_linked, has_work, threadpool_cleanup, user_work, top, waiting, running,
  finished, Pool, turn, leave_wait, hand_back, leave_work, work_submit, work_cancel, collect,
  deliver, at_threshold,
}
use libuv_analyse.Threadpool.Tally.{tally, is_exited, runs, le-tally}
use libuv_analyse.Threadpool.Sound.{IsSound, IsKept, IsKept-trans, blocked, backlog}
use libuv_analyse.Threadpool.Steps.{
  ThreadStep, begins, wakes, works, comes_back, Step, threads_step, submits, cancels, cleans_up,
  collects, delivers, places, turn-IsSound, set_self, Step-IsSound, progress, IsPrompt,
}
use libuv_analyse.Threadpool.Parts.{leave_wait-IsSound, leave_work-IsSound}
use libuv_analyse.Threadpool.Fate.{
  IsTracked, IsKept-IsTracked, hand_back-backlog, hand_back-loop_wq, leave_wait-IsKept,
  leave_work-IsKept, hand_back-IsTracked,
}
use libuv_analyse.Threadpool.Account.{
  work_submit-Added, threadpool_cleanup-Added, work_submit-IsTracked, threadpool_cleanup-IsTracked,
  collect-IsTracked, deliver-IsTracked,
}
use libuv_analyse.Threadpool.Cancel.{work_cancel-IsTracked, withdrawn-same, live-queued}
use libuv_analyse.Threadpool.Init.{init_threads, init_threads-IsSound}

-- A wake-up or a return, and the turn behind it, leave the requests where they were.
module _ {p p' : Pool} (i : ℕ) (s : IsSound p) where
  wakes-IsKept :
      (unblocked : Bool)
      → get_elem? p.threads i ≡ some waiting
      → (if unblocked then 0 < p.signalled else p.signalled < p.idle_threads)
      → turn i (leave_wait unblocked i p) ≡ some p'
      → IsKept p p'
  unfolding leave_wait
  wakes-IsKept unblocked e may t =
      IsKept-trans (leave_wait-IsKept p i unblocked e)
        (turn-IsSound i (leave_wait unblocked i p) p' (leave_wait-IsSound p i s unblocked e may)
          (set_self p.threads i waiting top e) t).1

  comes_back-IsKept :
      (slow : Bool)
      → get_elem? p.threads i ≡ some (finished slow)
      → turn i (leave_work slow i p) ≡ some p'
      → IsKept p p'
  unfolding leave_work
  comes_back-IsKept slow e t =
      IsKept-trans (leave_work-IsKept p i slow e)
        (turn-IsSound i (leave_work slow i p) p' (leave_work-IsSound p i s slow e)
          (set_self p.threads i (finished slow) top e) t).1

-- Each step keeps every request in one place at most, with the caller's function while it waits or runs,
-- and another once it has run or been cancelled, and a request for the loop to take is announced.
pub Step-IsTracked : {p p' : Pool} → Step p p' → IsSound p → IsTracked p → IsTracked p'
Step-IsTracked {p} {p'} (threads_step (begins i e t)) s k =
    IsKept-IsTracked (turn-IsSound i p p' s e t).1 k
Step-IsTracked (threads_step (wakes i unblocked e may t)) s k =
    IsKept-IsTracked (wakes-IsKept i s unblocked e may t) k
Step-IsTracked {p} {p'} (threads_step (works i w slow e t)) s k =
    subst IsTracked (sym t) (hand_back-IsTracked p i w slow e k)
Step-IsTracked (threads_step (comes_back i slow e t)) s k =
    IsKept-IsTracked (comes_back-IsKept i s slow e t) k
Step-IsTracked {p} {p'} (submits w kind new t) s k =
    subst IsTracked (sym t) (work_submit-IsTracked w kind p new k)
Step-IsTracked {p} {p'} (cancels w live t) s k =
    subst IsTracked (sym t) (work_cancel-IsTracked w p live k)
Step-IsTracked {p} {p'} (cleans_up t) s k =
    subst IsTracked (sym t) (threadpool_cleanup-IsTracked p k)
Step-IsTracked {p} {p'} (collects sent empty t) s k =
    subst IsTracked (sym t) (collect-IsTracked p empty k)
Step-IsTracked {p} {p'} (delivers w rest e t) s k =
    subst IsTracked (sym t) (deliver-IsTracked w rest p e k)

-- The pools that a run reaches.
pub data Reach (val : Option ℕ) (allocated : Bool) : Pool → Type 0 where
  starts : Reach val allocated (init_threads val allocated)
  and_then : {p p' : Pool} → Reach val allocated p → Step p p' → Reach val allocated p'

-- In every pool that a run reaches, the counts are sound and the requests tracked.
pub Reach-IsSound :
    {val : Option ℕ} {allocated : Bool} {p : Pool} → Reach val allocated p → IsSound p × IsTracked p
Reach-IsSound {val} {allocated} starts =
    let (sound, tracked, least, most) = init_threads-IsSound val allocated in (sound, tracked)
Reach-IsSound (and_then r step) =
    let (sound, tracked) = Reach-IsSound r in
    (Step-IsSound step sound, Step-IsTracked step sound tracked)

-- How often `done` has been called for a request.
unfoldable pub calls : Ptr → List (Ptr × Bool) → ℕ
calls w [] = 0
calls w ((v, err) ∷ log) = (if v == w then 1 else 0) + calls w log

-- How often a step submits a request.
unfoldable pub submitted : {p p' : Pool} → Step p p' → Ptr → ℕ
submitted (threads_step step) x = 0
submitted (submits w kind new t) x = if w == x then 1 else 0
submitted (cancels w live t) x = 0
submitted (cleans_up t) x = 0
submitted (collects sent empty t) x = 0
submitted (delivers w rest e t) x = 0

-- Each request is where it was, or `done` has been called for it since, but for the ones that are new; and no
-- call of `done` is undone.
abbrev pub Accounts : (Ptr → ℕ) → Pool → Pool → Type 0
Accounts new p p' =
    (w : Ptr)
    → (places w p' + calls w p'.called ≡ places w p + calls w p.called + new w)
      × (calls w p.called ≤ calls w p'.called)

abbrev none_new : Ptr → ℕ
none_new w = 0

kept-Accounts : {p p' : Pool} → IsKept p p' → Accounts none_new p p'
unfolding places
kept-Accounts {p} {p'} k w =
    rw (k.backlogs w, k.handed, k.delivered, k.calls) (omega arith, omega arith)

hand_back-Accounts :
    (p : Pool) (i : ℕ) (w : Ptr) (slow : Bool)
    → get_elem? p.threads i ≡ some (running w slow)
    → Accounts none_new p (hand_back w slow i p)
unfolding places hand_back
hand_back-Accounts p i w slow e x =
    (omega (arith, hand_back-backlog p i w slow x e, hand_back-loop_wq p i w slow x), omega arith)

work_submit-Accounts :
    (w : Ptr) (kind : WorkKind) (p : Pool)
    → Accounts (λ x. if w == x then 1 else 0) p (work_submit w kind p)
unfolding places backlog
work_submit-Accounts w kind p x =
    let (a, fn) = work_submit-Added w kind p in
    rw (a.handed, a.delivered, a.calls) (omega (arith, a.backlogs x), omega arith)

threadpool_cleanup-Accounts : (p : Pool) → Accounts none_new p (threadpool_cleanup p)
unfolding places
threadpool_cleanup-Accounts p x =
    let (a, fn) = threadpool_cleanup-Added p in
    rw (a.handed, a.delivered, a.calls) (ground (arith, a.backlogs x), omega arith)

work_cancel-Accounts :
    (w : Ptr) (p : Pool)
    → (p.stale w && has_work (p.work w)) ≡ false
    → IsTracked p
    → Accounts none_new p (work_cancel w p).1
unfolding work_cancel
work_cancel-Accounts w p live t =
    by_if (λ (r : Status × Pool). Accounts none_new p r.1) (is_linked w p && has_work (p.work w))
      (λ c x. (omega (arith, withdrawn-same w p t (live-queued w p live c) x), omega arith))
      (λ c x. (omega arith, omega arith))

deliver-Accounts :
    (w : Ptr) (rest : List Ptr) (p : Pool)
    → p.delivering ≡ w ∷ rest
    → Accounts none_new p (deliver w rest p)
unfolding places deliver backlog occurrences calls
deliver-Accounts w rest p here x = (ground (arith, ap (occurrences x) here), ground arith)

collect-Accounts : (p : Pool) → p.delivering ≡ [] → Accounts none_new p (collect p)
unfolding places collect backlog occurrences
collect-Accounts p free x = (omega (arith, ap (occurrences x) free), omega arith)

-- A step of a pool that a run reaches neither loses nor doubles a request. For each request, the number of queues
-- and threads in which it stands and of calls of its `done` together is as before, but for the request that
-- the step submits, if it does, for which it is one more; and the number of the calls does not get less.
pub Step-Accounts :
    {val : Option ℕ} {allocated : Bool} {p p' : Pool}
    → Reach val allocated p
    → (step : Step p p') → Accounts (submitted step) p p'
unfolding submitted
Step-Accounts {val} {allocated} {p} {p'} r (threads_step (begins i e t)) =
    kept-Accounts (turn-IsSound i p p' (Reach-IsSound r).0 e t).1
Step-Accounts {val} {allocated} {p} {p'} r (threads_step (wakes i unblocked e may t)) =
    kept-Accounts (wakes-IsKept i (Reach-IsSound r).0 unblocked e may t)
Step-Accounts {val} {allocated} {p} {p'} r (threads_step (works i w slow e t)) =
    subst (Accounts none_new p) (sym t) (hand_back-Accounts p i w slow e)
Step-Accounts {val} {allocated} {p} {p'} r (threads_step (comes_back i slow e t)) =
    kept-Accounts (comes_back-IsKept i (Reach-IsSound r).0 slow e t)
Step-Accounts {val} {allocated} {p} {p'} r (submits w kind new t) =
    subst (Accounts (λ x. if w == x then 1 else 0) p) (sym t) (work_submit-Accounts w kind p)
Step-Accounts {val} {allocated} {p} {p'} r (cancels w live t) =
    subst (Accounts none_new p) (sym t) (work_cancel-Accounts w p live (Reach-IsSound r).1)
Step-Accounts {val} {allocated} {p} {p'} r (cleans_up t) =
    subst (Accounts none_new p) (sym t) (threadpool_cleanup-Accounts p)
Step-Accounts {val} {allocated} {p} {p'} r (collects sent empty t) =
    subst (Accounts none_new p) (sym t) (collect-Accounts p empty)
Step-Accounts {val} {allocated} {p} {p'} r (delivers w rest e t) =
    subst (Accounts none_new p) (sym t) (deliver-Accounts w rest p e)

-- No wake-up is lost: in a pool that a run reaches, where the queue has something that may be done now and
-- not all threads have ended, some thread can step without waking up by itself: it starts, is unblocked by a
-- signal, is done with the function of its request, or comes back for the next.
pub Reach-progress :
    {val : Option ℕ} {allocated : Bool} (p : Pool)
    → Reach val allocated p
    → blocked p.wq (at_threshold p) ≡ false
    → tally is_exited p.threads ≢ p.nthreads
    → (p' : Pool) × (step : ThreadStep p p') × IsPrompt step × IsSound p'
Reach-progress p r free alive =
    let (p', step, prompt) = progress p (Reach-IsSound r).0 free alive in
    (p', step, prompt, Step-IsSound (threads_step step) (Reach-IsSound r).0)

-- What a thread runs in a pool that a run reaches is a request with the caller's function, which no other thread
-- runs and which stands in no queue: uv__cancelled, which aborts the program, never runs.
pub Reach-running :
    {val : Option ℕ} {allocated : Bool} (p : Pool) (i : ℕ) (w : Ptr) (slow : Bool)
    → Reach val allocated p
    → get_elem? p.threads i ≡ some (running w slow)
    → (p.work w ≡ user_work)
      × (tally (runs w) p.threads ≡ 1)
      × (jobs w p.wq
            + occurrences w p.slow_io_pending_wq
            + occurrences w p.loop_wq
            + occurrences w p.delivering
          ≡ 0)
unfolding places backlog runs
Reach-running p i w slow r e =
    let t = (Reach-IsSound r).1 in
    let there : 1 ≤ tally (runs w) p.threads =
      ground (arith, le-tally (runs w) p.threads i (running w slow) e) in
    (
      t.ready w (omega (arith, there)),
      omega (arith, there, t.unique w),
      omega (arith, there, t.unique w),
    )
