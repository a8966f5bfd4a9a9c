-- ===== src/Threadpool/Steps.antt =====
-- The interleaved steps of the threads, the loop and the callers of the thread pool
-- (libuv/src/threadpool.c), and what holds after any number of them.
use libuv_analyse.Base.{
  ℕ, zero, suc, ◌+◌, ◌<◌, ◌≡◌, ◌≢◌, refl, sym, subst, Bool, true, false, ◌&&◌, some, List, [], ◌∷◌,
  set, get_elem?, if◌then◌else◌, arith,
}
use libuv_analyse.Threadpool.{
  Ptr, WorkKind, Pc, top, waiting, exited, running, finished, Pool, turn, leave_wait, hand_back,
  leave_work, work_submit, threadpool_cleanup, work_cancel, collect, deliver, at_threshold,
  has_work,
}
use libuv_analyse.Threadpool.Tally.{tally, is_waiting}
use native.Mathlib.Decide.{dec_lt}
use libuv_analyse.Loop.Count.{occurrences}
use libuv_analyse.Threadpool.Tally.{is_busy, is_exited, tally_pos}
use libuv_analyse.Threadpool.Sound.{IsSound, IsKept, blocked, backlog}
use libuv_analyse.Threadpool.Turn.{turn_ends}
use libuv_analyse.Threadpool.Parts.{leave_wait-IsSound, hand_back-IsSound, leave_work-IsSound}
use libuv_analyse.Threadpool.Queues.{
  work_submit-IsSound, threadpool_cleanup-IsSound, work_cancel-IsSound, collect-IsSound,
  deliver-IsSound,
}

-- How often a request is in a queue or runs. It is submitted only where this is 0.
unfoldable pub places : Ptr → Pool → ℕ
places w p = backlog w p + occurrences w p.loop_wq + occurrences w p.delivering

-- A step of a thread: it starts, wakes up by a signal (`unblocked`) or without one, is done with the function
-- of its request, or comes back for the next.
pub data ThreadStep (p p' : Pool) : Type 0 where
  begins : (i : ℕ) → get_elem? p.threads i ≡ some top → turn i p ≡ some p' → ThreadStep p p'
  wakes :
      (i : ℕ) (unblocked : Bool)
      → get_elem? p.threads i ≡ some waiting
      → (if unblocked then 0 < p.signalled else p.signalled < p.idle_threads)
      → turn i (leave_wait unblocked i p) ≡ some p'
      → ThreadStep p p'
  works :
      (i : ℕ) (w : Ptr) (slow : Bool)
      → get_elem? p.threads i ≡ some (running w slow)
      → p' ≡ hand_back w slow i p
      → ThreadStep p p'
  comes_back :
      (i : ℕ) (slow : Bool)
      → get_elem? p.threads i ≡ some (finished slow)
      → turn i (leave_work slow i p) ≡ some p'
      → ThreadStep p p'

-- One step. A thread steps; the caller submits or cancels a request or ends the pool; the loop takes the
-- requests that are done, and calls `done` for one of them. A request that was cancelled is not cancelled
-- once more after its `done` has been called (and it has not been submitted again).
pub data Step (p p' : Pool) : Type 0 where
  threads_step : ThreadStep p p' → Step p p'
  submits : (w : Ptr) (kind : WorkKind) → places w p ≡ 0 → p' ≡ work_submit w kind p → Step p p'
  cancels :
      (w : Ptr) → (p.stale w && has_work (p.work w)) ≡ false → p' ≡ (work_cancel w p).1 → Step p p'
  cleans_up : p' ≡ threadpool_cleanup p → Step p p'
  collects : p.async_sent ≡ true → p.delivering ≡ [] → p' ≡ collect p → Step p p'
  delivers :
      (w : Ptr) (rest : List Ptr) → p.delivering ≡ w ∷ rest → p' ≡ deliver w rest p → Step p p'

pub set_self :
    (ts : List Pc) (i : ℕ) (old new : Pc)
    → get_elem? ts i ≡ some old
    → get_elem? (set ts i new) i ≡ some new
set_self [] i old new e = ground (arith, e)
set_self (pc ∷ ts) zero old new e = refl
set_self (pc ∷ ts) (suc i) old new e = set_self ts i old new e

-- A turn has one outcome.
pub turn-IsSound :
    (i : ℕ) (p p' : Pool)
    → IsSound p
    → get_elem? p.threads i ≡ some top
    → turn i p ≡ some p'
    → IsSound p' × IsKept p p'
turn-IsSound i p p' s e here =
    let (q, ends, sound, kept) = turn_ends p i s e in
    subst (λ z. IsSound z × IsKept p z) (cc (ends, here)) (sound, kept)

-- Each step keeps the counts: `idle_threads` and `slow_io_work_running` count the threads that wait and that run
-- slow requests, at most half of the threads, rounded up, run slow requests, the message for these stands in
-- `wq` at most once and does where slow requests are pending, and where something can be done, a thread
-- is awake or unblocked, or all have ended.
pub Step-IsSound : {p p' : Pool} → Step p p' → IsSound p → IsSound p'
unfolding leave_wait leave_work
Step-IsSound {p} {p'} (threads_step (begins i e t)) s = (turn-IsSound i p p' s e t).0
Step-IsSound {p} {p'} (threads_step (wakes i unblocked e may t)) s =
    (turn-IsSound i (leave_wait unblocked i p) p' (leave_wait-IsSound p i s unblocked e may)
      (set_self p.threads i waiting top e) t).0
Step-IsSound {p} {p'} (threads_step (works i w slow e t)) s =
    subst IsSound (sym t) (hand_back-IsSound p i s w slow e)
Step-IsSound {p} {p'} (threads_step (comes_back i slow e t)) s =
    (turn-IsSound i (leave_work slow i p) p' (leave_work-IsSound p i s slow e)
      (set_self p.threads i (finished slow) top e) t).0
Step-IsSound {p} {p'} (submits w kind new t) s =
    subst IsSound (sym t) (work_submit-IsSound p s w kind)
Step-IsSound {p} {p'} (cancels w live t) s = subst IsSound (sym t) (work_cancel-IsSound w p s)
Step-IsSound {p} {p'} (cleans_up t) s = subst IsSound (sym t) (threadpool_cleanup-IsSound p s)
Step-IsSound {p} {p'} (collects sent empty t) s = subst IsSound (sym t) (collect-IsSound p s)
Step-IsSound {p} {p'} (delivers w rest e t) s = subst IsSound (sym t) (deliver-IsSound w rest p s)

-- A step of a thread that is not a wake-up without a signal.
unfoldable pub IsPrompt : {p p' : Pool} → ThreadStep p p' → Type 0
IsPrompt (begins i e t) = Unit
IsPrompt (wakes i unblocked e may t) = unblocked ≡ true
IsPrompt (works i w slow e t) = Unit
IsPrompt (comes_back i slow e t) = Unit

-- Where something can be done and not all threads have ended, some thread can step, without waking up by
-- itself: no wake-up is lost.
pub progress :
    (p : Pool)
    → IsSound p
    → blocked p.wq (at_threshold p) ≡ false
    → tally is_exited p.threads ≢ p.nthreads
    → (p' : Pool) × (step : ThreadStep p p') × IsPrompt step
unfolding is_busy is_waiting leave_wait leave_work IsPrompt
progress p s free alive = elim (dec_lt 0 (tally is_busy p.threads)) [
  | yes busy ↦ let (i, pc, e, b) = tally_pos is_busy p.threads busy in busy_step i pc e b
  | no quiet ↦
      let may : 0 < p.signalled = ground (arith, s.awake free, quiet, alive) in
      let (i, pc, e, b) =
        tally_pos is_waiting p.threads (omega (arith, may, s.unblocked, s.idle)) in
      waiting_step i pc e b may
]
  where
    busy_step :
        (i : ℕ) (pc : Pc)
        → get_elem? p.threads i ≡ some pc
        → 0 < is_busy pc
        → (p' : Pool) × (step : ThreadStep p p') × IsPrompt step
    busy_step i top e b = let (q, ends, sound, kept) = turn_ends p i s e in (q, begins i e ends, tt)
    busy_step i waiting e b = absurd (omega arith)
    busy_step i exited e b = absurd (omega arith)
    busy_step i (running w slow) e b = (hand_back w slow i p, works i w slow e refl, tt)
    busy_step i (finished slow) e b =
        let (q, ends, sound, kept) =
          turn_ends (leave_work slow i p) i (leave_work-IsSound p i s slow e)
            (set_self p.threads i (finished slow) top e) in
        (q, comes_back i slow e ends, tt)

    waiting_step :
        (i : ℕ) (pc : Pc)
        → get_elem? p.threads i ≡ some pc
        → 0 < is_waiting pc
        → 0 < p.signalled
        → (p' : Pool) × (step : ThreadStep p p') × IsPrompt step
    waiting_step i waiting e b may =
        let (q, ends, sound, kept) =
          turn_ends (leave_wait true i p) i (leave_wait-IsSound p i s true e may)
            (set_self p.threads i waiting top e) in
        (q, wakes i true e may ends, refl)
    waiting_step i top e b may = absurd (omega arith)
    waiting_step i exited e b may = absurd (omega arith)
    waiting_step i (running w slow) e b may = absurd (omega arith)
    waiting_step i (finished slow) e b may = absurd (omega arith)
