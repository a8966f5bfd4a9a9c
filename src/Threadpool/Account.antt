-- ===== src/Threadpool/Account.antt =====
-- What submitting, cancelling, taking and delivering do to the requests of the thread pool.
use libuv_analyse.Base.{
  ℕ, ◌+◌, ◌≡◌, refl, ap, by_if, Bool, List, [], ◌∷◌, ◌++◌, ltb, ◌==◌, if◌then◌else◌, arith,
}
use libuv_analyse.Loop.Count.{occurrences, occurrences-append}
use libuv_analyse.Threadpool.{
  Ptr, WorkFn, user_work, WorkKind, cpu, fast_io, slow_io, Entry, job, exit_message,
  run_slow_work_message, Pool, signal, enqueue, post, work_submit, threadpool_cleanup, collect,
  deliver, jobs, is_scheduled,
}
use libuv_analyse.Threadpool.Tally.{tally, runs}
use libuv_analyse.Threadpool.Sound.{backlog, jobs-append}
use libuv_analyse.Threadpool.Steps.{places}
use libuv_analyse.Threadpool.Fate.{IsTracked}

-- One more request at `w`, and all else of the requests but its function as it was.
pub record Added (w : Ptr) (extra : ℕ) (p p' : Pool) : Type 0 where
  pub backlogs : (x : Ptr) → backlog x p' ≡ backlog x p + (if w == x then extra else 0)
  pub handed : p'.loop_wq ≡ p.loop_wq
  pub delivered : p'.delivering ≡ p.delivering
  pub sent : p'.async_sent ≡ p.async_sent
  pub calls : p'.called ≡ p.called

-- `p` with other work functions, and then an entry at the end of the queue.
enqueue-Added :
    (w : Ptr) (extra : ℕ) (e : Entry) (p : Pool) (pending : List Ptr) (work : Ptr → WorkFn)
    (stale : Ptr → Bool)
    → ((x : Ptr)
        → jobs x (e ∷ []) + occurrences x pending
          ≡ occurrences x p.slow_io_pending_wq + (if w == x then extra else 0))
    → let q : Pool =
        enqueue e (record p { slow_io_pending_wq = pending; work = work; stale = stale }) in
      Added w extra p q × (q.work ≡ work)
unfolding enqueue signal backlog
enqueue-Added w extra e p pending work stale one =
    by_if (λ (z : Pool). Added w extra p z × (z.work ≡ work)) (ltb 0 p.idle_threads)
      (λ some_idle. (
        record { backlogs = backlogs; handed = refl; delivered = refl; sent = refl; calls = refl },
        refl,
      ))
      (λ none_idle. (
        record { backlogs = backlogs; handed = refl; delivered = refl; sent = refl; calls = refl },
        refl,
      ))
  where
    backlogs :
        (x : Ptr)
        → jobs x (p.wq ++ (e ∷ [])) + occurrences x pending + tally (runs x) p.threads
          ≡ backlog x p + (if w == x then extra else 0)
    backlogs x = omega (arith, one x, jobs-append x p.wq (e ∷ []))

pub work_submit-Added :
    (w : Ptr) (kind : WorkKind) (p : Pool)
    → Added w 1 p (work_submit w kind p)
      × ((work_submit w kind p).work ≡ (λ v. if v == w then user_work else p.work v))
unfolding work_submit post jobs occurrences backlog
work_submit-Added w cpu p = enqueue-Added w 1 (job w) p p.slow_io_pending_wq _ _ (λ x. omega arith)
work_submit-Added w fast_io p =
    enqueue-Added w 1 (job w) p p.slow_io_pending_wq _ _ (λ x. omega arith)
work_submit-Added w slow_io p =
    by_if (λ (z : Pool). Added w 1 p z × (z.work ≡ (λ v. if v == w then user_work else p.work v)))
      (is_scheduled p.wq)
      (λ there. (
        record {
          backlogs = λ x. omega (arith, occurrences-append x p.slow_io_pending_wq (w ∷ []));
          handed = refl;
          delivered = refl;
          sent = refl;
          calls = refl;
        },
        refl,
      ))
      (λ none_there.
        enqueue-Added w 1 run_slow_work_message p (p.slow_io_pending_wq ++ (w ∷ [])) _ _
          (λ x. omega (arith, occurrences-append x p.slow_io_pending_wq (w ∷ []))))

pub work_submit-IsTracked :
    (w : Ptr) (kind : WorkKind) (p : Pool)
    → places w p ≡ 0
    → IsTracked p
    → IsTracked (work_submit w kind p)
unfolding places
work_submit-IsTracked w kind p new t =
    let (a, fn) = work_submit-Added w kind p in
    record {
      unique = λ x. rw (a.handed, a.delivered) (ground (arith, a.backlogs x, t.unique x, new));
      ready = λ x some_place. rw fn (ground (arith, a.backlogs x, t.ready x, some_place));
      ended = λ x some_place.
          rw fn (ground (arith, new, rw (a.handed, a.delivered) at some_place, t.ended x));
      sent = rw (a.handed, a.sent) t.sent;
    }

pub threadpool_cleanup-Added :
    (p : Pool) → Added 0 0 p (threadpool_cleanup p) × ((threadpool_cleanup p).work ≡ p.work)
unfolding threadpool_cleanup backlog jobs
threadpool_cleanup-Added p =
    by_if (λ (z : Pool). Added 0 0 p z × (z.work ≡ p.work)) (p.nthreads == 0)
      (λ none_there. (
        record {
          backlogs = λ x. ground arith;
          handed = refl;
          delivered = refl;
          sent = refl;
          calls = refl;
        },
        refl,
      ))
      (λ some_thread.
        enqueue-Added 0 0 exit_message p p.slow_io_pending_wq p.work p.stale (λ x. ground arith))

pub threadpool_cleanup-IsTracked : (p : Pool) → IsTracked p → IsTracked (threadpool_cleanup p)
unfolding places
threadpool_cleanup-IsTracked p t =
    let (a, fn) = threadpool_cleanup-Added p in
    record {
      unique = λ x. rw (a.handed, a.delivered) (ground (arith, a.backlogs x, t.unique x));
      ready = λ x some_place. rw fn (ground (arith, a.backlogs x, t.ready x, some_place));
      ended = λ x. rw (fn, a.handed, a.delivered) (t.ended x);
      sent = rw (a.handed, a.sent) t.sent;
    }

pub collect-IsTracked : (p : Pool) → p.delivering ≡ [] → IsTracked p → IsTracked (collect p)
unfolding places collect backlog occurrences
collect-IsTracked p free t = record {
  unique = λ x. omega (arith, t.unique x, ap (occurrences x) free);
  ready = t.ready;
  ended = λ x some_place. t.ended x (omega (arith, some_place, ap (occurrences x) free));
  sent = λ some_left. absurd (omega arith);
}

pub deliver-IsTracked :
    (w : Ptr) (rest : List Ptr) (p : Pool)
    → p.delivering ≡ w ∷ rest
    → IsTracked p
    → IsTracked (deliver w rest p)
unfolding places deliver backlog occurrences
deliver-IsTracked w rest p here t = record {
  unique = λ x. ground (arith, t.unique x, ap (occurrences x) here);
  ready = t.ready;
  ended = λ x some_place. t.ended x (ground (arith, some_place, ap (occurrences x) here));
  sent = t.sent;
}
