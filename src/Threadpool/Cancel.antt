-- ===== src/Threadpool/Cancel.antt =====
-- uv__work_cancel (libuv/src/threadpool.c).
use libuv_analyse.Base.{
  ℕ, ◌+◌, ◌≤◌, ◌<◌, ◌≡◌, ◌≢◌, ◌⊎◌, inl, inr, refl, true, false, ◌&&◌, by_if, Bool-cases, [], ◌∷◌,
  ◌++◌, ◌==◌, if◌then◌else◌, arith,
}
use libuv_analyse.Loop.{Status, success, ebusy}
use libuv_analyse.Loop.Count.{occurrences, occurrences-append}
use libuv_analyse.Watcher.{without}
use libuv_analyse.Watcher.Queues.{occurrences-without}
use libuv_analyse.Threadpool.{
  Ptr, WorkFn, null_work, cancelled_work, user_work, user_work, Pool, is_linked, has_work,
  without_job, work_cancel, jobs,
}
use libuv_analyse.Threadpool.Tally.{tally, runs}
use libuv_analyse.Threadpool.Sound.{backlog}
use libuv_analyse.Threadpool.Steps.{places}
use libuv_analyse.Threadpool.Fate.{IsTracked, jobs-without_job}

-- The pool once the request has been taken out of its queue and handed to the loop.
abbrev pub withdrawn : Ptr → Pool → Pool
withdrawn w p = record p {
  wq = without_job w p.wq;
  slow_io_pending_wq = without w p.slow_io_pending_wq;
  loop_wq = without w p.loop_wq ++ (w ∷ []);
  delivering = without w p.delivering;
  work = λ v. if v == w then cancelled_work else p.work v;
  async_sent = true;
  stale = λ v. if v == w then false else p.stale v;
}

once_lem :
    (w : Ptr) (p : Pool)
    → IsTracked p
    → jobs w p.wq
        + occurrences w p.slow_io_pending_wq
        + tally (runs w) p.threads
        + occurrences w p.loop_wq
        + occurrences w p.delivering
      ≤ 1
unfolding places backlog
once_lem w p t = t.unique w

has_work-cases :
    (f : WorkFn) → (f ≢ null_work) × (has_work f ≡ true) ⊎ (f ≡ null_work) × (has_work f ≡ false)
unfolding has_work
has_work-cases null_work = inr (refl, refl)
has_work-cases cancelled_work = inl (λ e. cc, refl)
has_work-cases user_work = inl (λ e. cc, refl)

-- How often a request stands in a queue.
abbrev pub queued : Ptr → Pool → ℕ
queued w p =
    jobs w p.wq
    + occurrences w p.slow_io_pending_wq
    + occurrences w p.loop_wq
    + occurrences w p.delivering

linked_places :
    (w : Ptr) (p : Pool)
    → 0 < queued w p
    → (0 < places w p)
      × (places w p ≡ backlog w p + occurrences w p.loop_wq + occurrences w p.delivering)
unfolding backlog places
linked_places w p linked = (omega (arith, linked), refl)

-- A request that may be cancelled, whose node is not stale, is in a queue.
pub live-queued :
    (w : Ptr) (p : Pool)
    → (p.stale w && has_work (p.work w)) ≡ false
    → (is_linked w p && has_work (p.work w)) ≡ true
    → 0 < queued w p
live-queued w p live c = ground (arith, live, c)

module _ (w : Ptr) (p : Pool) (t : IsTracked p) (linked : 0 < queued w p) where
  pub withdrawn_places :
      (x : Ptr)
      → (backlog x (withdrawn w p) ≡ (if x == w then 0 else backlog x p))
        × (occurrences x (withdrawn w p).loop_wq ≡ (if x == w then 1 else occurrences x p.loop_wq))
        × (occurrences x (withdrawn w p).delivering
            ≡ (if x == w then 0 else occurrences x p.delivering))
  unfolding backlog occurrences
  withdrawn_places x = (
    ground (
      arith,
      jobs-without_job x w p.wq,
      occurrences-without x w p.slow_io_pending_wq,
      once,
      linked,
    ),
    ground (
      arith,
      occurrences-append x (without w p.loop_wq) (w ∷ []),
      occurrences-without x w p.loop_wq,
      once,
    ),
    ground (arith, occurrences-without x w p.delivering, once),
  )
    where
      once :
          jobs w p.wq
            + occurrences w p.slow_io_pending_wq
            + tally (runs w) p.threads
            + occurrences w p.loop_wq
            + occurrences w p.delivering
          ≤ 1
      once = once_lem w p t

  pub withdrawn-same : (x : Ptr) → places x (withdrawn w p) ≡ places x p
  unfolding places
  withdrawn-same x = ground (arith, withdrawn_places x, t.unique w, linked_places w p linked)

  withdrawn-IsTracked : IsTracked (withdrawn w p)
  unfolding places
  withdrawn-IsTracked = record {
    unique = λ x. ground (arith, withdrawn_places x, t.unique x);
    ready = λ x some_place. ground (arith, withdrawn_places x, t.ready x, some_place);
    ended = λ x some_place. ground (arith, withdrawn_places x, t.ended x, some_place);
    sent = λ h. refl;
  }

pub work_cancel-IsTracked :
    (w : Ptr) (p : Pool)
    → (p.stale w && has_work (p.work w)) ≡ false
    → IsTracked p
    → IsTracked (work_cancel w p).1
unfolding work_cancel
work_cancel-IsTracked w p live t =
    by_if (λ (r : Status × Pool). IsTracked r.1) (is_linked w p && has_work (p.work w))
      (λ c. withdrawn-IsTracked w p t (live-queued w p live c)) (λ c. t)

-- uv__work_cancel of a request in a pool whose requests are tracked, where the request is not one that was
-- cancelled before and whose `done` has been called since. Either the request stands in a queue and has
-- a function; then the result is 0, no thread runs it, it is gone from the pool's queues and stands with
-- the loop once, with uv__cancelled for its function. Or it stands in no queue, as while it runs, or has no
-- function, as once it has run; then the result is UV_EBUSY and nothing changes.
pub work_cancel_lem :
    (w : Ptr) (p : Pool)
    → IsTracked p
    → (p.stale w && has_work (p.work w)) ≡ false
    → (0 < queued w p)
        × (p.work w ≢ null_work)
        × (tally (runs w) p.threads ≡ 0)
        × ((work_cancel w p).0 ≡ success)
        × (backlog w (work_cancel w p).1 ≡ 0)
        × (occurrences w (work_cancel w p).1.loop_wq ≡ 1)
        × ((work_cancel w p).1.work w ≡ cancelled_work)
      ⊎ ((queued w p ≡ 0) ⊎ (p.work w ≡ null_work)) × (work_cancel w p ≡ (ebusy, p))
unfolding work_cancel
work_cancel_lem w p t live = elim (Bool-cases (is_linked w p)) [
  | inr off ↦ inr (inl (ground (arith, off)), rw off refl)
  | inl linked ↦ elim (has_work-cases (p.work w)) [
    | inr (e, no_work) ↦ inr (inr e, rw (linked, no_work) refl)
    | inl (ne, has) ↦
        let there : 0 < queued w p = live-queued w p live (ground (arith, linked, has)) in
        let places_after = withdrawn_places w p t there w in
        rw (linked, has)
          (inl (
            there,
            ne,
            omega (arith, there, once_lem w p t),
            refl,
            ground (arith, places_after),
            ground (arith, places_after),
            ground arith,
          ))
  ]
]
