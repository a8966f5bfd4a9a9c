-- ===== src/Threadpool/Queues.antt =====
-- What submitting, cancelling and ending do to the counts of the pool.
use libuv_analyse.Base.{
  ◌≤◌, ◌≡◌, refl, Bool, false, ◌&&◌, by_if, List, [], ◌∷◌, ◌++◌, length, ◌==◌, arith,
}
use libuv_analyse.Loop.{Status}
use libuv_analyse.Watcher.{without}
use libuv_analyse.Threadpool.{
  Ptr, WorkFn, WorkKind, cpu, fast_io, slow_io, Entry, job, exit_message, run_slow_work_message,
  Pool, at_threshold, enqueue, post, work_submit, threadpool_cleanup, is_linked, has_work,
  without_job, work_cancel, collect, deliver, is_scheduled,
}
use libuv_analyse.Threadpool.Sound.{messages, blocked, IsSound, messages-append}
use libuv_analyse.Threadpool.Parts.{is_scheduled-messages, scheduled-messages, signal_idle-IsSound}

module _ (p : Pool) (s : IsSound p) where
  enqueue_other-IsSound :
      (e : Entry) (work : Ptr → WorkFn) (stale : Ptr → Bool)
      → messages (e ∷ []) ≡ 0
      → IsSound (enqueue e (record p { work = work; stale = stale }))
  unfolding enqueue
  enqueue_other-IsSound e work stale other =
      let same : messages (p.wq ++ (e ∷ [])) ≡ messages p.wq =
        omega (arith, other, messages-append p.wq (e ∷ [])) in
      signal_idle-IsSound p s (p.wq ++ (e ∷ [])) p.slow_io_pending_wq work stale
        (omega (arith, same, s.one_message))
        (λ some_slow. omega (arith, same, s.scheduled some_slow))

  pub work_submit-IsSound : (w : Ptr) (kind : WorkKind) → IsSound (work_submit w kind p)
  unfolding work_submit post messages enqueue
  work_submit-IsSound w cpu = enqueue_other-IsSound (job w) _ _ refl
  work_submit-IsSound w fast_io = enqueue_other-IsSound (job w) _ _ refl
  work_submit-IsSound w slow_io =
      let one_more = messages-append p.wq (run_slow_work_message ∷ []) in
      by_if IsSound (is_scheduled p.wq)
        (λ there. record {
          size = s.size;
          fits = s.fits;
          idle = s.idle;
          slow = s.slow;
          limit = s.limit;
          one_message = s.one_message;
          scheduled = λ some_slow. omega (arith, s.one_message, scheduled-messages p.wq there);
          unblocked = s.unblocked;
          awake = s.awake;
        })
        (λ none_there.
          signal_idle-IsSound p s (p.wq ++ (run_slow_work_message ∷ []))
            (p.slow_io_pending_wq ++ (w ∷ [])) _ _
            (omega (arith, one_more, is_scheduled-messages p.wq none_there))
            (λ some_slow. omega (arith, one_more, is_scheduled-messages p.wq none_there)))

  pub threadpool_cleanup-IsSound : IsSound (threadpool_cleanup p)
  unfolding threadpool_cleanup messages
  threadpool_cleanup-IsSound =
      by_if IsSound (p.nthreads == 0) (λ none. s)
        (λ some_thread. enqueue_other-IsSound exit_message p.work p.stale refl)

pub messages-without_job : (w : Ptr) (q : List Entry) → messages (without_job w q) ≡ messages q
unfolding messages without_job
messages-without_job w [] = refl
messages-without_job w (job v ∷ q) = ground (arith, messages-without_job w q)
messages-without_job w (exit_message ∷ q) = messages-without_job w q
messages-without_job w (run_slow_work_message ∷ q) = omega (arith, messages-without_job w q)

pub length-without : (w : Ptr) (q : List Ptr) → length (without w q) ≤ length q
unfolding without
length-without w [] = omega arith
length-without w (v ∷ q) = ground (arith, length-without w q)

-- A queue at which nothing may be done is left as it is.
blocked-without_job :
    (w : Ptr) (q : List Entry) (full : Bool)
    → blocked (without_job w q) full ≡ false
    → blocked q full ≡ false
unfolding blocked without_job
blocked-without_job w [] full e = e
blocked-without_job w (job v ∷ q) full e = refl
blocked-without_job w (exit_message ∷ q) full e = refl
blocked-without_job w (run_slow_work_message ∷ []) full e = e
blocked-without_job w (run_slow_work_message ∷ f ∷ q) full e = refl

pub work_cancel-IsSound : (w : Ptr) (p : Pool) → IsSound p → IsSound (work_cancel w p).1
unfolding work_cancel
work_cancel-IsSound w p s =
    by_if (λ (r : Status × Pool). IsSound r.1) (is_linked w p && has_work (p.work w))
      (λ removed. record {
        size = s.size;
        fits = s.fits;
        idle = s.idle;
        slow = s.slow;
        limit = s.limit;
        one_message = omega (arith, s.one_message, messages-without_job w p.wq);
        scheduled = λ some_slow. omega (
          arith,
          messages-without_job w p.wq,
          s.scheduled (omega (arith, some_slow, length-without w p.slow_io_pending_wq)),
        );
        unblocked = s.unblocked;
        awake = λ free. s.awake (blocked-without_job w p.wq (at_threshold p) free);
      })
      (λ busy. s)

pub collect-IsSound : (p : Pool) → IsSound p → IsSound (collect p)
unfolding collect
collect-IsSound p s = record {
  size = s.size;
  fits = s.fits;
  idle = s.idle;
  slow = s.slow;
  limit = s.limit;
  one_message = s.one_message;
  scheduled = s.scheduled;
  unblocked = s.unblocked;
  awake = s.awake;
}

pub deliver-IsSound :
    (w : Ptr) (rest : List Ptr) (p : Pool) → IsSound p → IsSound (deliver w rest p)
unfolding deliver
deliver-IsSound w rest p s = record {
  size = s.size;
  fits = s.fits;
  idle = s.idle;
  slow = s.slow;
  limit = s.limit;
  one_message = s.one_message;
  scheduled = s.scheduled;
  unblocked = s.unblocked;
  awake = s.awake;
}
