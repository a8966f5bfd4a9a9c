-- ===== src/Threadpool/Parts.antt =====
-- The parts of a step beside the turn at the queue keep the counts of the pool.
use libuv_analyse.Base.{
  ℕ, ◌≤◌, ◌<◌, ◌≡◌, inl, refl, ◌∙◌, Bool, true, false, by_if, some, List, [], ◌∷◌, length,
  length-set, get_elem?, ltb, if◌then◌else◌, arith,
}
use libuv_analyse.Threadpool.{
  Ptr, WorkFn, Entry, job, exit_message, run_slow_work_message, top, waiting, running, finished,
  Pool, signal, leave_wait, hand_back, leave_work, is_scheduled,
}
use libuv_analyse.Threadpool.Tally.{is_waiting, is_busy, is_exited, is_slow, le-tally, tally-kinds}
use libuv_analyse.Threadpool.Sound.{messages, IsSound}
use libuv_analyse.Threadpool.Pick.{moved}

module _ (p : Pool) (i : ℕ) (s : IsSound p) where
  pub leave_wait-IsSound :
      (unblocked : Bool)
      → get_elem? p.threads i ≡ some waiting
      → (if unblocked then 0 < p.signalled else p.signalled < p.idle_threads)
      → IsSound (leave_wait unblocked i p)
  unfolding leave_wait is_waiting is_busy is_exited is_slow
  leave_wait-IsSound true e some_signal =
      let m = moved p.threads i waiting top e in
      record {
        size = length-set p.threads i top ∙ s.size;
        fits = s.fits;
        idle = ground (arith, m.waits, m.kinds, s.idle, s.fits, s.size);
        slow = ground (arith, m.slows, s.slow);
        limit = s.limit;
        one_message = s.one_message;
        scheduled = s.scheduled;
        unblocked = ground (arith, s.unblocked, m.kinds, m.waits, s.idle, s.fits, s.size);
        awake = λ free. inl (omega (arith, m.busies));
      }
  leave_wait-IsSound false e by_itself =
      let m = moved p.threads i waiting top e in
      record {
        size = length-set p.threads i top ∙ s.size;
        fits = s.fits;
        idle = ground (arith, m.waits, m.kinds, s.idle, s.fits, s.size);
        slow = ground (arith, m.slows, s.slow);
        limit = s.limit;
        one_message = s.one_message;
        scheduled = s.scheduled;
        unblocked = ground (arith, by_itself, m.kinds, m.waits, s.idle, s.fits, s.size);
        awake = λ free. inl (omega (arith, m.busies));
      }

  pub hand_back-IsSound :
      (w : Ptr) (slow : Bool)
      → get_elem? p.threads i ≡ some (running w slow)
      → IsSound (hand_back w slow i p)
  unfolding hand_back is_waiting is_busy is_exited is_slow
  hand_back-IsSound w slow e =
      let m = moved p.threads i (running w slow) (finished slow) e in
      record {
        size = length-set p.threads i (finished slow) ∙ s.size;
        fits = s.fits;
        idle = ground (arith, m.waits, s.idle);
        slow = omega (arith, m.slows, s.slow, same_slow slow);
        limit = s.limit;
        one_message = s.one_message;
        scheduled = s.scheduled;
        unblocked = s.unblocked;
        awake =
            λ free. inl (omega (arith, m.busies, le-tally is_busy p.threads i (running w slow) e));
      }
    where
      same_slow : (b : Bool) → is_slow (running w b) ≡ is_slow (finished b)
      same_slow true = refl
      same_slow false = refl

  pub leave_work-IsSound :
      (slow : Bool) → get_elem? p.threads i ≡ some (finished slow) → IsSound (leave_work slow i p)
  unfolding leave_work is_waiting is_busy is_exited is_slow
  leave_work-IsSound true e =
      let m = moved p.threads i (finished true) top e in
      let some_slow = le-tally is_slow p.threads i (finished true) e in
      record {
        size = length-set p.threads i top ∙ s.size;
        fits = s.fits;
        idle = ground (arith, m.waits, s.idle);
        slow = ground (arith, m.slows, s.slow, some_slow, s.limit, s.fits);
        limit = ground (arith, s.limit, s.slow, some_slow, s.fits);
        one_message = s.one_message;
        scheduled = s.scheduled;
        unblocked = s.unblocked;
        awake =
            λ free. inl (omega (arith, m.busies, le-tally is_busy p.threads i (finished true) e));
      }
  leave_work-IsSound false e =
      let m = moved p.threads i (finished false) top e in
      record {
        size = length-set p.threads i top ∙ s.size;
        fits = s.fits;
        idle = ground (arith, m.waits, s.idle);
        slow = ground (arith, m.slows, s.slow);
        limit = s.limit;
        one_message = s.one_message;
        scheduled = s.scheduled;
        unblocked = s.unblocked;
        awake =
            λ free. inl (omega (arith, m.busies, le-tally is_busy p.threads i (finished false) e));
      }

pub is_scheduled-messages : (q : List Entry) → is_scheduled q ≡ false → messages q ≡ 0
unfolding is_scheduled messages
is_scheduled-messages [] e = refl
is_scheduled-messages (run_slow_work_message ∷ q) e = ground (arith, e)
is_scheduled-messages (exit_message ∷ q) e = is_scheduled-messages q e
is_scheduled-messages (job w ∷ q) e = is_scheduled-messages q e

pub scheduled-messages : (q : List Entry) → is_scheduled q ≡ true → 0 < messages q
unfolding is_scheduled messages
scheduled-messages [] e = ground (arith, e)
scheduled-messages (run_slow_work_message ∷ q) e = omega arith
scheduled-messages (exit_message ∷ q) e = scheduled-messages q e
scheduled-messages (job w ∷ q) e = scheduled-messages q e

-- The signal at the end of `post` wakes a thread where one waits.
pub signal_idle-IsSound :
    (p : Pool) (s : IsSound p) (q : List Entry) (pending : List Ptr) (work : Ptr → WorkFn)
    (stale : Ptr → Bool)
    → messages q ≤ 1
    → (0 < length pending → messages q ≡ 1)
    → IsSound (
        let p' = record p { wq = q; slow_io_pending_wq = pending; work = work; stale = stale } in
        if ltb 0 p'.idle_threads then signal p' else p')
unfolding signal
signal_idle-IsSound p s q pending work stale one kept =
    by_if IsSound (ltb 0 p.idle_threads)
      (λ some_idle. record {
        size = s.size;
        fits = s.fits;
        idle = s.idle;
        slow = s.slow;
        limit = s.limit;
        one_message = one;
        scheduled = kept;
        unblocked = ground (arith, s.unblocked);
        awake = λ free. inl (ground (arith, s.unblocked, some_idle));
      })
      (λ none_idle. record {
        size = s.size;
        fits = s.fits;
        idle = s.idle;
        slow = s.slow;
        limit = s.limit;
        one_message = one;
        scheduled = kept;
        unblocked = s.unblocked;
        awake = λ free. ground (arith, none_idle, s.idle, tally-kinds p.threads, s.size);
      })
