-- ===== src/Threadpool/Pick.antt =====
-- The turn of a thread at the queue of the pool (libuv/src/threadpool.c).
use libuv_analyse.Base.{
  ℕ, ◌+◌, ◌≤◌, ◌<◌, ◌≡◌, inl, ap, ◌∙◌, true, false, by_if, some, List, [], ◌∷◌, ◌++◌, length,
  length-set, set, get_elem?, ltb, arith,
}
use libuv_analyse.Threadpool.{
  Ptr, Entry, job, run_slow_work_message, Pc, top, waiting, exited, running, Pool, at_threshold,
  incr, signal, take_slow,
}
use libuv_analyse.Threadpool.Tally.{
  tally, is_waiting, is_busy, is_exited, is_slow, tally-set, le-tally, tally-kinds,
}
use libuv_analyse.Threadpool.Sound.{messages, blocked, IsSound, place, messages-append}

-- The counts after thread `i` has gone from `old` to `new`.
pub record Moved (ts : List Pc) (i : ℕ) (old new : Pc) : Type 0 where
  pub waits :
      tally is_waiting (set ts i new) + is_waiting old ≡ tally is_waiting ts + is_waiting new
  pub busies : tally is_busy (set ts i new) + is_busy old ≡ tally is_busy ts + is_busy new
  pub ends : tally is_exited (set ts i new) + is_exited old ≡ tally is_exited ts + is_exited new
  pub slows : tally is_slow (set ts i new) + is_slow old ≡ tally is_slow ts + is_slow new
  pub kinds : tally is_waiting ts + tally is_busy ts + tally is_exited ts ≡ length ts
  pub kinds' :
      tally is_waiting (set ts i new)
        + tally is_busy (set ts i new)
        + tally is_exited (set ts i new)
      ≡ length ts

pub moved : (ts : List Pc) (i : ℕ) (old new : Pc) → get_elem? ts i ≡ some old → Moved ts i old new
moved ts i old new e = record {
  waits = tally-set is_waiting ts i old new e;
  busies = tally-set is_busy ts i old new e;
  ends = tally-set is_exited ts i old new e;
  slows = tally-set is_slow ts i old new e;
  kinds = tally-kinds ts;
  kinds' = tally-kinds (set ts i new) ∙ length-set ts i new;
}

module _ (p : Pool) (i : ℕ) (s : IsSound p) (e : get_elem? p.threads i ≡ some top) where
  pub wait-IsSound :
      blocked p.wq (at_threshold p) ≡ true
      → IsSound (place i waiting (record p { idle_threads = incr p.idle_threads }))
  unfolding is_waiting is_busy is_exited is_slow
  wait-IsSound stuck =
      let m = moved p.threads i top waiting e in
      record {
        size = length-set p.threads i waiting ∙ s.size;
        fits = s.fits;
        idle = ground (arith, m.waits, m.kinds, m.kinds', s.idle, s.fits, s.size);
        slow = ground (arith, m.slows, s.slow);
        limit = s.limit;
        one_message = s.one_message;
        scheduled = s.scheduled;
        unblocked = ground (arith, s.unblocked, m.kinds, s.idle, s.fits, s.size);
        awake = λ free. absurd (ground (arith, free, stuck));
      }

  pub exit-IsSound : IsSound (place i exited (signal p))
  unfolding is_waiting is_busy is_exited is_slow signal
  exit-IsSound =
      let m = moved p.threads i top exited e in
      record {
        size = length-set p.threads i exited ∙ s.size;
        fits = s.fits;
        idle = ground (arith, m.waits, s.idle);
        slow = ground (arith, m.slows, s.slow);
        limit = s.limit;
        one_message = s.one_message;
        scheduled = s.scheduled;
        unblocked = ground (arith, s.unblocked);
        awake = λ free.
            ground (arith, s.unblocked, m.waits, m.busies, m.ends, m.kinds', s.idle, s.size);
      }

  pub job-IsSound :
      (w : Ptr) (q : List Entry)
      → p.wq ≡ job w ∷ q
      → IsSound (place i (running w false) (record p { wq = q }))
  unfolding is_waiting is_busy is_exited is_slow messages
  job-IsSound w q here =
      let m = moved p.threads i top (running w false) e in
      let same : messages p.wq ≡ messages q = ap messages here in
      record {
        size = length-set p.threads i (running w false) ∙ s.size;
        fits = s.fits;
        idle = ground (arith, m.waits, s.idle);
        slow = ground (arith, m.slows, s.slow);
        limit = s.limit;
        one_message = omega (arith, same, s.one_message);
        scheduled = λ some_slow. omega (arith, same, s.scheduled some_slow);
        unblocked = s.unblocked;
        awake = λ free. inl (omega (arith, m.busies, le-tally is_busy p.threads i top e));
      }

  -- Another queue, with the thread still at the top.
  pub requeue-IsSound :
      (q : List Entry)
      → messages q ≤ 1
      → (0 < length p.slow_io_pending_wq → messages q ≡ 1)
      → IsSound (record p { wq = q })
  unfolding is_busy
  requeue-IsSound q one kept = record {
    size = s.size;
    fits = s.fits;
    idle = s.idle;
    slow = s.slow;
    limit = s.limit;
    one_message = one;
    scheduled = kept;
    unblocked = s.unblocked;
    awake = λ free. inl (omega (arith, le-tally is_busy p.threads i top e));
  }

  slow_taken-IsSound :
      (w : Ptr) (rest : List Ptr) (q : List Entry) (signals : ℕ)
      → at_threshold p ≡ false
      → messages q ≤ 1
      → (0 < length rest → messages q ≡ 1)
      → signals ≤ p.idle_threads
      → IsSound (
          place i (running w true) (record p {
            wq = q;
            slow_io_pending_wq = rest;
            slow_io_work_running = incr p.slow_io_work_running;
            signalled = signals;
          }))
  unfolding is_waiting is_busy is_exited is_slow
  slow_taken-IsSound w rest q signals free one kept few =
      let m = moved p.threads i top (running w true) e in
      record {
        size = length-set p.threads i (running w true) ∙ s.size;
        fits = s.fits;
        idle = ground (arith, m.waits, s.idle);
        slow = ground (arith, m.slows, s.slow, s.limit, s.fits);
        limit = ground (arith, s.limit, s.fits);
        one_message = one;
        scheduled = kept;
        unblocked = few;
        awake = λ open_now. inl (omega (arith, m.busies, le-tally is_busy p.threads i top e));
      }

  pub slow-IsSound :
      (w : Ptr) (rest : List Ptr) (q : List Entry)
      → p.wq ≡ run_slow_work_message ∷ q
      → at_threshold p ≡ false
      → IsSound (place i (take_slow w rest q p).0 (take_slow w rest q p).1)
  unfolding take_slow signal messages
  slow-IsSound w [] q here free =
      let none_left : messages p.wq ≡ 1 + messages q = ap messages here in
      slow_taken-IsSound w [] q p.signalled free (omega (arith, none_left, s.one_message))
        (λ h. absurd (omega arith)) s.unblocked
  slow-IsSound w (v ∷ rest) q here free =
      let none_left : messages p.wq ≡ 1 + messages q = ap messages here in
      let back : messages (q ++ (run_slow_work_message ∷ [])) ≡ 1 =
        omega (arith, none_left, s.one_message, messages-append q (run_slow_work_message ∷ [])) in
      by_if (λ (z : Pool). IsSound (place i (running w true) z)) (ltb 0 p.idle_threads)
        (λ some_idle.
          slow_taken-IsSound w (v ∷ rest) (q ++ (run_slow_work_message ∷ [])) _ free
            (omega (arith, back)) (λ h. back) (ground (arith, s.unblocked)))
        (λ none_idle.
          slow_taken-IsSound w (v ∷ rest) (q ++ (run_slow_work_message ∷ [])) p.signalled free
            (omega (arith, back)) (λ h. back) s.unblocked)
