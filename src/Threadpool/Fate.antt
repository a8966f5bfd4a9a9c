-- ===== src/Threadpool/Fate.antt =====
-- What becomes of the requests of the thread pool (libuv/src/threadpool.c).
use libuv_analyse.Base.{
  ℕ, ◌+◌, ◌-◌, ◌≤◌, ◌<◌, ◌≡◌, ◌≢◌, refl, Bool, true, some, List, [], ◌∷◌, length, get_elem?, ◌==◌,
  if◌then◌else◌, arith,
}
use libuv_analyse.Loop.Count.{occurrences, occurrences-append}
use libuv_analyse.Threadpool.{
  Ptr, user_work, Entry, job, exit_message, run_slow_work_message, top, waiting, running, finished,
  Pool, leave_wait, hand_back, leave_work, without_job, jobs,
}
use libuv_analyse.Threadpool.Tally.{runs, tally-set}
use libuv_analyse.Threadpool.Sound.{backlog, IsKept}
use libuv_analyse.Threadpool.Steps.{places}

-- What holds of the requests between two steps: each stands in one place at most; what is to run or runs has
-- the caller's function, which what has run or been cancelled no longer has; and where the loop has
-- requests to take, uv_async_send has been called.
pub record IsTracked (p : Pool) : Type 0 where
  pub unique : (w : Ptr) → places w p ≤ 1
  pub ready : (w : Ptr) → 0 < backlog w p → p.work w ≡ user_work
  pub ended :
      (w : Ptr) → 0 < occurrences w p.loop_wq + occurrences w p.delivering → p.work w ≢ user_work
  pub sent : 0 < length p.loop_wq → p.async_sent ≡ true

pub IsKept-IsTracked : {p p' : Pool} → IsKept p p' → IsTracked p → IsTracked p'
unfolding places
IsKept-IsTracked {p} {p'} k t = record {
  unique = λ w. rw (k.backlogs w, k.handed, k.delivered) (t.unique w);
  ready = λ w. rw (k.backlogs w, k.works) (t.ready w);
  ended = λ w. rw (k.handed, k.delivered, k.works) (t.ended w);
  sent = rw (k.handed, k.sent) t.sent;
}

pub jobs-without_job :
    (x w : Ptr) (q : List Entry) → jobs x (without_job w q) ≡ jobs x q - (if x == w then 1 else 0)
unfolding jobs without_job
jobs-without_job x w [] = ground arith
jobs-without_job x w (job v ∷ q) = ground (arith, jobs-without_job x w q)
jobs-without_job x w (exit_message ∷ q) = jobs-without_job x w q
jobs-without_job x w (run_slow_work_message ∷ q) = jobs-without_job x w q

module _ (p : Pool) (i : ℕ) where
  pub leave_wait-backlog :
      (unblocked : Bool) (w : Ptr)
      → get_elem? p.threads i ≡ some waiting
      → backlog w (leave_wait unblocked i p) ≡ backlog w p
  unfolding backlog leave_wait runs
  leave_wait-backlog unblocked w e = omega (arith, tally-set (runs w) p.threads i waiting top e)

  pub leave_work-backlog :
      (slow : Bool) (w : Ptr)
      → get_elem? p.threads i ≡ some (finished slow)
      → backlog w (leave_work slow i p) ≡ backlog w p
  unfolding backlog leave_work runs
  leave_work-backlog slow w e = omega (arith, tally-set (runs w) p.threads i (finished slow) top e)

  pub leave_wait-IsKept :
      (unblocked : Bool)
      → get_elem? p.threads i ≡ some waiting
      → IsKept p (leave_wait unblocked i p)
  unfolding leave_wait
  leave_wait-IsKept unblocked e = record {
    backlogs = λ w. leave_wait-backlog unblocked w e;
    works = refl;
    handed = refl;
    delivered = refl;
    sent = refl;
    calls = refl;
    total = refl;
  }

  pub leave_work-IsKept :
      (slow : Bool) → get_elem? p.threads i ≡ some (finished slow) → IsKept p (leave_work slow i p)
  unfolding leave_work
  leave_work-IsKept slow e = record {
    backlogs = λ w. leave_work-backlog slow w e;
    works = refl;
    handed = refl;
    delivered = refl;
    sent = refl;
    calls = refl;
    total = refl;
  }

  pub hand_back-backlog :
      (w : Ptr) (slow : Bool) (x : Ptr)
      → get_elem? p.threads i ≡ some (running w slow)
      → backlog x (hand_back w slow i p) + (if w == x then 1 else 0) ≡ backlog x p
  unfolding backlog hand_back runs
  hand_back-backlog w slow x e =
      ground (arith, tally-set (runs x) p.threads i (running w slow) (finished slow) e)

  pub hand_back-loop_wq :
      (w : Ptr) (slow : Bool) (x : Ptr)
      → occurrences x (hand_back w slow i p).loop_wq
        ≡ occurrences x p.loop_wq + (if w == x then 1 else 0)
  unfolding hand_back occurrences
  hand_back-loop_wq w slow x = ground (arith, occurrences-append x p.loop_wq (w ∷ []))

  pub hand_back-IsTracked :
      (w : Ptr) (slow : Bool)
      → get_elem? p.threads i ≡ some (running w slow)
      → IsTracked p
      → IsTracked (hand_back w slow i p)
  unfolding places hand_back
  hand_back-IsTracked w slow e t = record {
    unique =
        λ x. omega (arith, t.unique x, hand_back-backlog w slow x e, hand_back-loop_wq w slow x);
    ready = λ x some_place.
        ground (arith, t.unique x, t.ready x, hand_back-backlog w slow x e, some_place);
    ended = λ x some_place. ground (arith, t.ended x, hand_back-loop_wq w slow x, some_place);
    sent = λ h. refl;
  }
