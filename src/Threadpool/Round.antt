-- ===== src/Threadpool/Round.antt =====
-- One round of a thread at the queue: what becomes of each kind of entry.
use libuv_analyse.Base.{
  ℕ, suc, ◌+◌, ◌≡◌, refl, ap, Bool, true, false, by_if, Option, some, List, [], ◌∷◌, ◌++◌, set,
  get_elem?, ltb, arith,
}
use libuv_analyse.Loop.Count.{occurrences}
use libuv_analyse.Threadpool.{
  Ptr, Entry, job, exit_message, run_slow_work_message, Pc, top, waiting, exited, running, Pool,
  incr, signal, take_slow, pick, jobs,
}
use libuv_analyse.Threadpool.Tally.{tally, runs, tally-set}
use libuv_analyse.Threadpool.Sound.{messages, blocked, IsSound, backlog, IsKept, place, jobs-append}
use libuv_analyse.Threadpool.Pick.{wait-IsSound, exit-IsSound, job-IsSound}

-- The message is at the head.
unfoldable pub starts_slow : List Entry → Bool
starts_slow [] = false
starts_slow (run_slow_work_message ∷ q) = true
starts_slow (exit_message ∷ q) = false
starts_slow (job w ∷ q) = false

pub messages-starts_slow : (q : List Entry) → messages q ≡ 0 → starts_slow q ≡ false
unfolding messages starts_slow
messages-starts_slow [] none_there = refl
messages-starts_slow (run_slow_work_message ∷ q) none_there = absurd (omega arith)
messages-starts_slow (exit_message ∷ q) none_there = refl
messages-starts_slow (job w ∷ q) none_there = refl

pub starts_slow-append :
    (e : Entry) (q r : List Entry) → starts_slow ((e ∷ q) ++ r) ≡ starts_slow (e ∷ q)
unfolding starts_slow
starts_slow-append run_slow_work_message q r = refl
starts_slow-append exit_message q r = refl
starts_slow-append (job w) q r = refl

-- A turn that ends, for a thread that was at the top.
pub record Settled (p : Pool) (i : ℕ) (r : Option (Pc × Pool)) : Type 0 where
  pub pc : Pc
  pub after : Pool
  pub ends : r ≡ some (pc, after)
  pub sound : IsSound (place i pc after)
  pub kept : IsKept p (place i pc after)

module _ (p : Pool) (i : ℕ) (s : IsSound p) (e : get_elem? p.threads i ≡ some top) where
  pub wait-IsKept : IsKept p (place i waiting (record p { idle_threads = incr p.idle_threads }))
  unfolding backlog runs
  wait-IsKept = record {
    backlogs = λ w. omega (arith, tally-set (runs w) p.threads i top waiting e);
    works = refl;
    handed = refl;
    delivered = refl;
    sent = refl;
    calls = refl;
    total = refl;
  }

  exit-IsKept : IsKept p (place i exited (signal p))
  unfolding backlog runs signal
  exit-IsKept = record {
    backlogs = λ w. omega (arith, tally-set (runs w) p.threads i top exited e);
    works = refl;
    handed = refl;
    delivered = refl;
    sent = refl;
    calls = refl;
    total = refl;
  }

  job-IsKept :
      (w : Ptr) (q : List Entry)
      → p.wq ≡ job w ∷ q
      → IsKept p (place i (running w false) (record p { wq = q }))
  unfolding backlog runs jobs
  job-IsKept w q here = record {
    backlogs = λ x.
        ground (arith, ap (jobs x) here, tally-set (runs x) p.threads i top (running w false) e);
    works = refl;
    handed = refl;
    delivered = refl;
    sent = refl;
    calls = refl;
    total = refl;
  }

  pub slow-IsKept :
      (w : Ptr) (rest : List Ptr) (q : List Entry)
      → p.wq ≡ run_slow_work_message ∷ q
      → p.slow_io_pending_wq ≡ w ∷ rest
      → IsKept p (place i (take_slow w rest q p).0 (take_slow w rest q p).1)
  unfolding backlog runs jobs take_slow signal occurrences
  slow-IsKept w [] q here pending = record {
    backlogs = λ x. ground (
      arith,
      ap (jobs x) here,
      ap (occurrences x) pending,
      tally-set (runs x) p.threads i top (running w true) e,
    );
    works = refl;
    handed = refl;
    delivered = refl;
    sent = refl;
    calls = refl;
    total = refl;
  }
  slow-IsKept w (v ∷ rest) q here pending =
      by_if (λ (z : Pool). IsKept p (place i (running w true) z)) (ltb 0 p.idle_threads)
        (λ some_idle. record {
          backlogs = backlogs;
          works = refl;
          handed = refl;
          delivered = refl;
          sent = refl;
          calls = refl;
          total = refl;
        })
        (λ none_idle. record {
          backlogs = backlogs;
          works = refl;
          handed = refl;
          delivered = refl;
          sent = refl;
          calls = refl;
          total = refl;
        })
    where
      backlogs :
          (x : Ptr)
          → jobs x (q ++ (run_slow_work_message ∷ []))
              + occurrences x (v ∷ rest)
              + tally (runs x) (set p.threads i (running w true))
            ≡ backlog x p
      backlogs x = ground (
        arith,
        ap (jobs x) here,
        ap (occurrences x) pending,
        jobs-append x q (run_slow_work_message ∷ []),
        tally-set (runs x) p.threads i top (running w true) e,
      )

  -- A turn that ends in this round.
  pub first_round :
      (fuel : ℕ) (q : List Entry)
      → p.wq ≡ q
      → starts_slow q ≡ false
      → Settled p i (pick (suc fuel) q p)
  unfolding pick blocked starts_slow
  first_round fuel [] here none_there = record {
    pc = waiting;
    after = record p { idle_threads = incr p.idle_threads };
    ends = refl;
    sound = wait-IsSound p i s e (rw here refl);
    kept = wait-IsKept;
  }
  first_round fuel (exit_message ∷ q) here none_there = record {
    pc = exited;
    after = signal p;
    ends = refl;
    sound = exit-IsSound p i s e;
    kept = exit-IsKept;
  }
  first_round fuel (job w ∷ q) here none_there = record {
    pc = running w false;
    after = record p { wq = q };
    ends = refl;
    sound = job-IsSound p i s e w q here;
    kept = job-IsKept w q here;
  }
  first_round fuel (run_slow_work_message ∷ q) here none_there = absurd (ground (arith, none_there))
