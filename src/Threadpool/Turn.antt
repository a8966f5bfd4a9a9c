-- ===== src/Threadpool/Turn.antt =====
-- The turn of a thread at the queue, whole: it comes to an end, keeps the counts and loses no request.
use libuv_analyse.Base.{
  ℕ, ◌+◌, ◌≤◌, ◌<◌, ◌≡◌, refl, sym, ap, ◌∙◌, true, false, by_if, Option, some, List, [], ◌∷◌, ◌++◌,
  length, get_elem?, if◌then◌else◌, arith,
}
use libuv_analyse.Threadpool.{
  Ptr, Entry, job, exit_message, run_slow_work_message, Pc, top, waiting, Pool, at_threshold, incr,
  take_slow, start_slow, is_empty, wait, pick, placed, turn, jobs,
}
use libuv_analyse.Threadpool.Sound.{
  messages, blocked, IsSound, backlog, IsKept, IsKept-trans, place, messages-append, jobs-append,
}
use libuv_analyse.Threadpool.Pick.{wait-IsSound, requeue-IsSound, slow-IsSound}
use libuv_analyse.Threadpool.Round.{
  starts_slow, messages-starts_slow, starts_slow-append, Settled, slow-IsKept, wait-IsKept,
  first_round,
}

through :
    {p p₁ : Pool} {i : ℕ} {r : Option (Pc × Pool)} → IsKept p p₁ → Settled p₁ i r → Settled p i r
through k t = record {
  pc = t.pc;
  after = t.after;
  ends = t.ends;
  sound = t.sound;
  kept = IsKept-trans k t.kept;
}

module _ (p : Pool) (i : ℕ) (s : IsSound p) (e : get_elem? p.threads i ≡ some top) where
  -- The next round, on the rest of the queue with the message dropped or put back.
  next_round :
      (back : List Entry)
      → ((w : Ptr) → jobs w back ≡ jobs w p.wq)
      → messages back ≤ 1
      → (0 < length p.slow_io_pending_wq → messages back ≡ 1)
      → starts_slow back ≡ false
      → Settled p i (pick 1 back (record p { wq = back }))
  unfolding backlog
  next_round back same one kept other =
      through
        (record {
          backlogs = λ w. omega (arith, same w);
          works = refl;
          handed = refl;
          delivered = refl;
          sent = refl;
          calls = refl;
          total = refl;
        })
        (first_round (record p { wq = back }) i (requeue-IsSound p i s e back one kept) e 0 back
          refl other)

  slow_round :
      (q : List Entry) (pending : List Ptr)
      → p.wq ≡ run_slow_work_message ∷ q
      → p.slow_io_pending_wq ≡ pending
      → at_threshold p ≡ false
      → Settled p i (start_slow pending q p (pick 1 q (record p { wq = q })))
  unfolding start_slow messages jobs
  slow_round q [] here none_pending free =
      let one : messages p.wq ≡ 1 + messages q = ap messages here in
      next_round q (λ w. sym (ap (jobs w) here)) (omega (arith, one, s.one_message))
        (λ some_slow. absurd (omega (arith, ap length none_pending)))
        (messages-starts_slow q (omega (arith, one, s.one_message)))
  slow_round q (w ∷ rest) here pending free = record {
    pc = (take_slow w rest q p).0;
    after = (take_slow w rest q p).1;
    ends = refl;
    sound = slow-IsSound p i s e w rest q here free;
    kept = slow-IsKept p i s e w rest q here pending;
  }

  full_round :
      (q : List Entry)
      → p.wq ≡ run_slow_work_message ∷ q
      → at_threshold p ≡ true
      → Settled p i (
          if is_empty q
          then wait p
          else pick 1
              (q ++ (run_slow_work_message ∷ []))
              (record p { wq = q ++ (run_slow_work_message ∷ []) }))
  unfolding is_empty messages jobs blocked
  full_round [] here full = record {
    pc = waiting;
    after = record p { idle_threads = incr p.idle_threads };
    ends = refl;
    sound = wait-IsSound p i s e (rw here full);
    kept = wait-IsKept p i s e;
  }
  full_round (f ∷ q) here full =
      let one : messages p.wq ≡ 1 + messages (f ∷ q) = ap messages here in
      let back : messages ((f ∷ q) ++ (run_slow_work_message ∷ [])) ≡ 1 =
        omega (arith, one, s.one_message, messages-append (f ∷ q) (run_slow_work_message ∷ [])) in
      next_round ((f ∷ q) ++ (run_slow_work_message ∷ []))
        (λ w. omega (arith, ap (jobs w) here, jobs-append w (f ∷ q) (run_slow_work_message ∷ [])))
        (omega (arith, back)) (λ some_slow. back)
        (starts_slow-append f q (run_slow_work_message ∷ [])
          ∙ messages-starts_slow (f ∷ q) (omega (arith, one, s.one_message)))

  any_round : (q : List Entry) → p.wq ≡ q → Settled p i (pick 2 q p)
  unfolding pick starts_slow
  any_round [] here = first_round p i s e 1 [] here refl
  any_round (exit_message ∷ q) here = first_round p i s e 1 (exit_message ∷ q) here refl
  any_round (job w ∷ q) here = first_round p i s e 1 (job w ∷ q) here refl
  any_round (run_slow_work_message ∷ q) here =
      by_if (Settled p i) (at_threshold p) (full_round q here)
        (slow_round q p.slow_io_pending_wq here refl)

  -- A thread's turn ends, keeps the counts and loses no request.
  pub turn_ends : (p' : Pool) × (turn i p ≡ some p') × IsSound p' × IsKept p p'
  unfolding turn
  turn_ends =
      let t = any_round p.wq refl in (place i t.pc t.after, ap (placed i) t.ends, t.sound, t.kept)
