-- ===== src/Timer/Run.antt =====
-- uv__run_timers (libuv/src/timer.c): one round, and that the loop ends.
use libuv_analyse.Base.{
  ℕ, ◌+◌, ◌-◌, ◌^◌, ◌≤◌, ◌<◌, ◌≡◌, ◌≢◌, ◌⊎◌, refl, sym, subst, ◌∙◌, true, false, ◌&&◌, ◌||◌, by_if,
  Bool-cases, inl, inr, leb, ◌==◌, if◌then◌else◌, arith,
}
use libuv_analyse.Heap.{Ptr, null}
use libuv_analyse.Loop.{
  Handle, Loop, store, is_closing, handle_stop, handle_start, active_handle_add, active_handle_rm,
}
use libuv_analyse.Loop.Count.{counted, occurrences, counted_once}
use libuv_analyse.Loop.{Status, success}
use libuv_analyse.Timer.{
  clamped_timeout, timer_stop, timer_set, timer_insert, timer_start, timer_again,
}
use libuv_analyse.Timer.Stop.{
  is_timer, is_active_timer, HasTimers, timer_stop-handle, timer_stop_active, timer_stop_idle,
}
use libuv_analyse.Timer.Start.{launched, launched-handles}
use libuv_analyse.Timer.Operations.{timer_stop-off, timer_stop-type, timer_again-HasTimers}
use libuv_analyse.Timer.Next.{IsFirst}

unfoldable pub due : ℕ → Handle → ℕ
due time h = if is_active_timer h && leb h.timeout time then 1 else 0

-- The number of the timers whose time has come.
unfoldable pub due_count : Loop → ℕ
due_count l = counted (due l.time) l.handle l.handle_queue

-- Two fields that no operation on timers changes.
record SameQueue (l l' : Loop) : Type 0 where
  queue : l'.handle_queue ≡ l.handle_queue
  time : l'.time ≡ l.time

timer_stop-SameQueue : (p : Ptr) (l : Loop) → SameQueue l (timer_stop p l)
unfolding timer_stop handle_stop active_handle_rm
timer_stop-SameQueue p l = record { queue = ground arith; time = ground arith }

launched-SameQueue :
    (p cb : Ptr) (timeout repeat : ℕ) (l : Loop) → SameQueue l (launched p cb timeout repeat l)
unfolding timer_set timer_insert handle_start active_handle_add
launched-SameQueue p cb timeout repeat l = record { queue = ground arith; time = ground arith }

later :
    (time repeat : ℕ)
    → time < 2 ^ 64 - 1
    → repeat < 2 ^ 64
    → repeat ≢ 0
    → time < clamped_timeout time repeat
unfolding clamped_timeout
later time repeat h g ne = ground arith

-- A loop in which uv__run_timers may be called: its heap is that of its active timers, these stand in
-- `handle_queue` once, its time is below the greatest `uint64_t`, and a repeat is a `uint64_t`.
pub record IsReady (l : Loop) : Type 0 where
  pub timers : HasTimers l
  pub listed : (x : Ptr) → is_active_timer (l.handle x) ≡ true → occurrences x l.handle_queue ≡ 1
  pub now : l.time < 2 ^ 64 - 1
  pub word : (x : Ptr) → (l.handle x).repeat < 2 ^ 64

-- One handle changes.
module _ (l l' : Loop) (p : Ptr) (v : Handle) (e : l'.handle ≡ store l.handle p v)
    (same : SameQueue l l') (here : occurrences p l.handle_queue ≡ 1) where
  changed_due : due_count l' + due l.time (l.handle p) ≡ due_count l + due l.time v
  unfolding due_count
  changed_due =
      rw (e, same.queue, same.time) (counted_once (due l.time) l.handle p v l.handle_queue here)

  changed-IsReady : IsReady l → HasTimers l' → v.repeat < 2 ^ 64 → IsReady l'
  changed-IsReady r t word = record {
    timers = t;
    listed = λ x. rw (e, same.queue) (ground (arith, r.listed x));
    now = rw same.time r.now;
    word = λ x. rw e (ground (arith, r.word x));
  }

-- uv_timer_stop of a timer, active or not.
pub timer_stop-IsReady :
    (p : Ptr) (l : Loop) → IsReady l → is_timer (l.handle p) ≡ true → IsReady (timer_stop p l)
timer_stop-IsReady p l r timer = elim (Bool-cases (l.handle p).active) [
  | inl on ↦
      changed-IsReady l (timer_stop p l) p _ (timer_stop-handle p l on) (timer_stop-SameQueue p l)
        (r.listed p (ground (arith, on, timer))) r (timer_stop_active p l on r.timers timer).0
        (r.word p)
  | inr off ↦ subst IsReady (sym (timer_stop_idle p l off)) r
]

pub again_cases :
    (p : Ptr) (l : Loop)
    → (l.handle p).active ≡ false
    → ((timer_again p l).1 ≡ l)
      ⊎ ((l.handle p).repeat ≢ 0)
        × ((timer_again p l).1
            ≡ launched p (l.handle p).timer_cb (l.handle p).repeat (l.handle p).repeat l)
unfolding timer_again timer_start
again_cases p l off =
    rw (timer_stop_idle p l off, timer_stop_idle p l off)
      (by_if Outcome ((l.handle p).timer_cb == null) (λ e. inl refl)
        (λ e.
          by_if Outcome ((l.handle p).repeat == 0) (λ z. inl refl)
            (λ z.
              by_if (λ (r : Status × Loop). Outcome (success, r.1))
                (is_closing p l || ((l.handle p).timer_cb == null)) (λ c. inl refl)
                (λ c. inr (ground arith, refl)))))
  where
    Outcome : Status × Loop → Type 0
    Outcome r =
        (r.1 ≡ l)
        ⊎ ((l.handle p).repeat ≢ 0)
          × (r.1 ≡ launched p (l.handle p).timer_cb (l.handle p).repeat (l.handle p).repeat l)

-- uv_timer_again of a stopped timer makes no timer due.
again_due :
    (p : Ptr) (l : Loop)
    → IsReady l
    → HasTimers (timer_again p l).1
    → occurrences p l.handle_queue ≡ 1
    → (l.handle p).active ≡ false
    → IsReady (timer_again p l).1 × (due_count (timer_again p l).1 ≡ due_count l)
unfolding due
again_due p l r t here off = elim (again_cases p l off) [
  | inl e ↦ subst (λ m. IsReady m × (due_count m ≡ due_count l)) (sym e) (r, refl)
  | inr (again, e) ↦
      let every = (l.handle p).repeat in
      let l' = launched p (l.handle p).timer_cb every every l in
      let handles = launched-handles p (l.handle p).timer_cb every every l off in
      let same = launched-SameQueue p (l.handle p).timer_cb every every l in
      let sums = changed_due l l' p _ handles same here in
      subst (λ m. IsReady m × (due_count m ≡ due_count l)) (sym e)
        (
          changed-IsReady l l' p _ handles same here r (subst HasTimers e t) (r.word p),
          ground (arith, sums, off, later l.time every r.now (r.word p) again),
        )
]

module _ (p : Ptr) (l : Loop) (r : IsReady l) (first : IsFirst l p) where
  active_p : (l.handle p).active ≡ true
  active_p = ground (arith, first.on)

  -- One round, on a first timer that is due, before its callback is called.
  pub round_due :
      (l.handle p).timeout ≤ l.time
      → IsReady (timer_again p (timer_stop p l)).1
        × (due_count (timer_again p (timer_stop p l)).1 + 1 ≡ due_count l)
  unfolding due
  round_due late =
      let (t', fewer) = timer_stop_active p l active_p r.timers (ground (arith, first.on)) in
      let here = r.listed p first.on in
      let same = timer_stop-SameQueue p l in
      let handles = timer_stop-handle p l active_p in
      let stopped = changed-IsReady l (timer_stop p l) p _ handles same here r t' (r.word p) in
      let sums = changed_due l (timer_stop p l) p _ handles same here in
      let again =
        timer_again-HasTimers p (timer_stop p l) t' (timer_stop-type p l ∙ ground (arith, first.on))
          first.some_p (omega (arith, fewer, r.timers.few)) in
      let (ready, equal) =
        again_due p (timer_stop p l) stopped again (rw same.queue here) (timer_stop-off p l) in
      (ready, ground (arith, sums, equal, first.on, late))
