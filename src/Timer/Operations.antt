-- ===== src/Timer/Operations.antt =====
-- uv_timer_start and uv_timer_again (libuv/src/timer.c), whole.
use libuv_analyse.Base.{
  ℕ, suc, ◌+◌, ◌-◌, ◌^◌, ◌<◌, ◌≡◌, ◌≢◌, refl, sym, subst, ◌∙◌, true, false, ◌||◌, by_if, Bool-cases,
  inl, inr, ◌==◌, arith,
}
use Prim.Native.Nat.{min}
use libuv_analyse.Heap.{Ptr, null}
use libuv_analyse.Loop.{Loop, is_closing}
use libuv_analyse.Loop.{Status}
use libuv_analyse.Timer.{clamped_timeout, timer_stop, timer_start, timer_again}
use libuv_analyse.Timer.Stop.{
  is_timer, HasTimers, timer_stop-handle, timer_stop_active, timer_stop_idle,
}
use libuv_analyse.Timer.Start.{launched_at}

module _ (p : Ptr) (l : Loop) where
  pub timer_stop-off : ((timer_stop p l).handle p).active ≡ false
  timer_stop-off = elim (Bool-cases (l.handle p).active) [
    | inl on ↦ rw (timer_stop-handle p l on) (ground arith)
    | inr off ↦ rw (timer_stop_idle p l off) off
  ]

  pub timer_stop-type : is_timer ((timer_stop p l).handle p) ≡ is_timer (l.handle p)
  unfolding is_timer
  timer_stop-type = elim (Bool-cases (l.handle p).active) [
    | inl on ↦ rw (timer_stop-handle p l on) (ground arith)
    | inr off ↦ rw (timer_stop_idle p l off) refl
  ]

  pub timer_stop-room :
      (t : HasTimers l)
      → is_timer (l.handle p) ≡ true
      → suc t.n < 2 ^ 32
      → (t' : HasTimers (timer_stop p l)) × (suc t'.n < 2 ^ 32)
  timer_stop-room t timer room = elim (Bool-cases (l.handle p).active) [
    | inl on ↦ let (t', fewer) = timer_stop_active p l on t timer in (t', omega (arith, fewer))
    | inr off ↦
        subst (λ m. (t' : HasTimers m) × (suc t'.n < 2 ^ 32)) (sym (timer_stop_idle p l off))
          (t, room)
  ]

  -- uv_timer_start, whether it refuses, starts an inactive timer or starts an active one again, leaves
  -- a heap, in the order of the timers, of exactly the active timers of the loop. The handle is a timer
  -- and not NULL, and fewer than 2 ^ 32 - 1 timers are active.
  pub timer_start-HasTimers :
      (cb : Ptr) (timeout repeat : ℕ) (t : HasTimers l)
      → is_timer (l.handle p) ≡ true
      → p ≢ null
      → suc t.n < 2 ^ 32
      → HasTimers (timer_start p cb timeout repeat l).1
  unfolding timer_start
  timer_start-HasTimers cb timeout repeat t timer some_p room =
      let (t', room') = timer_stop-room t timer room in
      by_if (λ (r : Status × Loop). HasTimers r.1) (is_closing p l || (cb == null)) (λ e. t)
        (λ e.
          launched_at p cb timeout repeat (timer_stop p l) timer_stop-off t' room'
            (timer_stop-type ∙ timer) some_p)

-- uv_timer_again of a timer, not NULL, where fewer than 2 ^ 32 - 1 timers are active, leaves a heap of
-- exactly the active timers on each of its branches.
pub timer_again-HasTimers :
    (p : Ptr) (l : Loop) (t : HasTimers l)
    → is_timer (l.handle p) ≡ true
    → p ≢ null
    → suc t.n < 2 ^ 32
    → HasTimers (timer_again p l).1
unfolding timer_again
timer_again-HasTimers p l t timer some_p room =
    let (t', room') = timer_stop-room p l t timer room in
    by_if (λ (r : Status × Loop). HasTimers r.1) ((l.handle p).timer_cb == null) (λ e. t)
      (λ e.
        by_if (λ (r : Status × Loop). HasTimers r.1) ((l.handle p).repeat == 0) (λ r. t)
          (λ r.
            timer_start-HasTimers p (timer_stop p l) (l.handle p).timer_cb (l.handle p).repeat
              (l.handle p).repeat t' (timer_stop-type p l ∙ timer) some_p room'))

-- The time of a timer that uv_timer_start starts: the sum, or the greatest `uint64_t` where that is
-- smaller, for a time and a timeout that are `uint64_t`.
pub clamped_timeout_lem :
    (time timeout : ℕ)
    → time < 2 ^ 64
    → timeout < 2 ^ 64
    → clamped_timeout time timeout ≡ min (time + timeout) (2 ^ 64 - 1)
unfolding clamped_timeout
clamped_timeout_lem time timeout h g = ground arith
