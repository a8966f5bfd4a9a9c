-- ===== src/Run/Times.antt =====
-- Handles that uv__run_timers (libuv/src/timer.c) does not tell apart.
use libuv_analyse.Base.{◌-◌, ◌^◌, ◌<◌, ◌≡◌, refl, true, arith}
use libuv_analyse.Heap.{Ptr}
use libuv_analyse.Loop.{Handle, Loop}
use libuv_analyse.Loop.Count.{occurrences}
use libuv_analyse.Timer.{timer_less_than}
use libuv_analyse.Timer.Order.{agree-IsHeap}
use libuv_analyse.Timer.Stop.{is_active_timer}
use libuv_analyse.Timer.Run.{IsReady}

-- Two handles that the timers do not tell apart.
pub record SameTimes (h g : Handle) : Type 0 where
  pub timeout : h.timeout ≡ g.timeout
  pub start_id : h.start_id ≡ g.start_id
  pub repeat : h.repeat ≡ g.repeat
  pub timer : is_active_timer h ≡ is_active_timer g

timer_less_than-times :
    (f g : Ptr → Handle)
    → ((x : Ptr) → SameTimes (f x) (g x))
    → (a b : Ptr) → timer_less_than f a b ≡ timer_less_than g a b
unfolding timer_less_than
timer_less_than-times f g same a b =
    ground (arith, (same a).timeout, (same b).timeout, (same a).start_id, (same b).start_id)

pub timed-IsReady :
    {l l' : Loop}
    → IsReady l
    → ((x : Ptr) → SameTimes (l'.handle x) (l.handle x))
    → l'.timer_heap ≡ l.timer_heap
    → ((x : Ptr) → is_active_timer (l.handle x) ≡ true → occurrences x l'.handle_queue ≡ 1)
    → l'.time < 2 ^ 64 - 1
    → IsReady l'
timed-IsReady {l = l} {l' = l'} r same heap listed now = record {
  timers = record {
    place = r.timers.place;
    n = r.timers.n;
    few = r.timers.few;
    heap =
        agree-IsHeap (timer_less_than l.handle) (timer_less_than l'.handle)
          (λ i j a b c d.
            timer_less_than-times l'.handle l.handle same (r.timers.place i) (r.timers.place j))
          (rw heap r.timers.heap);
    members = λ p. rw ((same p).timer) (r.timers.members p);
  };
  listed = λ x on. listed x (rw ((same x).timer) at on);
  now = now;
  word = λ x. rw ((same x).repeat) (r.word x);
}

pub timed_refl : (h : Handle) → SameTimes h h
timed_refl h = record { timeout = refl; start_id = refl; repeat = refl; timer = refl }
