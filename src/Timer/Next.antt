-- ===== src/Timer/Next.antt =====
-- How long the loop may wait for its timers: uv__next_timeout (libuv/src/timer.c).
use libuv_analyse.Base.{
  ◌-◌, ◌≤◌, ◌≡◌, ◌≢◌, ◌⊎◌, true, false, ◌∙◌, Bool-cases, inl, inr, none, some, arith,
}
use Prim.Native.Nat.{min}
use libuv_analyse.Heap.{Ptr, null, heap_min}
use libuv_analyse.Heap.Insert.{heap_min-least}
use libuv_analyse.Loop.{Handle, Loop}
use libuv_analyse.Timer.{timer_less_than, next_timeout, int_max}
use libuv_analyse.Timer.Order.{timer_less_than-IsStrictOrder}
use libuv_analyse.Timer.Stop.{is_active_timer, HasTimers}

-- `p` is an active timer that no active timer is due before.
pub record IsFirst (l : Loop) (p : Ptr) : Type 0 where
  pub some_p : p ≢ null
  pub on : is_active_timer (l.handle p) ≡ true
  pub first :
      (x : Ptr) → is_active_timer (l.handle x) ≡ true → (l.handle p).timeout ≤ (l.handle x).timeout

not_less_timeout :
    (f : Ptr → Handle) (x y : Ptr) → timer_less_than f x y ≡ false → (f y).timeout ≤ (f x).timeout
unfolding timer_less_than
not_less_timeout f x y e = ground arith

-- The root of the heap is NULL where no timer is active, and else a first timer.
pub heap_min-IsFirst :
    (l : Loop)
    → HasTimers l
    → (heap_min l.timer_heap ≡ null) × ((x : Ptr) → is_active_timer (l.handle x) ≡ false)
      ⊎ IsFirst l (heap_min l.timer_heap)
heap_min-IsFirst l t =
    elim (heap_min-least (timer_less_than-IsStrictOrder l.handle) l.timer_heap t.place t.n t.heap) [
      | inl (empty, e) ↦ inl (
        e,
        λ x. elim (Bool-cases (is_active_timer (l.handle x))) [
          | inl on ↦ let (i, lo, hi, at_i) = (t.members x).1 on in absurd (omega arith)
          | inr off ↦ off
        ],
      )
      | inr (here, least) ↦ inr (record {
        some_p = let (i, lo, hi, at_i) = here in λ z. t.heap.complete.used i lo hi (at_i ∙ z);
        on = (t.members (heap_min l.timer_heap)).0 here;
        first = λ x on.
            not_less_timeout l.handle x (heap_min l.timer_heap) (least x ((t.members x).1 on));
      })
    ]

-- uv__next_timeout of a loop whose heap is that of its active timers: -1 where no timer is active, and
-- else the time until the first of them, 0 where that has passed and at most INT_MAX.
pub next_timeout_lem :
    (l : Loop)
    → HasTimers l
    → (next_timeout l ≡ none) × ((x : Ptr) → is_active_timer (l.handle x) ≡ false)
      ⊎ (p : Ptr) × IsFirst l p
        × (next_timeout l ≡ some (min ((l.handle p).timeout - l.time) int_max))
unfolding next_timeout
next_timeout_lem l t = elim (heap_min-IsFirst l t) [
  | inl (e, none_on) ↦ inl (ground (arith, e), none_on)
  | inr first ↦ inr (heap_min l.timer_heap, first, ground (arith, first.some_p))
]
