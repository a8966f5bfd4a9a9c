-- ===== src/Timer/Stop.antt =====
-- uv_timer_stop (libuv/src/timer.c) keeps the heap of the active timers.
use libuv_analyse.Base.{
  ℕ, suc, ◌-◌, ◌^◌, ◌≤◌, ◌<◌, ◌≡◌, ◌≢◌, ◌↔◌, refl, sym, subst, Bool, true, false, ◌&&◌, not, by_if,
  Bool-cases, inl, inr, arith,
}
use libuv_analyse.Heap.{Ptr, heap_remove}
use libuv_analyse.Heap.Order.{Member}
use libuv_analyse.Heap.Insert.{IsHeap}
use libuv_analyse.Heap.Remove.{Others, heap_remove-IsHeap}
use libuv_analyse.Loop.{HandleType, Handle, Loop, store}
use libuv_analyse.Loop.Fields.{handle_stop-handle, handle_stop-timer_heap}
use libuv_analyse.Timer.{timer_less_than, timer_stop}
use libuv_analyse.Timer.Order.{timer_less_than-IsStrictOrder, agree-IsHeap, timer_less_than_same}

unfoldable pub is_timer : Handle → Bool
is_timer h = elim h.type [ HandleType.timer ↦ true | _ ↦ false ]

abbrev pub is_active_timer : Handle → Bool
is_active_timer h = is_timer h && h.active

-- The heap of the loop is in the order of the timers and holds exactly the active timers.
pub record HasTimers (l : Loop) : Type 0 where
  pub place : ℕ → Ptr
  pub n : ℕ
  pub few : n < 2 ^ 32
  pub heap : IsHeap (timer_less_than l.handle) l.timer_heap place n
  pub members : (p : Ptr) → Member place n p ↔ (is_active_timer (l.handle p) ≡ true)

module _ (p : Ptr) (l : Loop) (on : (l.handle p).active ≡ true) where
  abbrev stopped : Handle
  stopped = record (l.handle p) { active = false }

  pub timer_stop-handle : (timer_stop p l).handle ≡ store l.handle p stopped
  unfolding timer_stop
  timer_stop-handle =
      by_if (λ (z : Loop). z.handle ≡ store l.handle p stopped) (not (l.handle p).active)
        (λ e. ground (arith, on)) (λ e. handle_stop-handle p _ on)

  pub timer_stop-timer_heap :
      (timer_stop p l).timer_heap ≡ heap_remove (timer_less_than l.handle) p l.timer_heap
  unfolding timer_stop
  timer_stop-timer_heap =
      by_if (λ (z : Loop). z.timer_heap ≡ heap_remove (timer_less_than l.handle) p l.timer_heap)
        (not (l.handle p).active) (λ e. ground (arith, on)) (λ e. handle_stop-timer_heap p _)

  off_p :
      (x : Ptr)
      → is_active_timer (store l.handle p stopped x) ≡ true
      → (x ≢ p) × (is_active_timer (l.handle x) ≡ true)
  off_p x e = (λ same. ground arith, ground arith)

  not_p :
      (x : Ptr)
      → x ≢ p
      → is_active_timer (l.handle x) ≡ true
      → is_active_timer (store l.handle p stopped x) ≡ true
  not_p x ne e = ground arith

  timer_stop_at :
      (place : ℕ → Ptr) (m j : ℕ)
      → IsHeap (timer_less_than l.handle) l.timer_heap place (suc m)
      → suc m < 2 ^ 32
      → ((x : Ptr) → Member place (suc m) x ↔ (is_active_timer (l.handle x) ≡ true))
      → 1 ≤ j
      → j ≤ suc m
      → place j ≡ p
      → (t : HasTimers (timer_stop p l)) × (t.n ≡ m)
  timer_stop_at place m j heap few members lo hi at_p =
      let (q, rest, others) =
        subst
          (λ a.
            (q : ℕ → Ptr) × IsHeap (timer_less_than l.handle)
              (heap_remove (timer_less_than l.handle) a l.timer_heap) q m
            × Others place q m a)
          at_p
          (heap_remove-IsHeap (timer_less_than-IsStrictOrder l.handle) l.timer_heap place m j heap
            few lo hi) in
      (
        record {
          place = q;
          n = m;
          few = omega arith;
          heap =
              rw (timer_stop-handle, timer_stop-timer_heap)
                (agree-IsHeap (timer_less_than l.handle)
                  (timer_less_than (store l.handle p stopped))
                  (λ i k li hi' lk hk.
                    timer_less_than_same l.handle p stopped refl refl (q i) (q k))
                  rest);
          members = λ x. rw timer_stop-handle (
            λ y. let (y_in, ne) = (others x).0 y in not_p x ne ((members x).0 y_in),
            λ e. let (ne, on_x) = off_p x e in (others x).1 ((members x).1 on_x, ne),
          );
        },
        refl,
      )

  -- uv_timer_stop of an active timer.
  pub timer_stop_active :
      (t : HasTimers l)
      → is_timer (l.handle p) ≡ true
      → (t' : HasTimers (timer_stop p l)) × (suc t'.n ≡ t.n)
  timer_stop_active t timer =
      let (j, lo, hi, at_p) = (t.members p).1 (ground (arith, on, timer)) in
      let some_left : suc (t.n - 1) ≡ t.n = omega arith in
      let (t', count) =
        timer_stop_at t.place (t.n - 1) j
          (subst (λ k. IsHeap (timer_less_than l.handle) l.timer_heap t.place k) (sym some_left)
            t.heap)
          (rw some_left t.few)
          (subst (λ k. (x : Ptr) → Member t.place k x ↔ (is_active_timer (l.handle x) ≡ true))
            (sym some_left) t.members)
          lo (rw some_left hi) at_p in
      (t', omega (arith, count, some_left))

pub timer_stop_idle : (p : Ptr) (l : Loop) → (l.handle p).active ≡ false → timer_stop p l ≡ l
unfolding timer_stop
timer_stop_idle p l off = ground (arith, off)

-- uv_timer_stop of a timer, active or not, of a loop whose heap is that of its active timers leaves such a
-- loop: the heap holds exactly the timers that are still active.
pub timer_stop-HasTimers :
    (p : Ptr) (l : Loop) → HasTimers l → is_timer (l.handle p) ≡ true → HasTimers (timer_stop p l)
timer_stop-HasTimers p l t timer = elim (Bool-cases (l.handle p).active) [
  | inl on ↦ (timer_stop_active p l on t timer).0
  | inr off ↦ subst HasTimers (sym (timer_stop_idle p l off)) t
]
