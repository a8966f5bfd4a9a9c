-- ===== src/Timer/Order.antt =====
-- The order of the timers of libuv/src/timer.c.
use libuv_analyse.Base.{ℕ, ◌/◌, ◌≤◌, ◌≡◌, ◌≢◌, arith}
use libuv_analyse.Heap.{Heap, Ptr, Less}
use libuv_analyse.Heap.Order.{IsStrictOrder}
use libuv_analyse.Heap.Insert.{IsHeap}
use libuv_analyse.Loop.{Handle, store}
use libuv_analyse.Timer.{timer_less_than}

-- timer_less_than is a strict order in which "not less" is transitive, whatever the timers' fields are.
pub timer_less_than-IsStrictOrder : (f : Ptr → Handle) → IsStrictOrder (timer_less_than f)
unfolding timer_less_than
timer_less_than-IsStrictOrder f = record {
  asym = λ x y e. ground arith;
  trans = λ x y z e g. ground arith;
}

-- A heap in one order is a heap in every order that agrees with it on the nodes.
pub agree-IsHeap :
    (less less' : Less) {h : Heap} {place : ℕ → Ptr} {n : ℕ}
    → ((i j : ℕ)
        → 1 ≤ i
        → i ≤ n
        → 1 ≤ j
        → j ≤ n
        → less' (place i) (place j) ≡ less (place i) (place j))
    → IsHeap less h place n
    → IsHeap less' h place n
agree-IsHeap less less' {place = place} same heap = record {
  size = heap.size;
  complete = heap.complete;
  ordered = λ k lk hk. ground (arith, same k (k / 2), heap.ordered k);
}

-- Where the time and the number of a timer do not change, or the timer is not compared, neither does
-- the order.
pub timer_less_than_same :
    (f : Ptr → Handle) (p : Ptr) (v : Handle)
    → v.timeout ≡ (f p).timeout
    → v.start_id ≡ (f p).start_id
    → (x y : Ptr) → timer_less_than (store f p v) x y ≡ timer_less_than f x y
unfolding timer_less_than
timer_less_than_same f p v e g x y = ground arith

pub timer_less_than_other :
    (f : Ptr → Handle) (p : Ptr) (v : Handle) (x y : Ptr)
    → x ≢ p
    → y ≢ p
    → timer_less_than (store f p v) x y ≡ timer_less_than f x y
unfolding timer_less_than
timer_less_than_other f p v x y nx ny = ground arith
