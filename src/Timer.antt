-- ===== src/Timer.antt =====
-- The timers of a loop: libuv/src/timer.c. The address of a timer is that of its heap node.
pub mod Order
pub mod Stop
pub mod Start
pub mod Operations
pub mod Next
pub mod Run
pub mod Ends
pub mod Tests
use libuv_analyse.Base.{
  ℕ, zero, suc, ◌+◌, ◌-◌, ◌%◌, ◌^◌, Bool, true, false, ◌&&◌, ◌||◌, not, Option, none, some, ltb,
  leb, ◌==◌, if◌then◌else◌,
}
use libuv_analyse.Heap.{Ptr, null, heap_insert, heap_remove, heap_min}
use libuv_analyse.Loop.{
  Status, success, einval, HandleType, Handle, Loop, set_handle, is_active, is_closing, handle_init,
  handle_start, handle_stop,
}

unfoldable pub timer_less_than : (Ptr → Handle) → Ptr → Ptr → Bool
timer_less_than handle a b =
    if ltb (handle a).timeout (handle b).timeout
    then true
    else if ltb (handle b).timeout (handle a).timeout
    then false
    else ltb (handle a).start_id (handle b).start_id

unfoldable pub timer_init : Ptr → Loop → Status × Loop
timer_init p l =
    let l₁ = handle_init HandleType.timer p l in
    (success, set_handle p (record (l₁.handle p) { timer_cb = null; timeout = 0; repeat = 0 }) l₁)

unfoldable pub timer_stop : Ptr → Loop → Loop
timer_stop p l =
    if not (is_active p l)
    then l
    else handle_stop p
        (record l { timer_heap = heap_remove (timer_less_than l.handle) p l.timer_heap })

-- `loop->time + timeout`, or the greatest `uint64_t` where the sum wraps around.
unfoldable pub clamped_timeout : ℕ → ℕ → ℕ
clamped_timeout time timeout =
    let sum = (time + timeout) % 2 ^ 64 in if ltb sum timeout then 2 ^ 64 - 1 else sum

-- The fields of a timer once it has been stopped.
unfoldable pub timer_set : Ptr → Ptr → ℕ → ℕ → Loop → Loop
timer_set p cb timeout repeat l =
    let v = record (l.handle p) {
      timer_cb = cb;
      timeout = clamped_timeout l.time timeout;
      repeat = repeat;
      start_id = l.timer_counter;
    } in
    record (set_handle p v l) { timer_counter = (l.timer_counter + 1) % 2 ^ 64 }

unfoldable pub timer_insert : Ptr → Loop → Loop
timer_insert p l = record l { timer_heap = heap_insert (timer_less_than l.handle) p l.timer_heap }

unfoldable pub timer_start : Ptr → Ptr → ℕ → ℕ → Loop → Status × Loop
timer_start p cb timeout repeat l =
    if is_closing p l || (cb == null)
    then (einval, l)
    else (success, handle_start p (timer_insert p (timer_set p cb timeout repeat (timer_stop p l))))

unfoldable pub timer_again : Ptr → Loop → Status × Loop
timer_again p l =
    let h = l.handle p in
    if h.timer_cb == null
    then (einval, l)
    else if h.repeat == 0
    then (success, l)
    else (success, (timer_start p h.timer_cb h.repeat h.repeat (timer_stop p l)).1)

unfoldable pub timer_set_repeat : Ptr → ℕ → Loop → Loop
timer_set_repeat p repeat l = set_handle p (record (l.handle p) { repeat = repeat }) l

unfoldable pub timer_get_repeat : Ptr → Loop → ℕ
timer_get_repeat p l = (l.handle p).repeat

unfoldable pub timer_get_due_in : Ptr → Loop → ℕ
timer_get_due_in p l = if leb (l.handle p).timeout l.time then 0 else (l.handle p).timeout - l.time

-- INT_MAX, of a 32-bit `int`.
abbrev pub int_max : ℕ
int_max = 2 ^ 31 - 1

-- -1, to block for ever, is `none`.
unfoldable pub next_timeout : Loop → Option ℕ
next_timeout l =
    let p = heap_min l.timer_heap in
    let diff = (l.handle p).timeout - l.time in
    if p == null
    then none
    else if leb (l.handle p).timeout l.time
    then some 0
    else if ltb int_max diff
    then some int_max
    else some diff

-- A callback is called with the address of its handle and changes the loop.
abbrev pub Call : Type 0
Call = Ptr → Ptr → Loop → Loop

-- One round of the loop of uv__run_timers, on the first timer. `handle->timer_cb` is read after
-- uv_timer_again.
unfoldable pub run_timer : Call → Ptr → Loop → Loop
run_timer call p l = let l₁ = (timer_again p (timer_stop p l)).1 in call (l₁.handle p).timer_cb p l₁

-- uv__run_timers on fuel; `none` where it runs out.
unfoldable pub run_timers : Call → ℕ → Loop → Option Loop
run_timers call zero l = none
run_timers call (suc fuel) l =
    let p = heap_min l.timer_heap in
    let rest = run_timers call fuel (run_timer call p l) in
    if p == null then some l else if ltb l.time (l.handle p).timeout then some l else rest

unfoldable pub timer_close : Ptr → Loop → Loop
timer_close p l = timer_stop p l
