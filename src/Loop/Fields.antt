-- ===== src/Loop/Fields.antt =====
-- The fields that uv__handle_start and uv__handle_stop (libuv/src/uv-common.h) change, and those that they keep.
use libuv_analyse.Base.{◌≡◌, true, false, arith}
use libuv_analyse.Heap.{Ptr}
use libuv_analyse.Loop.{Loop, store, handle_start, handle_stop, active_handle_add, active_handle_rm}

module _ (p : Ptr) (l : Loop) where
  pub handle_stop-handle :
      (l.handle p).active ≡ true
      → (handle_stop p l).handle ≡ store l.handle p (record (l.handle p) { active = false })
  unfolding handle_stop active_handle_rm
  handle_stop-handle e = ground (arith, e)

  pub handle_start-handle :
      (l.handle p).active ≡ false
      → (handle_start p l).handle ≡ store l.handle p (record (l.handle p) { active = true })
  unfolding handle_start active_handle_add
  handle_start-handle e = ground (arith, e)

  pub handle_stop-timer_heap : (handle_stop p l).timer_heap ≡ l.timer_heap
  unfolding handle_stop active_handle_rm
  handle_stop-timer_heap = ground arith

  pub handle_start-timer_heap : (handle_start p l).timer_heap ≡ l.timer_heap
  unfolding handle_start active_handle_add
  handle_start-timer_heap = ground arith

  pub handle_stop-moved : (handle_stop p l).moved ≡ l.moved
  unfolding handle_stop active_handle_rm
  handle_stop-moved = ground arith

  pub handle_start-moved : (handle_start p l).moved ≡ l.moved
  unfolding handle_start active_handle_add
  handle_start-moved = ground arith
