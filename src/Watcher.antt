-- ===== src/Watcher.antt =====
-- The idle, prepare and check handles: libuv/src/unix/loop-watcher.c. The macro UV_LOOP_WATCHER_DEFINE makes
-- the same functions for each of the three kinds; here the kind is an argument.
pub mod Queues
pub mod Start
pub mod Round
pub mod Tests
use libuv_analyse.Base.{
  ℕ, zero, suc, ◌+◌, Bool, true, false, not, Option, none, some, List, [], ◌∷◌, ◌++◌, ◌==◌,
  if◌then◌else◌,
}
use libuv_analyse.Heap.{Ptr, null}
use libuv_analyse.Loop.{
  Status, success, einval, HandleType, Handle, Loop, set_handle, is_active, handle_init,
  handle_start, handle_stop,
}

-- The three uses of the macro.
pub data Kind : Type 0 where
  prepare check idle : Kind

abbrev pub type_of : Kind → HandleType
type_of prepare = HandleType.prepare
type_of check = HandleType.check
type_of idle = HandleType.idle

-- `loop->name##_handles`.
abbrev pub queue_of : Kind → Loop → List Ptr
queue_of prepare l = l.prepare_handles
queue_of check l = l.check_handles
queue_of idle l = l.idle_handles

abbrev pub set_queue : Kind → List Ptr → Loop → Loop
set_queue prepare q l = record l { prepare_handles = q }
set_queue check q l = record l { check_handles = q }
set_queue idle q l = record l { idle_handles = q }

-- QUEUE_REMOVE of an element of a queue.
unfoldable pub without : Ptr → List Ptr → List Ptr
without p [] = []
without p (x ∷ q) = let rest = without p q in if x == p then q else x ∷ rest

unfoldable pub watcher_init : Kind → Ptr → Loop → Status × Loop
watcher_init kind p l =
    let l₁ = handle_init (type_of kind) p l in
    (success, set_handle p (record (l₁.handle p) { watcher_cb = null }) l₁)

unfoldable pub watcher_start : Kind → Ptr → Ptr → Loop → Status × Loop
watcher_start kind p cb l =
    let l₁ = set_queue kind (p ∷ queue_of kind l) l in
    let l₂ = set_handle p (record (l₁.handle p) { watcher_cb = cb }) l₁ in
    if is_active p l
    then (success, l)
    else if cb == null
    then (einval, l)
    else (success, handle_start p l₂)

-- QUEUE_REMOVE takes the handle out of the queue in which it stands: that of the loop, or the local one
-- of the round that is running.
unfoldable pub watcher_stop : Kind → Ptr → Loop → Loop
unfolding without
watcher_stop kind p l =
    let l₁ = record (set_queue kind (without p (queue_of kind l)) l) {
      moved = without p l.moved;
    } in
    if not (is_active p l) then l else handle_stop p l₁

unfoldable pub watcher_close : Kind → Ptr → Loop → Loop
watcher_close kind p l = watcher_stop kind p l

-- A callback is called with the address of its handle and changes the loop.
abbrev pub Call : Type 0
Call = Ptr → Ptr → Loop → Loop

-- One round of the loop of uv__run_##name: the first handle goes to the end of the loop's queue and is called.
unfoldable pub run_watcher : Call → Kind → Ptr → List Ptr → Loop → Loop
run_watcher call kind p rest l =
    let l₁ = record (set_queue kind (queue_of kind l ++ (p ∷ [])) l) { moved = rest } in
    call (l₁.handle p).watcher_cb p l₁

-- The loop of uv__run_##name on fuel; `none` where it runs out.
unfoldable pub run_moved : Call → Kind → ℕ → Loop → Option Loop
run_moved call kind zero l = none
run_moved call kind (suc fuel) l = elim l.moved [
  | [] ↦ some l
  | p ∷ rest ↦ run_moved call kind fuel (run_watcher call kind p rest l)
]

unfoldable pub run_watchers : Call → Kind → ℕ → Loop → Option Loop
run_watchers call kind fuel l =
    run_moved call kind fuel (record (set_queue kind [] l) { moved = queue_of kind l })
