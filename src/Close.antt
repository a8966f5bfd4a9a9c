-- ===== src/Close.antt =====
-- The beginning of the end of a handle, uv_close (libuv/src/unix/core.c), and of a loop, uv_loop_close
-- (libuv/src/uv-common.c).
pub mod Stopped
pub mod Sound
pub mod Ends
mod Tests
use libuv_analyse.Base.{Bool, true, false, ◌&&◌, not, List, [], ◌∷◌, if◌then◌else◌}
use libuv_analyse.Heap.{Ptr}
use libuv_analyse.Loop.{
  Status, success, ebusy, HandleType, Handle, Loop, set_handle, has_active_reqs,
}
use libuv_analyse.Timer.{timer_close}
use libuv_analyse.Watcher.{prepare, check, idle, watcher_close}
use libuv_analyse.Iteration.{make_close_pending}

-- The switch on the type; `other` is what it calls for the kinds that are not modelled.
unfoldable pub close_kind : HandleType → (Ptr → Loop → Loop) → Ptr → Loop → Loop
close_kind t other p l = elim t [
  | HandleType.prepare ↦ watcher_close prepare p l
  | HandleType.check ↦ watcher_close check p l
  | HandleType.idle ↦ watcher_close idle p l
  | HandleType.timer ↦ timer_close p l
  | _ ↦ other p l
]

-- A handle that polls a file returns from the switch.
unfoldable pub pend : HandleType → Ptr → Loop → Loop
pend t p l = elim t [ HandleType.fs_poll ↦ l | _ ↦ make_close_pending p l ]

abbrev pub mark : Ptr → Ptr → Loop → Loop
mark p cb l = set_handle p (record (l.handle p) { closing = true; close_cb = cb }) l

-- uv_close; the type of a handle does not change.
unfoldable pub close : (Ptr → Loop → Loop) → Ptr → Ptr → Loop → Loop
unfolding close_kind pend
close other p cb l = let t = (l.handle p).type in pend t p (close_kind t other p (mark p cb l))

-- `QUEUE_FOREACH` of uv_loop_close.
unfoldable pub all_internal : (Ptr → Handle) → List Ptr → Bool
all_internal f [] = true
all_internal f (p ∷ q) = if not (f p).internal then false else all_internal f q

-- `release` is uv__loop_close with what follows it.
unfoldable pub loop_close : (Loop → Loop) → Loop → Status × Loop
unfolding all_internal
loop_close release l =
    if has_active_reqs l
    then (ebusy, l)
    else if not (all_internal l.handle l.handle_queue)
    then (ebusy, l)
    else (success, release l)
