-- ===== src/Loop/Tests.antt =====
-- Runs of the macros on handles (libuv/src/uv-common.h).
use libuv_analyse.Base.{◌≡◌, refl, true, false, [], ◌∷◌, ◌++◌, ◌==◌, if◌then◌else◌, arith}
use libuv_analyse.Loop.{
  HandleType, Handle, Loop, handle_init, handle_start, handle_stop, handle_ref, handle_unref,
  active_handle_rm,
}
use libuv_analyse.Heap.{Ptr}
use libuv_analyse.Loop.Walk.{walk, others, IsVisitor, walk-others}
use libuv_analyse.Loop.Count.{weight, counted, occurrences}
use libuv_analyse.Loop.Handles.{
  IsCounted, handle_init-IsCounted, handle_start-IsCounted, handle_stop-IsCounted,
  handle_ref-IsCounted, handle_unref-IsCounted,
}

abbrev idle_handle : Handle
idle_handle = record {
  type = HandleType.idle;
  closing = false;
  closed = false;
  active = false;
  referenced = true;
  internal = false;
  close_cb = 0;
  watcher_cb = 0;
  timer_cb = 0;
  timeout = 0;
  repeat = 0;
  start_id = 0;
}

-- A loop with an active handle at 4 and an inactive one at 6.
abbrev pair : Loop
pair = record {
  handle = λ x. if x == 4 then record idle_handle { active = true } else idle_handle;
  handle_queue = 4 ∷ 6 ∷ [];
  closing_handles = [];
  idle_handles = 4 ∷ [];
  prepare_handles = [];
  check_handles = [];
  moved = [];
  pending_queue = [];
  watcher_queue = [];
  timer_heap = record { min = 0; nelts = 0; left = λ x. 0; right = λ x. 0; parent = λ x. 0 };
  timer_counter = 0;
  time = 0;
  active_handles = 1;
  active_reqs = 0;
  stop_flag = 0;
}

pair-IsCounted : IsCounted pair
unfolding counted occurrences weight
pair-IsCounted = record {
  active_count = refl;
  once = λ p. ground arith;
  few = omega arith;
  stopped = λ p. ground arith;
}

init_example : IsCounted (handle_init HandleType.check 9 pair)
unfolding occurrences
init_example = handle_init-IsCounted pair HandleType.check 9 pair-IsCounted refl (omega arith)

start_6_example : IsCounted (handle_start 6 pair)
unfolding occurrences
start_6_example = handle_start-IsCounted 6 pair-IsCounted refl refl

stop_4_example : IsCounted (handle_stop 4 pair)
unfolding occurrences
stop_4_example = handle_stop-IsCounted 4 pair-IsCounted refl

ref_4_example : IsCounted (handle_ref 4 pair)
unfolding occurrences
ref_4_example = handle_ref-IsCounted 4 pair-IsCounted refl

unref_4_example : IsCounted (handle_unref 4 pair)
unfolding occurrences
unref_4_example = handle_unref-IsCounted 4 pair-IsCounted refl

unref_4_count : (handle_unref 4 pair).active_handles ≡ 0
unfolding handle_unref active_handle_rm
unref_4_count = refl

-- A loop with a handle of its own at 6. The callback notes the handle in a queue.
abbrev with_own : Loop
with_own = record pair {
  handle = λ x. if x == 6 then record idle_handle { internal = true } else idle_handle;
  handle_queue = 4 ∷ 6 ∷ 8 ∷ [];
}

abbrev note : Ptr → Loop → Loop
note p l = record l { pending_queue = l.pending_queue ++ (p ∷ []) }

note-IsVisitor : IsVisitor (λ l. l.pending_queue) note
note-IsVisitor = record {
  queue = λ p l. refl;
  marks = λ p x l. refl;
  told = λ p l. refl;
  kept = λ p l. refl;
  begun = λ l. refl;
}

walk-others_example :
    ((walk note with_own).handle_queue ≡ 4 ∷ 6 ∷ 8 ∷ [])
    × ((walk note with_own).pending_queue
        ≡ with_own.pending_queue ++ others with_own.handle (4 ∷ 6 ∷ 8 ∷ []))
walk-others_example = walk-others note-IsVisitor with_own

walk_test : (walk note with_own).pending_queue ≡ 4 ∷ 8 ∷ []
unfolding walk
walk_test = refl
