-- ===== src/Watcher/Tests.antt =====
-- Runs of the idle, prepare and check handles (libuv/src/unix/loop-watcher.c).
use libuv_analyse.Base.{◌≡◌, refl, true, false, some, [], ◌∷◌, ◌==◌, if◌then◌else◌, arith}
use libuv_analyse.Loop.{HandleType, Handle, Loop}
use libuv_analyse.Loop.Count.{occurrences}
use libuv_analyse.Watcher.{idle, Call, watcher_start, watcher_stop, run_watchers}
use libuv_analyse.Watcher.Queues.{is_of, standing, IsWatched}
use libuv_analyse.Watcher.Start.{watcher_start-IsWatched, watcher_stop-IsWatched}
use libuv_analyse.Watcher.Round.{IsSteady, run_watchers-ends}

abbrev idle_handle : Handle
idle_handle = record {
  type = HandleType.idle;
  closing = false;
  closed = false;
  active = false;
  referenced = true;
  internal = false;
  close_cb = 0;
  watcher_cb = 50;
  timer_cb = 0;
  timeout = 0;
  repeat = 0;
  start_id = 0;
}

-- A loop with active idle handles at 4 and 5 and an inactive one at 6.
abbrev idling : Loop
idling = record {
  handle = λ x.
      if (x == 4)
      then record idle_handle { active = true }
      else if (x == 5)
      then record idle_handle { active = true }
      else idle_handle;
  handle_queue = 4 ∷ 5 ∷ 6 ∷ [];
  closing_handles = [];
  idle_handles = 5 ∷ 4 ∷ [];
  prepare_handles = [];
  check_handles = [];
  moved = [];
  pending_queue = [];
  watcher_queue = [];
  timer_heap = record { min = 0; nelts = 0; left = λ x. 0; right = λ x. 0; parent = λ x. 0 };
  timer_counter = 0;
  time = 0;
  active_handles = 2;
  active_reqs = 0;
  stop_flag = 0;
}

idling-IsWatched : IsWatched idle idling
unfolding IsWatched standing occurrences is_of
idling-IsWatched x = ground arith

-- A callback that calls uv_stop.
abbrev stopping : Call
stopping cb p l = record l { stop_flag = 1 }

stopping-IsSteady : IsSteady stopping idle
unfolding IsWatched standing is_of
stopping-IsSteady = record { keeps = λ cb p l inv x. inv x; no_more = λ cb p l. omega arith }

watcher_start_6_example : IsWatched idle (watcher_start idle 6 51 idling).1
unfolding is_of
watcher_start_6_example = watcher_start-IsWatched idle 6 51 idling idling-IsWatched refl

watcher_stop_4_example : IsWatched idle (watcher_stop idle 4 idling)
unfolding is_of
watcher_stop_4_example = watcher_stop-IsWatched idle 4 idling idling-IsWatched refl

round_example :
    (l' : Loop) × (run_watchers stopping idle 3 idling ≡ some l')
    × (l'.moved ≡ [])
    × IsWatched idle l'
round_example = run_watchers-ends stopping-IsSteady 3 idling idling-IsWatched refl (omega arith)
