-- ===== src/Close/Stopped.antt =====
-- The stop of a timer and of an idle, prepare or check handle by uv_close (libuv/src/unix/core.c).
use libuv_analyse.Base.{
  ◌≤◌, ◌≡◌, ◌∙◌, refl, sym, subst, ap, true, false, inl, inr, Bool-cases, arith,
}
use libuv_analyse.Heap.{Ptr}
use libuv_analyse.Loop.{Handle, Loop, store, handle_stop, active_handle_rm}
use libuv_analyse.Loop.Fields.{handle_stop-handle, handle_stop-timer_heap}
use libuv_analyse.Timer.{timer_close}
use libuv_analyse.Timer.Stop.{is_timer, timer_stop-handle, timer_stop_idle}
use libuv_analyse.Timer.Operations.{timer_stop-off}
use libuv_analyse.Timer.Run.{IsReady, timer_stop-IsReady}
use libuv_analyse.Watcher.{
  Kind, prepare, check, idle, queue_of, set_queue, without, watcher_stop, watcher_close,
}
use libuv_analyse.Iteration.Finish.{length-without}
use libuv_analyse.Run.Sound.{queued}
use libuv_analyse.Run.Times.{timed-IsReady}
use libuv_analyse.Run.Timers.{Flags, Queues, timer_stop-Queues}

-- `p` has been stopped, and nothing else than its queue has changed.
pub record IsStopped (p : Ptr) (l' l : Loop) : Type 0 where
  pub handles : l'.handle_queue ≡ l.handle_queue
  pub closing : l'.closing_handles ≡ l.closing_handles
  pub room : queued l' ≤ queued l
  pub flags : (x : Ptr) → Flags (l'.handle x) (l.handle x)
  pub off : (l'.handle p).active ≡ false
  pub ready : IsReady l'

pub timer_close-IsStopped :
    (p : Ptr) (l : Loop)
    → IsReady l
    → is_timer (l.handle p) ≡ true
    → IsStopped p (timer_close p l) l
unfolding timer_close
timer_close-IsStopped p l r timer =
    let q = timer_stop-Queues p l in
    record {
      handles = q.handles;
      closing = q.closing;
      room = omega (arith, q.queued);
      flags = λ x. elim (Bool-cases (l.handle p).active) [
        | inl on ↦
            rw (timer_stop-handle p l on) (record {
              closing = ground arith;
              closed = ground arith;
              active = ground (arith, on);
            })
        | inr off ↦
            rw (timer_stop_idle p l off) (record { closing = refl; closed = refl; active = λ e. e })
      ];
      off = timer_stop-off p l;
      ready = timer_stop-IsReady p l r timer;
    }

-- The loop of uv__idle_stop, uv__prepare_stop or uv__check_stop before uv__handle_stop.
abbrev trimmed : Kind → Ptr → Loop → Loop
trimmed kind p l = record (set_queue kind (without p (queue_of kind l)) l) {
  moved = without p l.moved;
}

record IsTrimmed (l' l : Loop) : Type 0 where
  handle : l'.handle ≡ l.handle
  handles : l'.handle_queue ≡ l.handle_queue
  closing : l'.closing_handles ≡ l.closing_handles
  heap : l'.timer_heap ≡ l.timer_heap
  time : l'.time ≡ l.time
  room : queued l' ≤ queued l

trimmed-IsTrimmed : (kind : Kind) (p : Ptr) (l : Loop) → IsTrimmed (trimmed kind p l) l
trimmed-IsTrimmed prepare p l = record {
  handle = refl;
  handles = refl;
  closing = refl;
  heap = refl;
  time = refl;
  room = omega (arith, length-without p l.prepare_handles, length-without p l.moved);
}
trimmed-IsTrimmed check p l = record {
  handle = refl;
  handles = refl;
  closing = refl;
  heap = refl;
  time = refl;
  room = omega (arith, length-without p l.check_handles, length-without p l.moved);
}
trimmed-IsTrimmed idle p l = record {
  handle = refl;
  handles = refl;
  closing = refl;
  heap = refl;
  time = refl;
  room = omega (arith, length-without p l.idle_handles, length-without p l.moved);
}

handle_stop-Queues : (p : Ptr) (l : Loop) → Queues (handle_stop p l) l
unfolding handle_stop active_handle_rm
handle_stop-Queues p l = record {
  handles = ground arith;
  closing = ground arith;
  moved = ground arith;
  queued = ground arith;
}

handle_stop-time : (p : Ptr) (l : Loop) → (handle_stop p l).time ≡ l.time
unfolding handle_stop active_handle_rm
handle_stop-time p l = ground arith

module _ (kind : Kind) (p : Ptr) (l : Loop) (r : IsReady l)
    (other : is_timer (l.handle p) ≡ false) where
  active_watcher-IsStopped :
      (l.handle p).active ≡ true → IsStopped p (handle_stop p (trimmed kind p l)) l
  unfolding is_timer
  active_watcher-IsStopped on =
      let t = trimmed-IsTrimmed kind p l in
      let q = handle_stop-Queues p (trimmed kind p l) in
      let stopped : (handle_stop p (trimmed kind p l)).handle
          ≡ store l.handle p (record (l.handle p) { active = false }) =
        handle_stop-handle p (trimmed kind p l) (rw t.handle on)
        ∙ ap (λ (f : Ptr → Handle). store f p (record (f p) { active = false })) t.handle in
      record {
        handles = q.handles ∙ t.handles;
        closing = q.closing ∙ t.closing;
        room = omega (arith, q.queued, t.room);
        flags = λ x.
            rw stopped (record {
              closing = ground arith;
              closed = ground arith;
              active = ground (arith, on);
            });
        off = rw stopped (ground arith);
        ready =
            timed-IsReady r
              (λ x. rw stopped (record {
                timeout = ground arith;
                start_id = ground arith;
                repeat = ground arith;
                timer = ground (arith, other);
              }))
              (handle_stop-timer_heap p (trimmed kind p l) ∙ t.heap)
              (λ x e. rw (q.handles, t.handles) (r.listed x e))
              (rw (handle_stop-time p (trimmed kind p l), t.time) r.now);
      }

  pub watcher_close-IsStopped : IsStopped p (watcher_close kind p l) l
  unfolding watcher_close watcher_stop
  watcher_close-IsStopped = elim (Bool-cases (l.handle p).active) [
    | inl on ↦ subst (λ m. IsStopped p m l) (sym (ground (arith, on))) (active_watcher-IsStopped on)
    | inr off ↦
        subst (λ m. IsStopped p m l) (sym (ground (arith, off)))
          (record {
            handles = refl;
            closing = refl;
            room = omega arith;
            flags = λ x. record { closing = refl; closed = refl; active = λ e. e };
            off = off;
            ready = r;
          })
  ]
