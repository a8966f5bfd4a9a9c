-- ===== src/Run/Timers.antt =====
-- uv__run_timers (libuv/src/timer.c), called by uv_run, keeps the loop sound.
use libuv_analyse.Base.{
  ℕ, zero, suc, ◌≤◌, ◌<◌, ◌≡◌, true, ◌∙◌, inl, inr, some, length, Bool-cases, ltb, ap, arith,
}
use libuv_analyse.Heap.{Ptr, heap_min}
use libuv_analyse.Loop.{
  Handle, Loop, handle_stop, handle_start, active_handle_add, active_handle_rm,
}
use libuv_analyse.Loop.Count.{counted_le}
use libuv_analyse.Timer.{
  Call, timer_stop, timer_set, timer_insert, timer_again, run_timer, run_timers,
}
use libuv_analyse.Timer.Start.{launched, launched-handles}
use libuv_analyse.Timer.Operations.{timer_stop-off}
use libuv_analyse.Timer.Stop.{is_active_timer, timer_stop-handle}
use libuv_analyse.Timer.Next.{IsFirst, heap_min-IsFirst}
use libuv_analyse.Timer.Run.{IsReady, due, due_count, again_cases, round_due}
use libuv_analyse.Run.Sound.{queued, IsSound, IsFair}

-- The queues of the loop.
pub record Queues (l' l : Loop) : Type 0 where
  pub handles : l'.handle_queue ≡ l.handle_queue
  pub closing : l'.closing_handles ≡ l.closing_handles
  pub moved : l'.moved ≡ l.moved
  pub queued : queued l' ≡ queued l

pub timer_stop-Queues : (p : Ptr) (l : Loop) → Queues (timer_stop p l) l
unfolding timer_stop handle_stop active_handle_rm
timer_stop-Queues p l = record {
  handles = ground arith;
  closing = ground arith;
  moved = ground arith;
  queued = ground arith;
}

launched-Queues :
    (p cb : Ptr) (timeout repeat : ℕ) (l : Loop) → Queues (launched p cb timeout repeat l) l
unfolding timer_set timer_insert handle_start active_handle_add
launched-Queues p cb timeout repeat l = record {
  handles = ground arith;
  closing = ground arith;
  moved = ground arith;
  queued = ground arith;
}

-- What a round leaves of a handle.
pub record Flags (h g : Handle) : Type 0 where
  pub closing : h.closing ≡ g.closing
  pub closed : h.closed ≡ g.closed
  pub active : h.active ≡ true → g.active ≡ true

module _ (p : Ptr) (l : Loop) (first : IsFirst l p) where
  abbrev again : Loop
  again = (timer_again p (timer_stop p l)).1

  active_p : (l.handle p).active ≡ true
  active_p = ground (arith, first.on)

  round-Queues : Queues again l
  round-Queues =
      let s = timer_stop-Queues p l in
      elim (again_cases p (timer_stop p l) (timer_stop-off p l)) [
        | inl e ↦ rw e s
        | inr (ne, e) ↦
            let h = (timer_stop p l).handle p in
            let q = launched-Queues p h.timer_cb h.repeat h.repeat (timer_stop p l) in
            rw e (record {
              handles = q.handles ∙ s.handles;
              closing = q.closing ∙ s.closing;
              moved = q.moved ∙ s.moved;
              queued = q.queued ∙ s.queued;
            })
      ]

  round-Flags : (x : Ptr) → Flags (again.handle x) (l.handle x)
  round-Flags x =
      let handles = timer_stop-handle p l active_p in
      elim (again_cases p (timer_stop p l) (timer_stop-off p l)) [
        | inl e ↦
            rw (e, handles)
              (record {
                closing = ground arith;
                closed = ground arith;
                active = ground (arith, active_p);
              })
        | inr (ne, e) ↦
            let h = (timer_stop p l).handle p in
            rw
              (
                e,
                launched-handles p h.timer_cb h.repeat h.repeat (timer_stop p l)
                    (timer_stop-off p l),
                handles,
              )
              (record {
                closing = ground arith;
                closed = ground arith;
                active = ground (arith, active_p);
              })
      ]

  pub round-IsSound : (n : ℕ) → IsSound n l → IsReady again → IsSound n again
  round-IsSound n s ready =
      let q = round-Queues in
      record {
        ready = ready;
        few = rw q.handles s.few;
        room = rw q.queued s.room;
        off = λ x c. ground (arith, (round-Flags x).active, s.off x, (round-Flags x).closing, c);
        once = λ x. rw q.closing (s.once x);
        pending = λ x here.
            let was = s.pending x (rw q.closing at here) in
            record {
              closing = (round-Flags x).closing ∙ was.closing;
              open_yet = (round-Flags x).closed ∙ was.open_yet;
            };
      }

pub due_count_few : (n : ℕ) (l : Loop) → IsSound n l → due_count l ≤ n
unfolding due_count due
due_count_few n l s =
    omega (arith, s.few, counted_le (due l.time) l.handle (λ h. ground arith) l.handle_queue)

-- What uv__run_timers leaves.
pub record AreRun (n : ℕ) (l' : Loop) (l : Loop) : Type 0 where
  pub sound : IsSound n l'
  pub moved : length l'.moved ≤ length l.moved
  pub none_due : (x : Ptr) → is_active_timer (l'.handle x) ≡ true → l'.time < (l'.handle x).timeout

module _ {n : ℕ} {call : Call} (fair : (cb p : Ptr) → IsFair n (call cb p))
    (none_due : (cb p : Ptr) (l : Loop) → IsSound n l → due_count (call cb p l) ≤ due_count l) where
  run_timer-IsSound :
      (p : Ptr) (l : Loop)
      → IsSound n l
      → IsFirst l p
      → (l.handle p).timeout ≤ l.time
      → IsSound n (run_timer call p l)
        × (due_count (run_timer call p l) < due_count l)
        × (length (run_timer call p l).moved ≤ length l.moved)
  unfolding run_timer
  run_timer-IsSound p l s first late =
      let (ready, fewer) = round_due p l s.ready first late in
      let kept = round-IsSound p l first n s ready in
      let l₁ = (timer_again p (timer_stop p l)).1 in
      let cb = (l₁.handle p).timer_cb in
      (
        (fair cb p).keeps l₁ kept,
        omega (arith, fewer, none_due cb p l₁ kept),
        omega (arith, (fair cb p).no_more l₁, ap length (round-Queues p l first).moved),
      )

  -- uv__run_timers returns, after at most one round more than there are timers due.
  pub run_timers-AreRun :
      (fuel : ℕ) (l : Loop)
      → IsSound n l
      → due_count l < fuel
      → (l' : Loop) × (run_timers call fuel l ≡ some l') × AreRun n l' l
  unfolding run_timers
  run_timers-AreRun zero l s enough = absurd (omega arith)
  run_timers-AreRun (suc fuel) l s enough = elim (heap_min-IsFirst l s.ready.timers) [
    | inl (empty, none_on) ↦ (
      l,
      ground (arith, empty),
      record {
        sound = s;
        moved = omega arith;
        none_due = λ x on. absurd (ground (arith, none_on x, on));
      },
    )
    | inr first ↦ elim (Bool-cases (ltb l.time (l.handle (heap_min l.timer_heap)).timeout)) [
      | inl early ↦ (
        l,
        ground (arith, first.some_p),
        record {
          sound = s;
          moved = omega arith;
          none_due = λ x on. ground (arith, first.first x on);
        },
      )
      | inr late ↦
          let p = heap_min l.timer_heap in
          let (kept, fewer, shorter) = run_timer-IsSound p l s first (ground arith) in
          let (l', ends, run) =
            run_timers-AreRun fuel (run_timer call p l) kept (omega (arith, fewer)) in
          (
            l',
            ground (arith, first.some_p, ends),
            record {
              sound = run.sound;
              moved = omega (arith, run.moved, shorter);
              none_due = run.none_due;
            },
          )
    ]
  ]
