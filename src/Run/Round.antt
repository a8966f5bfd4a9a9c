-- ===== src/Run/Round.antt =====
-- The rounds over the queues of a loop, uv__run_pending (libuv/src/unix/core.c) and uv__run_idle, uv__run_prepare and
-- uv__run_check (libuv/src/unix/loop-watcher.c), called by uv_run, return and keep the loop sound.
use libuv_analyse.Base.{
  ℕ, zero, suc, ◌≤◌, ◌<◌, ◌≡◌, refl, ap, ◌∙◌, Bool, true, false, Option, inl, inr, some, List, [],
  ◌∷◌, length, length-append, by_if, arith,
}
use libuv_analyse.Heap.{Ptr}
use libuv_analyse.Loop.{Loop}
use libuv_analyse.Watcher.{
  Kind, prepare, check, idle, queue_of, Call, run_watcher, run_moved, run_watchers,
}
use libuv_analyse.Watcher.Round.{turned, taken, List-cases, run_moved_step}
use libuv_analyse.Iteration.{empty}
use libuv_analyse.Run.{and_then, pending_next, pending_all, run_pending}
use libuv_analyse.Run.Sound.{queued, IsSound, IsFair}
use libuv_analyse.Run.Times.{timed_refl, timed-IsReady}

-- Only the queues of the loop that are run change.
requeued-IsSound :
    {n : ℕ} {l l' : Loop}
    → IsSound n l
    → l'.handle ≡ l.handle
    → l'.timer_heap ≡ l.timer_heap
    → l'.handle_queue ≡ l.handle_queue
    → l'.time ≡ l.time
    → l'.closing_handles ≡ l.closing_handles
    → queued l' ≤ queued l
    → IsSound n l'
requeued-IsSound {l = l} s handle heap queue time closing less = record {
  ready =
      timed-IsReady s.ready (λ x. rw handle (timed_refl (l.handle x))) heap
        (λ x on. rw queue (s.ready.listed x on)) (rw time s.ready.now);
  few = rw queue s.few;
  room = omega (arith, s.room, less);
  off = λ x. rw handle (s.off x);
  once = λ x. rw closing (s.once x);
  pending = λ x. rw (closing, handle) (s.pending x);
}

turned-IsSound :
    {n : ℕ} (kind : Kind) (p : Ptr) (rest : List Ptr) (l : Loop)
    → l.moved ≡ p ∷ rest
    → IsSound n l
    → IsSound n (turned kind p rest l)
turned-IsSound prepare p rest l e s =
    requeued-IsSound s refl refl refl refl refl
      (omega (arith, ap length e, length-append l.prepare_handles (p ∷ [])))
turned-IsSound check p rest l e s =
    requeued-IsSound s refl refl refl refl refl
      (omega (arith, ap length e, length-append l.check_handles (p ∷ [])))
turned-IsSound idle p rest l e s =
    requeued-IsSound s refl refl refl refl refl
      (omega (arith, ap length e, length-append l.idle_handles (p ∷ [])))

taken-IsSound :
    {n : ℕ} (kind : Kind) (l : Loop) → l.moved ≡ [] → IsSound n l → IsSound n (taken kind l)
taken-IsSound prepare l e s =
    requeued-IsSound s refl refl refl refl refl (omega (arith, ap length e))
taken-IsSound check l e s = requeued-IsSound s refl refl refl refl refl (omega (arith, ap length e))
taken-IsSound idle l e s = requeued-IsSound s refl refl refl refl refl (omega (arith, ap length e))

queue_few : (n : ℕ) (kind : Kind) (l : Loop) → IsSound n l → length (queue_of kind l) ≤ n
queue_few n prepare l s = omega (arith, s.room)
queue_few n check l s = omega (arith, s.room)
queue_few n idle l s = omega (arith, s.room)

module _ {n : ℕ} {call : Call} (fair : (cb p : Ptr) → IsFair n (call cb p)) (kind : Kind) where
  run_moved-IsSound :
      (fuel : ℕ) (l : Loop)
      → IsSound n l
      → length l.moved < fuel
      → (l' : Loop) × (run_moved call kind fuel l ≡ some l') × IsSound n l' × (l'.moved ≡ [])
  unfolding run_watcher
  run_moved-IsSound zero l s enough = absurd (omega arith)
  run_moved-IsSound (suc fuel) l s enough = elim (List-cases l.moved) [
    | inl e ↦ (l, run_moved_step call kind fuel l [] e, s, e)
    | inr (p, rest, e) ↦
        let l₁ = turned kind p rest l in
        let cb = (l₁.handle p).watcher_cb in
        let shorter : length rest < fuel = omega (arith, ap length e) in
        let (l', ends, sound, emptied) =
          run_moved-IsSound fuel (call cb p l₁)
            ((fair cb p).keeps l₁ (turned-IsSound kind p rest l e s))
            (omega (arith, (fair cb p).no_more l₁)) in
        (l', run_moved_step call kind fuel l (p ∷ rest) e ∙ ends, sound, emptied)
  ]

  pub run_watchers-IsSound :
      (l : Loop)
      → IsSound n l
      → l.moved ≡ []
      → (l' : Loop) × (run_watchers call kind (suc n) l ≡ some l') × IsSound n l' × (l'.moved ≡ [])
  unfolding run_watchers
  run_watchers-IsSound l s none_moved =
      run_moved-IsSound (suc n) (taken kind l) (taken-IsSound kind l none_moved s)
        (omega (arith, queue_few n kind l s))

module _ {n : ℕ} {ready : Ptr → Loop → Loop} (fair : (p : Ptr) → IsFair n (ready p)) where
  -- What uv__run_pending leaves.
  abbrev Emptied : Option Loop → Type 0
  Emptied o = (l' : Loop) × (o ≡ some l') × IsSound n l' × (l'.moved ≡ [])

  pending_next-Emptied :
      (fuel : ℕ) (q : List Ptr) (l : Loop)
      → ((t : Loop) → IsSound n t → length t.moved < fuel → Emptied (pending_all fuel ready t))
      → IsSound n l
      → l.moved ≡ q
      → length q ≤ fuel
      → Emptied (pending_next q l (λ p t. pending_all fuel ready (ready p t)))
  unfolding pending_next
  pending_next-Emptied fuel [] l again s e enough = (l, refl, s, e)
  pending_next-Emptied fuel (p ∷ rest) l again s e enough =
      let l₁ = record l { moved = rest } in
      let s₁ : IsSound n l₁ =
        requeued-IsSound s refl refl refl refl refl (omega (arith, ap length e)) in
      again (ready p l₁) ((fair p).keeps l₁ s₁) (omega (arith, (fair p).no_more l₁))

  pending_all-Emptied :
      (fuel : ℕ) (l : Loop)
      → IsSound n l
      → length l.moved < fuel
      → Emptied (pending_all fuel ready l)
  unfolding pending_all
  pending_all-Emptied zero l s enough = absurd (omega arith)
  pending_all-Emptied (suc fuel) l s enough =
      pending_next-Emptied fuel l.moved l (pending_all-Emptied fuel) s refl (omega arith)

  -- uv__run_pending returns, and its local queue is empty.
  pub run_pending-IsSound :
      (l : Loop)
      → IsSound n l
      → l.moved ≡ []
      → (r : Bool × Loop) × (run_pending (suc n) ready l ≡ some r)
        × IsSound n r.1
        × (r.1.moved ≡ [])
  unfolding run_pending
  run_pending-IsSound l s none_moved =
      let l₁ = record l { moved = l.pending_queue; pending_queue = [] } in
      let s₁ : IsSound n l₁ =
        requeued-IsSound s refl refl refl refl refl (omega (arith, ap length none_moved)) in
      let (l', ends, sound, emptied) = pending_all-Emptied (suc n) l₁ s₁ (omega (arith, s.room)) in
      by_if (λ o. (r : Bool × Loop) × (o ≡ some r) × IsSound n r.1 × (r.1.moved ≡ []))
        (empty l.pending_queue) (λ e. ((false, l), refl, s, none_moved))
        (λ e. ((true, l'), ap (λ o. and_then o (λ t. some (true, t))) ends, sound, emptied))
