-- ===== src/Run/Phases.antt =====
-- One iteration of uv_run (libuv/src/unix/core.c) returns and keeps the loop sound.
use libuv_analyse.Base.{
  ℕ, suc, ◌-◌, ◌^◌, ◌≤◌, ◌<◌, ◌≡◌, refl, ap, ◌∙◌, true, Option, some, List, [], ◌∷◌, length, arith,
}
use libuv_analyse.Heap.{Ptr}
use libuv_analyse.Loop.{Loop}
use libuv_analyse.Timer.{run_timers}
use libuv_analyse.Timer.Stop.{is_active_timer}
use libuv_analyse.Watcher.{prepare, check, idle}
use libuv_analyse.Iteration.{run_closing_handles}
use libuv_analyse.Run.{
  Mode, run_default, run_once, run_nowait, is_once, Outside, Input, update_time, and_then, wait_of,
  first_half, timers_again, second_half, iteration, run,
}
use libuv_analyse.Run.Sound.{IsSound, IsOrderly, IsTimely}
use libuv_analyse.Run.Times.{timed_refl, timed-IsReady}
use libuv_analyse.Run.Timers.{due_count_few, run_timers-AreRun}
use libuv_analyse.Run.Closing.{run_closing_handles-IsSound}
use libuv_analyse.Run.Round.{run_watchers-IsSound, run_pending-IsSound}

pub update_time-IsSound :
    {n : ℕ} (now : ℕ) (l : Loop) → IsSound n l → now < 2 ^ 64 - 1 → IsSound n (update_time now l)
unfolding update_time
update_time-IsSound now l s small = record {
  ready = timed-IsReady s.ready (λ x. timed_refl (l.handle x)) refl s.ready.listed small;
  few = s.few;
  room = s.room;
  off = s.off;
  once = s.once;
  pending = s.pending;
}

shorter_nil : (q r : List Ptr) → length q ≤ length r → r ≡ [] → q ≡ []
shorter_nil [] r le e = refl
shorter_nil (x ∷ q) r le e = absurd (omega (arith, ap length e))

and_then-some {ℓ κ} :
    {A : Type ℓ} {B : Type κ} {o : Option A} {a : A} (f : A → Option B)
    → o ≡ some a
    → and_then o f ≡ f a
and_then-some f e = ap (λ o. and_then o f) e

abbrev pub NoneDue : Loop → Type 0
NoneDue l = (x : Ptr) → is_active_timer (l.handle x) ≡ true → l.time < (l.handle x).timeout

-- The loop between two phases of an iteration, and at its end.
pub record IsBetween (n : ℕ) (l : Loop) : Type 0 where
  pub sound : IsSound n l
  pub none_moved : l.moved ≡ []

module _ {n : ℕ} {w : Outside} (orderly : IsOrderly n w) (i : Input) (timely : IsTimely n i) where
  run_timers-IsBetween :
      (now : ℕ) (l : Loop)
      → IsBetween n l
      → now < 2 ^ 64 - 1
      → (l' : Loop) × (run_timers w.closers.call (suc n) (update_time now l) ≡ some l')
        × IsBetween n l'
        × NoneDue l'
  unfolding update_time
  run_timers-IsBetween now l b small =
      let s = update_time-IsSound now l b.sound small in
      let (l', ends, run) =
        run_timers-AreRun orderly.call orderly.none_due (suc n) (update_time now l) s
          (omega (arith, due_count_few n (update_time now l) s)) in
      (
        l',
        ends,
        record {
          sound = run.sound;
          none_moved = shorter_nil l'.moved l.moved run.moved b.none_moved;
        },
        run.none_due,
      )

  first_half-IsBetween :
      (mode : Mode) (l : Loop)
      → IsBetween n l
      → (l' : Loop) × (first_half (suc n) w mode i l ≡ some l') × IsBetween n l'
  unfolding first_half
  first_half-IsBetween mode l b =
      let (l₁, e₁, b₁, none_due) = run_timers-IsBetween i.now l b timely.now in
      let (r, e₂, s₂, m₂) = run_pending-IsSound orderly.ready l₁ b₁.sound b₁.none_moved in
      let (l₃, e₃, s₃, m₃) = run_watchers-IsSound orderly.call idle r.1 s₂ m₂ in
      let (l₄, e₄, s₄, m₄) = run_watchers-IsSound orderly.call prepare l₃ s₃ m₃ in
      let t = wait_of mode r.0 l₄ in
      let polled = i.poll t l₄ in
      (
        polled,
        and_then-some _ e₁ ∙ and_then-some _ e₂ ∙ and_then-some _ e₃ ∙ and_then-some _ e₄,
        record {
          sound = (timely.poll t).keeps l₄ s₄;
          none_moved = shorter_nil polled.moved l₄.moved ((timely.poll t).no_more l₄) m₄;
        },
      )

  timers_again-IsBetween :
      (mode : Mode) (l : Loop)
      → IsBetween n l
      → (l' : Loop) × (timers_again (suc n) w mode i l ≡ some l')
        × IsBetween n l'
        × (is_once mode ≡ true → NoneDue l')
  unfolding timers_again
  timers_again-IsBetween run_once l b =
      let (l', e, b', none_due) = run_timers-IsBetween i.later l b timely.later in
      (l', e, b', λ once. none_due)
  timers_again-IsBetween run_default l b = (l, refl, b, λ once. absurd (ground (arith, once)))
  timers_again-IsBetween run_nowait l b = (l, refl, b, λ once. absurd (ground (arith, once)))

  second_half-IsBetween :
      (mode : Mode) (l : Loop)
      → IsBetween n l
      → (l' : Loop) × (second_half (suc n) w mode i l ≡ some l')
        × IsBetween n l'
        × (is_once mode ≡ true → NoneDue l')
  unfolding second_half
  second_half-IsBetween mode l b =
      let (l₁, e₁, s₁, m₁) = run_watchers-IsSound orderly.call check l b.sound b.none_moved in
      let l₂ = run_closing_handles w.closers l₁ in
      let (s₂, less) =
        run_closing_handles-IsSound w.closers orderly.call orderly.releases orderly.release_active
          l₁ s₁ in
      let (l', e, b', once) =
        timers_again-IsBetween mode l₂
          (record { sound = s₂; none_moved = shorter_nil l₂.moved l₁.moved less m₁ }) in
      (l', and_then-some _ e₁ ∙ e, b', once)

  -- One iteration returns.
  pub iteration-IsBetween :
      (mode : Mode) (l : Loop)
      → IsBetween n l
      → (l' : Loop) × (iteration (suc n) w mode i l ≡ some l')
        × IsBetween n l'
        × (is_once mode ≡ true → NoneDue l')
  unfolding iteration
  iteration-IsBetween mode l b =
      let (l₁, e₁, b₁) = first_half-IsBetween mode l b in
      let (l', e, b', once) = second_half-IsBetween mode l₁ b₁ in
      (l', and_then-some _ e₁ ∙ e, b', once)
