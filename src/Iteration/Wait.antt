-- ===== src/Iteration/Wait.antt =====
-- How long an iteration may wait: uv__backend_timeout (libuv/src/unix/core.c).
use libuv_analyse.Base.{
  ◌-◌, ◌≡◌, ◌≢◌, ◌⊎◌, inl, inr, refl, Bool, true, false, ◌&&◌, ◌||◌, Bool-cases, none, some, List,
  [], ◌∷◌, ◌==◌, arith,
}
use Prim.Native.Nat.{min}
use libuv_analyse.Heap.{Ptr}
use libuv_analyse.Loop.{Loop, has_active_handles, has_active_reqs}
use libuv_analyse.Timer.{int_max}
use libuv_analyse.Timer.Stop.{is_active_timer, HasTimers}
use libuv_analyse.Timer.Next.{IsFirst, next_timeout_lem}
use libuv_analyse.Iteration.{empty, backend_timeout}

-- There is nothing that an iteration should do at once.
pub record IsAtRest (l : Loop) : Type 0 where
  pub not_stopped : l.stop_flag ≡ 0
  pub kept_alive : (l.active_handles ≢ 0) ⊎ (l.active_reqs ≢ 0)
  pub none_pending : l.pending_queue ≡ []
  pub none_idle : l.idle_handles ≡ []
  pub none_closing : l.closing_handles ≡ []

empty-nil : (q : List Ptr) → empty q ≡ true → q ≡ []
unfolding empty
empty-nil [] e = refl
empty-nil (p ∷ q) e = ground (arith, e)

-- uv__backend_timeout of a loop whose heap is that of its active timers is 0, or the loop is at rest: it
-- has not been stopped, something keeps it alive, and no watcher is pending, no idle handle active and
-- no handle being closed. Then the wait is for ever where no timer is active, and else until the first
-- timer is due, and at most INT_MAX.
pub backend_timeout_lem :
    (l : Loop)
    → HasTimers l
    → (backend_timeout l ≡ some 0)
      ⊎ IsAtRest l
        × ((backend_timeout l ≡ none) × ((x : Ptr) → is_active_timer (l.handle x) ≡ false)
            ⊎ (p : Ptr) × IsFirst l p
              × (backend_timeout l ≡ some (min ((l.handle p).timeout - l.time) int_max)))
unfolding backend_timeout
backend_timeout_lem l t =
    let idle_now : Bool =
      (l.stop_flag == 0)
      && (has_active_handles l || has_active_reqs l)
      && empty l.pending_queue
      && empty l.idle_handles
      && empty l.closing_handles in
    elim (Bool-cases idle_now) [
      | inr e ↦ inl (ground (arith, e))
      | inl e ↦ inr (
        record {
          not_stopped = ground (arith, e);
          kept_alive = ground (arith, e);
          none_pending = empty-nil l.pending_queue (ground (arith, e));
          none_idle = empty-nil l.idle_handles (ground (arith, e));
          none_closing = empty-nil l.closing_handles (ground (arith, e));
        },
        elim (next_timeout_lem l t) [
          | inl (forever, off) ↦ inl (ground (arith, e, forever), off)
          | inr (p, first, until) ↦ inr (p, first, ground (arith, e, until))
        ],
      )
    ]
