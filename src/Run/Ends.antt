-- ===== src/Run/Ends.antt =====
-- uv_run (libuv/src/unix/core.c), whole.
use libuv_analyse.Base.{
  ℕ, suc, ◌-◌, ◌^◌, ◌<◌, ◌≡◌, refl, sym, subst, Bool, true, false, ◌&&◌, by_if, ◌⊎◌, inl, inr, some,
  if◌then◌else◌, List, [], ◌∷◌, length, ◌==◌,
}
use libuv_analyse.Loop.{Loop}
use libuv_analyse.Iteration.{loop_alive}
use libuv_analyse.Run.{
  Mode, run_default, run_once, run_nowait, is_once, Outside, Input, update_time, iteration, Outcome,
  returned, goes_on, out_of_fuel, leave, while_on, break_or, run_loop, run,
}
use libuv_analyse.Run.Sound.{IsSound, IsOrderly, IsTimely}
use libuv_analyse.Run.Times.{timed_refl, timed-IsReady}
use libuv_analyse.Run.Phases.{IsBetween, NoneDue, update_time-IsSound, iteration-IsBetween}

-- The inputs of all iterations are as uv_run asks.
pub data AllTimely (n : ℕ) : List Input → Type 0 where
  nil : AllTimely n []
  cons : {i : Input} {is : List Input} → IsTimely n i → AllTimely n is → AllTimely n (i ∷ is)

-- How far uv_run has gone when it returns, where `on` says whether the loop was alive and not stopped at the call.
pub IsFar : Mode → List Input → Bool → Loop → List Input → Type 0
IsFar run_default is on l left =
    (was : Loop) × (l ≡ record was { stop_flag = 0 })
    × ((loop_alive was && (was.stop_flag == 0)) ≡ false)
IsFar run_once is on l left =
    (length is ≡ (if on then suc (length left) else length left)) × ((on ≡ false) ⊎ NoneDue l)
IsFar run_nowait is on l left = length is ≡ (if on then suc (length left) else length left)

-- uv_run has returned `r`, with the inputs `left` not used.
pub record IsReturned (n : ℕ) (r : Bool) (l : Loop) : Type 0 where
  pub sound : IsSound n l
  pub alive : r ≡ loop_alive l
  pub reset : l.stop_flag ≡ 0

-- What holds at the end of uv_run, or where the inputs end before it returns.
pub AtEnd : ℕ → Mode → List Input → Bool → Outcome → Type 0
AtEnd n mode is on (returned r l left) = IsReturned n r l × IsFar mode is on l left
AtEnd n mode is on (goes_on l) =
    IsSound n l × ((loop_alive l && (l.stop_flag == 0)) ≡ true) × ((mode ≡ run_default) ⊎ (is ≡ []))
AtEnd n mode is on out_of_fuel = ⊥

unstopped-IsSound : {n : ℕ} (l : Loop) → IsSound n l → IsSound n (record l { stop_flag = 0 })
unstopped-IsSound l s = record {
  ready = timed-IsReady s.ready (λ x. timed_refl (l.handle x)) refl s.ready.listed s.ready.now;
  few = s.few;
  room = s.room;
  off = s.off;
  once = s.once;
  pending = s.pending;
}

left-IsReturned :
    (n : ℕ) (l : Loop) → IsSound n l → IsReturned n (loop_alive l) (record l { stop_flag = 0 })
unfolding loop_alive
left-IsReturned n l s = record { sound = unstopped-IsSound l s; alive = refl; reset = refl }

-- The loop is left before an iteration.
leave-AtEnd :
    (n : ℕ) (mode : Mode) (is : List Input) (l : Loop)
    → IsSound n l
    → (loop_alive l && (l.stop_flag == 0)) ≡ false
    → AtEnd n mode is false (leave (loop_alive l) l is)
unfolding leave AtEnd IsFar
leave-AtEnd n run_default is l s off = (left-IsReturned n l s, (l, refl, off))
leave-AtEnd n run_once is l s off = (left-IsReturned n l s, (refl, inl refl))
leave-AtEnd n run_nowait is l s off = (left-IsReturned n l s, refl)

-- More inputs were given than an outcome of UV_RUN_DEFAULT has seen.
more-AtEnd :
    (n : ℕ) (i : Input) (is : List Input) (on : Bool) (o : Outcome)
    → AtEnd n run_default is on o
    → AtEnd n run_default (i ∷ is) true o
unfolding AtEnd IsFar
more-AtEnd n i is on (returned r l left) a = a
more-AtEnd n i is on (goes_on l) (s, e, m) = (s, e, inl refl)
more-AtEnd n i is on out_of_fuel a = a

break_or-AtEnd :
    (n : ℕ) (mode : Mode) (i : Input) (is : List Input) (on : Bool) (l : Loop)
    (again : Loop → Outcome)
    → IsSound n l
    → (is_once mode ≡ true → NoneDue l)
    → AtEnd n mode is on (again l)
    → AtEnd n mode (i ∷ is) true (break_or mode is (some l) again)
unfolding break_or leave AtEnd IsFar
break_or-AtEnd n run_default i is on l again s once rest = more-AtEnd n i is on (again l) rest
break_or-AtEnd n run_once i is on l again s once rest =
    (left-IsReturned n l s, (refl, inr (once refl)))
break_or-AtEnd n run_nowait i is on l again s once rest = (left-IsReturned n l s, refl)

while_on-AtEnd :
    (n : ℕ) (mode : Mode) (is : List Input) (b : Bool) (l : Loop) (body : Loop → Outcome)
    → (loop_alive l && (l.stop_flag == 0)) ≡ b
    → IsSound n l
    → (b ≡ true → AtEnd n mode is true (body l))
    → AtEnd n mode is b (while_on b (leave (loop_alive l) l is) body l)
unfolding while_on
while_on-AtEnd n mode is false l body e s on = leave-AtEnd n mode is l s e
while_on-AtEnd n mode is true l body e s on = on refl

module _ {n : ℕ} {w : Outside} (orderly : IsOrderly n w) (mode : Mode) where
  run_loop-AtEnd :
      (is : List Input) (l : Loop)
      → AllTimely n is
      → IsBetween n l
      → AtEnd n mode is
          (loop_alive l && (l.stop_flag == 0))
          (run_loop (suc n) w mode is (loop_alive l) l)
  unfolding run_loop AtEnd
  run_loop-AtEnd [] l all b =
      while_on-AtEnd n mode [] _ l goes_on refl b.sound (λ e. (b.sound, e, inr refl))
  run_loop-AtEnd (i ∷ is) l (cons timely all) b =
      let (l', ends, b', once) = iteration-IsBetween orderly i timely mode l b in
      let again = λ (u : Loop). run_loop (suc n) w mode is (loop_alive u) u in
      while_on-AtEnd n mode (i ∷ is) _ l
        (λ t. break_or mode is (iteration (suc n) w mode i t) again) refl b.sound
        (λ e.
          subst (λ o. AtEnd n mode (i ∷ is) true (break_or mode is o again)) (sym ends)
            (break_or-AtEnd n mode i is _ l' again b'.sound once (run_loop-AtEnd is l' all b')))

  -- uv_run never runs out of fuel on a sound loop of at most `n` handles and entries of its queues,
  -- called in no round over one of these: each iteration ends. This is under these conditions. The
  -- callbacks, uv__io_poll and the release of streams and UDP handles keep the loop sound, put nothing
  -- into a local queue that is being run, and neither end the closing of a handle nor close it again.
  -- The release leaves the flag of activity of its handle as it was. No callback raises the number of
  -- the timers due at the present time: one that starts its timer again with a timeout of 0, with which
  -- uv__run_timers need not end, is left out. The times are below the greatest `uint64_t`. It returns whether the loop is alive, with
  -- the stop flag reset, and the loop sound, so that the heap holds exactly the active timers and no
  -- handle that is being closed is active. In the modes UV_RUN_ONCE and UV_RUN_NOWAIT it does one
  -- iteration where the loop is alive and not stopped at the call and none else, and after that of
  -- UV_RUN_ONCE no timer is due. In UV_RUN_DEFAULT it returns only where the loop is not alive or has
  -- been stopped, and else goes on with the next iteration for as long as inputs are given.
  pub run-AtEnd :
      (now : ℕ) (is : List Input) (l : Loop)
      → AllTimely n is
      → IsSound n l
      → l.moved ≡ []
      → now < 2 ^ 64 - 1
      → AtEnd n mode is (loop_alive l && (l.stop_flag == 0)) (run (suc n) w mode now is l)
  unfolding run loop_alive update_time
  run-AtEnd now is l all s none_moved small =
      by_if
        (λ m.
          AtEnd n mode is (loop_alive l && (l.stop_flag == 0))
            (run_loop (suc n) w mode is (loop_alive l) m))
        (loop_alive l)
        (λ e. run_loop-AtEnd is l all (record { sound = s; none_moved = none_moved }))
        (λ e.
          run_loop-AtEnd is (update_time now l) all
            (record { sound = update_time-IsSound now l s small; none_moved = none_moved }))
