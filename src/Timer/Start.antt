-- ===== src/Timer/Start.antt =====
-- uv_timer_start and uv_timer_again (libuv/src/timer.c) keep the heap of the active timers.
use libuv_analyse.Base.{
  ℕ, suc, ◌^◌, ◌≤◌, ◌<◌, ◌≡◌, ◌≢◌, ◌↔◌, ◌⊎◌, sym, subst, ap, ◌∙◌, true, false, inl, inr, arith,
}
use mathlib.Core.Path.{fun_ext}
use native.Mathlib.Decide.{ℕ_discrete}
use libuv_analyse.Heap.{Ptr, null, heap_insert}
use libuv_analyse.Heap.Order.{Member}
use libuv_analyse.Heap.Insert.{IsHeap, extend, heap_insert-IsHeap}
use libuv_analyse.Loop.{Handle, Loop, store, handle_start}
use libuv_analyse.Loop.Fields.{handle_start-handle, handle_start-timer_heap}
use libuv_analyse.Timer.{clamped_timeout, timer_less_than, timer_set, timer_insert}
use libuv_analyse.Timer.Order.{timer_less_than-IsStrictOrder, agree-IsHeap, timer_less_than_other}
use libuv_analyse.Timer.Stop.{is_timer, is_active_timer, HasTimers}

extend_members :
    (place : ℕ → Ptr) (n : ℕ) (p x : Ptr)
    → Member (extend place n p) (suc n) x ↔ Member place n x ⊎ (x ≡ p)
extend_members place n p x = (
  λ (i, lo, hi, e). elim (ℕ_discrete i (suc n)) [
    | yes last ↦ inr (ground arith)
    | no before ↦ inl (i, lo, omega arith, ground arith)
  ],
  λ y. elim y [
    | inl (i, lo, hi, e) ↦ (i, lo, omega arith, ground arith)
    | inr e ↦ (suc n, omega arith, omega arith, ground arith)
  ],
)

-- The last two steps of uv_timer_start, on an inactive timer whose fields have been set.
abbrev pub launched : Ptr → Ptr → ℕ → ℕ → Loop → Loop
launched p cb timeout repeat l = handle_start p (timer_insert p (timer_set p cb timeout repeat l))

module _ (p cb : Ptr) (timeout repeat : ℕ) (l : Loop) (off : (l.handle p).active ≡ false) where
  abbrev set : Handle
  set = record (l.handle p) {
    timer_cb = cb;
    timeout = clamped_timeout l.time timeout;
    repeat = repeat;
    start_id = l.timer_counter;
  }

  abbrev pub started : Handle
  started = record set { active = true }

  pub launched-handle :
      (x : Ptr) → (launched p cb timeout repeat l).handle x ≡ store l.handle p started x
  unfolding timer_set timer_insert
  launched-handle x =
      ap (λ (g : Ptr → Handle). g x)
        (handle_start-handle p (timer_insert p (timer_set p cb timeout repeat l))
          (ground (arith, off)))
      ∙ ground arith

  pub launched-handles : (launched p cb timeout repeat l).handle ≡ store l.handle p started
  launched-handles = fun_ext launched-handle

  launched-timer_heap :
      (launched p cb timeout repeat l).timer_heap
      ≡ heap_insert (timer_less_than (store l.handle p set)) p l.timer_heap
  unfolding timer_set timer_insert
  launched-timer_heap = handle_start-timer_heap p (timer_insert p (timer_set p cb timeout repeat l))

  on_members :
      (place q : ℕ → Ptr) (n : ℕ) (x : Ptr)
      → is_timer (l.handle p) ≡ true
      → (Member place n x ↔ (is_active_timer (l.handle x) ≡ true))
      → (Member q (suc n) x ↔ Member place n x ⊎ (x ≡ p))
      → Member q (suc n) x ↔ (is_active_timer (store l.handle p started x) ≡ true)
  unfolding is_timer
  on_members place q n x timer before after = (
    λ y. elim (after.0 y) [
      | inl y ↦ ground (arith, before.0 y, timer)
      | inr e ↦ ground (arith, timer)
    ],
    λ e. elim (ℕ_discrete x p) [
      | yes same ↦ after.1 (inr same)
      | no ne ↦ after.1 (inl (before.1 (ground arith)))
    ],
  )

  launched_less :
      (x y : Ptr)
      → timer_less_than (launched p cb timeout repeat l).handle x y
        ≡ timer_less_than (store l.handle p set) x y
  unfolding timer_less_than
  launched_less x y = ground (arith, launched-handle x, launched-handle y)

  -- The launch of an inactive timer.
  pub launched_at :
      (t : HasTimers l)
      → suc t.n < 2 ^ 32
      → is_timer (l.handle p) ≡ true
      → p ≢ null
      → HasTimers (launched p cb timeout repeat l)
  launched_at t room timer some_p =
      let new : (i : ℕ) → 1 ≤ i → i ≤ t.n → t.place i ≢ p =
        λ i lo hi e. absurd (ground (arith, off, (t.members p).0 (i, lo, hi, e))) in
      let (q, heap, same) =
        heap_insert-IsHeap (timer_less_than-IsStrictOrder (store l.handle p set)) p
          (agree-IsHeap (timer_less_than l.handle) (timer_less_than (store l.handle p set))
            (λ i k li hi lk hk.
              timer_less_than_other l.handle p set (t.place i) (t.place k) (new i li hi)
                (new k lk hk))
            t.heap)
          room some_p new in
      record {
        place = q;
        n = suc t.n;
        few = room;
        heap =
            subst
              (λ h. IsHeap (timer_less_than (launched p cb timeout repeat l).handle) h q (suc t.n))
              (sym launched-timer_heap)
              (agree-IsHeap (timer_less_than (store l.handle p set))
                (timer_less_than (launched p cb timeout repeat l).handle)
                (λ i k li hi lk hk. launched_less (q i) (q k)) heap);
        members = λ x.
            subst (λ v. Member q (suc t.n) x ↔ (is_active_timer v ≡ true)) (sym (launched-handle x))
              (on_members t.place q t.n x timer (t.members x) (
                (λ y. (extend_members t.place t.n p x).0 ((same x).1 y)),
                (λ y. (same x).0 ((extend_members t.place t.n p x).1 y)),
              ));
      }
