-- ===== src/Loop/Handles.antt =====
-- The count of the active handles of a loop, and the macros of libuv/src/uv-common.h that keep it.
use libuv_analyse.Base.{
  suc, ◌^◌, ◌≤◌, ◌<◌, ◌≡◌, true, false, [], ◌∷◌, by_if, not, length, length-append, arith,
}
use libuv_analyse.Heap.{Ptr}
use libuv_analyse.Loop.{
  HandleType, Handle, Loop, set_handle, active_handle_add, active_handle_rm, handle_init,
  handle_start, handle_stop, handle_ref, handle_unref,
}
use libuv_analyse.Loop.Count.{
  weight, weight_le, counted, occurrences, counted_absent, counted_once, counted_le, counted_room,
  weight_le_counted, counted-append, occurrences-append,
}

-- What holds of every loop between two calls: `active_handles` is the number of handles of the loop that
-- are both active and referenced, no handle stands in `handle_queue` twice, there are fewer than 2 ^ 32
-- handles, and a handle that is being closed is not active.
pub record IsCounted (l : Loop) : Type 0 where
  pub active_count : l.active_handles ≡ counted weight l.handle l.handle_queue
  pub once : (p : Ptr) → occurrences p l.handle_queue ≤ 1
  pub few : length l.handle_queue < 2 ^ 32
  pub stopped : (p : Ptr) → (l.handle p).closing ≡ true → (l.handle p).active ≡ false

module _ {l : Loop} (p : Ptr) (inv : IsCounted l) (in_loop : occurrences p l.handle_queue ≡ 1) where
  -- A handle of the loop starts or ceases to count.
  pub add-IsCounted :
      (v : Handle)
      → weight (l.handle p) ≡ 0
      → weight v ≡ 1
      → (v.closing ≡ true → v.active ≡ false)
      → IsCounted (active_handle_add (set_handle p v l))
  unfolding active_handle_add
  add-IsCounted v before after stopped = record {
    active_count = ground (
      arith,
      inv.active_count,
      inv.few,
      counted_once weight l.handle p v l.handle_queue,
      counted_room weight l.handle weight_le p l.handle_queue,
    );
    once = inv.once;
    few = inv.few;
    stopped = λ a. ground (arith, inv.stopped a);
  }

  pub rm-IsCounted :
      (v : Handle)
      → weight (l.handle p) ≡ 1
      → weight v ≡ 0
      → (v.closing ≡ true → v.active ≡ false)
      → IsCounted (active_handle_rm (set_handle p v l))
  unfolding active_handle_rm
  rm-IsCounted v before after stopped = record {
    active_count = ground (
      arith,
      inv.active_count,
      inv.few,
      counted_once weight l.handle p v l.handle_queue,
      weight_le_counted weight l.handle p l.handle_queue,
      counted_le weight l.handle weight_le l.handle_queue,
    );
    once = inv.once;
    few = inv.few;
    stopped = λ a. ground (arith, inv.stopped a);
  }

  pub set-IsCounted :
      (v : Handle)
      → weight (l.handle p) ≡ weight v
      → (v.closing ≡ true → v.active ≡ false)
      → IsCounted (set_handle p v l)
  set-IsCounted v same stopped = record {
    active_count =
        ground (arith, inv.active_count, counted_once weight l.handle p v l.handle_queue);
    once = inv.once;
    few = inv.few;
    stopped = λ a. ground (arith, inv.stopped a);
  }

  -- uv__handle_start of a handle that is in the loop and not being closed keeps `active_handles` the number
  -- of the active and referenced handles, with no wrap-around, and the rest of IsCounted.
  pub handle_start-IsCounted : (l.handle p).closing ≡ false → IsCounted (handle_start p l)
  unfolding handle_start weight
  handle_start-IsCounted not_closing =
      by_if IsCounted (l.handle p).active (λ e. inv)
        (λ e.
          by_if IsCounted (l.handle p).referenced
            (λ r. add-IsCounted _ (ground arith) (ground arith) (ground arith))
            (λ r. set-IsCounted _ (ground arith) (ground arith)))

  -- uv__handle_stop of a handle of the loop keeps `active_handles` the number of the active and referenced
  -- handles, and the rest of IsCounted.
  pub handle_stop-IsCounted : IsCounted (handle_stop p l)
  unfolding handle_stop weight
  handle_stop-IsCounted =
      by_if IsCounted (not (l.handle p).active) (λ e. inv)
        (λ e.
          by_if IsCounted (l.handle p).referenced
            (λ r. rm-IsCounted _ (ground arith) (ground arith) (ground arith))
            (λ r. set-IsCounted _ (ground arith) (ground arith)))

  -- uv__handle_ref of a handle of the loop, being closed or not, keeps IsCounted.
  pub handle_ref-IsCounted : IsCounted (handle_ref p l)
  unfolding handle_ref weight
  handle_ref-IsCounted =
      by_if IsCounted (l.handle p).referenced (λ e. inv)
        (λ e.
          by_if IsCounted (l.handle p).closing
            (λ c. set-IsCounted _ (ground (arith, inv.stopped p)) (ground (arith, inv.stopped p)))
            (λ c.
              by_if IsCounted (l.handle p).active
                (λ a. add-IsCounted _ (ground arith) (ground arith) (ground arith))
                (λ a. set-IsCounted _ (ground arith) (ground arith))))

  -- uv__handle_unref of a handle of the loop, being closed or not, keeps IsCounted.
  pub handle_unref-IsCounted : IsCounted (handle_unref p l)
  unfolding handle_unref weight
  handle_unref-IsCounted =
      by_if IsCounted (not (l.handle p).referenced) (λ e. inv)
        (λ e.
          by_if IsCounted (l.handle p).closing
            (λ c. set-IsCounted _ (ground (arith, inv.stopped p)) (ground (arith, inv.stopped p)))
            (λ c.
              by_if IsCounted (l.handle p).active
                (λ a. rm-IsCounted _ (ground arith) (ground arith) (ground arith))
                (λ a. set-IsCounted _ (ground arith) (ground arith))))

-- uv__handle_init of a handle that is not in the loop keeps IsCounted, where the loop would have fewer than
-- 2 ^ 32 handles with it.
pub handle_init-IsCounted :
    (l : Loop) (type : HandleType) (p : Ptr)
    → IsCounted l
    → occurrences p l.handle_queue ≡ 0
    → suc (length l.handle_queue) < 2 ^ 32
    → IsCounted (handle_init type p l)
unfolding handle_init weight counted occurrences
handle_init-IsCounted l type p inv new few = record {
  active_count =
      rw
        (
          counted-append weight _ l.handle_queue (p ∷ []),
          counted_absent weight l.handle p _ l.handle_queue new,
        )
        (ground (arith, inv.active_count));
  once = λ a. rw (occurrences-append a l.handle_queue (p ∷ [])) (ground (arith, inv.once a));
  few = rw (length-append l.handle_queue (p ∷ [])) (omega (arith, few));
  stopped = λ a. ground (arith, inv.stopped a);
}
