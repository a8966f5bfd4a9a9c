-- ===== src/Iteration/Finish.antt =====
-- The closing of a handle keeps the count of the active handles (libuv/src/unix/core.c).
use libuv_analyse.Base.{◌+◌, ◌≤◌, ◌≡◌, refl, true, false, by_if, List, [], ◌∷◌, length, ◌==◌, arith}
use libuv_analyse.Heap.{Ptr, null}
use libuv_analyse.Loop.{Handle, Loop, set_handle, handle_unref, active_handle_rm}
use libuv_analyse.Loop.Count.{weight, counted, occurrences}
use libuv_analyse.Loop.Handles.{IsCounted, set-IsCounted, handle_unref-IsCounted}
use libuv_analyse.Watcher.{without}
use libuv_analyse.Watcher.Queues.{occurrences-without}
use libuv_analyse.Iteration.{
  Closers, make_close_pending, release, signals_left, forget, finish_close,
}

counted-without :
    (f : Ptr → Handle) (p : Ptr) (q : List Ptr)
    → occurrences p q ≡ 1
    → counted weight f (without p q) + weight (f p) ≡ counted weight f q
unfolding counted occurrences without
counted-without f p [] e = absurd (omega arith)
counted-without f p (x ∷ q) e = ground (arith, counted-without f p q)

pub length-without : (p : Ptr) (q : List Ptr) → length (without p q) ≤ length q
unfolding without
length-without p [] = omega arith
length-without p (x ∷ q) = ground (arith, length-without p q)

-- A handle that does not count leaves the loop.
removed-IsCounted :
    (p : Ptr) (l : Loop)
    → IsCounted l
    → occurrences p l.handle_queue ≡ 1
    → weight (l.handle p) ≡ 0
    → IsCounted (record l { handle_queue = without p l.handle_queue })
removed-IsCounted p l inv here off = record {
  active_count =
      omega (arith, inv.active_count, counted-without l.handle p l.handle_queue here, off);
  once = λ x. ground (arith, occurrences-without x p l.handle_queue, inv.once x);
  few = omega (arith, inv.few, length-without p l.handle_queue);
  stopped = inv.stopped;
}

handle_unref-queue : (p : Ptr) (l : Loop) → (handle_unref p l).handle_queue ≡ l.handle_queue
unfolding handle_unref active_handle_rm
handle_unref-queue p l = ground arith

handle_unref-weight :
    (p : Ptr) (l : Loop) → (l.handle p).active ≡ false → weight ((handle_unref p l).handle p) ≡ 0
unfolding handle_unref active_handle_rm weight
handle_unref-weight p l off = ground (arith, off)

-- What the closing asks of the other parts: they keep the count, and the release of a stream or a UDP
-- handle keeps the flags of the handle and the handles of the loop.
pub record IsTidy (c : Closers) : Type 0 where
  pub call_keeps : (cb p : Ptr) (l : Loop) → IsCounted l → IsCounted (c.call cb p l)
  pub release_keeps : (p : Ptr) (l : Loop) → IsCounted l → IsCounted (release c p l)
  pub release_queue : (p : Ptr) (l : Loop) → (release c p l).handle_queue ≡ l.handle_queue
  pub release_active :
      (p : Ptr) (l : Loop) → ((release c p l).handle p).active ≡ (l.handle p).active

same_weight : (h : Handle) → weight h ≡ weight (record h { closed = true })
unfolding weight
same_weight h = refl

module _ {c : Closers} (tidy : IsTidy c) where
  forget-IsCounted :
      (p : Ptr) (l : Loop)
      → IsCounted l
      → occurrences p l.handle_queue ≡ 1
      → (l.handle p).active ≡ false
      → IsCounted (forget c p l)
  unfolding forget
  forget-IsCounted p l inv here off =
      let kept = handle_unref-IsCounted p inv here in
      let gone =
        removed-IsCounted p (handle_unref p l) kept (rw (handle_unref-queue p l) here)
          (handle_unref-weight p l off) in
      by_if IsCounted (((handle_unref p l).handle p).close_cb == null) (λ e. gone)
        (λ e. tidy.call_keeps _ p _ gone)

  -- uv__finish_close of a handle of the loop that is being closed keeps `active_handles` the number of the
  -- active and referenced handles of those that are left, and the rest of IsCounted, also where a signal
  -- handle goes back into the list. The callbacks and the release of a stream keep the count.
  pub finish_close-IsCounted :
      (p : Ptr) (l : Loop)
      → IsCounted l
      → occurrences p l.handle_queue ≡ 1
      → (l.handle p).closing ≡ true
      → IsCounted (finish_close c p l)
  unfolding finish_close make_close_pending
  finish_close-IsCounted p l inv here closing =
      let l₁ = set_handle p (record (l.handle p) { closed = true }) l in
      let marked : IsCounted l₁ =
        set-IsCounted p inv here _ (same_weight (l.handle p)) (λ e. inv.stopped p e) in
      by_if IsCounted (signals_left c p l₁)
        (λ e. record {
          active_count = inv.active_count;
          once = inv.once;
          few = inv.few;
          stopped = inv.stopped;
        })
        (λ e.
          forget-IsCounted p (release c p l₁) (tidy.release_keeps p l₁ marked)
            (rw (tidy.release_queue p l₁) here)
            (rw (tidy.release_active p l₁) (ground (arith, inv.stopped p, closing))))
