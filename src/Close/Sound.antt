-- ===== src/Close/Sound.antt =====
-- uv_close (libuv/src/unix/core.c) of the timers and of the idle, prepare and check handles.
use libuv_analyse.Base.{
  ℕ, ◌≡◌, ◌⊎◌, ◌∙◌, refl, sym, subst, ap, false, inl, inr, Bool-cases, ◌==◌, arith,
}
use libuv_analyse.Heap.{Ptr}
use libuv_analyse.Loop.{HandleType, Handle, Loop}
use libuv_analyse.Loop.Count.{occurrences}
use libuv_analyse.Timer.{timer_close}
use libuv_analyse.Timer.Stop.{is_timer}
use libuv_analyse.Timer.Run.{IsReady}
use libuv_analyse.Watcher.{Kind, prepare, check, idle, type_of, watcher_close}
use libuv_analyse.Iteration.{make_close_pending}
use libuv_analyse.Run.Sound.{IsPending, IsSound}
use libuv_analyse.Run.Times.{timed_refl, timed-IsReady}
use libuv_analyse.Close.{close_kind, pend, mark, close}
use libuv_analyse.Close.Stopped.{IsStopped, timer_close-IsStopped, watcher_close-IsStopped}

-- uv_close has marked the handle.
mark-IsReady : (p cb : Ptr) (l : Loop) → IsReady l → IsReady (mark p cb l)
unfolding is_timer
mark-IsReady p cb l r =
    timed-IsReady r
      (λ x. record {
        timeout = ground arith;
        start_id = ground arith;
        repeat = ground arith;
        timer = ground arith;
      })
      refl r.listed r.now

-- A handle that is stopped and marked joins the list.
pending-IsSound :
    (n : ℕ) (p cb : Ptr) (l l' : Loop)
    → IsSound n l
    → (l.handle p).closing ≡ false
    → (l.handle p).closed ≡ false
    → IsStopped p l' (mark p cb l)
    → IsSound n (make_close_pending p l')
      × (occurrences p (make_close_pending p l').closing_handles ≡ 1)
      × IsPending ((make_close_pending p l').handle p)
unfolding make_close_pending occurrences
pending-IsSound n p cb l l' s fresh unclosed t =
    let absent : occurrences p l.closing_handles ≡ 0 =
      elim (Bool-cases (occurrences p l.closing_handles == 0)) [
        | inl e ↦ ground (arith, e)
        | inr e ↦ absurd (ground (arith, (s.pending p (ground (arith, e))).closing, fresh))
      ] in
    let marked : IsPending (l'.handle p) = record {
      closing = (t.flags p).closing ∙ ground arith;
      open_yet = (t.flags p).closed ∙ ground (arith, unclosed);
    } in
    (
      record {
        ready =
            timed-IsReady t.ready (λ x. timed_refl (l'.handle x)) refl t.ready.listed t.ready.now;
        few = rw t.handles s.few;
        room = omega (arith, t.room, s.room);
        off = λ x e. elim (Bool-cases (x == p)) [
          | inl at_p ↦ ground (arith, at_p, t.off)
          | inr away ↦ ground (arith, away, e, (t.flags x).closing, (t.flags x).active, s.off x)
        ];
        once = λ x. ground (arith, ap (occurrences x) t.closing, s.once x, absent);
        pending = λ x here. elim (Bool-cases (x == p)) [
          | inl at_p ↦ subst (λ y. IsPending (l'.handle y)) (ground (arith, at_p)) marked
          | inr away ↦
              let was = s.pending x (ground (arith, away, here, ap (occurrences x) t.closing)) in
              record {
                closing = (t.flags x).closing ∙ ground (arith, away, was.closing);
                open_yet = (t.flags x).closed ∙ ground (arith, away, was.open_yet);
              }
        ];
      },
      ground (arith, ap (occurrences p) t.closing, absent),
      marked,
    )

close_kind-watcher :
    (kind : Kind) (other : Ptr → Loop → Loop) (p : Ptr) (l : Loop)
    → close_kind (type_of kind) other p l ≡ watcher_close kind p l
unfolding close_kind
close_kind-watcher prepare other p l = refl
close_kind-watcher check other p l = refl
close_kind-watcher idle other p l = refl

pend-watcher : (kind : Kind) (p : Ptr) (l : Loop) → pend (type_of kind) p l ≡ make_close_pending p l
unfolding pend
pend-watcher prepare p l = refl
pend-watcher check p l = refl
pend-watcher idle p l = refl

watcher_no_timer : (kind : Kind) (h : Handle) → h.type ≡ type_of kind → is_timer h ≡ false
unfolding is_timer
watcher_no_timer prepare h e = ground (arith, e)
watcher_no_timer check h e = ground (arith, e)
watcher_no_timer idle h e = ground (arith, e)

-- uv_close of a timer or an idle, prepare or check handle that is not yet being closed, active or not, keeps the loop
-- sound: the handle is stopped, the heap holds exactly the active timers that are left, and the handle stands once in
-- the list of those that wait for uv__finish_close, as one that is being closed and is not closed.
pub close-IsSound :
    (n : ℕ) (other : Ptr → Loop → Loop) (p cb : Ptr) (l : Loop)
    → IsSound n l
    → (l.handle p).closing ≡ false
    → (l.handle p).closed ≡ false
    → ((l.handle p).type ≡ HandleType.timer) ⊎ ((kind : Kind) × ((l.handle p).type ≡ type_of kind))
    → IsSound n (close other p cb l)
      × (occurrences p (close other p cb l).closing_handles ≡ 1)
      × IsPending ((close other p cb l).handle p)
unfolding close close_kind pend is_timer
close-IsSound n other p cb l s fresh unclosed own =
    let m = mark p cb l in
    let r = mark-IsReady p cb l s.ready in
    let Goal =
      λ (t : Loop). IsSound n t × (occurrences p t.closing_handles ≡ 1) × IsPending (t.handle p) in
    elim own [
      | inl e ↦
          subst (λ t. Goal (pend t p (close_kind t other p m))) (sym e)
            (pending-IsSound n p cb l (timer_close p m) s fresh unclosed
              (timer_close-IsStopped p m r (ground (arith, e))))
      | inr (kind, e) ↦
          subst (λ t. Goal (pend t p (close_kind t other p m))) (sym e)
            (subst (λ t. Goal t)
              (sym (
                pend-watcher kind p (close_kind (type_of kind) other p m)
                ∙ ap (make_close_pending p) (close_kind-watcher kind other p m)))
              (pending-IsSound n p cb l (watcher_close kind p m) s fresh unclosed (
                watcher_close-IsStopped kind p m r
                  (watcher_no_timer kind (m.handle p) (ground (arith, e))))))
    ]
