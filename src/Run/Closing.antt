-- ===== src/Run/Closing.antt =====
-- uv__run_closing_handles (libuv/src/unix/core.c), called by uv_run, keeps the loop sound.
use libuv_analyse.Base.{
  ℕ, ◌+◌, ◌≤◌, ◌≡◌, ◌≢◌, refl, true, false, ◌∙◌, List, [], ◌∷◌, length, ap, by_if, inl, inr,
  Bool-cases, ◌==◌, arith,
}
use libuv_analyse.Heap.{Ptr, null}
use libuv_analyse.Loop.{Loop, set_handle}
use libuv_analyse.Loop.Count.{occurrences}
use libuv_analyse.Timer.Stop.{is_timer}
use libuv_analyse.Iteration.{
  Closers, make_close_pending, release, signals_left, forget, finish_close, finish_all,
  run_closing_handles,
}
use libuv_analyse.Run.Sound.{IsPending, IsSound, IsFair}
use libuv_analyse.Run.Times.{timed_refl, timed-IsReady}
use libuv_analyse.Run.Leaving.{
  left, left-IsSound, unref-closing, unref-closed, unref-closing_handles, unref-moved,
}

-- The handles that uv__run_closing_handles has still to finish are not in the list of the loop.
record IsHeld (q : List Ptr) (l : Loop) : Type 0 where
  once : (x : Ptr) → occurrences x q + occurrences x l.closing_handles ≤ 1
  pending : (x : Ptr) → occurrences x q ≢ 0 → IsPending (l.handle x)

fair-IsHeld :
    {n : ℕ} {f : Loop → Loop} (fair : IsFair n f) (q : List Ptr) (l : Loop)
    → IsSound n l
    → IsHeld q l
    → IsHeld q (f l)
fair-IsHeld fair q l s h = record {
  once = λ x. elim (Bool-cases (occurrences x q == 0)) [
    | inl e ↦ ground (arith, (fair.keeps l s).once x, e)
    | inr e ↦ omega (arith, h.once x, (fair.waits l x (h.pending x (ground arith))).1)
  ];
  pending = λ x here. (fair.waits l x (h.pending x here)).0;
}

-- The handle is marked as closed.
abbrev marked : Ptr → Loop → Loop
marked p l = set_handle p (record (l.handle p) { closed = true }) l

marked-IsSound :
    {n : ℕ} (p : Ptr) (l : Loop)
    → IsSound n l
    → occurrences p l.closing_handles ≡ 0
    → IsSound n (marked p l)
unfolding is_timer
marked-IsSound p l s out = record {
  ready =
      timed-IsReady s.ready
        (λ x. record {
          timeout = ground arith;
          start_id = ground arith;
          repeat = ground arith;
          timer = ground arith;
        })
        refl s.ready.listed s.ready.now;
  few = s.few;
  room = s.room;
  off = λ x. ground (arith, s.off x);
  once = s.once;
  pending = λ x here. record {
    closing = ground (arith, (s.pending x here).closing);
    open_yet = ground (arith, (s.pending x here).open_yet, out, here);
  };
}

marked-IsHeld : (p : Ptr) (q : List Ptr) (l : Loop) → IsHeld (p ∷ q) l → IsHeld q (marked p l)
unfolding occurrences
marked-IsHeld p q l h = record {
  once = λ x. omega (arith, h.once x);
  pending = λ x here. record {
    closing = ground (arith, (h.pending x (ground (arith, here))).closing);
    open_yet = ground (arith, (h.pending x (ground (arith, here))).open_yet, h.once p, here);
  };
}

left-IsHeld : (p : Ptr) (q : List Ptr) (l : Loop) → IsHeld q l → IsHeld q (left p l)
left-IsHeld p q l h = record {
  once = λ x. rw (unref-closing_handles p l) (h.once x);
  pending = λ x here. record {
    closing = unref-closing p x l ∙ (h.pending x here).closing;
    open_yet = unref-closed p x l ∙ (h.pending x here).open_yet;
  };
}

-- What the end of one handle leaves for the others.
record IsLeft (n : ℕ) (q : List Ptr) (l' l : Loop) : Type 0 where
  sound : IsSound n l'
  held : IsHeld q l'
  moved : length l'.moved ≤ length l.moved

module _ {n : ℕ} (c : Closers) (call : (cb p : Ptr) → IsFair n (c.call cb p))
    (releases : (p : Ptr) → IsFair n (release c p))
    (release_active : (p : Ptr) (l : Loop)
      → ((release c p l).handle p).active ≡ (l.handle p).active) where
  forget-IsLeft :
      (p : Ptr) (q : List Ptr) (l : Loop)
      → IsSound n l
      → IsHeld q l
      → (l.handle p).active ≡ false
      → IsLeft n q (forget c p l) l
  unfolding forget
  forget-IsLeft p q l s h stopped =
      let s₁ = left-IsSound p l s stopped in
      let h₁ = left-IsHeld p q l h in
      let same = unref-moved p l in
      by_if (λ m. IsLeft n q m l) (((left p l).handle p).close_cb == null)
        (λ e. record { sound = s₁; held = h₁; moved = rw same (omega arith) })
        (λ e.
          let f = call ((left p l).handle p).close_cb p in
          record {
            sound = f.keeps (left p l) s₁;
            held = fair-IsHeld f q (left p l) s₁ h₁;
            moved = omega (arith, f.no_more (left p l), ap length same);
          })

  finish_close-IsLeft :
      (p : Ptr) (q : List Ptr) (l : Loop)
      → IsSound n l
      → IsHeld (p ∷ q) l
      → IsLeft n q (finish_close c p l) l
  unfolding finish_close make_close_pending occurrences
  finish_close-IsLeft p q l s h =
      let waiting = h.pending p (ground arith) in
      let out : occurrences p l.closing_handles ≡ 0 = ground (arith, h.once p) in
      let s₁ = marked-IsSound p l s out in
      let h₁ = marked-IsHeld p q l h in
      by_if (λ m. IsLeft n q m l) (signals_left c p (marked p l))
        (λ e. record {
          sound = record {
            ready =
                timed-IsReady s.ready (λ x. timed_refl (l.handle x)) refl s.ready.listed
                  s.ready.now;
            few = s.few;
            room = s.room;
            off = s.off;
            once = λ x. omega (arith, h.once x);
            pending = λ x here. elim (Bool-cases (x == p)) [
              | inl at_p ↦ ground (arith, at_p, waiting)
              | inr other ↦ s.pending x (ground (arith, other, here))
            ];
          };
          held = record {
            once = λ x. omega (arith, h.once x);
            pending = λ x here. h.pending x (ground (arith, here));
          };
          moved = omega arith;
        })
        (λ e.
          let f = releases p in
          let stopped : ((release c p (marked p l)).handle p).active ≡ false =
            release_active p (marked p l) ∙ ground (arith, s.off p waiting.closing) in
          let r =
            forget-IsLeft p q (release c p (marked p l)) (f.keeps _ s₁) (fair-IsHeld f q _ s₁ h₁)
              stopped in
          record {
            sound = r.sound;
            held = r.held;
            moved = omega (arith, r.moved, f.no_more (marked p l));
          })

  finish_all-IsLeft :
      (q : List Ptr) (l : Loop) → IsSound n l → IsHeld q l → IsLeft n [] (finish_all c q l) l
  unfolding finish_all
  finish_all-IsLeft [] l s h = record { sound = s; held = h; moved = omega arith }
  finish_all-IsLeft (p ∷ q) l s h =
      let r = finish_close-IsLeft p q l s h in
      let t = finish_all-IsLeft q (finish_close c p l) r.sound r.held in
      record { sound = t.sound; held = t.held; moved = omega (arith, t.moved, r.moved) }

  -- uv__run_closing_handles keeps the loop sound: each handle of the list is finished while it waits for it, so the
  -- assertions of uv__finish_close hold.
  pub run_closing_handles-IsSound :
      (l : Loop)
      → IsSound n l
      → IsSound n (run_closing_handles c l)
        × (length (run_closing_handles c l).moved ≤ length l.moved)
  unfolding run_closing_handles occurrences
  run_closing_handles-IsSound l s =
      let l₁ = record l { closing_handles = [] } in
      let s₁ : IsSound n l₁ = record {
        ready =
            timed-IsReady s.ready (λ x. timed_refl (l.handle x)) refl s.ready.listed s.ready.now;
        few = s.few;
        room = s.room;
        off = s.off;
        once = λ x. omega arith;
        pending = λ x here. absurd (omega (arith, here));
      } in
      let r =
        finish_all-IsLeft l.closing_handles l₁ s₁
          (record { once = λ x. omega (arith, s.once x); pending = s.pending }) in
      (r.sound, r.moved)
