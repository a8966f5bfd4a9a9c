-- ===== src/Watcher/Start.antt =====
-- Starting and stopping the handles of libuv/src/unix/loop-watcher.c.
use libuv_analyse.Base.{
  ◌+◌, ◌≡◌, refl, ◌∙◌, true, false, ◌&&◌, by_if, ◌∷◌, ◌==◌, if◌then◌else◌, arith,
}
use libuv_analyse.Heap.{Ptr, null}
use libuv_analyse.Loop.{
  Status, Handle, Loop, set_handle, is_active, handle_start, handle_stop, active_handle_rm,
}
use libuv_analyse.Loop.Count.{occurrences}
use libuv_analyse.Watcher.{
  Kind, prepare, check, idle, queue_of, set_queue, watcher_start, watcher_stop,
}
use libuv_analyse.Watcher.Queues.{
  is_of, standing, IsWatched, occurrences-without, queue_of-handle_start,
}
use libuv_analyse.Loop.Fields.{handle_start-handle, handle_start-moved}

-- Stopping a handle of a kind, active or not, keeps its queue and its round's queue exact: the active
-- handles of the kind stand in one of the two, once, and no other handle does.
pub watcher_stop-IsWatched :
    (kind : Kind) (p : Ptr) (l : Loop)
    → IsWatched kind l
    → is_of kind (l.handle p) ≡ true
    → IsWatched kind (watcher_stop kind p l)
unfolding watcher_stop handle_stop active_handle_rm standing is_of IsWatched
watcher_stop-IsWatched prepare p l inv kind x = ground (
  arith,
  inv x,
  inv p,
  kind,
  occurrences-without x p l.prepare_handles,
  occurrences-without x p l.moved,
)
watcher_stop-IsWatched check p l inv kind x = ground (
  arith,
  inv x,
  inv p,
  kind,
  occurrences-without x p l.check_handles,
  occurrences-without x p l.moved,
)
watcher_stop-IsWatched idle p l inv kind x = ground (
  arith,
  inv x,
  inv p,
  kind,
  occurrences-without x p l.idle_handles,
  occurrences-without x p l.moved,
)

is_of_active : (kind : Kind) (h : Handle) → is_of kind (record h { active = true }) ≡ is_of kind h
unfolding is_of
is_of_active prepare h = refl
is_of_active check h = refl
is_of_active idle h = refl

-- The two assignments of the start before uv__handle_start.
abbrev linked : Kind → Ptr → Ptr → Loop → Loop
linked kind p cb l =
    let l₁ = set_queue kind (p ∷ queue_of kind l) l in
    set_handle p (record (l₁.handle p) { watcher_cb = cb }) l₁

module _ (p cb : Ptr) (l : Loop) where
  linked_off : (kind : Kind) → ((linked kind p cb l).handle p).active ≡ (l.handle p).active
  linked_off prepare = ground arith
  linked_off check = ground arith
  linked_off idle = ground arith

  linked_of :
      (kind : Kind) (x : Ptr) → is_of kind ((linked kind p cb l).handle x) ≡ is_of kind (l.handle x)
  unfolding is_of
  linked_of prepare x = ground arith
  linked_of check x = ground arith
  linked_of idle x = ground arith

  linked_active :
      (kind : Kind) (x : Ptr) → ((linked kind p cb l).handle x).active ≡ (l.handle x).active
  linked_active prepare x = ground arith
  linked_active check x = ground arith
  linked_active idle x = ground arith

  standing-linked :
      (kind : Kind) (x : Ptr)
      → standing kind x (linked kind p cb l) ≡ (if x == p then 1 else 0) + standing kind x l
  unfolding standing occurrences
  standing-linked prepare x = ground arith
  standing-linked check x = ground arith
  standing-linked idle x = ground arith

-- uv__handle_start of an inactive handle that has just been put into the queue of its kind.
linked-IsWatched :
    (kind : Kind) (p : Ptr) (l : Loop)
    → (l.handle p).active ≡ false
    → is_of kind (l.handle p) ≡ true
    → ((x : Ptr)
        → standing kind x l
          ≡ (if x == p then 1 else 0)
            + (if is_of kind (l.handle x) && (l.handle x).active then 1 else 0))
    → IsWatched kind (handle_start p l)
unfolding standing IsWatched
linked-IsWatched kind p l off of before x =
    rw (queue_of-handle_start kind p l, handle_start-moved p l, handle_start-handle p l off)
      (before x ∙ ground (arith, of, off, is_of_active kind (l.handle p)))

-- Starting a handle of a kind keeps its queue and its round's queue exact, whether the handle is active
-- already, has no callback or is started.
pub watcher_start-IsWatched :
    (kind : Kind) (p cb : Ptr) (l : Loop)
    → IsWatched kind l
    → is_of kind (l.handle p) ≡ true
    → IsWatched kind (watcher_start kind p cb l).1
unfolding watcher_start IsWatched
watcher_start-IsWatched kind p cb l inv of =
    by_if (λ (r : Status × Loop). IsWatched kind r.1) (is_active p l) (λ e. inv)
      (λ off.
        by_if (λ (r : Status × Loop). IsWatched kind r.1) (cb == null) (λ e. inv)
          (λ e.
            linked-IsWatched kind p (linked kind p cb l) (linked_off p cb l kind ∙ off)
              (linked_of p cb l kind p ∙ of)
              (λ x.
                rw
                  (
                    standing-linked p cb l kind x,
                    linked_of p cb l kind x,
                    linked_active p cb l kind x,
                    inv x,
                  )
                  refl)))
