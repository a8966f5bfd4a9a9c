-- ===== src/Watcher/Queues.antt =====
-- Which handles stand in the queues of libuv/src/unix/loop-watcher.c.
use libuv_analyse.Base.{
  ℕ, ◌+◌, ◌-◌, ◌≡◌, refl, Bool, true, false, ◌&&◌, List, [], ◌∷◌, ◌==◌, if◌then◌else◌, arith,
}
use libuv_analyse.Heap.{Ptr}
use libuv_analyse.Loop.{
  HandleType, Handle, Loop, handle_start, handle_stop, active_handle_add, active_handle_rm,
}
use libuv_analyse.Loop.Count.{occurrences}
use libuv_analyse.Watcher.{Kind, prepare, check, idle, queue_of, set_queue, without}

-- The kind of a handle.
unfoldable pub is_of : Kind → Handle → Bool
is_of prepare h = elim h.type [ HandleType.prepare ↦ true | _ ↦ false ]
is_of check h = elim h.type [ HandleType.check ↦ true | _ ↦ false ]
is_of idle h = elim h.type [ HandleType.idle ↦ true | _ ↦ false ]

unfoldable pub standing : Kind → Ptr → Loop → ℕ
standing kind p l = occurrences p (queue_of kind l) + occurrences p l.moved

-- The active handles of the kind stand once in its queue or in the local queue of its round, and no other
-- handle does.
unfoldable pub IsWatched : Kind → Loop → Type 0
IsWatched kind l =
    (p : Ptr)
    → standing kind p l ≡ (if is_of kind (l.handle p) && (l.handle p).active then 1 else 0)

pub occurrences-without :
    (x p : Ptr) (q : List Ptr)
    → occurrences x (without p q) ≡ occurrences x q - (if x == p then 1 else 0)
unfolding occurrences without
occurrences-without x p [] = ground arith
occurrences-without x p (y ∷ q) = ground (arith, occurrences-without x p q)

pub queue_of-set_queue :
    (kind : Kind) (q : List Ptr) (l : Loop) → queue_of kind (set_queue kind q l) ≡ q
queue_of-set_queue prepare q l = refl
queue_of-set_queue check q l = refl
queue_of-set_queue idle q l = refl

pub handle-set_queue :
    (kind : Kind) (q : List Ptr) (l : Loop) → (set_queue kind q l).handle ≡ l.handle
handle-set_queue prepare q l = refl
handle-set_queue check q l = refl
handle-set_queue idle q l = refl

pub moved-set_queue : (kind : Kind) (q : List Ptr) (l : Loop) → (set_queue kind q l).moved ≡ l.moved
moved-set_queue prepare q l = refl
moved-set_queue check q l = refl
moved-set_queue idle q l = refl

pub queue_of-handle_start :
    (kind : Kind) (p : Ptr) (l : Loop) → queue_of kind (handle_start p l) ≡ queue_of kind l
unfolding handle_start active_handle_add
queue_of-handle_start prepare p l = ground arith
queue_of-handle_start check p l = ground arith
queue_of-handle_start idle p l = ground arith

queue_of-handle_stop :
    (kind : Kind) (p : Ptr) (l : Loop) → queue_of kind (handle_stop p l) ≡ queue_of kind l
unfolding handle_stop active_handle_rm
queue_of-handle_stop prepare p l = ground arith
queue_of-handle_stop check p l = ground arith
queue_of-handle_stop idle p l = ground arith
