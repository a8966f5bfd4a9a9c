-- ===== src/Queue.antt =====
-- The circular doubly linked list of libuv/src/queue.h. A `QUEUE` is a pair of pointers; here a store
-- holds the two pointers of every address, and each macro is the sequence of its assignments.
pub mod Ring
pub mod Insert
pub mod Unlink
pub mod Splice
pub mod Append
mod Tests
use libuv_analyse.Base.{ℕ, Bool, ◌==◌, if◌then◌else◌}

abbrev pub Ptr : Type 0
Ptr = ℕ

pub record Store : Type 0 where
  pub next : Ptr → Ptr
  pub prev : Ptr → Ptr

abbrev pub update : (Ptr → Ptr) → Ptr → Ptr → Ptr → Ptr
update f p v a = if a == p then v else f a

-- `QUEUE_NEXT(p) = v` and `QUEUE_PREV(p) = v`.
abbrev pub set_next : Ptr → Ptr → Store → Store
set_next p v s = record s { next = update s.next p v }

abbrev pub set_prev : Ptr → Ptr → Store → Store
set_prev p v s = record s { prev = update s.prev p v }

abbrev pub queue_empty : Ptr → Store → Bool
queue_empty q s = q == s.next q

abbrev pub queue_head : Ptr → Store → Ptr
queue_head q s = s.next q

unfoldable pub queue_init : Ptr → Store → Store
queue_init q s = set_prev q q (set_next q q s)

unfoldable pub queue_add : Ptr → Ptr → Store → Store
queue_add h n s =
    let s₁ = set_next (s.prev h) (s.next n) s in
    let s₂ = set_prev (s₁.next n) (s₁.prev h) s₁ in
    let s₃ = set_prev h (s₂.prev n) s₂ in set_next (s₃.prev h) h s₃

unfoldable pub queue_split : Ptr → Ptr → Ptr → Store → Store
queue_split h q n s =
    let s₁ = set_prev n (s.prev h) s in
    let s₂ = set_next (s₁.prev n) n s₁ in
    let s₃ = set_next n q s₂ in
    let s₄ = set_prev h (s₃.prev q) s₃ in let s₅ = set_next (s₄.prev h) h s₄ in set_prev q n s₅

unfoldable pub queue_move : Ptr → Ptr → Store → Store
unfolding queue_init queue_split
queue_move h n s = if queue_empty h s then queue_init n s else queue_split h (queue_head h s) n s

unfoldable pub queue_insert_head : Ptr → Ptr → Store → Store
queue_insert_head h q s =
    let s₁ = set_next q (s.next h) s in
    let s₂ = set_prev q h s₁ in let s₃ = set_prev (s₂.next q) q s₂ in set_next h q s₃

unfoldable pub queue_insert_tail : Ptr → Ptr → Store → Store
queue_insert_tail h q s =
    let s₁ = set_next q h s in
    let s₂ = set_prev q (s₁.prev h) s₁ in let s₃ = set_next (s₂.prev q) q s₂ in set_prev h q s₃

unfoldable pub queue_remove : Ptr → Store → Store
queue_remove q s = let s₁ = set_next (s.prev q) (s.next q) s in set_prev (s₁.next q) (s₁.prev q) s₁
