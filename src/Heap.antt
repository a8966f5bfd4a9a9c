-- ===== src/Heap.antt =====
-- The binary heap of libuv/src/heap-inl.h. The nodes stand at addresses and a store holds their three
-- pointers; 0 is NULL. An `unsigned int` is a number below 2 ^ 32.
pub mod Fields
pub mod Complete
pub mod Swap
pub mod Path
pub mod Order
pub mod SiftUp
pub mod Insert
pub mod SiftDown
pub mod Replace
pub mod Remove
pub mod Tests
use libuv_analyse.Base.{
  ℕ, zero, suc, ◌+◌, ◌-◌, ◌*◌, ◌/◌, ◌%◌, ◌^◌, Bool, ◌&&◌, ◌||◌, not, ltb, leb, ◌==◌, if◌then◌else◌,
  bit_and, bit_or,
}

abbrev pub Ptr : Type 0
Ptr = ℕ

abbrev pub null : Ptr
null = 0

-- `struct heap` and the fields of every `struct heap_node`.
pub record Heap : Type 0 where
  pub min : Ptr
  pub nelts : ℕ
  pub left : Ptr → Ptr
  pub right : Ptr → Ptr
  pub parent : Ptr → Ptr

-- `less_than` is a parameter of each function, as in the source.
abbrev pub Less : Type 0
Less = Ptr → Ptr → Bool

abbrev pub update : (Ptr → Ptr) → Ptr → Ptr → Ptr → Ptr
update f p v a = if a == p then v else f a

abbrev pub set_left : Ptr → Ptr → Heap → Heap
set_left p v h = record h { left = update h.left p v }

abbrev pub set_right : Ptr → Ptr → Heap → Heap
set_right p v h = record h { right = update h.right p v }

abbrev pub set_parent : Ptr → Ptr → Heap → Heap
set_parent p v h = record h { parent = update h.parent p v }

-- `if (p != NULL) p->parent = v;`
pub set_parent_of : Ptr → Ptr → Heap → Heap
set_parent_of p v h = if p == null then h else set_parent p v h

unfoldable pub heap_init : Heap → Heap
heap_init h = record h { min = null; nelts = 0 }

unfoldable pub heap_min : Heap → Ptr
heap_min h = h.min

-- `t = *parent; *parent = *child; *child = t;`
pub swap_fields : Ptr → Ptr → Heap → Heap
swap_fields p c h = record h {
  left = update (update h.left p (h.left c)) c (h.left p);
  right = update (update h.right p (h.right c)) c (h.right p);
  parent = update (update h.parent p (h.parent c)) c (h.parent p);
}

-- The child takes the place of its parent, and the sibling is told.
pub adopt : Ptr → Ptr → Heap → Heap
unfolding set_parent_of
adopt p c h =
    if h.left c == c
    then set_parent_of (h.right c) c (set_left c p h)
    else set_parent_of (h.left c) c (set_right c p h)

-- The pointer from above that led to the parent.
pub relink : Ptr → Ptr → Heap → Heap
relink p c h =
    if h.parent c == null
    then record h { min = c }
    else if h.left (h.parent c) == p
    then set_left (h.parent c) c h
    else set_right (h.parent c) c h

unfoldable pub heap_node_swap : Ptr → Ptr → Heap → Heap
heap_node_swap p c h =
    let h₁ = set_parent p c (swap_fields p c h) in
    let h₂ = adopt p c h₁ in
    let h₃ = set_parent_of (h₂.left p) p h₂ in
    let h₄ = set_parent_of (h₃.right p) p h₃ in relink p c h₄

-- A `struct heap_node**`: the address of `heap->min` or of a field of a node.
pub data Slot : Type 0 where
  min_slot : Slot
  left_slot : Ptr → Slot
  right_slot : Ptr → Slot

abbrev pub read : Slot → Heap → Ptr
read min_slot h = h.min
read (left_slot p) h = h.left p
read (right_slot p) h = h.right p

abbrev pub write : Slot → Ptr → Heap → Heap
write min_slot v h = record h { min = v }
write (left_slot p) v h = set_left p v h
write (right_slot p) v h = set_right p v h

-- `for (...; n >= 2; k += 1, n /= 2) path = (path << 1) | (n & 1);`, on fuel.
pub path_loop : ℕ → ℕ → ℕ → ℕ → ℕ × ℕ
path_loop zero n path k = (path, k)
path_loop (suc fuel) n path k =
    let rest = path_loop fuel (n / 2) (bit_or (path * 2 % 2 ^ 32) (bit_and n 1)) (k + 1) in
    if leb 2 n then rest else (path, k)

-- `while (k > 0) { ... path >>= 1; k -= 1; }`: the last two slots.
pub walk : ℕ → ℕ → Slot → Slot → Heap → Slot × Slot
walk zero path parent child h = (parent, child)
walk (suc k) path parent child h =
    walk k (path / 2) child
      (if bit_and path 1 == 0 then left_slot (read child h) else right_slot (read child h)) h

-- `while (node->parent != NULL && less_than(node, node->parent)) heap_node_swap(...)`, on fuel.
pub sift_up : Less → ℕ → Ptr → Heap → Heap
sift_up less zero a h = h
sift_up less (suc fuel) a h =
    let rest = sift_up less fuel a (heap_node_swap (h.parent a) a h) in
    if not (h.parent a == null) && less a (h.parent a) then rest else h

-- The numbers of the nodes halve along a path, so as many rounds as there are nodes are enough.
unfoldable pub heap_insert : Less → Ptr → Heap → Heap
unfolding path_loop walk sift_up
heap_insert less a h =
    let h₁ = set_parent a null (set_right a null (set_left a null h)) in
    let (path, k) = path_loop (1 + h.nelts) (1 + h.nelts) 0 0 in
    let (parent, child) = walk k path min_slot min_slot h₁ in
    let h₂ = write child a (set_parent a (read parent h₁) h₁) in
    sift_up less (1 + h.nelts) a (record h₂ { nelts = (h.nelts + 1) % 2 ^ 32 })

-- The smallest of a node and its children.
pub smallest_of : Less → Ptr → Heap → Ptr
smallest_of less a h =
    let first = if not (h.left a == null) && less (h.left a) a then h.left a else a in
    if not (h.right a == null) && less (h.right a) first then h.right a else first

-- `for (;;) { ... if (smallest == child) break; heap_node_swap(heap, child, smallest); }`, on fuel.
pub sift_down : Less → ℕ → Ptr → Heap → Heap
unfolding smallest_of
sift_down less zero a h = h
sift_down less (suc fuel) a h =
    let rest = sift_down less fuel a (heap_node_swap a (smallest_of less a h) h) in
    if smallest_of less a h == a then h else rest

-- The node `c` takes the place of `a`, which is left as it was.
pub replace : Ptr → Ptr → Heap → Heap
unfolding set_parent_of
replace a c h =
    let h₁ = set_parent c (h.parent a) (set_right c (h.right a) (set_left c (h.left a) h)) in
    let h₂ = set_parent_of (h₁.left c) c h₁ in
    let h₃ = set_parent_of (h₂.right c) c h₂ in
    if h₃.parent a == null
    then record h₃ { min = c }
    else if h₃.left (h₃.parent a) == a
    then set_left (h₃.parent a) c h₃
    else set_right (h₃.parent a) c h₃

-- What heap_remove does once the last node `c` has been unlinked.
pub remove_unlinked : Less → Ptr → Ptr → Heap → Heap
remove_unlinked less a c h =
    if c == a
    then (if c == h.min then record h { min = null } else h)
    else let h₁ = sift_down less (h.nelts + 1) c (replace a c h) in sift_up less (h.nelts + 1) c h₁

unfoldable pub heap_remove : Less → Ptr → Heap → Heap
heap_remove less a h =
    let (path, k) = path_loop h.nelts h.nelts 0 0 in
    let (_, max) = walk k path min_slot min_slot h in
    let h₁ = write max null (record h { nelts = h.nelts - 1 }) in
    if h.nelts == 0 then h else remove_unlinked less a (read max h) h₁

unfoldable pub heap_dequeue : Less → Heap → Heap
heap_dequeue less h = heap_remove less h.min h
