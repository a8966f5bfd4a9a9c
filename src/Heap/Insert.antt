-- ===== src/Heap/Insert.antt =====
-- heap_insert and heap_min (libuv/src/heap-inl.h) on heaps.
use libuv_analyse.Base.{
  ℕ, zero, suc, ◌+◌, ◌/◌, ◌%◌, ◌^◌, ◌≤◌, ◌<◌, ◌≡◌, ◌≢◌, ◌⊎◌, inl, inr, refl, false, ◌==◌,
  if◌then◌else◌, arith,
}
use native.Mathlib.Decide.{dec_lt}
use libuv_analyse.Heap.{
  Heap, Ptr, null, Less, set_left, set_right, set_parent, Slot, min_slot, read, write, path_loop,
  walk, sift_up, heap_insert, heap_min,
}
use libuv_analyse.Heap.Complete.{IsComplete, node}
use libuv_analyse.Heap.Path.{slot_of, walk-path_loop, read-slot_of}
use libuv_analyse.Heap.Order.{IsStrictOrder, IsOrdered, OrderedBelow, Member, SameMembers, root_le}
use libuv_analyse.Heap.SiftUp.{IsHeapOf, sift_up-IsHeapOf, sift_up-nelts}

-- A heap of `n` nodes in the order of `less`, with its count.
pub record IsHeap (less : Less) (h : Heap) (place : ℕ → Ptr) (n : ℕ) : Type 0 where
  pub size : h.nelts ≡ n
  pub complete : IsComplete h place n
  pub ordered : IsOrdered less place n

-- One more node behind the last.
abbrev pub extend : (ℕ → Ptr) → ℕ → Ptr → ℕ → Ptr
extend place n a k = if k == suc n then a else place k

abbrev cleared : Ptr → Heap → Heap
cleared a h = set_parent a null (set_right a null (set_left a null h))

-- The two assignments that link the new node.
abbrev attach : Ptr → Slot → Slot → Heap → Heap
attach a parent child h = write child a (set_parent a (read parent h) h)

module _ {h : Heap} {place : ℕ → Ptr} {n : ℕ} (t : IsComplete h place n) (a : Ptr)
    (some_a : a ≢ null) (new : (i : ℕ) → 1 ≤ i → i ≤ n → place i ≢ a) where
  cleared-IsComplete : IsComplete (cleared a h) place n
  cleared-IsComplete = record {
    root = t.root;
    left = λ i li hi. ground (arith, t.left i, new i);
    right = λ i li hi. ground (arith, t.right i, new i);
    parent = λ i li hi. ground (arith, t.parent i, new i);
    used = t.used;
    apart = t.apart;
  }

  abbrev linked : Heap
  linked = attach a (slot_of place (suc n / 2)) (slot_of place (suc n)) (cleared a h)

  linked-parent : read (slot_of place (suc n / 2)) (cleared a h) ≡ node place n (suc n / 2)
  linked-parent = elim (dec_lt 0 (suc n / 2)) [
    | yes some_parent ↦ ground (arith, read-slot_of cleared-IsComplete (suc n / 2) some_parent)
    | no none_above ↦ ground (arith, t.root)
  ]

  abbrev longer : ℕ → Ptr
  longer = extend place n a

  linked-IsComplete : IsComplete linked longer (suc n)
  linked-IsComplete = record {
    root = ground (arith, t.root);
    left = λ i li hi. ground (arith, t.left i, new i, new (suc n / 2), t.apart i (suc n / 2));
    right = λ i li hi. ground (arith, t.right i, new i, new (suc n / 2), t.apart i (suc n / 2));
    parent = λ i li hi. ground (arith, t.parent i, new i, linked-parent);
    used = λ i li hi. ground (arith, t.used i);
    apart = λ i j li hi lj hj e. ground (arith, t.apart i j, new i, new j);
  }

extend-OrderedBelow :
    {less : Less} (place : ℕ → Ptr) (n : ℕ) (a : Ptr)
    → IsOrdered less place n
    → OrderedBelow less (extend place n a) (suc n) (suc n)
extend-OrderedBelow place n a ordered = record {
  others = λ k lk hk ne. ground (arith, ordered k);
  over = λ k li hk e. absurd (omega arith);
}

module _ {less : Less} (o : IsStrictOrder less) {h : Heap} {place : ℕ → Ptr} {n : ℕ} where
  -- heap_insert of a node `a` that is neither NULL nor in a heap of `n` nodes, where `n + 1` is below
  -- 2 ^ 32 and `less_than` is a strict order: the result is a heap of `n + 1` nodes, which are those of
  -- before and `a`. Its count is right, its tree is complete and no node is less than its parent.
  pub heap_insert-IsHeap :
      (a : Ptr)
      → IsHeap less h place n
      → suc n < 2 ^ 32
      → a ≢ null
      → ((i : ℕ) → 1 ≤ i → i ≤ n → place i ≢ a)
      → (place' : ℕ → Ptr) × IsHeap less (heap_insert less a h) place' (suc n)
        × SameMembers (extend place n a) place' (suc n)
  unfolding heap_insert
  heap_insert-IsHeap a heap fits some_a new =
      rw (count, found)
        (
          up.place',
          record {
            size = rw (sift_up-nelts less (suc n) a grown) (omega (arith, heap.size));
            complete = up.complete;
            ordered = up.ordered;
          },
          up.same,
        )
    where
      t : IsComplete h place n
      t = heap.complete

      count : 1 + h.nelts ≡ suc n
      count = omega (arith, heap.size)

      found :
          walk
            (path_loop (suc n) (suc n) 0 0).1
            (path_loop (suc n) (suc n) 0 0).0
            min_slot
            min_slot
            (cleared a h)
          ≡ (slot_of place (suc n / 2), slot_of place (suc n))
      found =
          walk-path_loop (cleared-IsComplete t a some_a new) (suc n) (suc n) 0 0 (omega arith)
            (omega arith) (omega arith) (omega arith)

      grown : Heap
      grown = record (linked t a some_a new) { nelts = (h.nelts + 1) % 2 ^ 32 }

      grown-IsComplete : IsComplete grown (extend place n a) (suc n)
      grown-IsComplete =
          let l = linked-IsComplete t a some_a new in
          record {
            root = l.root;
            left = l.left;
            right = l.right;
            parent = l.parent;
            used = l.used;
            apart = l.apart;
          }

      last : extend place n a (suc n) ≡ a
      last = ground arith

      up : IsHeapOf less (extend place n a) (suc n) (sift_up less (suc n) a grown)
      up = rw last at (
          sift_up-IsHeapOf o (suc n) grown (extend place n a) (suc n) (suc n) grown-IsComplete
            (extend-OrderedBelow place n a heap.ordered) (omega arith) (omega arith) (omega arith))

-- heap_min of a heap in a strict order returns NULL where the heap is empty, and else a node of the heap
-- that no node of it is less than.
pub heap_min-least :
    {less : Less} (o : IsStrictOrder less) (h : Heap) (place : ℕ → Ptr) (n : ℕ)
    → IsHeap less h place n
    → (n ≡ 0) × (heap_min h ≡ null)
      ⊎ Member place n (heap_min h) × ((x : Ptr) → Member place n x → less x (heap_min h) ≡ false)
unfolding heap_min
heap_min-least o h place zero heap = inl (refl, ground (arith, heap.complete.root))
heap_min-least o h place (suc n) heap =
    let top : h.min ≡ place 1 = ground (arith, heap.complete.root) in
    rw top (
      inr (
        (1, omega arith, omega arith, refl),
        λ x (i, lo, hi, e). rw (← e) (root_le o heap.ordered i lo hi),
      ))
