-- ===== src/Heap/Tests.antt =====
-- Runs of the heap of libuv/src/heap-inl.h.
use libuv_analyse.Base.{ℕ, ◌≡◌, ◌⊎◌, refl, false, ltb, ◌==◌, if◌then◌else◌, arith}
use libuv_analyse.Heap.{
  Heap, Ptr, null, heap_node_swap, path_loop, walk, sift_up, sift_down, replace, remove_unlinked,
  relink, set_parent_of, adopt, swap_fields, heap_insert, heap_remove, heap_dequeue, heap_min,
}
use libuv_analyse.Heap.Complete.{IsComplete, exchange}
use libuv_analyse.Heap.Order.{IsStrictOrder, Member, SameMembers}
use libuv_analyse.Heap.Insert.{IsHeap, extend, heap_insert-IsHeap, heap_min-least}
use libuv_analyse.Heap.Swap.{heap_node_swap-IsComplete}
use libuv_analyse.Heap.Remove.{Others, heap_remove-IsHeap, heap_dequeue-IsHeap}

-- Nodes in the order of their addresses.
ltb-IsStrictOrder : IsStrictOrder ltb
ltb-IsStrictOrder = record { asym = λ x y e. ground arith; trans = λ x y z e f. ground arith }

-- The root at 3 and its left child at 5.
abbrev two : Heap
two = record {
  min = 3;
  nelts = 2;
  left = λ x. if x == 3 then 5 else 0;
  right = λ x. 0;
  parent = λ x. if x == 5 then 3 else 0;
}

abbrev spots : ℕ → Ptr
spots i = if i == 1 then 3 else 5

two-IsHeap : IsHeap ltb two spots 2
two-IsHeap = record {
  size = refl;
  complete = record {
    root = ground arith;
    left = λ i li hi. ground arith;
    right = λ i li hi. ground arith;
    parent = λ i li hi. ground arith;
    used = λ i li hi. ground arith;
    apart = λ i j li hi lj hj e. ground arith;
  };
  ordered = λ k lk hk. ground arith;
}

swap_example : IsComplete (heap_node_swap 3 5 two) (exchange 1 2 spots) 2
swap_example = heap_node_swap-IsComplete two-IsHeap.complete 1 2 (omega arith) (omega arith) refl

insert_example :
    (place' : ℕ → Ptr) × IsHeap ltb (heap_insert ltb 1 two) place' 3
    × SameMembers (extend spots 2 1) place' 3
insert_example =
    heap_insert-IsHeap ltb-IsStrictOrder 1 two-IsHeap (omega arith) (omega arith)
      (λ i li hi. ground arith)

min_example :
    ◌≡◌ {A = ℕ} 2 0 × (heap_min two ≡ null)
    ⊎ Member spots 2 (heap_min two) × ((x : Ptr) → Member spots 2 x → ltb x (heap_min two) ≡ false)
min_example = heap_min-least ltb-IsStrictOrder two spots 2 two-IsHeap

remove_example :
    (place' : ℕ → Ptr) × IsHeap ltb (heap_remove ltb (spots 1) two) place' 1
    × Others spots place' 1 (spots 1)
remove_example =
    heap_remove-IsHeap ltb-IsStrictOrder two spots 1 1 two-IsHeap (omega arith) (omega arith)
      (omega arith)

dequeue_example :
    (place' : ℕ → Ptr) × IsHeap ltb (heap_dequeue ltb two) place' 1
    × Others spots place' 1 (heap_min two)
    × ((x : Ptr) → Member place' 1 x → ltb x (heap_min two) ≡ false)
dequeue_example = heap_dequeue-IsHeap ltb-IsStrictOrder two spots 1 two-IsHeap (omega arith)

inserted_root : (heap_insert ltb 1 two).min ≡ 1
unfolding heap_insert heap_node_swap path_loop walk sift_up relink set_parent_of adopt swap_fields
inserted_root = refl

dequeued_root : (heap_dequeue ltb (heap_insert ltb 1 two)).min ≡ 3
unfolding heap_insert heap_remove heap_dequeue heap_node_swap path_loop walk sift_up sift_down
    replace remove_unlinked relink adopt swap_fields
dequeued_root = refl
