-- ===== src/Heap/Remove.antt =====
-- heap_remove and heap_dequeue (libuv/src/heap-inl.h) on heaps.
use libuv_analyse.Base.{
  ℕ, suc, ◌+◌, ◌-◌, ◌/◌, ◌^◌, ◌≤◌, ◌<◌, ◌≡◌, ◌≢◌, ◌↔◌, ◌∙◌, sym, subst, true, false, ◌==◌,
  if◌then◌else◌, arith,
}
use native.Mathlib.Decide.{ℕ_discrete}
use libuv_analyse.Heap.{
  Heap, Ptr, null, Less, min_slot, read, write, path_loop, walk, sift_up, sift_down, replace,
  remove_unlinked, heap_remove, heap_min, heap_dequeue,
}
use libuv_analyse.Heap.Complete.{IsComplete}
use libuv_analyse.Heap.Path.{slot_of, walk-path_loop, read-slot_of}
use libuv_analyse.Heap.Order.{IsStrictOrder, IsOrdered, Member, SameMembers, root_le}
use libuv_analyse.Heap.SiftUp.{IsHeapOf, sift_up-IsHeapOf, sift_up-nelts}
use libuv_analyse.Heap.SiftDown.{OrderedAround, IsSunk, sift_down-IsSunk, sift_down-nelts}
use libuv_analyse.Heap.Insert.{IsHeap}
use libuv_analyse.Heap.Replace.{unlinked-IsComplete, refill, replace-IsComplete}

replace-nelts : (a c : Ptr) (h : Heap) → (replace a c h).nelts ≡ h.nelts
unfolding replace
replace-nelts a c h = ground arith

-- The nodes but one.
abbrev pub Others : (ℕ → Ptr) → (ℕ → Ptr) → ℕ → Ptr → Type 0
Others place place' m a = (x : Ptr) → Member place' m x ↔ Member place (suc m) x × (x ≢ a)

refill-Others :
    (place : ℕ → Ptr) (m j : ℕ)
    → 1 ≤ j
    → j ≤ m
    → ((i k : ℕ) → 1 ≤ i → i ≤ suc m → 1 ≤ k → k ≤ suc m → place i ≡ place k → i ≡ k)
    → Others place (refill place m j) m (place j)
refill-Others place m j lo hi apart x = (
  λ (k, lk, hk, e). (
    (from k, ground arith, ground arith, ground arith),
    ground (arith, apart k j, apart (suc m) j),
  ),
  λ ((k, lk, hk, e), ne). (to k, ground arith, ground arith, ground arith),
)
  where
    from : ℕ → ℕ
    from k = if k == j then suc m else k

    to : ℕ → ℕ
    to k = if k == suc m then j else k

last-Others :
    (place : ℕ → Ptr) (m : ℕ)
    → ((i k : ℕ) → 1 ≤ i → i ≤ suc m → 1 ≤ k → k ≤ suc m → place i ≡ place k → i ≡ k)
    → Others place place m (place (suc m))
last-Others place m apart x = (
  λ (k, lk, hk, e). ((k, lk, omega arith, e), ground (arith, apart k (suc m))),
  λ ((k, lk, hk, e), ne). (k, lk, ground arith, e),
)

module _ {less : Less} (o : IsStrictOrder less) where
  refill-OrderedAround :
      (place : ℕ → Ptr) (m j : ℕ)
      → IsOrdered less place (suc m)
      → OrderedAround less (refill place m j) m j
  refill-OrderedAround place m j ordered = record {
    others = λ k lk hk ne below. ground (arith, ordered k);
    over = λ k lj hk e.
        ground (arith, ordered k, ordered j, o.trans (place k) (place j) (place (j / 2)));
  }

  through_both :
      (place q r s : ℕ → Ptr) (m : ℕ) (a : Ptr)
      → Others place q m a
      → SameMembers q r m
      → SameMembers r s m
      → Others place s m a
  through_both place q r s m a f g i x =
      (λ y. (f x).0 ((g x).1 ((i x).1 y)), λ y. (i x).0 ((g x).0 ((f x).1 y)))

  -- What is left once the last node, not the one to remove, has been unlinked.
  moved-IsHeap :
      (h : Heap) (place : ℕ → Ptr) (m j : ℕ)
      → h.nelts ≡ m
      → IsComplete h place m
      → IsOrdered less place (suc m)
      → place (suc m) ≢ null
      → ((i k : ℕ) → 1 ≤ i → i ≤ suc m → 1 ≤ k → k ≤ suc m → place i ≡ place k → i ≡ k)
      → 1 ≤ j
      → j ≤ m
      → (place' : ℕ → Ptr) × IsHeap less (remove_unlinked less (place j) (place (suc m)) h) place' m
        × Others place place' m (place j)
  unfolding remove_unlinked
  moved-IsHeap h place m j count t ordered used apart lo hi = rw other (
    up.place',
    record {
      size =
          sift_up-nelts less (h.nelts + 1) (place (suc m)) sunk_heap
          ∙ sift_down-nelts less (h.nelts + 1) (place (suc m)) filled
          ∙ replace-nelts (place j) (place (suc m)) h
          ∙ count;
      complete = up.complete;
      ordered = up.ordered;
    },
    through_both place (refill place m j) sunk.place' up.place' m (place j)
        (refill-Others place m j lo hi apart) sunk.same up.same,
  )
    where
      other : (place (suc m) == place j) ≡ false
      other = ground (arith, apart (suc m) j)

      filled : Heap
      filled = replace (place j) (place (suc m)) h

      sunk_heap : Heap
      sunk_heap = sift_down less (h.nelts + 1) (place (suc m)) filled

      last : refill place m j j ≡ place (suc m)
      last = ground arith

      sunk : IsSunk less (refill place m j) m (place (suc m)) sunk_heap
      sunk = rw last at (
          sift_down-IsSunk o (h.nelts + 1) filled (refill place m j) m j
            (replace-IsComplete t j lo hi used (λ i li hi' e. ground (arith, apart i (suc m))))
            (refill-OrderedAround place m j ordered) lo hi (omega (arith, count)))

      up : IsHeapOf less sunk.place' m (sift_up less (h.nelts + 1) (place (suc m)) sunk_heap)
      up = rw sunk.stands at (
          sift_up-IsHeapOf o (h.nelts + 1) sunk_heap sunk.place' m sunk.spot sunk.complete
            sunk.ordered sunk.low sunk.high (omega (arith, sunk.high, count)))

  last-IsHeap :
      (h : Heap) (place : ℕ → Ptr) (m : ℕ)
      → h.nelts ≡ m
      → IsComplete h place m
      → IsOrdered less place (suc m)
      → place (suc m) ≢ null
      → ((i k : ℕ) → 1 ≤ i → i ≤ suc m → 1 ≤ k → k ≤ suc m → place i ≡ place k → i ≡ k)
      → (place' : ℕ → Ptr) × IsHeap less
          (remove_unlinked less (place (suc m)) (place (suc m)) h)
          place'
          m
        × Others place place' m (place (suc m))
  unfolding remove_unlinked
  last-IsHeap h place m count t ordered used apart =
      rw (self, not_min)
        (
          place,
          record { size = count; complete = t; ordered = λ k lk hk. ordered k lk (omega arith) },
          last-Others place m apart,
        )
    where
      self : (place (suc m) == place (suc m)) ≡ true
      self = ground arith

      not_min : (place (suc m) == h.min) ≡ false
      not_min = ground (arith, t.root, apart 1 (suc m))

  -- heap_remove of any node of a heap with fewer than 2 ^ 32 nodes, in a strict order, leaves a heap of
  -- exactly the other nodes: the count is right, the tree complete and no node less than its parent.
  pub heap_remove-IsHeap :
      (h : Heap) (place : ℕ → Ptr) (m j : ℕ)
      → IsHeap less h place (suc m)
      → suc m < 2 ^ 32
      → 1 ≤ j
      → j ≤ suc m
      → (place' : ℕ → Ptr) × IsHeap less (heap_remove less (place j) h) place' m
        × Others place place' m (place j)
  unfolding heap_remove walk
  heap_remove-IsHeap h place m j heap fits lo hi =
      rw (found, last, some_node)
        (elim (ℕ_discrete j (suc m)) [
          | yes e ↦ rw e (last-IsHeap cut place m count c heap.ordered used t.apart)
          | no ne ↦ moved-IsHeap cut place m j count c heap.ordered used t.apart lo (omega arith)
        ])
    where
      t : IsComplete h place (suc m)
      t = heap.complete

      some_node : (h.nelts == 0) ≡ false
      some_node = ground (arith, heap.size)

      cut : Heap
      cut = write (slot_of place h.nelts) null (record h { nelts = h.nelts - 1 })

      count : cut.nelts ≡ m
      count = ground (arith, heap.size)

      c : IsComplete cut place m
      c =
          subst
            (λ k.
              IsComplete (write (slot_of place k) null (record h { nelts = h.nelts - 1 })) place m)
            (sym heap.size) (unlinked-IsComplete t)

      used : place (suc m) ≢ null
      used = t.used (suc m) (omega arith) (omega arith)

      last : read (slot_of place h.nelts) h ≡ place (suc m)
      last =
          subst (λ k. read (slot_of place k) h ≡ place (suc m)) (sym heap.size)
            (read-slot_of t (suc m) (omega arith) (omega arith))

      found :
          walk
            (path_loop h.nelts h.nelts 0 0).1
            (path_loop h.nelts h.nelts 0 0).0
            min_slot
            min_slot
            h
          ≡ (slot_of place (h.nelts / 2), slot_of place h.nelts)
      found =
          walk-path_loop t h.nelts h.nelts 0 0 (omega (arith, heap.size)) (omega arith)
            (omega (arith, heap.size)) (omega (arith, heap.size))

  -- heap_dequeue of a heap that is not empty, has fewer than 2 ^ 32 nodes and is in a strict order takes
  -- out the node that heap_min returns: what is left is a heap of the other nodes, none of them less
  -- than that node.
  pub heap_dequeue-IsHeap :
      (h : Heap) (place : ℕ → Ptr) (m : ℕ)
      → IsHeap less h place (suc m)
      → suc m < 2 ^ 32
      → (place' : ℕ → Ptr) × IsHeap less (heap_dequeue less h) place' m
        × Others place place' m (heap_min h)
        × ((x : Ptr) → Member place' m x → less x (heap_min h) ≡ false)
  unfolding heap_dequeue heap_min
  heap_dequeue-IsHeap h place m heap fits =
      let top : h.min ≡ place 1 = ground (arith, heap.complete.root) in
      let (place', rest, others) =
        heap_remove-IsHeap h place m 1 heap fits (omega arith) (omega arith) in
      subst
        (λ a.
          (q : ℕ → Ptr) × IsHeap less (heap_remove less a h) q m
          × Others place q m a
          × ((x : Ptr) → Member q m x → less x a ≡ false))
        (sym top)
        (
          place',
          rest,
          others,
          λ x x_in.
              let ((i, li, hi, e), ne) = (others x).0 x_in in
              rw (← e) (root_le o heap.ordered i li hi),
        )
