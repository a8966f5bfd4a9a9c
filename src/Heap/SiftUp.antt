-- ===== src/Heap/SiftUp.antt =====
-- The walk up of heap_insert and heap_remove (libuv/src/heap-inl.h).
use libuv_analyse.Base.{
  ℕ, zero, suc, ◌/◌, ◌≤◌, ◌≡◌, ◌&&◌, not, true, false, inl, inr, Bool-cases, ◌==◌, arith, refl,
}
use libuv_analyse.Heap.{Heap, Ptr, null, Less, heap_node_swap, sift_up}
use libuv_analyse.Heap.Complete.{IsComplete, exchange}
use libuv_analyse.Heap.Fields.{nelts-swap}
use libuv_analyse.Heap.Swap.{heap_node_swap-IsComplete}
use libuv_analyse.Heap.Order.{
  IsStrictOrder, IsOrdered, OrderedBelow, SameMembers, exchange-SameMembers,
}

-- A heap that holds the nodes of `place` in some order that makes it a heap.
pub record IsHeapOf (less : Less) (place : ℕ → Ptr) (n : ℕ) (h : Heap) : Type 0 where
  pub place' : ℕ → Ptr
  pub complete : IsComplete h place' n
  pub ordered : IsOrdered less place' n
  pub same : SameMembers place place' n

pub through :
    {less : Less} (place q : ℕ → Ptr) (n : ℕ) (h : Heap)
    → SameMembers place q n
    → IsHeapOf less q n h
    → IsHeapOf less place n h
through place q n h s r = record {
  place' = r.place';
  complete = r.complete;
  ordered = r.ordered;
  same = λ x. (λ m. (r.same x).0 ((s x).0 m), λ m. (s x).1 ((r.same x).1 m));
}

pub first_exchanged : (place : ℕ → Ptr) (i j : ℕ) → exchange i j place i ≡ place j
first_exchanged place i j = ground arith

module _ {less : Less} (o : IsStrictOrder less) where
  exchange-OrderedBelow :
      (place : ℕ → Ptr) (n i : ℕ)
      → 2 ≤ i
      → i ≤ n
      → OrderedBelow less place n i
      → less (place i) (place (i / 2)) ≡ true
      → OrderedBelow less (exchange (i / 2) i place) n (i / 2)
  exchange-OrderedBelow place n i lo hi b up = record {
    others = λ k lk hk ne. ground (
      arith,
      b.others k,
      b.over k,
      o.asym (place i) (place (i / 2)),
      o.trans (place k) (place (i / 2)) (place i),
    );
    over = λ k lp hk e. ground (
      arith,
      b.others k,
      b.others (i / 2),
      o.trans (place k) (place (i / 2)) (place (i / 2 / 2)),
    );
  }

  stay-IsOrdered :
      (place : ℕ → Ptr) (n i : ℕ)
      → OrderedBelow less place n i
      → (2 ≤ i → less (place i) (place (i / 2)) ≡ false)
      → IsOrdered less place n
  stay-IsOrdered place n i b here k lk hk = ground (arith, b.others k, here)

  -- Node `i` moves up past its ancestors that are greater, and then the tree is a heap.
  pub sift_up-IsHeapOf :
      (fuel : ℕ) (h : Heap) (place : ℕ → Ptr) (n i : ℕ)
      → IsComplete h place n
      → OrderedBelow less place n i
      → 1 ≤ i
      → i ≤ n
      → i ≤ fuel
      → IsHeapOf less place n (sift_up less fuel (place i) h)
  unfolding sift_up
  sift_up-IsHeapOf zero h place n i t b lo hi enough = absurd (omega arith)
  sift_up-IsHeapOf (suc fuel) h place n i t b lo hi enough =
      elim (Bool-cases (not (h.parent (place i) == null) && less (place i) (h.parent (place i)))) [
        | inl up ↦
            let deep : 2 ≤ i = ground (arith, t.parent i) in
            let above : h.parent (place i) ≡ place (i / 2) = ground (arith, t.parent i) in
            let greater : less (place i) (place (i / 2)) ≡ true = ground (arith, t.parent i) in
            let rest =
              sift_up-IsHeapOf fuel (heap_node_swap (place (i / 2)) (place i) h)
                (exchange (i / 2) i place) n (i / 2)
                (heap_node_swap-IsComplete t (i / 2) i (omega arith) hi refl)
                (exchange-OrderedBelow place n i deep hi b greater) (omega arith) (omega arith)
                (omega arith) in
            rw (up, above)
              (through place (exchange (i / 2) i place) n _
                (exchange-SameMembers place n (i / 2) i (omega arith) (omega arith) lo hi)
                (rw (first_exchanged place (i / 2) i) at rest))
        | inr stop ↦ rw stop (record {
          place' = place;
          complete = t;
          ordered = stay-IsOrdered place n i b (λ deep. ground (arith, t.parent i, t.used (i / 2)));
          same = λ x. (λ m. m, λ m. m);
        })
      ]

pub sift_up-nelts :
    (less : Less) (fuel : ℕ) (a : Ptr) (h : Heap) → (sift_up less fuel a h).nelts ≡ h.nelts
unfolding sift_up
sift_up-nelts less zero a h = refl
sift_up-nelts less (suc fuel) a h = ground (
  arith,
  sift_up-nelts less fuel a (heap_node_swap (h.parent a) a h),
  nelts-swap h (h.parent a) a,
)
