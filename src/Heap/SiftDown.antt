-- ===== src/Heap/SiftDown.antt =====
-- The walk down of heap_remove (libuv/src/heap-inl.h).
use libuv_analyse.Base.{
  ℕ, zero, suc, ◌+◌, ◌*◌, ◌/◌, ◌≤◌, ◌<◌, ◌≡◌, ◌≢◌, ◌⊎◌, ◌&&◌, true, false, ◌==◌, if◌then◌else◌, leb,
  arith, refl,
}
use libuv_analyse.Heap.{Heap, Ptr, Less, heap_node_swap, smallest_of, sift_down}
use libuv_analyse.Heap.Fields.{nelts-swap}
use libuv_analyse.Heap.Complete.{IsComplete, exchange}
use libuv_analyse.Heap.Swap.{heap_node_swap-IsComplete}
use libuv_analyse.Heap.Order.{IsStrictOrder, OrderedBelow, SameMembers, exchange-SameMembers}
use native.Mathlib.Decide.{ℕ_discrete}

-- The order fails at most between node `i` and its neighbours, and would hold without node `i`.
pub record OrderedAround (less : Less) (place : ℕ → Ptr) (n i : ℕ) : Type 0 where
  pub others : (k : ℕ) → 2 ≤ k → k ≤ n → k ≢ i → k / 2 ≢ i → less (place k) (place (k / 2)) ≡ false
  pub over : (k : ℕ) → 2 ≤ i → k ≤ n → k / 2 ≡ i → less (place k) (place (i / 2)) ≡ false

-- Node `j` is node `i` or a child of it, the least of these.
record IsSmallest (less : Less) (place : ℕ → Ptr) (n i j : ℕ) : Type 0 where
  near : (j ≡ i) ⊎ (j / 2 ≡ i) × (j ≤ n)
  least : (k : ℕ) → k ≤ n → k / 2 ≡ i → k ≢ j → less (place k) (place j) ≡ false

-- The choice of smallest_of, by the numbers of the nodes.
abbrev first : Less → (ℕ → Ptr) → ℕ → ℕ → ℕ
first less place n i = if leb (2 * i) n && less (place (2 * i)) (place i) then 2 * i else i

abbrev pick : Less → (ℕ → Ptr) → ℕ → ℕ → ℕ
pick less place n i =
    if leb (2 * i + 1) n && less (place (2 * i + 1)) (place (first less place n i))
    then 2 * i + 1
    else first less place n i

module _ {less : Less} (o : IsStrictOrder less) (place : ℕ → Ptr) (n : ℕ) where
  pick-IsSmallest : (i : ℕ) → 1 ≤ i → IsSmallest less place n i (pick less place n i)
  pick-IsSmallest i lo = record {
    near = near;
    least = λ k hk e ne. ground (
      arith,
      child k e,
      o.asym (place (2 * i)) (place i),
      o.asym (place (2 * i + 1)) (place i),
      o.asym (place (2 * i + 1)) (place (2 * i)),
      o.trans (place (2 * i)) (place i) (place (2 * i + 1)),
    );
  }
    where
      near : (pick less place n i ≡ i) ⊎ (pick less place n i / 2 ≡ i) × (pick less place n i ≤ n)
      near = ground arith

      child : (k : ℕ) → k / 2 ≡ i → (k ≡ 2 * i) ⊎ (k ≡ 2 * i + 1)
      child k e = omega arith

module _ (less : Less) {h : Heap} {place : ℕ → Ptr} {n : ℕ} (t : IsComplete h place n) where
  smallest_of-pick :
      (i : ℕ) → 1 ≤ i → i ≤ n → smallest_of less (place i) h ≡ place (pick less place n i)
  unfolding smallest_of
  smallest_of-pick i lo hi = ground (arith, t.left i, t.right i, t.used (2 * i), t.used (2 * i + 1))

-- The heap after the walk down: the node `a` stands at the place `spot`, and only its parent may be
-- greater.
pub record IsSunk (less : Less) (place : ℕ → Ptr) (n : ℕ) (a : Ptr) (h : Heap) : Type 0 where
  pub place' : ℕ → Ptr
  pub spot : ℕ
  pub low : 1 ≤ spot
  pub high : spot ≤ n
  pub stands : place' spot ≡ a
  pub complete : IsComplete h place' n
  pub ordered : OrderedBelow less place' n spot
  pub same : SameMembers place place' n

child_of :
    {less : Less} (place : ℕ → Ptr) (n i j : ℕ)
    → j ≢ i
    → IsSmallest less place n i j
    → (j / 2 ≡ i) × (j ≤ n)
child_of place n i j ne s = ground (arith, s.near)

eq_self : (x : ℕ) → (x == x) ≡ true
eq_self x = ground arith

second_exchanged : (place : ℕ → Ptr) (i j : ℕ) → exchange i j place j ≡ place i
second_exchanged place i j = ground arith

through-IsSunk :
    {less : Less} (place q : ℕ → Ptr) (n : ℕ) (a : Ptr) (h : Heap)
    → SameMembers place q n
    → IsSunk less q n a h
    → IsSunk less place n a h
through-IsSunk place q n a h s r = record {
  place' = r.place';
  spot = r.spot;
  low = r.low;
  high = r.high;
  stands = r.stands;
  complete = r.complete;
  ordered = r.ordered;
  same = λ x. (λ m. (r.same x).0 ((s x).0 m), λ m. (s x).1 ((r.same x).1 m));
}

module _ {less : Less} (o : IsStrictOrder less) where
  settled :
      (place : ℕ → Ptr) (n i : ℕ)
      → OrderedAround less place n i
      → IsSmallest less place n i i
      → OrderedBelow less place n i
  settled place n i b s = record {
    others = λ k lk hk ne. ground (arith, b.others k, s.least k);
    over = λ k li hk e. b.over k li hk e;
  }

  exchange-OrderedAround :
      (place : ℕ → Ptr) (n i j : ℕ)
      → 1 ≤ i
      → j ≤ n
      → j / 2 ≡ i
      → OrderedAround less place n i
      → IsSmallest less place n i j
      → OrderedAround less (exchange i j place) n j
  exchange-OrderedAround place n i j lo hi edge b s = record {
    others = λ k lk hk ne below. ground (arith, b.others k, b.over j, s.least k);
    over = λ k lj hk e. ground (arith, b.others k);
  }

  pub sift_down-IsSunk :
      (fuel : ℕ) (h : Heap) (place : ℕ → Ptr) (n i : ℕ)
      → IsComplete h place n
      → OrderedAround less place n i
      → 1 ≤ i
      → i ≤ n
      → n < i + fuel
      → IsSunk less place n (place i) (sift_down less fuel (place i) h)
  unfolding sift_down
  sift_down-IsSunk zero h place n i t b lo hi enough = absurd (omega arith)
  sift_down-IsSunk (suc fuel) h place n i t b lo hi enough =
      let j = pick less place n i in
      let least = pick-IsSmallest o place n i lo in
      elim (ℕ_discrete j i) [
        | yes stays ↦
            let here : (smallest_of less (place i) h == place i) ≡ true =
              rw (smallest_of-pick less t i lo hi, stays) (eq_self (place i)) in
            rw here (record {
              place' = place;
              spot = i;
              low = lo;
              high = hi;
              stands = refl;
              complete = t;
              ordered = settled place n i b (rw stays at least);
              same = λ x. (λ m. m, λ m. m);
            })
        | no moves ↦
            let edge : (j / 2 ≡ i) × (j ≤ n) = child_of place n i j moves least in
            let below : (smallest_of less (place i) h == place i) ≡ false =
              rw (smallest_of-pick less t i lo hi) (ground (arith, t.apart j i, moves, edge)) in
            let rest =
              sift_down-IsSunk fuel (heap_node_swap (place i) (place j) h) (exchange i j place) n j
                (heap_node_swap-IsComplete t i j lo edge.1 edge.0)
                (exchange-OrderedAround place n i j lo edge.1 edge.0 b least) (omega arith) edge.1
                (omega arith) in
            rw (below, smallest_of-pick less t i lo hi)
              (through-IsSunk place (exchange i j place) n (place i) _
                (exchange-SameMembers place n i j lo hi (omega arith) edge.1)
                (rw (second_exchanged place i j) at rest))
      ]

pub sift_down-nelts :
    (less : Less) (fuel : ℕ) (a : Ptr) (h : Heap) → (sift_down less fuel a h).nelts ≡ h.nelts
unfolding sift_down
sift_down-nelts less zero a h = refl
sift_down-nelts less (suc fuel) a h = ground (
  arith,
  sift_down-nelts less fuel a (heap_node_swap a (smallest_of less a h) h),
  nelts-swap h a (smallest_of less a h),
)
