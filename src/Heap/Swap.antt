-- ===== src/Heap/Swap.antt =====
-- heap_node_swap (libuv/src/heap-inl.h) on complete trees: a node and its child exchange their places, and
-- the tree stays complete.
use libuv_analyse.Base.{ℕ, ◌+◌, ◌*◌, ◌/◌, ◌≤◌, ◌≡◌, ◌≢◌, inl, inr, Bool-cases, ◌==◌, arith}
use libuv_analyse.Heap.{Heap, Ptr, heap_node_swap}
use libuv_analyse.Heap.Fields.{Apart, left-swap, right-swap, parent-swap, min-swap}
use libuv_analyse.Heap.Complete.{IsComplete, node, exchange, place_eq, is_left, is_right}

module _ {h : Heap} {place : ℕ → Ptr} {n : ℕ} (t : IsComplete h place n) (i j : ℕ) (lo : 1 ≤ i)
    (hi : j ≤ n) (edge : j / 2 ≡ i) where
  Edge-Apart : Apart h (place i) (place j)
  Edge-Apart = record {
    p_null = t.used i lo (omega arith);
    c_null = t.used j (omega arith) hi;
    p_c = λ e. absurd (omega (arith, t.apart i j lo (omega arith) (omega arith) hi e));
    above_p = ground (arith, t.parent i, t.used i, t.apart (i / 2) i);
    above_c = ground (arith, t.parent i, t.used j, t.apart (i / 2) j);
    child = ground (arith, t.left i, t.right i, t.used j, t.apart (2 * i) j, t.apart (2 * i + 1) j);
    left_c = ground (arith, t.left j, t.used j, t.apart (2 * j) j);
    right_c = ground (arith, t.right j, t.used j, t.apart (2 * j + 1) j);
  }

  abbrev after : Heap
  after = heap_node_swap (place i) (place j) h

  abbrev moved : ℕ → Ptr
  moved = exchange i j place

  moved_i : moved i ≡ place j
  moved_i = ground arith

  moved_j : moved j ≡ place i
  moved_j = ground arith

  moved_other : (k : ℕ) → k ≢ i → k ≢ j → moved k ≡ place k
  moved_other k p q = ground arith

  left_i : after.left (place j) ≡ node moved n (2 * i)
  left_i =
      rw (left-swap h (place i) (place j) Edge-Apart (place j))
        (ground (arith, t.left i, t.apart (2 * i) j))

  left_j : after.left (place i) ≡ node moved n (2 * j)
  left_j =
      rw (left-swap h (place i) (place j) Edge-Apart (place i))
        (ground (arith, t.left j, t.apart i j))

  left_other : (k : ℕ) → 1 ≤ k → k ≤ n → k ≢ i → k ≢ j → after.left (place k) ≡ node moved n (2 * k)
  left_other k lk hk p q = rw (left-swap h (place i) (place j) Edge-Apart (place k)) (
      ground (
        arith,
        t.left k,
        t.parent i,
        t.left (i / 2),
        t.used (i / 2),
        t.used i,
        t.apart k i,
        t.apart k j,
        t.apart k (i / 2),
        t.apart (2 * (i / 2)) i,
      ))

  right_i : after.right (place j) ≡ node moved n (2 * i + 1)
  right_i =
      rw (right-swap h (place i) (place j) Edge-Apart (place j))
        (ground (arith, t.left i, t.right i, t.apart (2 * i) j, t.apart (2 * i + 1) j))

  right_j : after.right (place i) ≡ node moved n (2 * j + 1)
  right_j =
      rw (right-swap h (place i) (place j) Edge-Apart (place i))
        (ground (arith, t.right j, t.apart i j))

  right_other :
      (k : ℕ) → 1 ≤ k → k ≤ n → k ≢ i → k ≢ j → after.right (place k) ≡ node moved n (2 * k + 1)
  right_other k lk hk p q = rw (right-swap h (place i) (place j) Edge-Apart (place k)) (
      ground (
        arith,
        t.right k,
        t.parent i,
        t.left (i / 2),
        t.used (i / 2),
        t.used i,
        t.apart k i,
        t.apart k j,
        t.apart k (i / 2),
        t.apart (2 * (i / 2)) i,
      ))

  parent_i : after.parent (place j) ≡ node moved n (i / 2)
  parent_i =
      rw (parent-swap h (place i) (place j) Edge-Apart (place j) (Edge-Apart.c_null))
        (ground (arith, t.parent i, Edge-Apart))

  parent_j : after.parent (place i) ≡ node moved n (j / 2)
  parent_j = rw (parent-swap h (place i) (place j) Edge-Apart (place i) (Edge-Apart.p_null)) (
      ground (
        arith,
        t.left i,
        t.right i,
        t.left j,
        t.right j,
        t.apart (2 * i) i,
        t.apart (2 * i + 1) i,
        t.apart (2 * j) i,
        t.apart (2 * j + 1) i,
        Edge-Apart,
      ))

  first_child : (h.left (place i) == place j) ≡ (j == 2 * i)
  first_child = ground (arith, t.left i, t.used j, t.apart j (2 * i))

  parent_other :
      (k : ℕ) → 1 ≤ k → k ≤ n → k ≢ i → k ≢ j → after.parent (place k) ≡ node moved n (k / 2)
  parent_other k lk hk p q = elim (Bool-cases (h.left (place i) == place j)) [
    | inl first ↦
        rw
          (
            parent-swap h (place i) (place j) Edge-Apart (place k) (t.used k lk hk),
            first,
            is_right t j k (omega arith) hi lk hk,
            is_left t j k (omega arith) hi lk hk,
            is_right t i k lo (omega arith) lk hk,
            place_eq t k i lk hk lo (omega arith),
            place_eq t k j lk hk (omega arith) hi,
          )
          (ground (arith, t.parent k, first_child))
    | inr second ↦
        rw
          (
            parent-swap h (place i) (place j) Edge-Apart (place k) (t.used k lk hk),
            second,
            is_right t j k (omega arith) hi lk hk,
            is_left t j k (omega arith) hi lk hk,
            is_left t i k lo (omega arith) lk hk,
            place_eq t k i lk hk lo (omega arith),
            place_eq t k j lk hk (omega arith) hi,
          )
          (ground (arith, t.parent k, first_child))
  ]

  root_moved : after.min ≡ node moved n 1
  root_moved =
      rw (min-swap h (place i) (place j) Edge-Apart)
        (ground (arith, t.root, t.parent i, t.used (i / 2)))

  -- heap_node_swap of node `i` and its child, node `j`, in a complete tree leaves the complete tree in
  -- which the two have changed places, and every other node stands where it stood.
  pub heap_node_swap-IsComplete :
      IsComplete (heap_node_swap (place i) (place j) h) (exchange i j place) n
  heap_node_swap-IsComplete = record {
    root = root_moved;
    left = λ k lk hk. ground (arith, left_i, left_j, left_other k, moved_i, moved_j, moved_other k);
    right =
        λ k lk hk. ground (arith, right_i, right_j, right_other k, moved_i, moved_j, moved_other k);
    parent = λ k lk hk.
        ground (arith, parent_i, parent_j, parent_other k, moved_i, moved_j, moved_other k);
    used = λ k lk hk. ground (arith, t.used i, t.used j, t.used k);
    apart = λ k l lk hk ll hl e.
        ground
          (arith, t.apart k l, t.apart i l, t.apart j l, t.apart k i, t.apart k j, t.apart i j);
  }
