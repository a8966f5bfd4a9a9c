-- ===== src/Heap/Complete.antt =====
-- Complete binary trees on the store of libuv/src/heap-inl.h, the nodes numbered from 1 row by row.
use libuv_analyse.Base.{ℕ, ◌+◌, ◌*◌, ◌/◌, ◌≤◌, ◌≡◌, ◌≢◌, ◌||◌, ltb, ◌==◌, if◌then◌else◌, arith}
use libuv_analyse.Heap.{Heap, Ptr, null}

-- The `i`th of `n` nodes, NULL where there is none.
abbrev pub node : (ℕ → Ptr) → ℕ → ℕ → Ptr
node place n i = if (i == 0) || ltb n i then null else place i

-- The store holds the complete tree whose nodes are `place 1` to `place n`: the children of node `i` are
-- the nodes `2 * i` and `2 * i + 1`.
pub record IsComplete (h : Heap) (place : ℕ → Ptr) (n : ℕ) : Type 0 where
  pub root : h.min ≡ node place n 1
  pub left : (i : ℕ) → 1 ≤ i → i ≤ n → h.left (place i) ≡ node place n (2 * i)
  pub right : (i : ℕ) → 1 ≤ i → i ≤ n → h.right (place i) ≡ node place n (2 * i + 1)
  pub parent : (i : ℕ) → 1 ≤ i → i ≤ n → h.parent (place i) ≡ node place n (i / 2)
  pub used : (i : ℕ) → 1 ≤ i → i ≤ n → place i ≢ null
  pub apart : (i j : ℕ) → 1 ≤ i → i ≤ n → 1 ≤ j → j ≤ n → place i ≡ place j → i ≡ j

-- Two nodes change places.
abbrev pub exchange : ℕ → ℕ → (ℕ → Ptr) → ℕ → Ptr
exchange i j place k = if k == i then place j else if k == j then place i else place k

pub node_in : (place : ℕ → Ptr) (n i : ℕ) → 1 ≤ i → i ≤ n → node place n i ≡ place i
node_in place n i lo hi = ground arith

module _ {h : Heap} {place : ℕ → Ptr} {n : ℕ} (t : IsComplete h place n) where
  pub place_eq : (i j : ℕ) → 1 ≤ i → i ≤ n → 1 ≤ j → j ≤ n → (place i == place j) ≡ (i == j)
  place_eq i j li hi lj hj = ground (arith, t.apart i j)

  pub is_left :
      (i k : ℕ) → 1 ≤ i → i ≤ n → 1 ≤ k → k ≤ n → (place k == h.left (place i)) ≡ (k == 2 * i)
  is_left i k li hi lk hk = ground (arith, t.left i, t.used k, t.apart k (2 * i))

  pub is_right :
      (i k : ℕ) → 1 ≤ i → i ≤ n → 1 ≤ k → k ≤ n → (place k == h.right (place i)) ≡ (k == 2 * i + 1)
  is_right i k li hi lk hk = ground (arith, t.right i, t.used k, t.apart k (2 * i + 1))
