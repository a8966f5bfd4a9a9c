-- ===== src/Heap/Replace.antt =====
-- The last node of a heap taken out of the tree and put in another's place, in heap_remove
-- (libuv/src/heap-inl.h).
use libuv_analyse.Base.{
  ℕ, suc, ◌+◌, ◌-◌, ◌*◌, ◌/◌, ◌≤◌, ◌≡◌, ◌≢◌, ◌&&◌, not, sym, ◌==◌, if◌then◌else◌, arith,
}
use native.Mathlib.Decide.{ℕ_discrete}
use libuv_analyse.Heap.{Heap, Ptr, null, write, replace}
use libuv_analyse.Heap.Complete.{IsComplete, node, is_left, is_right}
use libuv_analyse.Heap.Path.{slot_of}

-- The fields after `replace`, in one expression each.
module _ (h : Heap) (a c : Ptr) (c_a : c ≢ a) (c_null : c ≢ null) (a_null : a ≢ null)
    (above_c : h.parent a ≢ c) (above_a : (h.left a ≢ a) × (h.right a ≢ a)) where
  replaced-left :
      (x : Ptr)
      → (replace a c h).left x ≡ (
          if (x == h.parent a) && not (h.parent a == null) && (h.left (h.parent a) == a)
          then c
          else if x == c
          then h.left a
          else h.left x)
  unfolding replace
  replaced-left x = ground arith

  replaced-right :
      (x : Ptr)
      → (replace a c h).right x ≡ (
          if (x == h.parent a) && not (h.parent a == null) && not (h.left (h.parent a) == a)
          then c
          else if x == c
          then h.right a
          else h.right x)
  unfolding replace
  replaced-right x = ground arith

  replaced-parent :
      (x : Ptr)
      → x ≢ null
      → (replace a c h).parent x ≡ (
          if x == h.right a
          then c
          else if x == h.left a
          then c
          else if x == c
          then h.parent a
          else h.parent x)
  unfolding replace
  replaced-parent x ne = ground arith

  replaced-min : (replace a c h).min ≡ (if h.parent a == null then c else h.min)
  unfolding replace
  replaced-min = ground arith

module _ {h : Heap} {place : ℕ → Ptr} {m : ℕ} (t : IsComplete h place (suc m)) where
  -- The store once the slot of the last node has been cleared.
  abbrev pub unlinked : Heap
  unlinked = write (slot_of place (suc m)) null (record h { nelts = h.nelts - 1 })

  pub unlinked-IsComplete : IsComplete unlinked place m
  unlinked-IsComplete = record {
    root = ground (arith, t.root);
    left = λ i li hi. ground (arith, t.left i, t.apart i (suc m / 2));
    right = λ i li hi. ground (arith, t.right i, t.apart i (suc m / 2));
    parent = λ i li hi. ground (arith, t.parent i);
    used = λ i li hi. t.used i li (omega arith);
    apart = λ i j li hi lj hj. t.apart i j li (omega arith) lj (omega arith);
  }

-- The last node takes the place of node `j`.
abbrev pub refill : (ℕ → Ptr) → ℕ → ℕ → ℕ → Ptr
refill place m j k = if k == j then place (suc m) else place k

module _ {h : Heap} {place : ℕ → Ptr} {m : ℕ} (t : IsComplete h place m) (j : ℕ) (lo : 1 ≤ j)
    (hi : j ≤ m) (c_null : place (suc m) ≢ null)
    (out : (i : ℕ) → 1 ≤ i → i ≤ m → place i ≢ place (suc m)) where
  abbrev a : Ptr
  a = place j

  abbrev c : Ptr
  c = place (suc m)

  c_a : c ≢ a
  c_a e = out j lo hi (sym e)

  above_c : h.parent a ≢ c
  above_c = ground (arith, t.parent j, out (j / 2))

  not_own_child : (h.left a ≢ a) × (h.right a ≢ a)
  not_own_child = (
    ground (arith, t.left j, t.used j, t.apart (2 * j) j),
    ground (arith, t.right j, t.used j, t.apart (2 * j + 1) j),
  )

  abbrev filled : ℕ → Ptr
  filled = refill place m j

  other : (k : ℕ) → k ≢ j → filled k ≡ place k
  other k ne = ground arith

  filled_j : filled j ≡ c
  filled_j = ground arith

  left_j : (replace a c h).left (filled j) ≡ node filled m (2 * j)
  left_j =
      rw (filled_j, replaced-left h a c c_a c_null (t.used j lo hi) above_c not_own_child c)
        (ground (arith, t.left j, above_c))

  left_other :
      (k : ℕ) → 1 ≤ k → k ≤ m → k ≢ j → (replace a c h).left (filled k) ≡ node filled m (2 * k)
  left_other k lk hk ne =
      rw
        (
          other k ne,
          replaced-left h a c c_a c_null (t.used j lo hi) above_c not_own_child (place k),
        )
        (ground (
          arith,
          out k,
          t.left k,
          t.parent j,
          t.left (j / 2),
          t.used (j / 2),
          t.used j,
          t.apart k (j / 2),
          t.apart (2 * (j / 2)) j,
        ))

  right_j : (replace a c h).right (filled j) ≡ node filled m (2 * j + 1)
  right_j =
      rw (filled_j, replaced-right h a c c_a c_null (t.used j lo hi) above_c not_own_child c)
        (ground (arith, t.right j, above_c))

  right_other :
      (k : ℕ) → 1 ≤ k → k ≤ m → k ≢ j → (replace a c h).right (filled k) ≡ node filled m (2 * k + 1)
  right_other k lk hk ne =
      rw
        (
          other k ne,
          replaced-right h a c c_a c_null (t.used j lo hi) above_c not_own_child (place k),
        )
        (ground (
          arith,
          out k,
          t.right k,
          t.parent j,
          t.left (j / 2),
          t.used (j / 2),
          t.used j,
          t.apart k (j / 2),
          t.apart (2 * (j / 2)) j,
        ))

  parent_j : (replace a c h).parent (filled j) ≡ node filled m (j / 2)
  parent_j =
      rw
        (filled_j, replaced-parent h a c c_a c_null (t.used j lo hi) above_c not_own_child c c_null)
        (ground (arith, t.parent j, t.left j, t.right j, out (2 * j), out (2 * j + 1)))

  parent_other :
      (k : ℕ) → 1 ≤ k → k ≤ m → k ≢ j → (replace a c h).parent (filled k) ≡ node filled m (k / 2)
  parent_other k lk hk ne =
      rw
        (
          other k ne,
          replaced-parent h a c c_a c_null (t.used j lo hi) above_c not_own_child (place k)
              (t.used k lk hk),
          is_right t j k lo hi lk hk,
          is_left t j k lo hi lk hk,
        )
        (ground (arith, out k, t.parent k))

  pub replace-IsComplete : IsComplete (replace a c h) (refill place m j) m
  replace-IsComplete = record {
    root =
        rw (replaced-min h a c c_a c_null (t.used j lo hi) above_c not_own_child)
          (ground (arith, t.root, t.parent j, t.used (j / 2)));
    left = λ k lk hk. elim (ℕ_discrete k j) [ yes e ↦ rw e left_j | no ne ↦ left_other k lk hk ne ];
    right =
        λ k lk hk. elim (ℕ_discrete k j) [ yes e ↦ rw e right_j | no ne ↦ right_other k lk hk ne ];
    parent = λ k lk hk. elim (ℕ_discrete k j) [
      | yes e ↦ rw e parent_j
      | no ne ↦ parent_other k lk hk ne
    ];
    used = λ k lk hk. ground (arith, t.used k);
    apart = λ k l lk hk ll hl e. ground (arith, t.apart k l, out k, out l);
  }
