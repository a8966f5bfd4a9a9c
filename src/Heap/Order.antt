-- ===== src/Heap/Order.antt =====
-- The order of the heap of libuv/src/heap-inl.h: no node is less than its parent.
use libuv_analyse.Base.{
  ℕ, zero, suc, ◌/◌, ◌≤◌, ◌≡◌, ◌≢◌, ◌↔◌, true, false, ◌==◌, if◌then◌else◌, arith,
}
use libuv_analyse.Heap.{Ptr, Less}
use libuv_analyse.Heap.Complete.{exchange}

-- What the heap asks of `less_than`: a strict order in which "not less" is transitive.
pub record IsStrictOrder (less : Less) : Type 0 where
  pub asym : (x y : Ptr) → less x y ≡ true → less y x ≡ false
  pub trans : (x y z : Ptr) → less x y ≡ false → less y z ≡ false → less x z ≡ false

abbrev pub IsOrdered : Less → (ℕ → Ptr) → ℕ → Type 0
IsOrdered less place n = (k : ℕ) → 2 ≤ k → k ≤ n → less (place k) (place (k / 2)) ≡ false

-- The order fails at most between node `i` and its parent, and would hold if node `i` were left out.
pub record OrderedBelow (less : Less) (place : ℕ → Ptr) (n i : ℕ) : Type 0 where
  pub others : (k : ℕ) → 2 ≤ k → k ≤ n → k ≢ i → less (place k) (place (k / 2)) ≡ false
  pub over : (k : ℕ) → 2 ≤ i → k ≤ n → k / 2 ≡ i → less (place k) (place (i / 2)) ≡ false

-- `x` is one of the nodes.
abbrev pub Member : (ℕ → Ptr) → ℕ → Ptr → Type 0
Member place n x = (i : ℕ) × (1 ≤ i) × (i ≤ n) × (place i ≡ x)

abbrev pub SameMembers : (ℕ → Ptr) → (ℕ → Ptr) → ℕ → Type 0
SameMembers place place' n = (x : Ptr) → Member place n x ↔ Member place' n x

pub exchange-SameMembers :
    (place : ℕ → Ptr) (n i j : ℕ)
    → 1 ≤ i
    → i ≤ n
    → 1 ≤ j
    → j ≤ n
    → SameMembers place (exchange i j place) n
exchange-SameMembers place n i j li hi lj hj x = (
  λ (k, lk, hk, e). (other k, ground arith, ground arith, ground arith),
  λ (k, lk, hk, e). (other k, ground arith, ground arith, ground arith),
)
  where
    other : ℕ → ℕ
    other k = if k == i then j else if k == j then i else k

irrefl : (less : Less) → IsStrictOrder less → (x : Ptr) → less x x ≡ false
irrefl less o x = ground (arith, o.asym x x)

module _ {less : Less} (o : IsStrictOrder less) {place : ℕ → Ptr} {n : ℕ} where
  root_le_fuel :
      IsOrdered less place n
      → (fuel i : ℕ) → i ≤ fuel
      → 1 ≤ i
      → i ≤ n
      → less (place i) (place 1) ≡ false
  root_le_fuel ordered zero i small lo hi = absurd (omega arith)
  root_le_fuel ordered (suc fuel) zero small lo hi = absurd (omega arith)
  root_le_fuel ordered (suc fuel) (suc zero) small lo hi = irrefl less o (place 1)
  root_le_fuel ordered (suc fuel) (suc (suc i)) small lo hi =
      o.trans (place (suc (suc i))) (place (suc (suc i) / 2)) (place 1)
        (ordered (suc (suc i)) (omega arith) hi)
        (root_le_fuel ordered fuel (suc (suc i) / 2) (omega arith) (omega arith) (omega arith))

  -- The root of an ordered tree is a least node.
  pub root_le : IsOrdered less place n → (i : ℕ) → 1 ≤ i → i ≤ n → less (place i) (place 1) ≡ false
  root_le ordered i lo hi = root_le_fuel ordered i i (omega arith) lo hi
