-- ===== src/Heap/Path.antt =====
-- The search of heap_insert and heap_remove (libuv/src/heap-inl.h) for a slot by the bits of its number.
use libuv_analyse.Base.{
  ℕ, zero, suc, ◌+◌, ◌*◌, ◌/◌, ◌%◌, ◌^◌, ◌≤◌, ◌<◌, ◌≡◌, refl, ap, ◌∙◌, bit_and, bit_or, leb,
  Bool-cases, leb→le, inl, inr, ◌==◌, if◌then◌else◌, arith,
}
use native.Mathlib.Nat.{mul-le-mul_left, mul-le-mul_right}
use native.Mathlib.Numerals.{add-one}
use libuv_analyse.Base.Bits.{bit_and-mask, bit_or-shift}
use libuv_analyse.Heap.{Heap, Ptr, Slot, min_slot, left_slot, right_slot, read, path_loop, walk}
use libuv_analyse.Heap.Complete.{IsComplete}

-- The slot that points to node `i`.
abbrev pub slot_of : (ℕ → Ptr) → ℕ → Slot
slot_of place i =
    if leb i 1
    then min_slot
    else if i % 2 == 0
    then left_slot (place (i / 2))
    else right_slot (place (i / 2))

low_bit : (m : ℕ) → bit_and m 1 ≡ m % 2
low_bit m = bit_and-mask 1 m

push_bit :
    (path m : ℕ) → path * 2 < 2 ^ 32 → bit_or (path * 2 % 2 ^ 32) (bit_and m 1) ≡ path * 2 + m % 2
push_bit path m h = rw (low_bit m, fits) (bit_or-shift 1 path (m % 2) (omega arith))
  where
    fits : path * 2 % 2 ^ 32 ≡ path * 2 ^ 1
    fits = omega arith

-- The path so far and the number still to be read fit a word together.
room : (path m : ℕ) → 2 ≤ m → (path + 1) * m < 2 ^ 32 → path * 2 < 2 ^ 32
room path m big fits = omega (arith, mul-le-mul_left (path + 1) big)

room_half :
    (path m : ℕ) → 2 ≤ m → (path + 1) * m < 2 ^ 32 → (path * 2 + m % 2 + 1) * (m / 2) < 2 ^ 32
room_half path m big fits =
    omega (arith, mul-le-mul_left (path + 1) below, mul-le-mul_right (m / 2) bit)
  where
    below : 2 * (m / 2) ≤ m
    below = omega arith

    bit : path * 2 + m % 2 + 1 ≤ path * 2 + 2
    bit = omega arith

module _ {h : Heap} {place : ℕ → Ptr} {n : ℕ} (t : IsComplete h place n) where
  pub read-slot_of : (i : ℕ) → 1 ≤ i → i ≤ n → read (slot_of place i) h ≡ place i
  read-slot_of i lo hi = ground (arith, t.root, t.left (i / 2), t.right (i / 2))

  walk_step :
      (k path m : ℕ)
      → 2 ≤ m
      → m / 2 ≤ n
      → path * 2 < 2 ^ 32
      → walk
          (k + 1)
          (bit_or (path * 2 % 2 ^ 32) (bit_and m 1))
          (slot_of place (m / 2 / 2))
          (slot_of place (m / 2))
          h
        ≡ walk k path (slot_of place (m / 2)) (slot_of place m) h
  unfolding walk
  walk_step k path m lo hi fits =
      rw
        (
          push_bit path m fits,
          add-one k,
          shifted,
          low_bit (path * 2 + m % 2),
          lowest,
          read-slot_of (m / 2) (omega arith) hi,
        )
        (ap (λ c. walk k path (slot_of place (m / 2)) c h) next)
    where
      shifted : (path * 2 + m % 2) / 2 ≡ path
      shifted = omega arith

      lowest : (path * 2 + m % 2) % 2 ≡ m % 2
      lowest = omega arith

      next :
          (if m % 2 == 0 then left_slot (place (m / 2)) else right_slot (place (m / 2)))
          ≡ slot_of place m
      next = ground arith

  -- The loop that collects the bits of `m`, lowest first, and the walk that follows them from the root
  -- lead to the slots of node `m` and of its parent.
  pub walk-path_loop :
      (fuel m path k : ℕ)
      → 1 ≤ m
      → m ≤ fuel
      → m / 2 ≤ n
      → (path + 1) * m < 2 ^ 32
      → walk (path_loop fuel m path k).1 (path_loop fuel m path k).0 min_slot min_slot h
        ≡ walk k path (slot_of place (m / 2)) (slot_of place m) h
  unfolding path_loop
  walk-path_loop zero m path k lo enough hi fits = absurd (omega arith)
  walk-path_loop (suc fuel) m path k lo enough hi fits = elim (Bool-cases (leb 2 m)) [
    | inl more ↦
        let big : 2 ≤ m = leb→le 2 m more in
        rw more (
          walk-path_loop fuel (m / 2) (bit_or (path * 2 % 2 ^ 32) (bit_and m 1)) (k + 1)
            (omega arith) (omega arith) (omega arith)
            (rw (push_bit path m (room path m big fits)) (room_half path m big fits))
          ∙ walk_step k path m big hi (room path m big fits))
    | inr last ↦ let root : m ≡ 1 = ground arith in rw (last, root) refl
  ]
