-- ===== src/Io/Bound.antt =====
-- The size that maybe_resize (libuv/src/unix/core.c) takes.
use Prim.Native.Nat.{bit_or-bitwise}
use native.Mathlib.Nat.{pow-suc, div-le_self}
use libuv_analyse.Base.{ℕ, zero, suc, ◌+◌, ◌-◌, ◌/◌, ◌%◌, ◌^◌, bit_or, ◌≤◌, ◌<◌, ◌≡◌, arith}
use libuv_analyse.Base.Bits.{bit_or_step}
use libuv_analyse.Io.{next_power_of_two}

above : (k x y : ℕ) → x ≤ k → x ≤ bit_or x y
above k zero y h = omega arith
above zero (suc x) y h = absurd (omega arith)
above (suc k) (suc x) y h =
    omega (arith, bit_or_step (suc x) y, above k (suc x / 2) (y / 2) (omega arith))

below : (w x y : ℕ) → x < 2 ^ w → y < 2 ^ w → bit_or x y < 2 ^ w
below zero x y hx hy =
    let x_is : x ≡ 0 = omega (arith, hx) in
    let y_is : y ≡ 0 = omega (arith, hy) in rw (x_is, y_is) (omega (arith, bit_or-bitwise 0 0))
below (suc w) x y hx hy = omega (
  arith,
  bit_or_step x y,
  below w (x / 2) (y / 2) (omega (arith, pow-suc 2 w)) (omega (arith, pow-suc 2 w)),
  pow-suc 2 w,
)

smear : (x s : ℕ) → x < 2 ^ 31 → (x ≤ bit_or x (x / 2 ^ s)) × (bit_or x (x / 2 ^ s) < 2 ^ 31)
smear x s h = (
  above x x (x / 2 ^ s) (omega arith),
  below 31 x (x / 2 ^ s) h (omega (arith, div-le_self x (2 ^ s))),
)

-- next_power_of_two of a number from 1 to 2 ^ 31 is at least that number, and at most 2 ^ 31.
pub next_power_of_two_bound :
    (val : ℕ)
    → 0 < val
    → val ≤ 2 ^ 31
    → (val ≤ next_power_of_two val) × (next_power_of_two val ≤ 2 ^ 31)
unfolding next_power_of_two
next_power_of_two_bound val some_bit small =
    let v₀ : ℕ = (val + (2 ^ 32 - 1)) % 2 ^ 32 in
    let start : v₀ ≡ val - 1 = omega arith in
    let (low₁, high₁) = smear v₀ 1 (omega (arith, start)) in
    let v₁ = bit_or v₀ (v₀ / 2 ^ 1) in
    let (low₂, high₂) = smear v₁ 2 high₁ in
    let v₂ = bit_or v₁ (v₁ / 2 ^ 2) in
    let (low₄, high₄) = smear v₂ 4 high₂ in
    let v₄ = bit_or v₂ (v₂ / 2 ^ 4) in
    let (low₈, high₈) = smear v₄ 8 high₄ in
    let v₈ = bit_or v₄ (v₄ / 2 ^ 8) in
    let (low, high) = smear v₈ 16 high₈ in
    (omega (arith, start, low₁, low₂, low₄, low₈, low, high), omega (arith, high))
