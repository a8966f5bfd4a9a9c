-- ===== src/Base/Bits.antt =====
-- The bitwise operators of C on unsigned words: the law for the lowest digit of each, and from it the
-- laws for masks, for a shift of an exclusive or, and for an or of disjoint fields.
use Prim.Native.Nat.{ℕ, zero, suc, ◌+◌, ◌-◌, ◌*◌, ◌/◌, ◌%◌, ◌^◌, ◌≤◌, ◌<◌, min, max, differ}
use Prim.Native.Nat.{bit_and, bit_or, bit_xor}
use Prim.Native.Nat.{digits, bitwise, bit_and-bitwise, bit_or-bitwise, bit_xor-bitwise}
use mathlib.Core.Path.{◌≡◌, refl, ap, ap₂, ◌∙◌}
use native.Mathlib.Nat.{
  pow-suc, pow-succ', mul_comm, mod-eq-sub-div-mul, div-div-eq-div-mul, div-mul-le_self,
}
use native.Mathlib.Omega.{arith}

module _ (tail : ℕ → ℕ) (digit : ℕ → ℕ → ℕ) where
  -- Two amounts of fuel that both reach the first operand give the same digits.
  digits_enough :
      (x y k l : ℕ) → (x ≤ k) × (x ≤ l) → digits tail digit k x y ≡ digits tail digit l x y
  digits_enough zero y zero zero _ = refl
  digits_enough zero y zero (suc l) _ = refl
  digits_enough zero y (suc k) zero _ = refl
  digits_enough zero y (suc k) (suc l) _ = refl
  digits_enough (suc x) y zero l h = absurd (omega arith)
  digits_enough (suc x) y (suc k) zero h = absurd (omega arith)
  digits_enough (suc x) y (suc k) (suc l) h =
      let halves = digits_enough (suc x / 2) (y / 2) k l (omega arith) in
      ap (λ (t : ℕ). t * 2 + digit (suc x % 2) (y % 2)) halves

  lowest_digit :
      (x y : ℕ)
      → bitwise tail digit (suc x) y
        ≡ bitwise tail digit (suc x / 2) (y / 2) * 2 + digit (suc x % 2) (y % 2)
  lowest_digit x y =
      let spare = digits_enough (suc x / 2) (y / 2) x (suc x / 2) (omega arith) in
      ap (λ (t : ℕ). t * 2 + digit (suc x % 2) (y % 2)) spare

xor_digit : (x y : ℕ) → x < 2 → y < 2 → differ x y ≡ (x + y) % 2
xor_digit zero y p q = omega arith
xor_digit (suc zero) zero p q = refl
xor_digit (suc zero) (suc zero) p q = refl
xor_digit (suc zero) (suc (suc y)) p q = absurd (omega arith)
xor_digit (suc (suc x)) y p q = absurd (omega arith)

pub bit_xor_step : (a b : ℕ) → bit_xor a b ≡ bit_xor (a / 2) (b / 2) * 2 + (a % 2 + b % 2) % 2
bit_xor_step zero b = simp bit_xor-bitwise (omega arith)
bit_xor_step (suc a) b = simp bit_xor-bitwise (
    lowest_digit (λ y. y) differ a b
    ∙ rw (xor_digit (suc a % 2) (b % 2) (omega arith) (omega arith)))

-- The digit of an or is the greater one.
pub bit_or_step : (x y : ℕ) → bit_or x y ≡ bit_or (x / 2) (y / 2) * 2 + max (x % 2) (y % 2)
bit_or_step (suc x) y = simp bit_or-bitwise (lowest_digit (λ t. t) max x y)
bit_or_step zero y = simp bit_or-bitwise (omega arith)

-- The digit of an and is the smaller one.
pub bit_and_step : (x y : ℕ) → bit_and x y ≡ bit_and (x / 2) (y / 2) * 2 + min (x % 2) (y % 2)
bit_and_step (suc x) y = simp bit_and-bitwise (lowest_digit (λ _. 0) min x y)
bit_and_step zero y = simp bit_and-bitwise (omega arith)

bit_and-zero : (k a : ℕ) → a ≤ k → bit_and a 0 ≡ 0
bit_and-zero k zero h = bit_and-bitwise 0 0
bit_and-zero zero (suc a) h = absurd (omega arith)
bit_and-zero (suc k) (suc a) h =
    omega (arith, bit_and_step (suc a) 0, bit_and-zero k (suc a / 2) (omega arith))

bit_or-zero : (k a : ℕ) → a ≤ k → bit_or a 0 ≡ a
bit_or-zero k zero h = bit_or-bitwise 0 0
bit_or-zero zero (suc a) h = absurd (omega arith)
bit_or-zero (suc k) (suc a) h =
    omega (arith, bit_or_step (suc a) 0, bit_or-zero k (suc a / 2) (omega arith))

pow_pos : (k : ℕ) → 0 < 2 ^ k
pow_pos zero = omega arith
pow_pos (suc k) = rw pow-suc (omega (arith, pow_pos k))

-- The remainder by twice `p`, from the quotient and the remainder by 2.
mod_double : (a p : ℕ) → 0 < p → a / 2 % p * 2 + a % 2 ≡ a % (p * 2)
mod_double a p h =
    rw (mul_comm p 2, mod-eq-sub-div-mul a (2 * p), ← div-div-eq-div-mul a 2 p)
      (omega (arith, mod-eq-sub-div-mul (a / 2) p, div-mul-le_self (a / 2) p))

-- A mask of `k` ones keeps the lowest `k` digits.
pub bit_and-mask : (k a : ℕ) → bit_and a (2 ^ k - 1) ≡ a % 2 ^ k
bit_and-mask zero a = omega (arith, bit_and-zero a a (omega arith))
bit_and-mask (suc k) a = rw pow-suc (
    omega (
      arith,
      bit_and_step a (2 ^ k * 2 - 1),
      ap (bit_and (a / 2)) half,
      bit_and-mask k (a / 2),
      pow_pos k,
      mod_double a (2 ^ k) (pow_pos k),
    ))
  where
    half : (2 ^ k * 2 - 1) / 2 ≡ 2 ^ k - 1
    half = omega (arith, pow_pos k)

-- An or with a word of `k` digits fills the `k` places that a shift has left empty.
pub bit_or-shift : (k a b : ℕ) → b < 2 ^ k → bit_or (a * 2 ^ k) b ≡ a * 2 ^ k + b
bit_or-shift zero a zero h =
    omega (arith, bit_or-zero a a (omega arith), ap (λ (t : ℕ). bit_or t 0) one)
  where
    one : a * 1 ≡ a
    one = omega arith
bit_or-shift zero a (suc b) h = absurd (omega arith)
bit_or-shift (suc k) a b h = rw pow-suc (
    omega (
      arith,
      bit_or_step (a * (2 ^ k * 2)) b,
      ap (λ (t : ℕ). bit_or t (b / 2)) half,
      bit_or-shift k a (b / 2) small,
    ))
  where
    half : a * (2 ^ k * 2) / 2 ≡ a * 2 ^ k
    half = omega arith

    small : b / 2 < 2 ^ k
    small = omega (arith, pow-suc 2 k)

over_one : (a : ℕ) → a ≡ a / 1
over_one a = omega arith

-- A shift to the right goes through an exclusive or.
pub bit_xor-div : (k a b : ℕ) → bit_xor a b / 2 ^ k ≡ bit_xor (a / 2 ^ k) (b / 2 ^ k)
bit_xor-div zero a b = omega (arith, ap₂ bit_xor (over_one a) (over_one b))
bit_xor-div (suc k) a b =
    rw
      (
        pow-succ' 2 k,
        ← div-div-eq-div-mul (bit_xor a b) 2 (2 ^ k),
        ← div-div-eq-div-mul a 2 (2 ^ k),
        ← div-div-eq-div-mul b 2 (2 ^ k),
        halved,
      )
      (bit_xor-div k (a / 2) (b / 2))
  where
    halved : bit_xor a b / 2 ≡ bit_xor (a / 2) (b / 2)
    halved = omega (arith, bit_xor_step a b)
