-- ===== src/Utf8/Words.antt =====
-- The word operations of the decoder of libuv/src/idna.c in plain arithmetic.
use libuv_analyse.Base.{
  ℕ, ◌+◌, ◌*◌, ◌/◌, ◌%◌, ◌^◌, ◌<◌, ◌≡◌, refl, ap, ◌∙◌, true, bit_and, bit_or, bit_xor, arith, ◌==◌,
  ==_iff,
}
use libuv_analyse.Base.Bits.{bit_and-mask, bit_or-shift, bit_xor-div}
use libuv_analyse.Base.Tables.{all_below, all_below_sound}
use libuv_analyse.Utf8.{join, continues}

low_six : (b : ℕ) → bit_and b 63 ≡ b % 64
low_six b = bit_and-mask 6 b

pub low_five : (b : ℕ) → bit_and b 31 ≡ b % 32
low_five b = bit_and-mask 5 b

pub low_four : (b : ℕ) → bit_and b 15 ≡ b % 16
low_four b = bit_and-mask 4 b

pub low_three : (b : ℕ) → bit_and b 7 ≡ b % 8
low_three b = bit_and-mask 3 b

-- `0x80 | b`, for a field of at most seven bits.
pub top_bit : (b : ℕ) → b < 128 → bit_or 0x80 b ≡ 128 + b
top_bit b h = bit_or-shift 7 1 b h

-- The fields of `join` do not overlap.
pub join_lem :
    (a b c d : ℕ) → a < 8 → join a b c d ≡ a * 2 ^ 18 + b % 64 * 2 ^ 12 + c % 64 * 2 ^ 6 + d % 64
unfolding join
join_lem a b c d h = rw (low_six b, low_six c, low_six d, fits, fits₁, fits₂, first, second) (third)
  where
    fits : a * 2 ^ 18 % 2 ^ 32 ≡ a * 2 ^ 18
    fits = omega arith

    fits₁ : b % 64 * 2 ^ 12 % 2 ^ 32 ≡ b % 64 * 2 ^ 12
    fits₁ = omega arith

    fits₂ : c % 64 * 2 ^ 6 % 2 ^ 32 ≡ c % 64 * 2 ^ 6
    fits₂ = omega arith

    first : bit_or (a * 2 ^ 18) (b % 64 * 2 ^ 12) ≡ (a * 64 + b % 64) * 2 ^ 12
    first = omega (arith, bit_or-shift 18 a (b % 64 * 2 ^ 12))

    second :
        bit_or ((a * 64 + b % 64) * 2 ^ 12) (c % 64 * 2 ^ 6)
        ≡ (a * 4096 + b % 64 * 64 + c % 64) * 2 ^ 6
    second = omega (arith, bit_or-shift 12 (a * 64 + b % 64) (c % 64 * 2 ^ 6))

    third :
        bit_or ((a * 4096 + b % 64 * 64 + c % 64) * 2 ^ 6) (d % 64)
        ≡ a * 2 ^ 18 + b % 64 * 2 ^ 12 + c % 64 * 2 ^ 6 + d % 64
    third = omega (arith, bit_or-shift 6 (a * 4096 + b % 64 * 64 + c % 64) (d % 64))

top_two_table : all_below 256 (λ x. bit_and 0xC0 x == x / 64 * 64) ≡ true
unfolding all_below
top_two_table = refl

top_two : (x : ℕ) → x < 256 → bit_and 0xC0 x ≡ x / 64 * 64
top_two x h = (==_iff _ _).0 (all_below_sound 256 _ top_two_table x h)

xor_byte : (a b : ℕ) → a < 256 → b < 256 → bit_xor a b < 256
xor_byte a b p q = omega (arith, bit_xor-div 8 a b ∙ none_left)
  where
    none_left : bit_xor (a / 2 ^ 8) (b / 2 ^ 8) ≡ 0
    none_left = rw (zero_div a p, zero_div b q) refl
      where
        zero_div : (x : ℕ) → x < 256 → x / 2 ^ 8 ≡ 0
        zero_div x h = omega arith

-- The check reads the two top bits of each byte.
pub continues_lem :
    (b c d : ℕ)
    → b < 256
    → c < 256
    → d < 256
    → continues b c d ≡ (bit_xor (bit_xor (b / 64) (c / 64)) (d / 64) == 2)
unfolding continues
continues_lem b c d hb hc hd = ground (
  arith,
  top_two (bit_xor (bit_xor b c) d),
  xor_byte (bit_xor b c) d (xor_byte b c hb hc) hd,
  bit_xor-div 6 (bit_xor b c) d ∙ ap (λ (t : ℕ). bit_xor t (d / 64)) (bit_xor-div 6 b c),
)
