-- ===== src/Utf8.antt =====
-- The UTF-8 decoder of libuv/src/idna.c: uv__utf8_decode1 and uv__utf8_decode1_slow.
-- The pointers `*p` and `pe` are the list of the bytes between them, so `pe - *p` is its length. Each
-- function returns its value and the bytes that are left. `UINT_MAX`, as which `-1` is returned,
-- says that the bytes are not legal.
pub mod Words
pub mod Encoding
pub mod Branches
pub mod RoundTrip
pub mod Legal
pub mod Canonical
mod Tests
use libuv_analyse.Base.{
  ℕ, ◌*◌, ◌%◌, ◌^◌, ◌-◌, ◌&&◌, bit_and, bit_or, bit_xor, List, [], ◌∷◌, Option, none, some, ltb,
  leb, ◌==◌, if◌then◌else◌, not, Bool,
}

abbrev pub uint_max : ℕ
uint_max = 2 ^ 32 - 1

-- The locals of uv__utf8_decode1_slow behind the switch.
pub record Sequence : Type 0 where
  pub min : ℕ
  pub a : ℕ
  pub b : ℕ
  pub c : ℕ
  pub d : ℕ
  pub rest : List ℕ

-- The cases of the switch on `pe - *p`, the last first: each falls through to the one above it here.
-- `none` is the return under `case 0`.
case_one : ℕ → List ℕ → Option Sequence
case_one a [] = none
case_one a (d ∷ p) =
    if ltb 0xBF a
    then some
        (record { min = 0x80; a = 0; b = 0x80; c = bit_or 0x80 (bit_and a 31); d = d; rest = p })
    else none

case_two : ℕ → List ℕ → Option Sequence
unfolding case_one
case_two a (c ∷ d ∷ p) =
    if ltb 0xDF a
    then some
        (record { min = 0x800; a = 0; b = bit_or 0x80 (bit_and a 15); c = c; d = d; rest = p })
    else case_one a (c ∷ d ∷ p)
case_two a p = case_one a p

case_default : ℕ → List ℕ → Option Sequence
unfolding case_two
case_default a (b ∷ c ∷ d ∷ p) =
    if ltb 0xEF a
    then some (record { min = 0x10000; a = bit_and a 7; b = b; c = c; d = d; rest = p })
    else case_two a (b ∷ c ∷ d ∷ p)
case_default a p = case_two a p

-- `(a << 18) | (b << 12) | (c << 6) | d`, after `b &= 63` and so on.
unfoldable pub join : ℕ → ℕ → ℕ → ℕ → ℕ
join a b c d =
    bit_or
      (bit_or (bit_or (a * 2 ^ 18 % 2 ^ 32) (bit_and b 63 * 2 ^ 12 % 2 ^ 32))
        (bit_and c 63 * 2 ^ 6 % 2 ^ 32))
      (bit_and d 63)

-- The check of the continuation bytes.
unfoldable pub continues : ℕ → ℕ → ℕ → Bool
continues b c d = 0x80 == bit_and 0xC0 (bit_xor (bit_xor b c) d)

-- What stands behind the switch.
check : Sequence → ℕ × List ℕ
check s =
    let v = join s.a s.b s.c s.d in
    if not (continues s.b s.c s.d)
    then (uint_max, s.rest)
    else if ltb v s.min
    then (uint_max, s.rest)
    else if ltb 0x10FFFF v
    then (uint_max, s.rest)
    else if leb 0xD800 v && leb v 0xDFFF
    then (uint_max, s.rest)
    else (v, s.rest)

check_or_fail : List ℕ → Option Sequence → ℕ × List ℕ
unfolding check
check_or_fail p none = (uint_max, p)
check_or_fail p (some s) = check s

utf8_decode1_slow : ℕ → List ℕ → ℕ × List ℕ
unfolding case_default check_or_fail
utf8_decode1_slow a p = if ltb 0xF7 a then (uint_max, p) else check_or_fail p (case_default a p)

-- The source asserts that there is a byte; on no byte nothing is read here.
unfoldable pub utf8_decode1 : List ℕ → ℕ × List ℕ
unfolding utf8_decode1_slow
utf8_decode1 [] = (uint_max, [])
utf8_decode1 (a ∷ p) = if ltb a 128 then (a, p) else utf8_decode1_slow a p
