-- ===== src/Utf8/Branches.antt =====
-- Which branch of uv__utf8_decode1_slow (libuv/src/idna.c) a lead byte takes.
use libuv_analyse.Base.{
  ◌⊎◌, inl, inr, ℕ, ◌+◌, ◌*◌, ◌/◌, ◌%◌, ◌^◌, ◌<◌, ◌≤◌, ◌≡◌, refl, ◌∙◌, ◌&&◌, false, not, bit_xor,
  arith, List, [], ◌∷◌, some, ltb, leb, ◌==◌, if◌then◌else◌,
}
use libuv_analyse.Utf8.{
  uint_max, Sequence, case_one, case_two, case_default, check, check_or_fail, utf8_decode1_slow,
  utf8_decode1,
}
use libuv_analyse.Utf8.Words.{low_five, low_four, low_three, top_bit, join_lem, continues_lem}

default_below : (a : ℕ) (p : List ℕ) → a ≤ 0xEF → case_default a p ≡ case_two a p
unfolding case_default
default_below a [] h = refl
default_below a (b ∷ []) h = refl
default_below a (b ∷ c ∷ []) h = refl
default_below a (b ∷ c ∷ d ∷ p) h = ground arith

two_below : (a : ℕ) (p : List ℕ) → a ≤ 0xDF → case_two a p ≡ case_one a p
unfolding case_two
two_below a [] h = refl
two_below a (d ∷ []) h = refl
two_below a (c ∷ d ∷ p) h = ground arith

-- The bytes of a sequence are bytes.
pub record IsBytes (s : Sequence) : Type 0 where
  pub a : s.a < 8
  pub b : s.b < 256
  pub c : s.c < 256
  pub d : s.d < 256

-- The value that a sequence stands for, and the test of its continuation bytes.
abbrev pub value : Sequence → ℕ
value s = s.a * 2 ^ 18 + s.b % 64 * 2 ^ 12 + s.c % 64 * 2 ^ 6 + s.d % 64

abbrev pub tops : Sequence → ℕ
tops s = bit_xor (bit_xor (s.b / 64) (s.c / 64)) (s.d / 64)

-- The four tests behind the switch, in plain arithmetic.
abbrev pub checked : Sequence → ℕ × List ℕ
checked s =
    if not (tops s == 2)
    then (uint_max, s.rest)
    else if ltb (value s) s.min
    then (uint_max, s.rest)
    else if ltb 0x10FFFF (value s)
    then (uint_max, s.rest)
    else if leb 0xD800 (value s) && leb (value s) 0xDFFF
    then (uint_max, s.rest)
    else (value s, s.rest)

check_lem : (s : Sequence) → IsBytes s → check s ≡ checked s
unfolding check
check_lem s h = rw (join_lem s.a s.b s.c s.d h.a, continues_lem s.b s.c s.d h.b h.c h.d)

abbrev pub one_more : ℕ → ℕ → List ℕ → Sequence
one_more a d p = record { min = 0x80; a = 0; b = 0x80; c = 128 + a % 32; d = d; rest = p }

abbrev pub two_more : ℕ → ℕ → ℕ → List ℕ → Sequence
two_more a c d p = record { min = 0x800; a = 0; b = 128 + a % 16; c = c; d = d; rest = p }

abbrev pub three_more : ℕ → ℕ → ℕ → ℕ → List ℕ → Sequence
three_more a b c d p = record { min = 0x10000; a = a % 8; b = b; c = c; d = d; rest = p }

module _ (a : ℕ) (lead : 128 ≤ a) where
  slow_lem :
      (p : List ℕ) (s : Sequence)
      → a ≤ 0xF7
      → case_default a p ≡ some s
      → IsBytes s
      → utf8_decode1 (a ∷ p) ≡ checked s
  unfolding utf8_decode1 utf8_decode1_slow check_or_fail
  slow_lem p s hi e h = rw (not_ascii, in_range, e) (check_lem s h)
    where
      not_ascii : ltb a 128 ≡ false
      not_ascii = ground arith

      in_range : ltb 0xF7 a ≡ false
      in_range = ground arith

  -- A lead byte with one byte behind it, at least: of a sequence of two bytes, or cut off.
  pub decode-one_more :
      (d : ℕ) (p : List ℕ)
      → 0xBF < a
      → d < 256
      → (a ≤ 0xDF) ⊎ (a ≤ 0xF7) × (p ≡ [])
      → utf8_decode1 (a ∷ d ∷ p) ≡ checked (one_more a d p)
  decode-one_more d p h hd (inl two) =
      slow_lem (d ∷ p) (one_more a d p) (omega arith) found (omega arith)
    where
      found : case_default a (d ∷ p) ≡ some (one_more a d p)
      found =
          default_below a (d ∷ p) (omega arith)
          ∙ two_below a (d ∷ p) two
          ∙ unfold case_one in ground (arith, low_five a, top_bit (a % 32))
  decode-one_more d p h hd (inr (hi, cut)) =
      rw cut (slow_lem (d ∷ []) (one_more a d []) hi found (omega arith))
    where
      found : case_default a (d ∷ []) ≡ some (one_more a d [])
      found = unfold case_default in ground (arith, low_five a, top_bit (a % 32))

  pub decode-two_more :
      (c d : ℕ) (p : List ℕ)
      → 0xDF < a
      → c < 256
      → d < 256
      → (a ≤ 0xEF) ⊎ (a ≤ 0xF7) × (p ≡ [])
      → utf8_decode1 (a ∷ c ∷ d ∷ p) ≡ checked (two_more a c d p)
  decode-two_more c d p h hc hd (inl three) =
      slow_lem (c ∷ d ∷ p) (two_more a c d p) (omega arith) found (omega arith)
    where
      found : case_default a (c ∷ d ∷ p) ≡ some (two_more a c d p)
      found =
          default_below a (c ∷ d ∷ p) three
          ∙ unfold case_two in ground (arith, low_four a, top_bit (a % 16))
  decode-two_more c d p h hc hd (inr (hi, cut)) =
      rw cut (slow_lem (c ∷ d ∷ []) (two_more a c d []) hi found (omega arith))
    where
      found : case_default a (c ∷ d ∷ []) ≡ some (two_more a c d [])
      found = unfold case_default in ground (arith, low_four a, top_bit (a % 16))

  pub decode-three_more :
      (b c d : ℕ) (p : List ℕ)
      → 0xEF < a
      → a ≤ 0xF7
      → b < 256
      → c < 256
      → d < 256
      → utf8_decode1 (a ∷ b ∷ c ∷ d ∷ p) ≡ checked (three_more a b c d p)
  decode-three_more b c d p h hi hb hc hd =
      slow_lem (b ∷ c ∷ d ∷ p) (three_more a b c d p) hi found (omega arith)
    where
      found : case_default a (b ∷ c ∷ d ∷ p) ≡ some (three_more a b c d p)
      found = unfold case_default in ground (arith, low_three a)
