-- ===== src/Utf8/RoundTrip.antt =====
-- uv__utf8_decode1 (libuv/src/idna.c) against the encoding of UTF-8.
use libuv_analyse.Base.{
  ℕ, ◌+◌, ◌/◌, ◌%◌, ◌<◌, ◌≤◌, ◌≡◌, inl, inr, refl, ◌∙◌, lt→ltb, ge→ltb, arith, List, ◌∷◌, ◌++◌,
}
use native.Mathlib.Decide.{dec_lt}
use libuv_analyse.Utf8.{Sequence, utf8_decode1}
use libuv_analyse.Utf8.Encoding.{IsScalar, encode}
use libuv_analyse.Utf8.Branches.{
  decode-one_more, decode-two_more, decode-three_more, checked, one_more, two_more, three_more,
  value,
}

-- A sequence of legal continuation bytes that passes the other tests decodes to its value.
legal :
    (s : Sequence) (c : ℕ)
    → s.b / 64 ≡ 2
    → s.c / 64 ≡ 2
    → s.d / 64 ≡ 2
    → value s ≡ c
    → s.min ≤ c
    → IsScalar c
    → checked s ≡ (c, s.rest)
legal s c hb hc hd e low scalar = rw (hb, hc, hd, e) (ground arith)

module _ (c : ℕ) (rest : List ℕ) where
  one_byte : c < 0x80 → utf8_decode1 (c ∷ rest) ≡ (c, rest)
  unfolding utf8_decode1
  one_byte h = ground arith

  two_bytes :
      0x80 ≤ c → c < 0x800 → utf8_decode1 ((0xC0 + c / 64) ∷ (0x80 + c % 64) ∷ rest) ≡ (c, rest)
  two_bytes lo hi =
      decode-one_more (0xC0 + c / 64) (omega arith) (0x80 + c % 64) rest (omega arith) (omega arith)
        (inl (omega arith))
      ∙ legal (one_more (0xC0 + c / 64) (0x80 + c % 64) rest) c refl (omega arith) (omega arith)
          (omega arith) lo (inl (omega arith))

  three_bytes :
      0x800 ≤ c
      → c < 0x10000
      → IsScalar c
      → utf8_decode1 ((0xE0 + c / 4096) ∷ (0x80 + c / 64 % 64) ∷ (0x80 + c % 64) ∷ rest) ≡ (c, rest)
  three_bytes lo hi scalar =
      decode-two_more (0xE0 + c / 4096) (omega arith) (0x80 + c / 64 % 64) (0x80 + c % 64) rest
        (omega arith) (omega arith) (omega arith) (inl (omega arith))
      ∙ legal (two_more (0xE0 + c / 4096) (0x80 + c / 64 % 64) (0x80 + c % 64) rest) c (omega arith)
          (omega arith) (omega arith) (omega arith) lo scalar

  four_bytes :
      0x10000 ≤ c
      → c ≤ 0x10FFFF
      → utf8_decode1 (
          (0xF0 + c / 262144)
          ∷ (0x80 + c / 4096 % 64)
          ∷ (0x80 + c / 64 % 64)
          ∷ (0x80 + c % 64)
          ∷ rest)
        ≡ (c, rest)
  four_bytes lo hi =
      decode-three_more (0xF0 + c / 262144) (omega arith) (0x80 + c / 4096 % 64)
        (0x80 + c / 64 % 64) (0x80 + c % 64) rest (omega arith) (omega arith) (omega arith)
        (omega arith) (omega arith)
      ∙ legal
          (three_more (0xF0 + c / 262144) (0x80 + c / 4096 % 64) (0x80 + c / 64 % 64)
            (0x80 + c % 64) rest)
          c (omega arith) (omega arith) (omega arith) (omega arith) lo (inr (omega arith, hi))

-- Decoding the UTF-8 encoding of a scalar value gives back the value, and leaves what follows it.
pub decode1-encode :
    (c : ℕ) (rest : List ℕ) → IsScalar c → utf8_decode1 (encode c ++ rest) ≡ (c, rest)
unfolding encode
decode1-encode c rest scalar = elim (dec_lt c 0x80) [
  | yes h ↦ rw (lt→ltb c 0x80 h) (one_byte c rest h)
  | no h₁ ↦ elim (dec_lt c 0x800) [
    | yes h ↦ rw (ge→ltb c 0x80 (omega arith), lt→ltb c 0x800 h) (two_bytes c rest (omega arith) h)
    | no h₂ ↦ elim (dec_lt c 0x10000) [
      | yes h ↦
          rw (ge→ltb c 0x80 (omega arith), ge→ltb c 0x800 (omega arith), lt→ltb c 0x10000 h)
            (three_bytes c rest (omega arith) h scalar)
      | no h₃ ↦
          rw
            (
              ge→ltb c 0x80 (omega arith),
              ge→ltb c 0x800 (omega arith),
              ge→ltb c 0x10000 (omega arith),
            )
            (four_bytes c rest (omega arith) (omega arith))
    ]
  ]
]
