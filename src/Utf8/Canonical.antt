-- ===== src/Utf8/Canonical.antt =====
-- uv__utf8_decode1 (libuv/src/idna.c) on lead bytes with the continuation bytes that they announce,
-- and on sequences that are not UTF-8.
use libuv_analyse.Base.{
  ℕ, ◌+◌, ◌*◌, ◌/◌, ◌%◌, ◌<◌, ◌≤◌, ◌≡◌, ◌≢◌, zero, suc, bit_xor, inl, inr, refl, sym, ap, subst,
  ◌∙◌, arith, List, [], ◌∷◌, ◌++◌,
}
use libuv_analyse.Utf8.{uint_max, Sequence, utf8_decode1}
use libuv_analyse.Utf8.Encoding.{IsScalar, encode}
use libuv_analyse.Utf8.Branches.{
  decode-one_more, decode-two_more, decode-three_more, checked, value, tops, one_more, two_more,
  three_more,
}

abbrev IsContinuation : ℕ → Type 0
IsContinuation b = (0x80 ≤ b) × (b < 0xC0)

-- The lead byte `a` announces as many continuation bytes as follow it.
abbrev pub Announces : ℕ → List ℕ → Type 0
Announces a [] = a < 0x80
Announces a (d ∷ []) = (0xC0 ≤ a) × (a < 0xE0) × IsContinuation d
Announces a (c ∷ d ∷ []) = (0xE0 ≤ a) × (a < 0xF0) × IsContinuation c × IsContinuation d
Announces a (b ∷ c ∷ d ∷ []) =
    (0xF0 ≤ a) × (a < 0xF8) × IsContinuation b × IsContinuation c × IsContinuation d
Announces a (_ ∷ _ ∷ _ ∷ _ ∷ _) = ⊥

-- A sequence that passes the four tests is returned as its value, a scalar value from the least one tested on.
abbrev Accepted : Sequence → Type 0
Accepted s = (checked s ≡ (value s, s.rest)) × (s.min ≤ value s) × IsScalar (value s)

accepted : (s : Sequence) → (checked s).0 ≢ uint_max → Accepted s
accepted s ok = ground arith

encode_two :
    (a d : ℕ)
    → 0xC0 ≤ a
    → a < 0xE0
    → IsContinuation d
    → 0x80 ≤ a % 32 * 64 + d % 64
    → encode (a % 32 * 64 + d % 64) ≡ a ∷ d ∷ []
unfolding encode
encode_two a d lo hi cd h = ground arith

encode_three :
    (a c d : ℕ)
    → 0xE0 ≤ a
    → a < 0xF0
    → IsContinuation c
    → IsContinuation d
    → 0x800 ≤ a % 16 * 4096 + c % 64 * 64 + d % 64
    → encode (a % 16 * 4096 + c % 64 * 64 + d % 64) ≡ a ∷ c ∷ d ∷ []
unfolding encode
encode_three a c d lo hi cc cd h = ground arith

encode_four :
    (a b c d : ℕ)
    → 0xF0 ≤ a
    → a < 0xF8
    → IsContinuation b
    → IsContinuation c
    → IsContinuation d
    → 0x10000 ≤ a % 8 * 262144 + b % 64 * 4096 + c % 64 * 64 + d % 64
    → encode (a % 8 * 262144 + b % 64 * 4096 + c % 64 * 64 + d % 64) ≡ a ∷ b ∷ c ∷ d ∷ []
unfolding encode
encode_four a b c d lo hi cb cc cd h = ground arith

-- The statement below, of the pair that the decoder returns.
abbrev IsCanonical : ℕ → List ℕ → List ℕ → ℕ × List ℕ → Type 0
IsCanonical a bs rest r = r.0 ≢ uint_max → (encode r.0 ≡ a ∷ bs) × (r.1 ≡ rest) × IsScalar r.0

checked-IsCanonical :
    (a : ℕ) (bs : List ℕ) (s : Sequence) (v : ℕ)
    → value s ≡ v
    → (s.min ≤ v → encode v ≡ a ∷ bs)
    → IsCanonical a bs s.rest (checked s)
checked-IsCanonical a bs s v e enc ok =
    let (q, lo, scalar) = accepted s ok in
    rw (q, e) (enc (omega arith), refl, subst IsScalar e scalar)

one_byte-IsCanonical :
    (a : ℕ) (rest : List ℕ) → a < 0x80 → IsCanonical a [] rest (utf8_decode1 (a ∷ rest))
unfolding utf8_decode1 encode
one_byte-IsCanonical a rest h ok = ground arith

-- On a lead byte with as many continuation bytes as it announces, the decoder accepts only the one
-- encoding of a scalar value, which it returns, and takes just those bytes: no overlong form and no surrogate
-- passes.
pub encode-decode1 :
    (a : ℕ) (bs rest : List ℕ)
    → Announces a bs
    → (utf8_decode1 (a ∷ (bs ++ rest))).0 ≢ uint_max
    → (encode (utf8_decode1 (a ∷ (bs ++ rest))).0 ≡ a ∷ bs)
      × ((utf8_decode1 (a ∷ (bs ++ rest))).1 ≡ rest)
      × IsScalar (utf8_decode1 (a ∷ (bs ++ rest))).0
encode-decode1 a [] rest h = one_byte-IsCanonical a rest h
encode-decode1 a (d ∷ []) rest (lo, hi, cd) =
    rw (decode-one_more a (omega arith) d rest (omega arith) (omega arith) (inl (omega arith))) (
      checked-IsCanonical a (d ∷ []) (one_more a d rest) (a % 32 * 64 + d % 64) (omega arith)
        (encode_two a d lo hi cd))
encode-decode1 a (c ∷ d ∷ []) rest (lo, hi, cc, cd) =
    rw
      (decode-two_more a (omega arith) c d rest (omega arith) (omega arith) (omega arith)
        (inl (omega arith)))
      (checked-IsCanonical a (c ∷ d ∷ []) (two_more a c d rest)
        (a % 16 * 4096 + c % 64 * 64 + d % 64) (omega arith) (encode_three a c d lo hi cc cd))
encode-decode1 a (b ∷ c ∷ d ∷ []) rest (lo, hi, cb, cc, cd) =
    rw
      (decode-three_more a (omega arith) b c d rest (omega arith) (omega arith) (omega arith)
        (omega arith) (omega arith))
      (checked-IsCanonical a (b ∷ c ∷ d ∷ []) (three_more a b c d rest)
        (a % 8 * 262144 + b % 64 * 4096 + c % 64 * 64 + d % 64) (omega arith)
        (encode_four a b c d lo hi cb cc cd))
encode-decode1 a (_ ∷ _ ∷ _ ∷ _ ∷ _) rest h = absurd h

same_checked :
    (s t : Sequence)
    → tops s ≡ tops t
    → value s ≡ value t
    → s.min ≡ t.min
    → s.rest ≡ t.rest
    → checked s ≡ checked t
same_checked s t p q r e = ground arith

xor_twice : (t : ℕ) → t < 4 → bit_xor (bit_xor 2 t) t ≡ 2
xor_twice zero h = refl
xor_twice (suc zero) h = refl
xor_twice (suc (suc zero)) h = refl
xor_twice (suc (suc (suc zero))) h = refl
xor_twice (suc (suc (suc (suc t)))) h = absurd (omega arith)

two_tops :
    (b c d : ℕ)
    → b / 64 ≡ 2
    → c < 256
    → c / 64 ≡ d / 64
    → bit_xor (bit_xor (b / 64) (c / 64)) (d / 64) ≡ 2
two_tops b c d p h e = rw (p, ← e) (xor_twice (c / 64) (omega arith))

-- Two bytes behind a lead byte of three are taken for continuation bytes whenever their two top bits
-- agree, whatever these are: two ASCII bytes decode as the continuation bytes with the same low bits.
pub decode1_same_tops :
    (a c d : ℕ) (rest : List ℕ)
    → 0xE0 ≤ a
    → a < 0xF0
    → c < 256
    → d < 256
    → c / 64 ≡ d / 64
    → utf8_decode1 (a ∷ c ∷ d ∷ rest) ≡ utf8_decode1 (a ∷ (0x80 + c % 64) ∷ (0x80 + d % 64) ∷ rest)
decode1_same_tops a c d rest lo hi hc hd e =
    decode-two_more a (omega arith) c d rest (omega arith) hc hd (inl (omega arith))
    ∙ same_checked (two_more a c d rest) (two_more a (0x80 + c % 64) (0x80 + d % 64) rest)
        tops_agree (omega arith) refl refl
    ∙ sym (
        decode-two_more a (omega arith) (0x80 + c % 64) (0x80 + d % 64) rest (omega arith)
          (omega arith) (omega arith) (inl (omega arith)))
  where
    tops_agree : tops (two_more a c d rest) ≡ tops (two_more a (0x80 + c % 64) (0x80 + d % 64) rest)
    tops_agree =
        two_tops (128 + a % 16) c d (omega arith) hc e
        ∙ sym (
            two_tops (128 + a % 16) (0x80 + c % 64) (0x80 + d % 64) (omega arith) (omega arith)
              (omega arith))

-- A lead byte of three or four bytes is taken for one of two bytes where the input ends behind its
-- first continuation byte.
pub decode1_cut_off :
    (a d : ℕ)
    → 0xE0 ≤ a
    → a < 0xF8
    → IsContinuation d
    → utf8_decode1 (a ∷ d ∷ []) ≡ utf8_decode1 ((0xC0 + a % 32) ∷ d ∷ [])
decode1_cut_off a d lo hi cd =
    decode-one_more a (omega arith) d [] (omega arith) (omega arith) (inr (omega arith, refl))
    ∙ sym (
        decode-one_more (0xC0 + a % 32) (omega arith) d [] (omega arith) (omega arith)
          (inl (omega arith))
        ∙ same_checked (one_more (0xC0 + a % 32) d []) (one_more a d [])
            (ap (λ (t : ℕ). bit_xor (bit_xor 2 t) (d / 64)) same) (omega arith) refl refl)
  where
    same : (128 + (0xC0 + a % 32) % 32) / 64 ≡ (128 + a % 32) / 64
    same = omega arith
