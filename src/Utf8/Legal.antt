-- ===== src/Utf8/Legal.antt =====
-- What uv__utf8_decode1 (libuv/src/idna.c) returns on any bytes, legal or not.
use libuv_analyse.Base.{
  ℕ, suc, ◌≤◌, ◌≡◌, ◌⊎◌, inl, inr, refl, arith, List, [], ◌∷◌, ◌++◌, some, length, ltb, tests,
  Bool-cases, Option-cases,
}
use libuv_analyse.Utf8.{
  uint_max, Sequence, case_one, case_two, case_default, check, check_or_fail, utf8_decode1_slow,
  utf8_decode1,
}
use libuv_analyse.Utf8.Encoding.{IsScalar}

-- Of the list `p`, from `lo` to `hi` bytes stand before `rest`.
abbrev pub Takes : ℕ → ℕ → List ℕ → List ℕ → Type 0
Takes lo hi p rest =
    (front : List ℕ) × (p ≡ front ++ rest) × (lo ≤ length front) × (length front ≤ hi)

abbrev pub IsResult : ℕ → Type 0
IsResult c = (c ≡ uint_max) ⊎ IsScalar c

check-IsResult : (s : Sequence) → IsResult (check s).0 × ((check s).1 ≡ s.rest)
unfolding check
check-IsResult s = ground arith

case_one-Takes : (a : ℕ) (p : List ℕ) (s : Sequence) → case_one a p ≡ some s → Takes 1 1 p s.rest
unfolding case_one
case_one-Takes a [] s e = cc
case_one-Takes a (d ∷ p) s e = (d ∷ [], ground arith, omega arith, omega arith)

wider : (hi : ℕ) (p rest : List ℕ) → Takes 1 hi p rest → Takes 1 (suc hi) p rest
wider hi p rest (front, e, lo, h) = (front, e, lo, omega arith)

case_two-Takes : (a : ℕ) (p : List ℕ) (s : Sequence) → case_two a p ≡ some s → Takes 1 2 p s.rest
unfolding case_two
case_two-Takes a [] s e = wider 1 [] s.rest (case_one-Takes a [] s e)
case_two-Takes a (d ∷ []) s e = wider 1 (d ∷ []) s.rest (case_one-Takes a (d ∷ []) s e)
case_two-Takes a (c ∷ d ∷ p) s e = elim (Bool-cases (ltb 0xDF a)) [
  | inl t ↦ (c ∷ d ∷ [], ground arith, omega arith, omega arith)
  | inr f ↦ wider 1 (c ∷ d ∷ p) s.rest (case_one-Takes a (c ∷ d ∷ p) s (rw f at e))
]

case_default-Takes :
    (a : ℕ) (p : List ℕ) (s : Sequence) → case_default a p ≡ some s → Takes 1 3 p s.rest
unfolding case_default
case_default-Takes a [] s e = wider 2 [] s.rest (case_two-Takes a [] s e)
case_default-Takes a (d ∷ []) s e = wider 2 (d ∷ []) s.rest (case_two-Takes a (d ∷ []) s e)
case_default-Takes a (c ∷ d ∷ []) s e =
    wider 2 (c ∷ d ∷ []) s.rest (case_two-Takes a (c ∷ d ∷ []) s e)
case_default-Takes a (b ∷ c ∷ d ∷ p) s e = elim (Bool-cases (ltb 0xEF a)) [
  | inl t ↦ (b ∷ c ∷ d ∷ [], ground arith, omega arith, omega arith)
  | inr f ↦ wider 2 (b ∷ c ∷ d ∷ p) s.rest (case_two-Takes a (b ∷ c ∷ d ∷ p) s (rw f at e))
]

-- What is true of the pair that the decoder returns for the lead byte `a` before `p`.
abbrev Decoded : ℕ → List ℕ → ℕ × List ℕ → Type 0
Decoded a p r = IsResult r.0 × Takes 1 4 (a ∷ p) r.1

slow-Decoded : (a : ℕ) (p : List ℕ) → Decoded a p (check_or_fail p (case_default a p))
unfolding check_or_fail
slow-Decoded a p = elim (Option-cases (case_default a p)) [
  | inl e ↦ rw e (inl refl, (a ∷ [], refl, omega arith, omega arith))
  | inr (s, e) ↦
      let (front, whole, lo, hi) = case_default-Takes a p s e in
      let (result, left) = check-IsResult s in
      rw e (result, (a ∷ front, rw (left, ← whole), omega arith, omega arith))
]

-- The decoder returns UINT_MAX or a Unicode scalar value: no surrogate and nothing beyond U+10FFFF.
-- Of the bytes it takes one to four from the front.
pub decode1-IsResult :
    (a : ℕ) (p : List ℕ)
    → IsResult (utf8_decode1 (a ∷ p)).0 × Takes 1 4 (a ∷ p) (utf8_decode1 (a ∷ p)).1
unfolding utf8_decode1 utf8_decode1_slow
decode1-IsResult a p = elim (Bool-cases (ltb a 128)) [
  | inl t ↦ rw t (inr (inl (omega tests)), (a ∷ [], refl, omega arith, omega arith))
  | inr f ↦ elim (Bool-cases (ltb 0xF7 a)) [
    | inl t ↦ rw (f, t) (inl refl, (a ∷ [], refl, omega arith, omega arith))
    | inr g ↦ rw (f, g) (slow-Decoded a p)
  ]
]
