-- ===== src/Inet/Dotted.antt =====
-- inet_pton4 (libuv/src/inet.c) reads back what inet_ntop4 prints.
use libuv_analyse.Base.{
  ℕ, zero, suc, ◌+◌, ◌*◌, ◌/◌, ◌%◌, ◌^◌, ◌≤◌, ◌<◌, ◌≡◌, refl, sym, ap, ◌∙◌, inl, inr, true, false,
  List, [], ◌∷◌, ◌++◌, append_assoc, append-nil, Bool-cases, ltb→lt, some, ltb, arith,
}
use native.Mathlib.Nat.{pow-suc}
use libuv_analyse.Inet.{written, dot, digit, numeral, decimal}
use libuv_analyse.Inet.Print.{dotted}
use libuv_analyse.Inet.Parse.{
  Quad, decimal_value, take_digit, take_other, take_byte, pton4_loop, inet_pton4,
}

-- A digit of the value `v`, where the quad takes it.
take_byte-digit :
    (q r : Quad) (v : ℕ) → v < 10 → take_digit q v ≡ some r → take_byte q (digit v) ≡ some r
unfolding take_byte decimal_value
take_byte-digit q r v small taken = ground (arith, taken)

pub pton4_loop-byte :
    (q r : Quad) (ch : ℕ) (rest : List ℕ)
    → take_byte q ch ≡ some r
    → pton4_loop q (ch ∷ rest) ≡ pton4_loop r rest
unfolding pton4_loop
pton4_loop-byte q r ch rest taken = ground (arith, taken)

pton4_loop-digit :
    (q r : Quad) (v : ℕ) (rest : List ℕ)
    → v < 10
    → take_digit q v ≡ some r
    → pton4_loop q (digit v ∷ rest) ≡ pton4_loop r rest
pton4_loop-digit q r v rest small taken =
    pton4_loop-byte q r (digit v) rest (take_byte-digit q r v small taken)

pub numeral_last : (fuel n : ℕ) → n < 10 → numeral 9 (suc fuel) n ≡ digit n ∷ []
unfolding numeral
numeral_last fuel n small =
    let none_left : n / 10 ≡ 0 = omega arith in
    let itself : n % 10 ≡ n = omega arith in rw (none_left, itself) refl

pub decimal-digit : (n : ℕ) → n < 10 → decimal n ≡ digit n ∷ []
unfolding decimal
decimal-digit n small = numeral_last 9 n small

pub numeral_more :
    (fuel n : ℕ)
    → 10 ≤ n
    → numeral 9 (suc fuel) n ≡ numeral 9 fuel (n / 10) ++ (digit (n % 10) ∷ [])
unfolding numeral
numeral_more fuel n large = let some_digit : 0 < n / 10 = omega arith in ground (arith, some_digit)

first_digit :
    (before : List ℕ) (k v : ℕ)
    → v < 10
    → k < 4
    → take_digit (record { before = before; octet = 0; saw_digit = false; octets = k }) v
      ≡ some (record { before = before; octet = v; saw_digit = true; octets = k + 1 })
unfolding take_digit
first_digit before k v small room = ground arith

next_digit :
    (before : List ℕ) (k n : ℕ)
    → 10 ≤ n
    → n ≤ 255
    → take_digit (record { before = before; octet = n / 10; saw_digit = true; octets = k }) (n % 10)
      ≡ some (record { before = before; octet = n; saw_digit = true; octets = k })
unfolding take_digit
next_digit before k n large byte =
    let value : n / 10 * 10 + n % 10 ≡ n = omega arith in
    let some_digit : 0 < n / 10 = omega arith in rw value (ground arith)

-- An octet that has not begun takes a number whole.
pton4_loop-numeral :
    (fuel n : ℕ) (before rest : List ℕ) (k : ℕ)
    → n < 10 ^ suc fuel
    → n ≤ 255
    → k < 4
    → pton4_loop
        (record { before = before; octet = 0; saw_digit = false; octets = k })
        (numeral 9 (suc fuel) n ++ rest)
      ≡ pton4_loop (record { before = before; octet = n; saw_digit = true; octets = k + 1 }) rest
pton4_loop-numeral zero n before rest k wide byte room =
    let small : n < 10 = omega (arith, pow-suc 10 0) in
    rw (numeral_last 0 n small)
      (pton4_loop-digit _ _ n rest small (first_digit before k n small room))
pton4_loop-numeral (suc fuel) n before rest k wide byte room = elim (Bool-cases (ltb n 10)) [
  | inl s ↦
      let small = ltb→lt n 10 s in
      rw (numeral_last (suc fuel) n small)
        (pton4_loop-digit _ _ n rest small (first_digit before k n small room))
  | inr s ↦
      let large : 10 ≤ n = ground (arith, s) in
      let front =
        pton4_loop-numeral fuel (n / 10) before (digit (n % 10) ∷ rest) k
          (omega (arith, pow-suc 10 (suc fuel))) (omega arith) room in
      let last =
        pton4_loop-digit _ _ (n % 10) rest (omega arith) (next_digit before (k + 1) n large byte) in
      rw
        (
          numeral_more (suc fuel) n large,
          append_assoc (numeral 9 (suc fuel) (n / 10)) (digit (n % 10) ∷ []) rest,
        )
        (front ∙ last)
]

pton4_loop-decimal :
    (n : ℕ) (before rest : List ℕ) (k : ℕ)
    → n ≤ 255
    → k < 4
    → pton4_loop
        (record { before = before; octet = 0; saw_digit = false; octets = k })
        (decimal n ++ rest)
      ≡ pton4_loop (record { before = before; octet = n; saw_digit = true; octets = k + 1 }) rest
unfolding decimal
pton4_loop-decimal n before rest k byte room =
    pton4_loop-numeral 9 n before rest k (omega arith) byte room

pton4_loop-dot :
    (before rest : List ℕ) (n k : ℕ)
    → k < 4
    → pton4_loop (record { before = before; octet = n; saw_digit = true; octets = k }) (dot ∷ rest)
      ≡ pton4_loop
          (record { before = before ++ (n ∷ []); octet = 0; saw_digit = false; octets = k })
          rest
unfolding pton4_loop take_byte decimal_value take_other
pton4_loop-dot before rest n k room = ground arith

-- inet_pton4 of the text "%u.%u.%u.%u" of four bytes gives these bytes.
pub inet_pton4-dotted :
    (a b c d : ℕ)
    → a ≤ 255
    → b ≤ 255
    → c ≤ 255
    → d ≤ 255
    → inet_pton4 (dotted (a ∷ b ∷ c ∷ d ∷ [])) ≡ written (a ∷ b ∷ c ∷ d ∷ [])
unfolding inet_pton4 dotted pton4_loop
inet_pton4-dotted a b c d ha hb hc hd =
    pton4_loop-decimal a [] _ 0 ha (omega arith)
    ∙ pton4_loop-dot [] _ a 1 (omega arith)
    ∙ pton4_loop-decimal b (a ∷ []) _ 1 hb (omega arith)
    ∙ pton4_loop-dot (a ∷ []) _ b 2 (omega arith)
    ∙ pton4_loop-decimal c (a ∷ b ∷ []) _ 2 hc (omega arith)
    ∙ pton4_loop-dot (a ∷ b ∷ []) _ c 3 (omega arith)
    ∙ ap (λ (t : List ℕ). pton4_loop fourth t) (sym (append-nil (decimal d)))
    ∙ pton4_loop-decimal d (a ∷ b ∷ c ∷ []) [] 3 hd (omega arith)
  where
    fourth : Quad
    fourth = record { before = a ∷ b ∷ c ∷ []; octet = 0; saw_digit = false; octets = 3 }
