-- ===== src/Inet/Size.antt =====
-- How long the numbers are that inet_ntop4 and inet_ntop6 (libuv/src/inet.c) print.
use native.Mathlib.Nat.{pow-suc, pow-zero, div-lt_iff_lt-mul}
use libuv_analyse.Base.{
  ℕ, zero, suc, ◌+◌, ◌/◌, ◌%◌, ◌^◌, ◌≤◌, ◌<◌, ◌≡◌, subst, by_if, List, [], ◌∷◌, ◌++◌, length,
  length-append, get_or, take, drop, ◌==◌, arith,
}
use libuv_analyse.Inet.{written, dot, numeral, decimal, hexadecimal, digit}
use libuv_analyse.Inet.Print.{dotted, inet_ntop4}
use libuv_analyse.Inet.Octets.{AllBytes}

-- A number below `suc b ^ k` has at most `k` digits.
length-numeral : (b fuel k n : ℕ) → n < suc b ^ suc k → length (numeral b fuel n) ≤ suc k
unfolding numeral
length-numeral b zero k n small = omega arith
length-numeral b (suc fuel) zero n small =
    let alone : n / suc b < suc b ^ 0 =
      (div-lt_iff_lt-mul {k = suc b} (omega arith)).1
        (subst (λ t. n < t) (pow-suc (suc b) 0) small) in
    let nothing : n / suc b ≡ 0 = omega (arith, alone, pow-zero (suc b)) in rw nothing (omega arith)
length-numeral b (suc fuel) (suc k) n small =
    let quotient : n / suc b < suc b ^ suc k =
      (div-lt_iff_lt-mul {k = suc b} (omega arith)).1
        (subst (λ t. n < t) (pow-suc (suc b) (suc k)) small) in
    let rest = length-numeral b fuel k (n / suc b) quotient in
    by_if (λ t. length (t ++ (digit (n % suc b) ∷ [])) ≤ suc (suc k)) (n / suc b == 0)
      (λ _. omega arith)
      (λ _.
        omega (arith, rest, length-append (numeral b fuel (n / suc b)) (digit (n % suc b) ∷ [])))

length-decimal : (n : ℕ) → n ≤ 255 → length (decimal n) ≤ 3
unfolding decimal
length-decimal n small = length-numeral 9 10 2 n (omega arith)

pub length-hexadecimal : (n : ℕ) → n < 2 ^ 16 → length (hexadecimal n) ≤ 4
unfolding hexadecimal
length-hexadecimal n small = length-numeral 15 10 3 n (omega arith)

get_or-byte : (src : List ℕ) (i : ℕ) → AllBytes src → get_or src i 0 ≤ 255
unfolding AllBytes
get_or-byte [] i bytes = omega arith
get_or-byte (x ∷ src) zero bytes = bytes.0
get_or-byte (x ∷ src) (suc i) bytes = get_or-byte src i bytes.1

pub AllBytes-drop : (n : ℕ) (src : List ℕ) → AllBytes src → AllBytes (drop n src)
unfolding AllBytes
AllBytes-drop zero src bytes = bytes
AllBytes-drop (suc n) [] bytes = tt
AllBytes-drop (suc n) (x ∷ src) bytes = AllBytes-drop n src bytes.1

length-dotted :
    (src : List ℕ) → AllBytes src → (0 < length (dotted src)) × (length (dotted src) ≤ 15)
unfolding dotted
length-dotted src bytes =
    let a = decimal (get_or src 0 0) in
    let b = decimal (get_or src 1 0) in
    let c = decimal (get_or src 2 0) in
    let d = decimal (get_or src 3 0) in
    let short : (i : ℕ) → length (decimal (get_or src i 0)) ≤ 3 =
      λ i. length-decimal (get_or src i 0) (get_or-byte src i bytes) in
    let whole : length (a ++ (dot ∷ (b ++ (dot ∷ (c ++ (dot ∷ d))))))
        ≡ length a + length b + length c + length d + 3 =
      omega (
        arith,
        length-append a (dot ∷ (b ++ (dot ∷ (c ++ (dot ∷ d))))),
        length-append b (dot ∷ (c ++ (dot ∷ d))),
        length-append c (dot ∷ d),
      ) in
    (omega (arith, whole), omega (arith, whole, short 0, short 1, short 2, short 3))

-- inet_ntop4 of bytes prints into any buffer of 16 bytes or more.
pub inet_ntop4-fits :
    (src : List ℕ) (size : ℕ)
    → AllBytes src
    → 16 ≤ size
    → inet_ntop4 src size ≡ written (take 15 (dotted src))
unfolding inet_ntop4
inet_ntop4-fits src size bytes room =
    let (some_text, short) = length-dotted src bytes in ground (arith, some_text, short, room)
