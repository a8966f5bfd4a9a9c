-- ===== src/Inet/Octets.antt =====
-- What inet_pton4 (libuv/src/inet.c) has read of an address, octet by octet.
use mathlib.Core.Bool.{true≢false}
use libuv_analyse.Base.{
  ℕ, zero, suc, ◌+◌, ◌-◌, ◌*◌, ◌/◌, ◌%◌, ◌^◌, ◌≤◌, ◌<◌, ◌≡◌, refl, sym, ap, subst, inl, inr, Bool,
  true, false, List, [], ◌∷◌, ◌++◌, append_assoc, append-nil, Bool-cases, ◌⊎◌, by_if, ltb→lt,
  Option, none, some, length, length-append, ltb, leb, ◌==◌, ◌&&◌, ◌||◌, if◌then◌else◌, arith,
}
use native.Mathlib.Nat.{pow-suc}
use libuv_analyse.Inet.{dot, digit, numeral, decimal}
use libuv_analyse.Inet.Dotted.{decimal-digit, numeral_last, numeral_more}
use libuv_analyse.Inet.Parse.{Quad, decimal_value, take_digit, take_other, take_byte}

-- Every element is a byte.
unfoldable pub AllBytes : List ℕ → Type 0
AllBytes [] = Unit
AllBytes (x ∷ xs) = (x ≤ 255) × AllBytes xs

pub AllBytes-append : (xs ys : List ℕ) → AllBytes xs → AllBytes ys → AllBytes (xs ++ ys)
unfolding AllBytes
AllBytes-append [] ys hx hy = hy
AllBytes-append (x ∷ xs) ys hx hy = (hx.0, AllBytes-append xs ys hx.1 hy)

-- Octets, each with the dot behind it.
unfoldable pub prefix : List ℕ → List ℕ
prefix [] = []
prefix (b ∷ bs) = decimal b ++ (dot ∷ prefix bs)

prefix-snoc :
    (bs : List ℕ) (b : ℕ) → prefix (bs ++ (b ∷ [])) ≡ (prefix bs ++ decimal b) ++ (dot ∷ [])
unfolding prefix
prefix-snoc [] b = refl
prefix-snoc (a ∷ bs) b =
    rw
      (
        append_assoc (decimal a) (dot ∷ prefix bs) (decimal b),
        append_assoc (decimal a) (dot ∷ (prefix bs ++ decimal b)) (dot ∷ []),
      )
      (ap (λ t. decimal a ++ (dot ∷ t)) (prefix-snoc bs b))

-- The text that an octet has read.
unfoldable pub partial : Bool → ℕ → List ℕ
partial true n = decimal n
partial false n = []

unfoldable pub consumed : Quad → List ℕ
unfolding prefix partial
consumed q = prefix q.before ++ partial q.saw_digit q.octet

-- The loop's invariant.
pub record IsQuad (q : Quad) : Type 0 where
  pub byte : q.octet ≤ 255
  pub fresh : q.saw_digit ≡ false → q.octet ≡ 0
  pub bytes : AllBytes q.before
  pub places : length q.before ≤ 3
  pub counted : q.octets ≡ (if q.saw_digit then length q.before + 1 else length q.before)

-- One digit more gives one numeral, the same with spare fuel.
numeral_spare :
    (fuel n : ℕ) → n < 10 ^ suc fuel → numeral 9 (suc (suc fuel)) n ≡ numeral 9 (suc fuel) n
numeral_spare zero n wide =
    let small : n < 10 = omega (arith, pow-suc 10 0) in
    rw (numeral_last 1 n small, numeral_last 0 n small) refl
numeral_spare (suc fuel) n wide = elim (Bool-cases (ltb n 10)) [
  | inl s ↦
      let small = ltb→lt n 10 s in
      rw (numeral_last (suc (suc fuel)) n small, numeral_last (suc fuel) n small) refl
  | inr s ↦
      let large : 10 ≤ n = ground (arith, s) in
      rw (numeral_more (suc (suc fuel)) n large, numeral_more (suc fuel) n large)
        (ap (λ t. t ++ (digit (n % 10) ∷ []))
          (numeral_spare fuel (n / 10) (omega (arith, pow-suc 10 (suc fuel)))))
]

decimal-more :
    (n v : ℕ)
    → 0 < n
    → n * 10 + v ≤ 255
    → v < 10
    → decimal (n * 10 + v) ≡ decimal n ++ (digit v ∷ [])
unfolding decimal
decimal-more n v some_digit byte small =
    let high : (n * 10 + v) / 10 ≡ n = omega arith in
    let low : (n * 10 + v) % 10 ≡ v = omega arith in
    rw (numeral_more 9 (n * 10 + v) (omega arith), high, low, numeral_spare 8 n (omega arith)) refl

unfoldable pub Kept : Quad → ℕ → Option Quad → Type 0
unfolding consumed
Kept q ch none = Unit
Kept q ch (some r) = IsQuad r × (consumed r ≡ consumed q ++ (ch ∷ []))

take_digit-Kept :
    (before : List ℕ) (octet : ℕ) (saw : Bool) (octets v : ℕ)
    → IsQuad (record { before = before; octet = octet; saw_digit = saw; octets = octets })
    → v < 10
    → Kept
        (record { before = before; octet = octet; saw_digit = saw; octets = octets })
        (digit v)
        (take_digit (record { before = before; octet = octet; saw_digit = saw; octets = octets }) v)
unfolding Kept consumed partial take_digit
take_digit-Kept before octet true octets v quad small =
    let q : Quad = record { before = before; octet = octet; saw_digit = true; octets = octets } in
    by_if (Kept q (digit v)) ((octet == 0) || ltb 255 (octet * 10 + v)) (λ _. tt)
      (λ go_on.
        let byte : octet * 10 + v ≤ 255 = ground (arith, go_on) in
        let some_digit : 0 < octet = ground (arith, go_on) in
        (
          record {
            byte = byte;
            fresh = λ e. absurd (true≢false e);
            bytes = quad.bytes;
            places = quad.places;
            counted = quad.counted;
          },
          rw (decimal-more octet v some_digit byte small)
              (sym (append_assoc (prefix before) (decimal octet) (digit v ∷ []))),
        ))
take_digit-Kept before octet false octets v quad small =
    let q : Quad = record { before = before; octet = octet; saw_digit = false; octets = octets } in
    by_if (Kept q (digit v)) (ltb 255 (octet * 10 + v)) (λ _. tt)
      (λ byte.
        by_if (Kept q (digit v)) (ltb 4 (octets + 1)) (λ _. tt)
          (λ room.
            let start : octet * 10 + v ≡ v = omega (arith, quad.fresh refl) in
            (
              record {
                byte = ground (arith, byte);
                fresh = λ e. absurd (true≢false e);
                bytes = quad.bytes;
                places = quad.places;
                counted = omega (arith, quad.counted);
              },
              rw (start, decimal-digit v small, append-nil (prefix before)) refl,
            )))

take_other-Kept :
    (before : List ℕ) (octet : ℕ) (saw : Bool) (octets ch : ℕ)
    → IsQuad (record { before = before; octet = octet; saw_digit = saw; octets = octets })
    → Kept
        (record { before = before; octet = octet; saw_digit = saw; octets = octets })
        ch
        (take_other
          (record { before = before; octet = octet; saw_digit = saw; octets = octets })
          ch)
unfolding Kept consumed partial take_other AllBytes
take_other-Kept before octet false octets ch quad =
    let q : Quad = record { before = before; octet = octet; saw_digit = false; octets = octets } in
    by_if (Kept q ch) ((ch == dot) && false) (λ t. absurd (ground (arith, t))) (λ _. tt)
take_other-Kept before octet true octets ch quad =
    let q : Quad = record { before = before; octet = octet; saw_digit = true; octets = octets } in
    by_if (Kept q ch) ((ch == dot) && true)
      (λ t.
        by_if (Kept q ch) (octets == 4) (λ _. tt)
          (λ room.
            let is_dot : ch ≡ dot = ground (arith, t) in
            let longer = length-append before (octet ∷ []) in
            (
              record {
                byte = omega arith;
                fresh = λ _. refl;
                bytes = AllBytes-append before (octet ∷ []) quad.bytes (quad.byte, tt);
                places = ground (arith, room, longer, quad.counted, quad.places);
                counted = omega (arith, longer, quad.counted);
              },
              rw (is_dot, append-nil (prefix (before ++ (octet ∷ [])))) (prefix-snoc before octet),
            )))
      (λ _. tt)

decimal_value-cases :
    (ch : ℕ)
    → (decimal_value ch ≡ none)
      ⊎ ((v : ℕ) × (v < 10) × (digit v ≡ ch) × (decimal_value ch ≡ some v))
unfolding decimal_value
decimal_value-cases ch = elim (Bool-cases (leb 48 ch && leb ch 57)) [
  | inl t ↦
      let low : 48 ≤ ch = ground (arith, t) in
      let high : ch ≤ 57 = ground (arith, t) in
      inr (ch - 48, omega arith, ground (arith, low, high), rw t refl)
  | inr t ↦ inl (rw t refl)
]

pub take_byte-Kept : (q : Quad) (ch : ℕ) → IsQuad q → Kept q ch (take_byte q ch)
unfolding take_byte
take_byte-Kept q ch quad = elim (decimal_value-cases ch) [
  | inl e ↦ rw (take_byte, e) (take_other-Kept q.before q.octet q.saw_digit q.octets ch quad)
  | inr (v, small, byte, e) ↦
      rw (take_byte, e)
        (subst (λ c. Kept q c (take_digit q v)) byte
          (take_digit-Kept q.before q.octet q.saw_digit q.octets v quad small))
]
