-- ===== src/Inet/Room.antt =====
-- The buffer of UV__INET6_ADDRSTRLEN bytes in inet_ntop6 (libuv/src/inet.c) is long enough.
use Prim.Native.Nat.{bit_or-bitwise}
use libuv_analyse.Base.{
  ℕ, zero, suc, ◌+◌, ◌-◌, ◌*◌, ◌/◌, ◌^◌, bit_or, ◌≤◌, ◌<◌, ◌≡◌, refl, inl, inr, Bool, true, ◌&&◌,
  not, Bool-cases, Option-cases, by_if, List, [], ◌∷◌, ◌++◌, Option, none, some, length,
  length-append, length-take, take, drop, ltb, ◌==◌, if◌then◌else◌, arith,
}
use libuv_analyse.Base.Bits.{bit_or-shift}
use libuv_analyse.Inet.{written, failed, enospc, inet6_addrstrlen, colon, hexadecimal}
use libuv_analyse.Inet.Print.{
  dotted, Run, words_of, shorthand, is_inside, is_base, is_encapsulated, mark, trail, embed, format,
  long_text, inet_ntop6,
}
use libuv_analyse.Inet.Octets.{AllBytes}
use libuv_analyse.Inet.Size.{length-hexadecimal, AllBytes-drop, inet_ntop4-fits}

-- Every word has 16 bits.
AllWords : List ℕ → Type 0
AllWords [] = Unit
AllWords (w ∷ ws) = (w < 2 ^ 16) × AllWords ws

zero_or : (a : ℕ) → bit_or 0 a ≡ a
zero_or a = bit_or-bitwise 0 a

words_of-AllWords : (src : List ℕ) → AllBytes src → AllWords (words_of src)
unfolding words_of AllWords AllBytes
words_of-AllWords [] bytes = tt
words_of-AllWords (a ∷ []) bytes = (omega (arith, zero_or (a * 2 ^ 8), bytes.0), tt)
words_of-AllWords (a ∷ b ∷ src) bytes =
    let joined : bit_or (bit_or 0 (a * 2 ^ 8)) b ≡ a * 2 ^ 8 + b =
      rw (zero_or (a * 2 ^ 8)) (bit_or-shift 8 a b (omega (arith, bytes.1.0))) in
    (omega (arith, joined, bytes.0, bytes.1.0), words_of-AllWords src bytes.1.1)

-- How long the text may be in front of the word `i`, where the run has `len` words from `base` on.
cap : Option ℕ → ℕ → ℕ → ℕ
cap none len i = 5 * i
cap (some zero) len i = if i == 0 then 0 else 1 + 5 * (i - len)
cap (some (suc b)) len i = 5 * i

one_word :
    (base : Option ℕ) (len i : ℕ) (out h : List ℕ)
    → length out ≤ cap base len i
    → length h ≤ 4
    → length (
        if is_inside (record { base = base; len = len }) i
        then out ++ mark (record { base = base; len = len }) i
        else (out ++ mark (record { base = base; len = len }) i) ++ h)
      ≤ cap base len (i + 1)
unfolding cap
one_word none len i out h room short = ground (
  arith,
  room,
  short,
  length-append out (colon ∷ []),
  length-append out [],
  length-append (out ++ (colon ∷ [])) h,
  length-append (out ++ []) h,
)
one_word (some zero) len i out h room short = ground (
  arith,
  room,
  short,
  length-append out (colon ∷ []),
  length-append out [],
  length-append (out ++ (colon ∷ [])) h,
  length-append (out ++ []) h,
)
one_word (some (suc b)) len i out h room short = ground (
  arith,
  room,
  short,
  length-append out (colon ∷ []),
  length-append out [],
  length-append (out ++ (colon ∷ [])) h,
  length-append (out ++ []) h,
)

cap_end : (base : Option ℕ) (len i : ℕ) → cap base len i ≤ 5 * i + 1
unfolding cap
cap_end none len i = omega arith
cap_end (some zero) len i = ground arith
cap_end (some (suc b)) len i = omega arith

length-mark : (best : Run) (i : ℕ) → length (mark best i) ≤ 1
length-mark best i =
    by_if (λ t. length t ≤ 1) (is_inside best i)
      (λ _. by_if (λ t. length t ≤ 1) (is_base best i) (λ _. omega arith) (λ _. omega arith))
      (λ _. by_if (λ t. length t ≤ 1) (i == 0) (λ _. omega arith) (λ _. omega arith))

-- An encapsulated IPv4 stands behind few bytes.
encapsulated_room :
    (base : Option ℕ) (len i : ℕ) (all out : List ℕ)
    → is_encapsulated (record { base = base; len = len }) all i ≡ true
    → length out ≤ cap base len i
    → length out ≤ 6
unfolding cap
encapsulated_room none len i all out it_is room = absurd (ground (arith, it_is))
encapsulated_room (some zero) len i all out it_is room = ground (arith, it_is, room)
encapsulated_room (some (suc b)) len i all out it_is room = absurd (ground (arith, it_is))

both : (a b : Bool) → (a && b) ≡ true → b ≡ true
both a b it_is = ground (arith, it_is)

format-fits :
    (best : Run) (src all out : List ℕ) (i : ℕ) (ws : List ℕ)
    → AllBytes src
    → AllWords ws
    → i + length ws ≡ 8
    → length out ≤ cap best.base best.len i
    → (text : List ℕ) × (format best src all out i ws ≡ written text) × (length text ≤ 41)
unfolding format embed AllWords
format-fits best src all out i [] bytes words rest room =
    (out, refl, omega (arith, rest, room, cap_end best.base best.len i))
format-fits best src all out i (w ∷ ws) bytes words rest room =
    let next : List ℕ = out ++ mark best i in
    elim (Bool-cases (not (is_inside best i) && is_encapsulated best all i)) [
      | inl it_is ↦
          let few : length out ≤ 6 =
            encapsulated_room best.base best.len i all out
              (both (not (is_inside best i)) (is_encapsulated best all i) it_is) room in
          let size : length next ≤ 7 =
            omega (arith, few, length-append out (mark best i), length-mark best i) in
          let quad = take 15 (dotted (drop 12 src)) in
          let printed =
            inet_ntop4-fits (drop 12 src) (inet6_addrstrlen - length next)
              (AllBytes-drop 12 src bytes) (omega (arith, size)) in
          (
            next ++ quad,
            rw (it_is, printed) refl,
            omega (arith, size, length-append next quad, length-take 15 (dotted (drop 12 src))),
          )
      | inr unlike ↦
          let (text, same, short) =
            format-fits best src all (if is_inside best i then next else next ++ hexadecimal w)
              (i + 1) ws bytes words.1 (omega (arith, rest))
              (one_word best.base best.len i out (hexadecimal w) room
                (length-hexadecimal w words.0)) in
          (text, rw unlike same, short)
    ]

length-trail : (best : Run) → length (trail best) ≤ 1
length-trail best = elim (Option-cases best.base) [
  | inl e ↦ rw e (omega arith)
  | inr (b, e) ↦
      rw e (by_if (λ t. length t ≤ 1) (b + best.len == 8) (λ _. omega arith) (λ _. omega arith))
]

cap_start : (base : Option ℕ) (len : ℕ) → 0 ≤ cap base len 0
cap_start base len = omega arith

length-words_of : (src : List ℕ) → length (words_of src) ≡ (length src + 1) / 2
unfolding words_of
length-words_of [] = refl
length-words_of (a ∷ []) = refl
length-words_of (a ∷ b ∷ src) = omega (arith, length-words_of src)

inet_ntop6-text :
    (src text : List ℕ) (size : ℕ)
    → long_text src ≡ written text
    → inet_ntop6 src size ≡ (if ltb size (length text + 1) then failed enospc else written text)
unfolding inet_ntop6
inet_ntop6-text src text size printed = rw (inet_ntop6, printed) refl

-- Of 16 bytes inet_ntop6 always makes a text, of at most 42 bytes: `tmp`, of UV__INET6_ADDRSTRLEN bytes, has
-- room for it and its terminating 0, and the call of inet_ntop4 on what is left of `tmp` does not fail.
-- inet_ntop6 then returns UV_ENOSPC exactly where the size given is too small for the text and the 0.
pub inet_ntop6-fits :
    (src : List ℕ) (size : ℕ)
    → length src ≡ 16
    → AllBytes src
    → (text : List ℕ) × (length text ≤ 42)
      × (long_text src ≡ written text)
      × (inet_ntop6 src size ≡ (if ltb size (length text + 1) then failed enospc else written text))
unfolding long_text
inet_ntop6-fits src size sixteen bytes =
    let all = words_of src in
    let best = shorthand all in
    let (out, same, short) =
      format-fits best src all [] 0 all bytes (words_of-AllWords src bytes)
        (omega (arith, length-words_of src, sixteen)) (cap_start best.base best.len) in
    let printed : long_text src ≡ written (out ++ trail best) = rw (long_text, same) refl in
    (
      out ++ trail best,
      omega (arith, short, length-append out (trail best), length-trail best),
      printed,
      inet_ntop6-text src (out ++ trail best) size printed,
    )
